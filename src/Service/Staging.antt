-- ===== src/Service/Staging.antt =====
-- internal/service/service.go: the replacement of a cache file, with its commit and its rollback.
use makera_cnc_controller.Base.{
  ◌≡◌, refl, Bool, true, false, not, ◌||◌, Option, none, some, [], arith, if◌then◌else◌, is_some,
}
use makera_cnc_controller.Base.Text.{Text, text_eq, text_eq_iff, text_eq_refl, text_eq_sym}
use makera_cnc_controller.Base.Map
use makera_cnc_controller.Service.Files.{
  Files, FileIo, move, CacheReplacement, backup_cache_target, move_back, rename_into_cache, commit,
  rollback,
}

lookup-move :
    (from to q : Text) (files : Files)
    → Map.lookup q (move from to files) ≡ (
        if is_some (Map.lookup from files)
        then if text_eq to q
          then Map.lookup from files
          else if text_eq from q
          then none
          else Map.lookup q files
        else Map.lookup q files)
unfolding move
lookup-move from to q files = step (Map.lookup from files) refl
  where
    step :
        (found : Option Text)
        → Map.lookup from files ≡ found
        → Map.lookup q (move from to files) ≡ (
            if is_some (Map.lookup from files)
            then if text_eq to q
              then Map.lookup from files
              else if text_eq from q
              then none
              else Map.lookup q files
            else Map.lookup q files)
    step none eq = rw (eq, move) refl
    step (some content) eq =
        rw (eq, move)
          (ground (
            arith,
            Map.lookup-insert {V = Text} to q content (Map.delete from files),
            Map.lookup-delete {V = Text} from q files,
          ))

-- The names of the files of one replacement are distinct, and that of the backup is new.
module _ (io : FileIo) (files : Files) (source target restore : Text)
    (apart : text_eq source target ≡ false)
    (apart_backup : (text_eq io.backup target ≡ false) × (text_eq io.backup source ≡ false))
    (fresh : Map.lookup io.backup files ≡ none) where
  -- The file at a path once the target was backed up, by the answer of the backup.
  abbrev set_aside : Option Bool → Text → Option Text
  set_aside none q = Map.lookup q files
  set_aside (some false) q = Map.lookup q files
  set_aside (some true) q =
      if text_eq io.backup q
      then Map.lookup target files
      else if text_eq target q
      then none
      else Map.lookup q files

  backed_up :
      (q : Text)
      → Map.lookup q (backup_cache_target io files target).0
        ≡ set_aside (backup_cache_target io files target).1 q
  unfolding backup_cache_target
  backed_up q = ground (arith, lookup-move target io.backup q files)

  had_target :
      (had : Bool)
      → (backup_cache_target io files target).1 ≡ some had
      → is_some (Map.lookup target files) ≡ had
  unfolding backup_cache_target
  had_target had h = ground arith

  -- A rename that is done puts the source in place of the target, which is set aside.
  renamed :
      (r : CacheReplacement) (content : Text) (q : Text)
      → (rename_into_cache io files source target restore).1 ≡ some r
      → Map.lookup source files ≡ some content
      → (r ≡ record {
        target = target;
        restore_source = restore;
        had_backup = is_some (Map.lookup target files);
      })
        × (Map.lookup q (rename_into_cache io files source target restore).0 ≡ (
            if text_eq target q
            then some content
            else if text_eq source q
            then none
            else if text_eq io.backup q
            then Map.lookup target files
            else Map.lookup q files))
  unfolding rename_into_cache
  renamed r content q done held =
      let aside = (backup_cache_target io files target).0 in
      ground (
        arith,
        backed_up q,
        backed_up source,
        had_target true,
        had_target false,
        lookup-move source target q aside,
        text_eq_iff io.backup q,
        text_eq_iff io.backup source,
        text_eq_iff target source,
        text_eq_iff source target,
      )

  -- One that is not done leaves the files, if the backup can be put back.
  pub not_renamed :
      (q : Text)
      → (rename_into_cache io files source target restore).1 ≡ none
      → io.restore_ok ≡ true
      → Map.lookup q (rename_into_cache io files source target restore).0 ≡ Map.lookup q files
  unfolding rename_into_cache move_back
  not_renamed q undone restored =
      let aside = (backup_cache_target io files target).0 in
      ground (
        arith,
        backed_up q,
        backed_up io.backup,
        had_target true,
        had_target false,
        lookup-move io.backup target q aside,
        text_eq_iff io.backup q,
        text_eq_iff target q,
        text_eq_refl io.backup,
      )

-- The files once the content is staged, and once the staged file is to be renamed.
abbrev pub staged : Files → Text → Text → Files
staged files tmp content = Map.insert tmp content files

abbrev pub in_place : FileIo → Files → Text → Text → Text → Files
in_place io files tmp target content =
    (rename_into_cache io (staged files tmp content) tmp target []).0

module _ (io : FileIo) (files : Files) (tmp target content : Text)
    (apart : text_eq tmp target ≡ false)
    (apart_backup : (text_eq io.backup target ≡ false) × (text_eq io.backup tmp ≡ false))
    (fresh : Map.lookup io.backup files ≡ none) where
  pub staged-lookup :
      (q : Text)
      → Map.lookup q (staged files tmp content)
        ≡ (if text_eq tmp q then some content else Map.lookup q files)
  staged-lookup q = Map.lookup-insert tmp q content files

  pub staged-fresh : Map.lookup io.backup (staged files tmp content) ≡ none
  staged-fresh = ground (arith, staged-lookup io.backup, text_eq_sym tmp io.backup)

  in_place-lookup :
      (r : CacheReplacement) (q : Text)
      → (rename_into_cache io (staged files tmp content) tmp target []).1 ≡ some r
      → (r ≡ record {
        target = target;
        restore_source = [];
        had_backup = is_some (Map.lookup target files);
      })
        × (Map.lookup q (in_place io files tmp target content) ≡ (
            if text_eq target q
            then some content
            else if text_eq tmp q
            then none
            else if text_eq io.backup q
            then Map.lookup target files
            else Map.lookup q files))
  in_place-lookup r q done = ground (
    arith,
    renamed io (staged files tmp content) tmp target [] apart apart_backup staged-fresh r content q,
    staged-lookup tmp,
    staged-lookup target,
    staged-lookup q,
    text_eq_refl tmp,
  )

  -- The rollback brings every other file back.
  pub rolled_back :
      (r : CacheReplacement) (q : Text)
      → (rename_into_cache io (staged files tmp content) tmp target []).1 ≡ some r
      → io.restore_ok ≡ true
      → io.drop_target_ok || is_some (Map.lookup target files) ≡ true
      → text_eq tmp q ≡ false
      → Map.lookup q (rollback io r (in_place io files tmp target content)) ≡ Map.lookup q files
  unfolding rollback move_back
  rolled_back r q done restored removable other =
      let removed = Map.delete target (in_place io files tmp target content) in
      ground (
        arith,
        in_place-lookup r q done,
        in_place-lookup r io.backup done,
        Map.lookup-delete {V = Text} target q (in_place io files tmp target content),
        Map.lookup-delete {V = Text} target io.backup (in_place io files tmp target content),
        lookup-move io.backup target q removed,
        lookup-move io.backup target q (in_place io files tmp target content),
        text_eq_refl io.backup,
        text_eq_refl [],
        text_eq_iff target q,
        text_eq_iff io.backup q,
        text_eq_sym target io.backup,
        text_eq_sym tmp io.backup,
        fresh,
      )

  -- A commit leaves the content in the place of the target.
  pub committed :
      (r : CacheReplacement) (q : Text)
      → (rename_into_cache io (staged files tmp content) tmp target []).1 ≡ some r
      → text_eq tmp q ≡ false
      → io.drop_backup_ok || not (text_eq io.backup q) ≡ true
      → Map.lookup q (commit io r (in_place io files tmp target content))
        ≡ (if text_eq target q then some content else Map.lookup q files)
  unfolding commit
  committed r q done other removable = ground (
    arith,
    in_place-lookup r q done,
    Map.lookup-delete {V = Text} io.backup q (in_place io files tmp target content),
    text_eq_iff io.backup q,
    text_eq_iff target q,
    fresh,
  )
