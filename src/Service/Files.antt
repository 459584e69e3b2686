-- ===== src/Service/Files.antt =====
-- internal/service/service.go: the cache files under an upload and a local rename. The cache directory maps the
-- paths of its files to their content.
use makera_cnc_controller.Base.{
  ℕ, Bool, true, false, not, ◌&&◌, Option, none, some, List, [], ◌∷◌, if◌then◌else◌, length,
  is_some,
}
use makera_cnc_controller.Base.Text.{Text, text_eq}
use makera_cnc_controller.Base.Map
use makera_cnc_controller.Store.{
  pending_upload, cache_ready, Entry, bare_entry, job_upload, job_mkdir, job_delete, Job, no_job,
  not_found, file_failed, Result, ok, err,
}
use makera_cnc_controller.Store.Batch.{
  Batch, put_entry, delete_entry, discard_jobs, supersede_queued_uploads,
}
use makera_cnc_controller.Store.Jobs.{enqueue}
use makera_cnc_controller.Store.Ops.{Op}
use makera_cnc_controller.Store.Commit.{World}
use makera_cnc_controller.Store.Commit.Opening.{save}
use makera_cnc_controller.Engine.Execute.{others}
use makera_cnc_controller.Service.{refuse}
use makera_cnc_controller.Service.Operations.{can_rename_local_upload, enqueue_remote_rename}

abbrev pub Files : Type 0
Files = List (Text × Text)

-- How the calls on files end. `backup` is the fresh name of a backup file.
pub record FileIo : Type 0 where
  pub stage_ok : Bool
  pub stat_ok : Bool
  pub temp_ok : Bool
  pub backup_ok : Bool
  pub rename_ok : Bool
  pub restore_ok : Bool
  pub drop_target_ok : Bool
  pub drop_backup_ok : Bool
  pub drop_staged_ok : Bool
  pub backup : Text

-- os.Rename, of a file that is there.
unfoldable pub move : Text → Text → Files → Files
move from to files = elim (Map.lookup from files) [
  | none ↦ files
  | some content ↦ Map.insert to content (Map.delete from files)
]

-- What Rollback and Commit have to know.
pub record CacheReplacement : Type 0 where
  pub target : Text
  pub restore_source : Text
  pub had_backup : Bool

-- backupCacheTarget: the files, and whether there was one to back up; none is an error.
unfoldable pub backup_cache_target : FileIo → Files → Text → Files × Option Bool
unfolding move
backup_cache_target io files target =
    if not io.stat_ok
    then (files, none)
    else if not (is_some (Map.lookup target files))
    then (files, some false)
    else if not io.temp_ok
    then (files, none)
    else if not io.backup_ok
    then (files, none)
    else (move target io.backup files, some true)

unfoldable pub move_back : FileIo → Text → Bool → Files → Files
unfolding move
move_back io target had_backup files =
    if had_backup && io.restore_ok then move io.backup target files else files

-- replaceCacheFile, and moveCacheFile where the source is not the target: the rename of the file into its place.
unfoldable pub rename_into_cache :
    FileIo → Files → Text → Text → Text → Files × Option CacheReplacement
unfolding move move_back
rename_into_cache io files source target restore_source =
    let (files', backed) = backup_cache_target io files target in
    elim backed [
      | none ↦ (files', none)
      | some had_backup ↦
          if not io.rename_ok then (move_back io target had_backup files', none) else (
            move source target files',
            some (record {
              target = target;
              restore_source = restore_source;
              had_backup = had_backup;
            }),
          )
    ]

unfoldable pub commit : FileIo → CacheReplacement → Files → Files
commit io r files = if r.had_backup && io.drop_backup_ok then Map.delete io.backup files else files

unfoldable pub rollback : FileIo → CacheReplacement → Files → Files
unfolding move move_back
rollback io r files = move_back io r.target r.had_backup (
    if not (text_eq r.restore_source [])
    then move r.target r.restore_source files
    else if io.drop_target_ok
    then Map.delete r.target files
    else files)

unfoldable pub close_replacement :
    {A : Type 0} → FileIo → Option CacheReplacement → Result A → Files → Files
unfolding commit rollback
close_replacement io none r files = files
close_replacement io (some c) (ok a) files = commit io c files
close_replacement io (some c) (err e) files = rollback io c files

module _ (md5_hex : Text → Text) (cache_name_for : Text → Text) where
  unfoldable pub uploaded_entry : Text → Text → ℕ → Entry
  uploaded_entry remote content now = record (bare_entry remote) {
    size = length content;
    mtime = now;
    md5 = md5_hex content;
    cache_path = cache_name_for remote;
    cache_state = cache_ready;
    sync = pending_upload;
  }

  unfoldable pub upload_batch : Text → Text → Batch → Batch × Entry
  unfolding uploaded_entry
  upload_batch remote content b =
      let entry = uploaded_entry remote content b.now in
      let put = (put_entry b entry).0 in
      let discarded = (discard_jobs put remote (job_delete ∷ [])).0 in
      let superseded = (supersede_queued_uploads discarded remote).0 in
      let job : Job = record no_job {
        kind = job_upload;
        path = remote;
        cache_path = cache_name_for remote;
        md5 = md5_hex content;
        size = length content;
      } in
      ((enqueue superseded job).0, entry)

  -- Upload of the content, staged at `tmp`.
  unfoldable pub upload :
      FileIo → World → Files → Text → Text → Text → (World × Files) × Result Entry
  unfolding upload_batch close_replacement
  upload io w files tmp remote content =
      let staged = Map.insert tmp content files in
      let (files', replacement) = rename_into_cache io staged tmp (cache_name_for remote) [] in
      let (w', r) = save w (upload_batch remote content) in
      if not io.stage_ok then ((w, files), refuse file_failed) else elim replacement [
        | none ↦
            ((w, if io.drop_staged_ok then Map.delete tmp files' else files'), refuse file_failed)
        | some c ↦ ((w', close_replacement io (some c) r files'), r)
      ]

  unfoldable pub renamed_entry : Text → Entry → ℕ → Entry
  renamed_entry to entry now = record entry {
    path = to;
    cache_path = cache_name_for to;
    cache_state = cache_ready;
    cache_checked_at = 0;
    sync = pending_upload;
    error_text = [];
    mtime = now;
  }

  unfoldable pub rename_upload_batch : Text → Text → Entry → Batch → Batch × Unit {0}
  unfolding renamed_entry
  rename_upload_batch from to entry b =
      let discarded = (discard_jobs b from (job_upload ∷ job_mkdir ∷ [])).0 in
      let gone = (delete_entry discarded from).0 in
      let put = (put_entry gone (renamed_entry to entry b.now)).0 in
      let superseded = (supersede_queued_uploads put to).0 in
      let job : Job = record no_job {
        kind = job_upload;
        path = to;
        cache_path = cache_name_for to;
        md5 = entry.md5;
        size = entry.size;
      } in
      ((enqueue superseded job).0, tt)

  -- The part of renameLocalUpload behind its checks, for the entry as it is then.
  unfoldable pub move_upload :
      FileIo → World → Files → Text → Text → Entry → (World × Files) × Result (Unit {0})
  unfolding rename_upload_batch close_replacement
  move_upload io w files from to entry =
      let target = cache_name_for to in
      let kept = text_eq entry.cache_path target in
      let (files', replacement) =
        rename_into_cache io files entry.cache_path target entry.cache_path in
      let (w', r) = save w (rename_upload_batch from to entry) in
      if kept then ((w', files), r) else elim replacement [
        | none ↦ ((w, files'), refuse file_failed)
        | some c ↦ ((w', close_replacement io (some c) r files'), r)
      ]

  keep_files : Files → World × Result (Unit {0}) → (World × Files) × Result (Unit {0})
  keep_files files (w, r) = ((w, files), r)

  rename_local_upload : FileIo → World → Files → Text → Text → (World × Files) × Result (Unit {0})
  unfolding move_upload keep_files
  rename_local_upload io w files from to = elim (Map.lookup from w.store.entries) [
    | none ↦ ((w, files), refuse not_found)
    | some current ↦
        if not (can_rename_local_upload w.store from current)
        then keep_files files (enqueue_remote_rename w from to)
        else move_upload io w files from to current
  ]

  -- Rename.
  unfoldable pub rename :
      FileIo → World → Files → Text → Text → List Op → (World × Files) × Result (Unit {0})
  unfolding rename_local_upload keep_files
  rename io w files from to gap = elim (Map.lookup from w.store.entries) [
    | none ↦ ((w, files), refuse not_found)
    | some entry ↦
        if can_rename_local_upload w.store from entry
        then rename_local_upload io (others w gap) files from to
        else keep_files files (enqueue_remote_rename (others w gap) from to)
  ]
