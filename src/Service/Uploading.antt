-- ===== src/Service/Uploading.antt =====
-- internal/service/service.go: an upload as a transaction over the cache file, the catalog and the queue.
use makera_cnc_controller.Base.{
  ◌≡◌, refl, true, false, not, ◌||◌, is_some, Option, none, some, [], ◌∷◌, arith, if◌then◌else◌,
  Bool-cases, inl, inr, keep_if,
}
use makera_cnc_controller.Base.Text.{Text, text_eq}
use makera_cnc_controller.Base.Map
use makera_cnc_controller.Store.{file_failed, Entry, Result, ok, err, StoreError}
use makera_cnc_controller.Store.Batch.{normalize_new_entry, queued_upload_of}
use makera_cnc_controller.Store.Commit.{World, new_batch}
use makera_cnc_controller.Store.Commit.Opening.{save}
use makera_cnc_controller.Service.{refuse}
use makera_cnc_controller.Service.Recording.{
  upload_batch-entry, upload_job, upload_batch-jobs, save-ok, save-failed, batch_result,
}
use makera_cnc_controller.Service.Files.{
  Files, FileIo, CacheReplacement, backup_cache_target, rename_into_cache, upload, uploaded_entry,
  upload_batch, close_replacement,
}
use makera_cnc_controller.Service.Staging.{
  staged, in_place, not_renamed, staged-lookup, staged-fresh, rolled_back, committed,
}

module _ (md5_hex : Text → Text) (cache_name_for : Text → Text) (io : FileIo) (w : World)
    (files : Files) (tmp remote content : Text) (q : Text)
    (apart : text_eq tmp (cache_name_for remote) ≡ false)
    (apart_backup : (text_eq io.backup (cache_name_for remote) ≡ false)
      × (text_eq io.backup tmp ≡ false))
    (fresh : Map.lookup io.backup files ≡ none) (other : text_eq tmp q ≡ false) where
  abbrev target : Text
  target = cache_name_for remote

  abbrev saved : World × Result Entry
  saved = save w (upload_batch md5_hex cache_name_for remote content)

  abbrev Stored : (World × Files) × Result Entry → Type 0
  Stored r =
      (e : Entry)
      → io.drop_backup_ok || not (text_eq io.backup q) ≡ true
      → r.1 ≡ ok e
      → (e ≡ uploaded_entry md5_hex cache_name_for remote content w.clock)
        × (Map.lookup q r.0.1 ≡ (if text_eq target q then some content else Map.lookup q files))
        × (Map.lookup remote r.0.0.store.entries
            ≡ some (record (normalize_new_entry e) { updated_at = w.clock }))
        × (keep_if (queued_upload_of remote) r.0.0.store.jobs
            ≡ upload_job w.store.next_job w.clock e ∷ [])

  abbrev Failed : (World × Files) × Result Entry → Type 0
  Failed r =
      (f : StoreError)
      → io.restore_ok ≡ true
      → io.drop_target_ok || is_some (Map.lookup target files) ≡ true
      → r.1 ≡ err f
      → (r.0.0.store ≡ w.store) × (Map.lookup q r.0.1 ≡ Map.lookup q files)

  abbrev replaced : Option CacheReplacement
  replaced = (rename_into_cache io (staged files tmp content) tmp target []).1

  unfoldable closed : CacheReplacement → (World × Files) × Result Entry
  unfolding close_replacement
  closed c = (
    (saved.0, close_replacement io (some c) saved.1 (in_place io files tmp target content)),
    saved.1,
  )

  closed-Stored : (c : CacheReplacement) → replaced ≡ some c → Stored (closed c)
  unfolding closed close_replacement
  closed-Stored c done = λ e removable fine.
      let f = upload_batch md5_hex cache_name_for remote content in
      ground (
        arith,
        save-ok w f e,
        committed io files tmp target content apart apart_backup fresh c q,
        upload_batch-entry md5_hex cache_name_for remote content (new_batch w),
        upload_batch-jobs md5_hex cache_name_for remote content (new_batch w),
        batch_result md5_hex cache_name_for remote content (new_batch w),
      )

  closed-Failed : (c : CacheReplacement) → replaced ≡ some c → Failed (closed c)
  unfolding closed close_replacement
  closed-Failed c done = λ f restored removable bad. ground (
    arith,
    save-failed w (upload_batch md5_hex cache_name_for remote content) f,
    rolled_back io files tmp target content apart apart_backup fresh c q,
  )

  abbrev unstaged : Files
  unstaged =
      if io.drop_staged_ok
      then Map.delete tmp (in_place io files tmp target content)
      else in_place io files tmp target content

  put_back : replaced ≡ none → io.restore_ok ≡ true → Map.lookup q unstaged ≡ Map.lookup q files
  put_back gone restored =
      let apart' = staged-fresh io files tmp target content apart apart_backup fresh in
      ground (
        arith,
        not_renamed io (staged files tmp content) tmp target [] apart apart_backup apart' q gone
            restored,
        staged-lookup io files tmp target content apart apart_backup fresh q,
        Map.lookup-delete {V = Text} tmp q (in_place io files tmp target content),
      )

  upload_cases :
      (P : (World × Files) × Result Entry → Type 0)
      → P ((w, files), refuse file_failed)
      → (replaced ≡ none → P ((w, unstaged), refuse file_failed))
      → ((c : CacheReplacement) → replaced ≡ some c → P (closed c))
      → P (upload md5_hex cache_name_for io w files tmp remote content)
  unfolding upload closed rename_into_cache backup_cache_target
  upload_cases P a b c = elim (Bool-cases io.stage_ok) [
    | inr f ↦ rw (f, upload) a
    | inl t ↦ rw (t, upload) (step replaced refl)
  ]
    where
      step :
          (found : Option CacheReplacement)
          → replaced ≡ found
          → P (elim replaced [ none ↦ ((w, unstaged), refuse file_failed) | some c ↦ closed c ])
      step none eq = rw eq (b eq)
      step (some r) eq = rw eq (c r eq)

-- An upload that succeeds leaves the content in the cache file of the path and no other file changed, the entry of
-- the catalog as put with the size and MD5 of the content, and in the queue one upload of the path that is queued
-- or failed: the new one, for the same cache file, size and MD5. The names of the staged file and of the backup
-- are distinct from that of the cache file, and that of the backup is not in use. A backup that cannot be removed is
-- left behind, and no other file.
pub upload_stored :
    (md5_hex : Text → Text) (cache_name_for : Text → Text) (io : FileIo) (w : World) (files : Files)
    (tmp remote content : Text) (e : Entry) (q : Text)
    → text_eq tmp (cache_name_for remote) ≡ false
    → (text_eq io.backup (cache_name_for remote) ≡ false) × (text_eq io.backup tmp ≡ false)
    → Map.lookup io.backup files ≡ none
    → text_eq tmp q ≡ false
    → io.drop_backup_ok || not (text_eq io.backup q) ≡ true
    → (upload md5_hex cache_name_for io w files tmp remote content).1 ≡ ok e
    → let after = (upload md5_hex cache_name_for io w files tmp remote content).0 in
      (e ≡ uploaded_entry md5_hex cache_name_for remote content w.clock)
      × (Map.lookup q after.1
          ≡ (if text_eq (cache_name_for remote) q then some content else Map.lookup q files))
      × (Map.lookup remote after.0.store.entries
          ≡ some (record (normalize_new_entry e) { updated_at = w.clock }))
      × (keep_if (queued_upload_of remote) after.0.store.jobs
          ≡ upload_job w.store.next_job w.clock e ∷ [])
upload_stored md5_hex cache_name_for io w files tmp remote content e q apart apart_backup fresh
      other removable fine =
    upload_cases md5_hex cache_name_for io w files tmp remote content q apart apart_backup fresh
      other
      (Stored md5_hex cache_name_for io w files tmp remote content q apart apart_backup fresh other)
      (λ x k h. cc) (λ gone x k h. cc)
      (closed-Stored md5_hex cache_name_for io w files tmp remote content q apart apart_backup fresh
        other)
      e removable fine

-- An upload that fails, whether at a call on the files or at the flush of the store, leaves the store as it was, and
-- every file but the staged one as it was, provided that a backup that was made can be moved back, and that the new
-- file can be removed where there was none before. The names are as for an upload that succeeds.
pub upload_failed :
    (md5_hex : Text → Text) (cache_name_for : Text → Text) (io : FileIo) (w : World) (files : Files)
    (tmp remote content : Text) (f : StoreError) (q : Text)
    → text_eq tmp (cache_name_for remote) ≡ false
    → (text_eq io.backup (cache_name_for remote) ≡ false) × (text_eq io.backup tmp ≡ false)
    → Map.lookup io.backup files ≡ none
    → io.restore_ok ≡ true
    → io.drop_target_ok || is_some (Map.lookup (cache_name_for remote) files) ≡ true
    → text_eq tmp q ≡ false
    → (upload md5_hex cache_name_for io w files tmp remote content).1 ≡ err f
    → let after = (upload md5_hex cache_name_for io w files tmp remote content).0 in
      (after.0.store ≡ w.store) × (Map.lookup q after.1 ≡ Map.lookup q files)
upload_failed md5_hex cache_name_for io w files tmp remote content f q apart apart_backup fresh
      restored removable other bad =
    upload_cases md5_hex cache_name_for io w files tmp remote content q apart apart_backup fresh
      other
      (Failed md5_hex cache_name_for io w files tmp remote content q apart apart_backup fresh other)
      (λ x back k h. (refl, refl))
      (λ gone x back k h. (
        refl,
        put_back md5_hex cache_name_for io w files tmp remote content q apart apart_backup fresh
            other gone back,
      ))
      (closed-Failed md5_hex cache_name_for io w files tmp remote content q apart apart_backup fresh
        other)
      f restored removable bad
