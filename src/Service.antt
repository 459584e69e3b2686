-- ===== src/Service.antt =====
-- internal/service/service.go: the file operations of an operator on the catalog. Those on one path take it
-- normalised; `gap` is what others write between the look at the catalog and the batch.
pub mod Operations
pub mod Files
pub mod Staging
pub mod Recording
pub mod Uploading
pub mod Deleting
pub mod Gcode
use makera_cnc_controller.Base.{
  ℕ, Bool, true, false, not, ◌&&◌, ◌||◌, Option, none, some, List, [], ◌∷◌, ◌++◌, ◌==◌,
  if◌then◌else◌, any, is_some,
}
use makera_cnc_controller.Base.Text.{Text, text_eq, codes, has_prefix}
use makera_cnc_controller.Base.Map
use makera_cnc_controller.Filepolicy.{forward_slashes, is_junk}
use makera_cnc_controller.Store.{
  SyncState, synced, local_only, pending_upload, uploading, pending_delete, deleting,
  pending_rename, remote_only, error, blank, sync_eq, cache_none, cache_ready, Entry, bare_entry,
  JobKind, job_upload, job_delete, job_rename, job_mkdir, job_other, kind_eq, Job, no_job, queued,
  running, failed, state_eq, Store, Refusal, not_found, directory_not_empty, retry_unavailable,
  discard_unavailable, invalid_argument, refused, Result, ok, err,
}
use makera_cnc_controller.Store.Batch.{
  Batch, get_entry, put_entry, set_entry_sync, discard_entry, find_job,
}
use makera_cnc_controller.Store.Jobs.{get_job, enqueue, retry_job, has_descendants}
use makera_cnc_controller.Store.Ops.{Op}
use makera_cnc_controller.Store.Commit.{World, batch}
use makera_cnc_controller.Store.Commit.Opening.{save}
use makera_cnc_controller.Store.Methods.{put_entry_saved, discard_entry_saved, discard_jobs_saved}
use makera_cnc_controller.Engine.Execute.{others}

-- `return ErrX` in a batch, and outside of one.
abbrev pub refuse {ℓ} : {A : Type ℓ} → Refusal → Result A
refuse r = err (refused r)

abbrev pub gcode_root : Text
gcode_root = codes "/sd/gcodes"

-- path.Clean and path.Base are parameters; path.Join cleans the parts with a slash between.
module _ (clean : Text → Text) (base : Text → Text) where
  unfoldable pub normalize_remote : Text → Option Text
  normalize_remote raw =
      let p = forward_slashes raw in
      let rooted = if has_prefix (codes "/") p then p else clean (gcode_root ++ (b'/' ∷ p)) in
      let cleaned = clean rooted in
      if not (text_eq cleaned gcode_root) && not (has_prefix (gcode_root ++ (b'/' ∷ [])) cleaned)
      then none
      else if is_junk clean base cleaned
      then none
      else some cleaned

abbrev pub path_kinds : List JobKind
path_kinds = job_upload ∷ job_mkdir ∷ job_delete ∷ job_rename ∷ []

unfoldable pub has_local_create_job : Store → Text → Bool
has_local_create_job s remote =
    any
      (λ (j : Job).
        text_eq j.path remote
        && (kind_eq j.kind job_upload || kind_eq j.kind job_mkdir)
        && (state_eq j.state queued || state_eq j.state failed))
      s.jobs

unfoldable pub has_running_job : Store → Text → Bool
has_running_job s remote =
    any (λ (j : Job). text_eq j.path remote && state_eq j.state running) s.jobs

unfoldable pub can_discard_local : SyncState → Bool
can_discard_local local_only = true
can_discard_local pending_upload = true
can_discard_local uploading = true
can_discard_local pending_delete = true
can_discard_local deleting = true
can_discard_local pending_rename = true
can_discard_local error = true
can_discard_local _ = false

unfoldable pub should_discard_local_entry : Store → Text → Entry → Bool
unfolding has_local_create_job
should_discard_local_entry s remote entry =
    if sync_eq entry.sync local_only || sync_eq entry.sync pending_upload
    then true
    else sync_eq entry.sync error && has_local_create_job s remote

-- The batches of Delete.
unfoldable pub discard_batch : Text → Batch → Batch × Result (Option Entry)
discard_batch remote b = elim (get_entry b remote) [
  | none ↦ (b, refuse not_found)
  | some current ↦
      let (b', discarded) = discard_entry b remote path_kinds in
      if current.is_dir && has_descendants b remote
      then (b, refuse directory_not_empty)
      else (b', ok discarded)
]

unfoldable pub delete_batch : Text → Batch → Batch × Result (Option Entry)
delete_batch remote b = elim (get_entry b remote) [
  | none ↦ (b, refuse not_found)
  | some current ↦
      let (b', marked) = set_entry_sync b remote pending_delete [] in
      if current.is_dir && has_descendants b remote
      then (b, refuse directory_not_empty)
      else if not (is_some marked)
      then (b', refuse not_found)
      else ((enqueue b' (record no_job { kind = job_delete; path = remote })).0, ok none)
]

-- Delete; the result names the entry whose cache file is removed.
unfoldable pub delete_remote : World → Text → List Op → World × Result (Option Entry)
unfolding should_discard_local_entry discard_batch delete_batch
delete_remote w remote gap = elim (Map.lookup remote w.store.entries) [
  | none ↦ (w, refuse not_found)
  | some entry ↦
      if should_discard_local_entry w.store remote entry
      then batch (others w gap) (discard_batch remote)
      else batch (others w gap) (delete_batch remote)
]
