-- ===== src/Store/Ops.antt =====
-- The calls of a batch but replaceModel, as one type, for statements about all of them.
use makera_cnc_controller.Base.{ℕ, ◌≡◌, Bool, List, [], ◌∷◌}
use makera_cnc_controller.Base.Text.{Text}
use makera_cnc_controller.Store.{SyncState, Entry, JobKind, Job}
use makera_cnc_controller.Store.Batch.{
  Batch, put_entry, set_entry_sync_if_match, set_entry_sync, set_entry_sync_if, delete_entry,
  delete_entry_if_sync, discard_entry, discard_jobs, supersede_queued_uploads,
}
use makera_cnc_controller.Store.Jobs.{
  enqueue, update_job, start_job, retry_job, prune_done_jobs, prune_failed_jobs,
  set_active_gcode_path,
}

-- A mutation given to UpdateJob leaves the id alone. replaceModel, which only Restore calls, in a batch of its own, is
-- not among them.
pub data Op : Type 0 where
  puts_entry : Entry → Op
  sets_sync : Text → SyncState → Text → Op
  sets_sync_if : Text → SyncState → Text → List SyncState → Op
  sets_sync_if_match : Text → SyncState → Text → (Entry → Bool) → Op
  deletes_entry : Text → Op
  deletes_entry_if_sync : Text → List SyncState → Op
  discards_entry : Text → List JobKind → Op
  discards_jobs : Text → List JobKind → Op
  supersedes_uploads : Text → Op
  enqueues : Job → Op
  updates_job : ℕ → (f : Job → Job) → ((j : Job) → (f j).id ≡ j.id) → Op
  starts_job : ℕ → Op
  retries_job : ℕ → Op
  prunes_done : ℕ → Op
  prunes_failed : ℕ → Op
  sets_active : Text → Op

unfoldable pub apply : Op → Batch → Batch
apply (puts_entry e) b = (put_entry b e).0
apply (sets_sync p st msg) b = (set_entry_sync b p st msg).0
apply (sets_sync_if p st msg allowed) b = (set_entry_sync_if b p st msg allowed).0
apply (sets_sync_if_match p st msg match) b = (set_entry_sync_if_match b p st msg match).0
apply (deletes_entry p) b = (delete_entry b p).0
apply (deletes_entry_if_sync p allowed) b = (delete_entry_if_sync b p allowed).0
apply (discards_entry p kinds) b = (discard_entry b p kinds).0
apply (discards_jobs p kinds) b = (discard_jobs b p kinds).0
apply (supersedes_uploads p) b = (supersede_queued_uploads b p).0
apply (enqueues j) b = (enqueue b j).0
apply (updates_job i f h) b = (update_job b i f).0
apply (starts_job i) b = (start_job b i).0
apply (retries_job i) b = (retry_job b i).0
apply (prunes_done cutoff) b = (prune_done_jobs b cutoff).0
apply (prunes_failed n) b = (prune_failed_jobs b n).0
apply (sets_active p) b = (set_active_gcode_path b p).0

-- The function of a batch that makes the calls in turn.
unfoldable pub apply_all : List Op → Batch → Batch
apply_all [] b = b
apply_all (op ∷ ops) b = apply_all ops (apply op b)
