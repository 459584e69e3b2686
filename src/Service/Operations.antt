-- ===== src/Service/Operations.antt =====
-- internal/service/service.go: retry, discard, rename and mkdir.
use makera_cnc_controller.Base.{
  ℕ, Bool, true, not, ◌&&◌, ◌||◌, Option, none, some, List, [], ◌∷◌, ◌==◌, if◌then◌else◌,
}
use makera_cnc_controller.Base.Text.{Text, text_eq}
use makera_cnc_controller.Base.Map
use makera_cnc_controller.Store.{
  pending_upload, pending_delete, pending_rename, remote_only, cache_none, cache_ready, Entry,
  bare_entry, JobKind, job_upload, job_delete, job_rename, job_mkdir, job_other, Job, no_job,
  failed, state_eq, Store, not_found, directory_not_empty, retry_unavailable, discard_unavailable,
  Result, ok, err,
}
use makera_cnc_controller.Store.Batch.{Batch, get_entry, put_entry, set_entry_sync, find_job}
use makera_cnc_controller.Store.Jobs.{get_job, enqueue, retry_job, has_descendants}
use makera_cnc_controller.Store.Ops.{Op}
use makera_cnc_controller.Store.Commit.{World, batch}
use makera_cnc_controller.Store.Commit.Opening.{save}
use makera_cnc_controller.Store.Methods.{put_entry_saved, discard_entry_saved, discard_jobs_saved}
use makera_cnc_controller.Engine.Execute.{others}
use makera_cnc_controller.Service.{
  refuse, path_kinds, has_local_create_job, has_running_job, can_discard_local,
}

retry_upload_state : Batch → Job → Batch
retry_upload_state b job = elim (get_entry b job.path) [
  | none ↦
      (put_entry b (record (bare_entry job.path) {
        size = job.size;
        md5 = job.md5;
        cache_path = job.cache_path;
        cache_state = cache_ready;
        mtime = b.now;
        sync = pending_upload;
      })).0
  | some entry ↦
      if not entry.is_dir
        && text_eq entry.cache_path job.cache_path
        && text_eq entry.md5 job.md5
        && (entry.size == job.size)
      then (set_entry_sync b job.path pending_upload []).0
      else b
]

retry_mkdir_state : Batch → Job → Batch
retry_mkdir_state b job = elim (get_entry b job.path) [
  | none ↦
      (put_entry b
        (record (bare_entry job.path) { is_dir = true; mtime = b.now; sync = pending_upload })).0
  | some entry ↦ (set_entry_sync b job.path pending_upload []).0
]

-- restoreEntryStateForRetryBatch; none is its error.
unfoldable pub restore_entry_state : JobKind → Batch → Job → Option Batch
unfolding retry_upload_state retry_mkdir_state
restore_entry_state job_upload b job = some (retry_upload_state b job)
restore_entry_state job_mkdir b job = some (retry_mkdir_state b job)
restore_entry_state job_delete b job = some (set_entry_sync b job.path pending_delete []).0
restore_entry_state job_rename b job = some (set_entry_sync b job.path pending_rename []).0
restore_entry_state job_other b job = none

requeue : Batch → ℕ → Batch × Result Job
requeue b i =
    let (b', retried, fine) = retry_job b i in
    if fine then (b', ok retried) else (b', refuse retry_unavailable)

unfoldable pub retry_batch : ℕ → Batch → Batch × Result Job
unfolding requeue restore_entry_state
retry_batch i b = elim (get_job b i) [
  | none ↦ (b, refuse not_found)
  | some current ↦
      let restored : Batch × Result Job = elim (restore_entry_state current.kind b current) [
        | none ↦ (b, refuse retry_unavailable)
        | some b' ↦ requeue b' i
      ] in
      if not (state_eq current.state failed) then (b, refuse retry_unavailable) else restored
]

-- RetryJob.
unfoldable pub retry_failed_job : World → ℕ → List Op → World × Result Job
unfolding retry_batch
retry_failed_job w i gap = elim (find_job i w.store.jobs) [
  | none ↦ (w, refuse not_found)
  | some job ↦
      if not (state_eq job.state failed)
      then (w, refuse retry_unavailable)
      else batch (others w gap) (retry_batch i)
]

job_files : List Job → List Text
job_files [] = []
job_files (j ∷ js) = if text_eq j.cache_path [] then job_files js else j.cache_path ∷ job_files js

jobs_outcome : List Job → Result (List Text)
unfolding job_files
jobs_outcome [] = refuse not_found
jobs_outcome (j ∷ js) = ok (job_files (j ∷ js))

entry_outcome : Option Entry → Result (List Text)
entry_outcome none = refuse not_found
entry_outcome (some e) = ok (if text_eq e.cache_path [] then [] else e.cache_path ∷ [])

-- What a method of the store returns, turned into the cache files to remove.
then_remove :
    {A : Type 0} → (A → Result (List Text)) → World × Result A → World × Result (List Text)
then_remove f (w, err x) = (w, err x)
then_remove f (w, ok a) = (w, f a)

discard_jobs_without_entry : World → Text → World × Result (List Text)
unfolding then_remove jobs_outcome has_running_job
discard_jobs_without_entry w remote =
    if has_running_job w.store remote
    then (w, refuse discard_unavailable)
    else then_remove jobs_outcome (discard_jobs_saved w remote path_kinds)

-- DiscardLocal; the result names the cache files that are removed.
unfoldable pub discard_local : World → Text → List Op → World × Result (List Text)
unfolding discard_jobs_without_entry can_discard_local has_running_job then_remove entry_outcome
discard_local w remote gap = elim (Map.lookup remote w.store.entries) [
  | none ↦ discard_jobs_without_entry (others w gap) remote
  | some entry ↦
      if not (can_discard_local entry.sync) || has_running_job w.store remote
      then (w, refuse discard_unavailable)
      else then_remove entry_outcome (discard_entry_saved (others w gap) remote path_kinds)
]

unfoldable pub can_rename_local_upload : Store → Text → Entry → Bool
unfolding has_local_create_job has_running_job
can_rename_local_upload s from entry =
    not entry.is_dir
    && not (text_eq entry.cache_path [])
    && has_local_create_job s from
    && not (has_running_job s from)

unfoldable pub rename_batch : Text → Text → Batch → Batch × Result (Unit {0})
rename_batch from to b = elim (get_entry b from) [
  | none ↦ (b, refuse not_found)
  | some entry ↦
      let marked = (set_entry_sync b from pending_rename []).0 in
      let job : Job = record no_job {
        kind = job_rename;
        path = from;
        dest_path = to;
        cache_path = entry.cache_path;
        md5 = entry.md5;
        size = entry.size;
      } in
      if entry.is_dir && has_descendants b from
      then (b, refuse directory_not_empty)
      else ((enqueue marked job).0, ok tt)
]

unfoldable pub enqueue_remote_rename : World → Text → Text → World × Result (Unit {0})
unfolding rename_batch
enqueue_remote_rename w from to = batch w (rename_batch from to)

unfoldable pub mkdir_batch : Text → Batch → Batch × Entry
mkdir_batch remote b =
    let (b', e) =
      put_entry b
        (record (bare_entry remote) { is_dir = true; mtime = b.now; sync = pending_upload }) in
    ((enqueue b' (record no_job { kind = job_mkdir; path = remote })).0, e)

unfoldable pub mkdir : World → Text → World × Result Entry
unfolding mkdir_batch
mkdir w remote = save w (mkdir_batch remote)

unfoldable pub put_remote_only : World → Text → ℕ → ℕ → Text → World × Result Entry
put_remote_only w remote size mtime md5hex = put_entry_saved w (record (bare_entry remote) {
  size = size;
  mtime = mtime;
  md5 = md5hex;
  cache_state = cache_none;
  sync = remote_only;
})
