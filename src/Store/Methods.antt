-- ===== src/Store/Methods.antt =====
-- internal/store/store.go: the methods of Store, each of which makes one call in a batch of its own or reads
-- the model.
use makera_cnc_controller.Base.{
  ℕ, ◌-◌, ◌≡◌, refl, Bool, not, ◌&&◌, Option, none, some, List, map, ◌==◌, if◌then◌else◌,
}
use makera_cnc_controller.Base.Text.{Text}
use makera_cnc_controller.Base.Map
use makera_cnc_controller.Store.{
  Entry, SyncState, Job, JobKind, Store, job_not_found, Result, ok, err,
}
use makera_cnc_controller.Store.Batch.{
  Batch, put_entry, find_job, set_entry_sync, set_entry_sync_if, set_entry_sync_if_match,
  delete_entry, delete_entry_if_sync, discard_entry, discard_jobs, supersede_queued_uploads,
}
use makera_cnc_controller.Store.Jobs.{
  enqueue, update_job, start_job, retry_job, prune_done_jobs, prune_failed_jobs,
  set_active_gcode_path,
}
use makera_cnc_controller.Store.Commit.{World, batch}
use makera_cnc_controller.Store.Commit.Opening.{save, clear_job_diagnostics}

unfoldable pub put_entry_saved : World → Entry → World × Result Entry
put_entry_saved w e = save w (λ b. put_entry b e)

unfoldable pub set_entry_sync_saved :
    World → Text → SyncState → Text → World × Result (Option Entry)
set_entry_sync_saved w p st msg = save w (λ b. set_entry_sync b p st msg)

unfoldable pub set_entry_sync_if_saved :
    World → Text → SyncState → Text → List SyncState → World × Result (Option Entry)
set_entry_sync_if_saved w p st msg allowed = save w (λ b. set_entry_sync_if b p st msg allowed)

unfoldable pub set_entry_sync_if_match_saved :
    World → Text → SyncState → Text → (Entry → Bool) → World × Result (Option Entry)
set_entry_sync_if_match_saved w p st msg match =
    save w (λ b. set_entry_sync_if_match b p st msg match)

unfoldable pub delete_entry_saved : World → Text → World × Result Bool
delete_entry_saved w p = save w (λ b. delete_entry b p)

unfoldable pub delete_entry_if_sync_saved :
    World → Text → List SyncState → World × Result (Option Entry)
delete_entry_if_sync_saved w p allowed = save w (λ b. delete_entry_if_sync b p allowed)

unfoldable pub discard_entry_saved : World → Text → List JobKind → World × Result (Option Entry)
discard_entry_saved w p kinds = save w (λ b. discard_entry b p kinds)

unfoldable pub discard_jobs_saved : World → Text → List JobKind → World × Result (List Job)
discard_jobs_saved w p kinds = save w (λ b. discard_jobs b p kinds)

unfoldable pub enqueue_saved : World → Job → World × Result Job
enqueue_saved w j = save w (λ b. enqueue b j)

unfoldable pub supersede_queued_uploads_saved : World → Text → World × Result ℕ
supersede_queued_uploads_saved w p = save w (λ b. supersede_queued_uploads b p)

updated : ℕ → Batch × Option Job → Batch × Result (Unit {0})
updated i (b, none) = (b, err (job_not_found i))
updated i (b, some j) = (b, ok tt)

unfoldable pub update_job_saved : World → ℕ → (Job → Job) → World × Result (Unit {0})
unfolding updated
update_job_saved w i mutate = batch w (λ b. updated i (update_job b i mutate))

unfoldable pub start_job_saved : World → ℕ → World × Result (Job × Bool)
start_job_saved w i = save w (λ b. let (b', j, started) = start_job b i in (b', (j, started)))

retried : ℕ → Batch × Job × Bool → Batch × Result (Job × Bool)
retried i (b, j, done_) =
    if not done_ && (j.id == 0) then (b, err (job_not_found i)) else (b, ok (j, done_))

unfoldable pub retry_job_saved : World → ℕ → World × Result (Job × Bool)
unfolding retried
retry_job_saved w i = batch w (λ b. retried i (retry_job b i))

unfoldable pub prune_done_jobs_saved : World → ℕ → World × Result ℕ
prune_done_jobs_saved w older_than = save w (λ b. prune_done_jobs b (w.clock - older_than))

unfoldable pub prune_failed_jobs_saved : World → ℕ → World × Result ℕ
prune_failed_jobs_saved w max_per_path = save w (λ b. prune_failed_jobs b max_per_path)

unfoldable pub set_active_gcode_path_saved : World → Text → World × Result Bool
set_active_gcode_path_saved w p = save w (λ b. set_active_gcode_path b p)

unfoldable pub entry_at : Store → Text → Option Entry
entry_at s p = Map.lookup p s.entries

cleared : Option Job → Option Job
unfolding clear_job_diagnostics
cleared none = none
cleared (some j) = some (clear_job_diagnostics j)

unfoldable pub job_with : Store → ℕ → Option Job
unfolding cleared
job_with s i = cleared (find_job i s.jobs)

unfoldable pub all_jobs : Store → List Job
all_jobs s = map clear_job_diagnostics s.jobs

unfoldable pub active_gcode_path : Store → Text
active_gcode_path s = s.active

-- UpdateJob on an id that is not in the queue fails and changes nothing, the disk included.
pub update_job_missing :
    (w : World) (i : ℕ) (mutate : Job → Job)
    → find_job i w.store.jobs ≡ none
    → update_job_saved w i mutate ≡ (w, err (job_not_found i))
unfolding update_job_saved batch update_job
update_job_missing w i mutate h = rw (update_job_saved, batch, update_job, h) refl
