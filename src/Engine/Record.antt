-- ===== src/Engine/Record.antt =====
-- internal/synceng/engine.go: how the outcome of an attempt is recorded in the queue and the catalog.
-- `describe` stands for the Error methods, whose texts are formatted by Go's library.
use makera_cnc_controller.Base.{
  ℕ, ◌+◌, Bool, true, false, Option, none, some, List, [], ◌∷◌, leb, if◌then◌else◌,
}
use makera_cnc_controller.Base.Text.{Text}
use makera_cnc_controller.Store.{
  SyncState, pending_upload, uploading, pending_delete, deleting, pending_rename, error, JobKind,
  job_upload, job_delete, job_rename, job_mkdir, job_other, queued, done, failed, Job,
  job_not_found, Result, ok, err,
}
use makera_cnc_controller.Store.Batch.{Batch, set_entry_sync_if_match, set_entry_sync_if}
use makera_cnc_controller.Store.Jobs.{update_job, start_job}
use makera_cnc_controller.Store.Commit.{World, batch}
use makera_cnc_controller.Store.Commit.Opening.{save}
use makera_cnc_controller.Engine.{
  Engine, Fault, store_fault, completed, Reply, denied, unreachable, served, Attempt, blocked, ran,
  machine_fault,
}
use makera_cnc_controller.Engine.Execute.{upload_entry_matches, deleting_states, execute}

unfoldable pub failed_entry_sync_state : JobKind → Bool → SyncState
failed_entry_sync_state kind true = error
failed_entry_sync_state job_upload false = pending_upload
failed_entry_sync_state job_mkdir false = pending_upload
failed_entry_sync_state job_delete false = pending_delete
failed_entry_sync_state job_rename false = pending_rename
failed_entry_sync_state job_other false = error

abbrev all_pending : List SyncState
all_pending = pending_upload ∷ pending_delete ∷ pending_rename ∷ uploading ∷ deleting ∷ []

unfoldable pub set_failed_entry_sync : JobKind → Batch → Job → SyncState → Text → Batch
set_failed_entry_sync job_upload b job state msg =
    (set_entry_sync_if_match b job.path state msg (upload_entry_matches job state)).0
set_failed_entry_sync job_delete b job state msg =
    (set_entry_sync_if b job.path state msg deleting_states).0
set_failed_entry_sync job_rename b job state msg =
    (set_entry_sync_if b job.path state msg (pending_rename ∷ [])).0
set_failed_entry_sync job_mkdir b job state msg =
    (set_entry_sync_if b job.path state msg (pending_upload ∷ [])).0
set_failed_entry_sync job_other b job state msg =
    (set_entry_sync_if b job.path state msg all_pending).0

-- `if _, ok := b.UpdateJob(…); !ok { return error }`, and what follows it.
abbrev pub update_then : Batch → ℕ → (Job → Job) → (Batch → Batch) → Batch × Result (Unit {0})
update_then b i mutate next =
    let (b', r) = update_job b i mutate in
    elim r [ none ↦ (b', err (job_not_found i)) | some _ ↦ (next b', ok tt) ]

abbrev pub succeed : Job → Job
succeed j = record j { state = done; attempts = j.attempts + 1; last_error = [] }

unfoldable pub record_success : World → Job → World × Result (Unit {0})
record_success w job = batch w (λ b. update_then b job.id succeed (λ b'. b'))

abbrev pub is_terminal : Engine → Job → Bool
is_terminal e job = leb e.max_attempts (job.attempts + 1)

abbrev pub fail_once : Engine → Job → Text → Job → Job
fail_once e job msg j = record j {
  attempts = job.attempts + 1;
  last_error = msg;
  state = if is_terminal e job then failed else queued;
}

unfoldable pub record_failure : Engine → World → Job → Text → World × Result (Unit {0})
unfolding set_failed_entry_sync failed_entry_sync_state
record_failure e w job msg = batch w (λ b. update_then b job.id (fail_once e job msg) (λ b'.
    set_failed_entry_sync job.kind b' job (failed_entry_sync_state job.kind (is_terminal e job))
      msg))

abbrev pub fail_completed : Text → Job → Job
fail_completed msg j = record j { attempts = j.attempts + 1; state = failed; last_error = msg }

-- The text wraps the error's own; `describe` gives it whole.
unfoldable pub record_machine_completed_failure : World → Job → Text → World × Result (Unit {0})
unfolding set_failed_entry_sync
record_machine_completed_failure w job msg = batch w (λ b.
    update_then b job.id (fail_completed msg)
      (λ b'. set_failed_entry_sync job.kind b' job error msg))

module _ (describe : Fault → Text) where
  unfoldable pub record_fault : Engine → World → Job → Fault → World
  unfolding record_failure record_machine_completed_failure
  record_fault e w job (completed f) =
      (record_machine_completed_failure w job (describe (completed f))).0
  record_fault e w job f = (record_failure e w job (describe f)).0

  module _ (is_gcode : Text → Bool) (in_cache : Text → Bool) where
    -- The result of the callback, once it has run.
    unfoldable pub settle_attempt : Engine → Job → World × Option Fault → World × Attempt
    unfolding record_fault record_success
    settle_attempt e job (w, some f) = (record_fault e w job f, ran (some f))
    settle_attempt e job (w, none) =
        let (w', r) = record_success w job in
        elim r [
          | ok _ ↦ (w', ran none)
          | err x ↦ (
            record_fault e w' job (completed (store_fault x)),
            ran (some (completed (store_fault x))),
          )
        ]

    -- runJob. recordRunning is StartJob, and a job that is no longer queued is passed over.
    unfoldable pub run_job : Engine → World → Job → Reply → World × Attempt
    unfolding settle_attempt execute
    run_job e w job (denied d) = (w, blocked)
    run_job e w job (unreachable t) =
        (record_fault e w job (machine_fault t), ran (some (machine_fault t)))
    run_job e w job (served ops outcome) =
        let (w', r) = save w (λ b. let (b', j, started) = start_job b job.id in (b', started)) in
        let attempted = settle_attempt e job (execute is_gcode in_cache w' job ops outcome) in
        elim r [
          | err x ↦ (record_fault e w' job (store_fault x), ran (some (store_fault x)))
          | ok false ↦ (w', ran none)
          | ok true ↦ attempted
        ]
