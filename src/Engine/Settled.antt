-- ===== src/Engine/Settled.antt =====
-- What the queue shows of a job after an attempt at it.
use makera_cnc_controller.Base.{
  ℕ, ◌≡◌, refl, ap, ◌∙◌, ◌⊎◌, inl, inr, Bool-cases, not, ◌&&◌, Bool, true, false, Option, none,
  some, List, [], arith, if◌then◌else◌,
}
use makera_cnc_controller.Base.Text.{Text}
use makera_cnc_controller.Store.{
  SyncState, uploading, deleting, error, Entry, Result, err, kind_eq, JobKind, job_upload,
  job_delete, job_rename, job_mkdir, job_other, JobState, queued, running, done, failed, Job, ok,
}
use makera_cnc_controller.Store.Batch.{Batch, find_job, set_entry_sync_if}
use makera_cnc_controller.Store.Jobs.{update_job, start_job}
use makera_cnc_controller.Store.Ops.{Op}
use makera_cnc_controller.Store.Commit.{World, new_batch, batch}
use makera_cnc_controller.Store.Commit.Opening.{save}
use makera_cnc_controller.Store.Invariant.{find_job-id}
use makera_cnc_controller.Store.Lifecycle.{find_job-replace_self}
use makera_cnc_controller.Engine.{
  Engine, Fault, bad_cache_path, served, Attempt, blocked, ran, completed, machine_fault,
}
use makera_cnc_controller.Engine.Execute.{
  others, execute, execute_kind, execute_mkdir, execute_delete, execute_rename, execute_upload,
  removed_by_machine, uploaded, set_upload_job_sync, deleting_states,
}
use makera_cnc_controller.Engine.Record.{
  record_fault, record_success, record_failure, record_machine_completed_failure, run_job,
  settle_attempt, set_failed_entry_sync, failed_entry_sync_state, succeed, fail_once,
  fail_completed, update_then, is_terminal,
}
use makera_cnc_controller.Engine.Settling.{
  Shows, IsForeign, batch-Shows, save-Shows, execute-Shows, set_sync_if_match-jobs,
  set_sync_if-jobs,
}

set_failed-jobs :
    (k : JobKind) (b : Batch) (job : Job) (st : SyncState) (msg : Text)
    → (set_failed_entry_sync k b job st msg).store.jobs ≡ b.store.jobs
unfolding set_failed_entry_sync
set_failed-jobs job_upload b job st msg = set_sync_if_match-jobs b job.path st msg _
set_failed-jobs job_delete b job st msg = set_sync_if-jobs b job.path st msg _
set_failed-jobs job_rename b job st msg = set_sync_if-jobs b job.path st msg _
set_failed-jobs job_mkdir b job st msg = set_sync_if-jobs b job.path st msg _
set_failed-jobs job_other b job st msg = set_sync_if-jobs b job.path st msg _

update_job-found :
    (b : Batch) (i : ℕ) (j : Job) (f : Job → Job)
    → ((x : Job) → (f x).id ≡ x.id)
    → find_job i b.store.jobs ≡ some j
    → let k : Job = record (f j) { updated_at = b.now } in
      (find_job i (update_job b i f).0.store.jobs ≡ some k) × ((update_job b i f).1 ≡ some k)
unfolding update_job
update_job-found b i j f same h = ground (
  arith,
  find_job-replace_self i (record (f j) { updated_at = b.now }) j b.store.jobs
      (same j ∙ find_job-id i b.store.jobs j h) h,
)

update_then-found :
    (b : Batch) (i : ℕ) (j : Job) (f : Job → Job) (next : Batch → Batch)
    → ((x : Job) → (f x).id ≡ x.id)
    → ((b : Batch) → (next b).store.jobs ≡ b.store.jobs)
    → find_job i b.store.jobs ≡ some j
    → let k : Job = record (f j) { updated_at = b.now } in
      (find_job i (update_then b i f next).0.store.jobs ≡ some k)
      × ((update_then b i f next).1 ≡ ok tt)
update_then-found b i j f next same keeps h =
    ground (arith, update_job-found b i j f same h, keeps (update_job b i f).0)

-- UpdateJob on a job that is there, and a batch that goes on without touching the queue.
update_then-Shows :
    (w : World) (i : ℕ) (j : Job) (f : Job → Job) (next : Batch → Batch)
    → ((x : Job) → (f x).id ≡ x.id)
    → ((b : Batch) → (next b).store.jobs ≡ b.store.jobs)
    → Shows i j w
    → Shows i (record (f j) { updated_at = w.clock }) (batch w (λ b. update_then b i f next)).0
      × ((batch w (λ b. update_then b i f next)).1 ≡ ok tt)
update_then-Shows w i j f next same keeps s =
    let t = update_then-found (new_batch w) i j f next same keeps s.0 in
    batch-Shows i _ w (λ b. update_then b i f next) tt s.1 t.1 t.0

start_job-found :
    (b : Batch) (i : ℕ) (j : Job)
    → find_job i b.store.jobs ≡ some j
    → j.state ≡ queued
    → (find_job i (start_job b i).0.store.jobs
        ≡ some (record j { state = running; updated_at = b.now }))
      × ((start_job b i).2 ≡ true)
unfolding start_job
start_job-found b i j h q = ground (
  arith,
  find_job-replace_self i (record j { state = running; updated_at = b.now }) j b.store.jobs
      (find_job-id i b.store.jobs j h) h,
)

start-Shows :
    (w : World) (i : ℕ) (j : Job)
    → Shows i j w
    → j.state ≡ queued
    → let started = save w (λ b. let (b', x, done_) = start_job b i in (b', done_)) in
      Shows i (record j { state = running; updated_at = w.clock }) started.0 × (started.1 ≡ ok true)
start-Shows w i j s q =
    let t = start_job-found (new_batch w) i j s.0 q in
    let u = save-Shows i _ w (λ b. let (b', x, done_) = start_job b i in (b', done_)) s.1 t.0 in
    (u.0, u.1 ∙ ap ok t.1)

-- The job's state after an attempt, for the fault that ended it.
abbrev pub settled_state : Engine → Job → Option Fault → JobState
settled_state e job none = done
settled_state e job (some (completed f)) = failed
settled_state e job (some f) = if is_terminal e job then failed else queued

module _ (describe : Fault → Text) (e : Engine) (job : Job) where
  -- A fault that is not the machine's completion followed by a failed write.
  failure-Shows :
      (w : World) (j : Job) (msg : Text)
      → Shows job.id j w
      → Shows job.id
          (record (fail_once e job msg j) { updated_at = w.clock })
          (record_failure e w job msg).0
  unfolding record_failure
  failure-Shows w j msg s =
      let st = failed_entry_sync_state job.kind (is_terminal e job) in
      (update_then-Shows w job.id j (fail_once e job msg)
        (λ b. set_failed_entry_sync job.kind b job st msg) (λ x. refl)
        (λ b. set_failed-jobs job.kind b job st msg) s).0

  completed-Shows :
      (w : World) (j : Job) (msg : Text)
      → Shows job.id j w
      → Shows job.id
          (record (fail_completed msg j) { updated_at = w.clock })
          (record_machine_completed_failure w job msg).0
  unfolding record_machine_completed_failure
  completed-Shows w j msg s =
      (update_then-Shows w job.id j (fail_completed msg)
        (λ b. set_failed_entry_sync job.kind b job error msg) (λ x. refl)
        (λ b. set_failed-jobs job.kind b job error msg) s).0

  -- The queue shows the job in a given state.
  abbrev ShowsState : JobState → World → Type 0
  ShowsState st w = (k : Job) × (find_job job.id w.store.jobs ≡ some k) × (k.state ≡ st)

  fault-ShowsState :
      (w : World) (j : Job) (f : Fault)
      → Shows job.id j w
      → ShowsState (settled_state e job (some f)) (record_fault describe e w job f)
  unfolding record_fault
  fault-ShowsState w j (completed f) s =
      (_, (completed-Shows w j (describe (completed f)) s).0, refl)
  fault-ShowsState w j (machine_fault t) s =
      (_, (failure-Shows w j (describe (machine_fault t)) s).0, refl)
  fault-ShowsState w j f s = (_, (failure-Shows w j (describe f) s).0, refl)

  -- The record_success of a job that the queue shows.
  success-ShowsState :
      (w : World) (j : Job)
      → Shows job.id j w
      → ShowsState done (record_success w job).0 × ((record_success w job).1 ≡ ok tt)
  unfolding record_success
  success-ShowsState w j s =
      let t = update_then-Shows w job.id j succeed (λ b. b) (λ x. refl) (λ b. refl) s in
      ((_, t.0.0, refl), t.1)

  module _ (is_gcode : Text → Bool) (in_cache : Text → Bool) where
    abbrev fault_of : Attempt → Option Fault
    fault_of blocked = none
    fault_of (ran f) = f

    settle-ShowsState :
        (x : World × Option Fault) (j : Job)
        → Shows job.id j x.0
        → let r = settle_attempt describe is_gcode in_cache e job x in
          ShowsState (settled_state e job x.1) r.0 × (r.1 ≡ ran x.1)
    unfolding settle_attempt
    settle-ShowsState (w, some f) j s = (fault-ShowsState w j f s, refl)
    settle-ShowsState (w, none) j s =
        let t = success-ShowsState w j s in rw (t.1, settle_attempt) (t.0, refl)

    -- The store once the job is marked as running.
    abbrev pub started : World → World
    started w = (save w (λ b. let (b', x, started) = start_job b job.id in (b', started))).0

    -- Another upload of the path has come since, so that this one is passed over.
    abbrev pub Overtaken : World → Type 0
    Overtaken w = (job.kind ≡ job_upload) × ((set_upload_job_sync w job uploading []).1 ≡ ok none)

    abbrev Failing : World → World × Option Fault → Type 0
    Failing w r = ((f : Fault) × (r.1 ≡ some f)) ⊎ Overtaken w

    delete-Failing :
        (w : World) (ops : List Op) (t : Text) → Failing w (execute_delete w job ops (some t))
    unfolding execute_delete removed_by_machine
    delete-Failing w ops t =
        step (save w (λ b. set_entry_sync_if b job.path deleting [] deleting_states)).1 refl
      where
        step :
            (r : Result (Option Entry))
            → (save w (λ b. set_entry_sync_if b job.path deleting [] deleting_states)).1 ≡ r
            → Failing w (execute_delete w job ops (some t))
        step (err x) eq = rw (eq, execute_delete) (inl (_, refl))
        step (ok o) eq = rw (eq, execute_delete) (inl (_, refl))

    upload-Failing :
        (w : World) (ops : List Op) (t : Text)
        → job.kind ≡ job_upload
        → Failing w (execute_upload is_gcode in_cache w job ops (some t))
    unfolding execute_upload uploaded
    upload-Failing w ops t kind = step (set_upload_job_sync w job uploading []).1 refl
      where
        w' : World
        w' = (set_upload_job_sync w job uploading []).0

        pick :
            (b : Bool) (x y : World × Option Fault)
            → ((f : Fault) × (x.1 ≡ some f))
            → ((f : Fault) × (y.1 ≡ some f))
            → (f : Fault) × ((if b then x else y).1 ≡ some f)
        pick true x y p q = p
        pick false x y p q = q

        step :
            (r : Result (Option Entry))
            → (set_upload_job_sync w job uploading []).1 ≡ r
            → Failing w (execute_upload is_gcode in_cache w job ops (some t))
        step (err x) eq = rw (eq, execute_upload) (inl (_, refl))
        step (ok none) eq = inr (kind, eq)
        step (ok (some x)) eq =
            rw (eq, execute_upload)
              (inl (
                pick (not (in_cache job.cache_path)) (w', some bad_cache_path)
                  (others w' ops, some (machine_fault t)) (_, refl) (_, refl)))

    kind-Failing :
        (k : JobKind) (w : World) (ops : List Op) (t : Text)
        → job.kind ≡ k
        → Failing w (execute_kind is_gcode in_cache k w job ops (some t))
    unfolding execute_kind execute_mkdir execute_rename
    kind-Failing job_mkdir w ops t e = inl (_, refl)
    kind-Failing job_delete w ops t e = delete-Failing w ops t
    kind-Failing job_rename w ops t e = inl (_, refl)
    kind-Failing job_upload w ops t e = upload-Failing w ops t e
    kind-Failing job_other w ops t e = inl (_, refl)

    -- An attempt that the machine answers with an error ends in a fault, but for an upload that is passed over.
    execute-Failing :
        (w : World) (ops : List Op) (t : Text)
        → Failing w (execute is_gcode in_cache w job ops (some t))
    unfolding execute
    execute-Failing w ops t = elim (Bool-cases (is_gcode job.path)) [
      | inr n ↦ rw n (inl (_, refl))
      | inl y ↦ elim (Bool-cases (kind_eq job.kind job_rename && not (is_gcode job.dest_path))) [
        | inl b ↦ rw (y, b) (inl (_, refl))
        | inr b ↦ rw (y, b) (kind-Failing job.kind w ops t refl)
      ]
    ]

    answer-Failing :
        (w : World) (ops : List Op) (outcome : Option Text)
        → (outcome ≡ none) ⊎ Failing w (execute is_gcode in_cache w job ops outcome)
    answer-Failing w ops none = inl refl
    answer-Failing w ops (some t) = inr (execute-Failing w ops t)

    -- A queued job that is attempted while every flush succeeds, and whose machine operation ends in any way while
    -- others make any of the calls that `Op` names but UpdateJob, is not left running: it is done if no fault ended the
    -- attempt, failed after its last attempt, and queued again after any other fault. No fault means that the
    -- machine did not answer with an error, or that it was an upload which has been overtaken.
    pub run_job_settles :
        (w : World) (j : Job) (ops : List Op) (outcome : Option Text)
        → w.ios ≡ []
        → find_job job.id w.store.jobs ≡ some j
        → j.state ≡ queued
        → IsForeign ops
        → let r = run_job describe is_gcode in_cache e w job (served ops outcome) in
          (f : Option Fault) × (r.1 ≡ ran f)
          × (k : Job) × (find_job job.id r.0.store.jobs ≡ some k)
          × (k.state ≡ settled_state e job f)
          × ((outcome ≡ none) ⊎ ((g : Fault) × (f ≡ some g)) ⊎ Overtaken (started w))
    unfolding run_job
    run_job_settles w j ops outcome oks h q foreign =
        let t = start-Shows w job.id j (h, oks) q in
        let w' = (save w (λ b. let (b', x, started) = start_job b job.id in (b', started))).0 in
        let x = execute is_gcode in_cache w' job ops outcome in
        let s = execute-Shows job.id _ refl job ops foreign is_gcode in_cache w' outcome t.0 in
        let u = settle-ShowsState x _ s in
        rw (t.1, run_job) (x.1, u.1, u.0.0, u.0.1, u.0.2, answer-Failing w' ops outcome)
