-- ===== src/Store/Lifecycle.antt =====
-- The life of a job in the queue, over the calls that `Op` names.
use makera_cnc_controller.Base.{
  ℕ, ◌≡◌, refl, ◌≢◌, inl, inr, Bool, true, false, some, List, [], ◌∷◌, ◌++◌, arith, ◌==◌,
  if◌then◌else◌, Option-cases,
}
use makera_cnc_controller.Store.{queued, running, done, failed, state_eq, Job}
use makera_cnc_controller.Store.Batch.{
  Batch, find_job, put_entry, set_entry_sync_if_match, set_entry_sync, set_entry_sync_if,
  delete_entry, delete_entry_if_sync, matching_queued_or_failed, retired, retire, discard_entry,
  discard_jobs, queued_upload_of, supersede_queued_uploads,
}
use makera_cnc_controller.Store.Jobs.{
  replace_job, enqueue, start_job, retry_job, prune_done_loop, prune_done_jobs, prune_failed_loop,
  prune_failed_jobs, set_active_gcode_path,
}
use makera_cnc_controller.Store.Ops.{
  Op, discards_entry, discards_jobs, supersedes_uploads, enqueues, updates_job, starts_job,
  retries_job, prunes_done, prunes_failed, apply,
}
use makera_cnc_controller.Store.Invariant.{find_job-id}

-- UpdateJob takes any mutation; the other calls move a job along fixed edges.
abbrev pub is_update : Op → Bool
is_update (updates_job i f h) = true
is_update _ = false

find_job-replace_ne :
    (i k : ℕ) (cp : Job) (js : List Job)
    → i ≢ k
    → cp.id ≡ k
    → find_job i (replace_job k cp js) ≡ find_job i js
unfolding find_job replace_job
find_job-replace_ne i k cp [] ne e = refl
find_job-replace_ne i k cp (j ∷ js) ne e = ground (arith, find_job-replace_ne i k cp js ne e)

pub find_job-replace_self :
    (k : ℕ) (cp j : Job) (js : List Job)
    → cp.id ≡ k
    → find_job k js ≡ some j
    → find_job k (replace_job k cp js) ≡ some cp
unfolding find_job replace_job
find_job-replace_self k cp j [] e f = cc
find_job-replace_self k cp j (x ∷ js) e f = ground (arith, find_job-replace_self k cp j js e)

pub find_job-append :
    (i : ℕ) (j : Job) (js ks : List Job) → find_job i js ≡ some j → find_job i (js ++ ks) ≡ some j
unfolding find_job
find_job-append i j [] ks f = cc
find_job-append i j (x ∷ js) ks f = ground (arith, find_job-append i j js ks)

pub find_job-retire :
    (i now : ℕ) (test : Job → Bool) (j : Job) (js : List Job)
    → find_job i js ≡ some j
    → find_job i (retire now test js) ≡ some (if test j then retired now j else j)
unfolding find_job retire
find_job-retire i now test j [] f = cc
find_job-retire i now test j (x ∷ js) f = ground (arith, find_job-retire i now test j js)

find_job-prune_done :
    (i cutoff : ℕ) (j : Job) (js : List Job)
    → state_eq j.state done ≡ false
    → find_job i js ≡ some j
    → find_job i (prune_done_loop cutoff js).0 ≡ some j
unfolding find_job prune_done_loop
find_job-prune_done i cutoff j [] s f = cc
find_job-prune_done i cutoff j (x ∷ js) s f = ground (arith, find_job-prune_done i cutoff j js s)

find_job-prune_failed :
    (i n : ℕ) (j : Job) (js : List Job)
    → state_eq j.state failed ≡ false
    → find_job i js ≡ some j
    → find_job i (prune_failed_loop n js).0 ≡ some j
unfolding find_job prune_failed_loop
find_job-prune_failed i n j [] s f = cc
find_job-prune_failed i n j (x ∷ js) s f = ground (arith, find_job-prune_failed i n j js s)

pub find_job-replace :
    (i k : ℕ) (cp j x : Job) (js : List Job)
    → cp.id ≡ k
    → find_job i js ≡ some j
    → find_job k js ≡ some x
    → find_job i (replace_job k cp js) ≡ some (if i == k then cp else j)
find_job-replace i k cp j x js e f g =
    ground (arith, find_job-replace_ne i k cp js, find_job-replace_self k cp x js e g)

find_job-retire_same :
    (i now : ℕ) (test : Job → Bool) (j : Job) (js : List Job)
    → test j ≡ false
    → find_job i js ≡ some j
    → find_job i (retire now test js) ≡ some j
find_job-retire_same i now test j js t f = rw (find_job-retire i now test j js f, t)

-- A running job belongs to the sync engine: every call that `Op` names but UpdateJob leaves it in the queue as it
-- is. Among these calls is not replaceModel, with which Restore puts another queue in the place of this one.
pub running_kept :
    (op : Op) (b : Batch) (i : ℕ) (j : Job)
    → is_update op ≡ false
    → find_job i b.store.jobs ≡ some j
    → j.state ≡ running
    → find_job i (apply op b).store.jobs ≡ some j
unfolding apply put_entry set_entry_sync set_entry_sync_if set_entry_sync_if_match delete_entry
    delete_entry_if_sync discard_entry discard_jobs supersede_queued_uploads enqueue
    set_active_gcode_path prune_done_jobs prune_failed_jobs start_job retry_job
    matching_queued_or_failed queued_upload_of
running_kept (updates_job k f h) b i j u e r = cc
running_kept (discards_entry p kinds) b i j u e r = ground (
  arith,
  find_job-retire_same i b.now (matching_queued_or_failed p kinds) j b.store.jobs (ground arith) e,
)
running_kept (discards_jobs p kinds) b i j u e r =
    find_job-retire_same i b.now (matching_queued_or_failed p kinds) j b.store.jobs (ground arith) e
running_kept (supersedes_uploads p) b i j u e r =
    find_job-retire_same i b.now (queued_upload_of p) j b.store.jobs (ground arith) e
running_kept (enqueues x) b i j u e r = find_job-append i j b.store.jobs _ e
running_kept (starts_job k) b i j u e r = elim (Option-cases (find_job k b.store.jobs)) [
  | inl g ↦ ground arith
  | inr (x, g) ↦ ground (
    arith,
    find_job-replace i k (record x { state = running; updated_at = b.now }) j x b.store.jobs
        (find_job-id k b.store.jobs x g) e g,
  )
]
running_kept (retries_job k) b i j u e r = elim (Option-cases (find_job k b.store.jobs)) [
  | inl g ↦ ground arith
  | inr (x, g) ↦ ground (
    arith,
    find_job-replace i k
        (record x { state = queued; attempts = 0; last_error = []; updated_at = b.now }) j x
        b.store.jobs (find_job-id k b.store.jobs x g) e g,
  )
]
running_kept (prunes_done c) b i j u e r =
    ground (arith, find_job-prune_done i c j b.store.jobs (ground arith) e)
running_kept (prunes_failed n) b i j u e r =
    ground (arith, find_job-prune_failed i n j b.store.jobs (ground arith) e)
running_kept _ b i j u e r = ground arith
