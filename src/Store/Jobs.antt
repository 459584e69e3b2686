-- ===== src/Store/Jobs.antt =====
-- internal/store/store.go: the operations of `Batch` on the job queue.
use makera_cnc_controller.Base.{
  ℕ, suc, ◌+◌, Bool, true, false, not, ◌&&◌, Option, none, some, List, [], ◌∷◌, ◌++◌, ltb, ◌==◌,
  any, if◌then◌else◌,
}
use makera_cnc_controller.Base.Text.{Text, text_eq, has_prefix, trim_space, trim_suffix_slash}
use makera_cnc_controller.Store.{
  Store, Entry, Job, queued, running, done, failed, job_event, active_gcode_event, reset_event,
  no_job, state_eq,
}
use makera_cnc_controller.Store.Batch.{Batch, set_jobs, find_job, commit_event}

-- The write through a pointer into the queue: the first job with the id is replaced.
unfoldable pub replace_job : ℕ → Job → List Job → List Job
replace_job i k [] = []
replace_job i k (j ∷ js) = if j.id == i then k ∷ js else j ∷ replace_job i k js

unfoldable pub write_job : Batch → ℕ → Job → Batch
write_job b i cp = commit_event b (set_jobs b.store (replace_job i cp b.store.jobs)) (job_event cp)

unfoldable pub get_job : Batch → ℕ → Option Job
get_job b i = find_job i b.store.jobs

unfoldable pub list_jobs : Batch → List Job
list_jobs b = b.store.jobs

unfoldable pub enqueue : Batch → Job → Batch × Job
enqueue b j =
    let cp : Job = record j {
      id = b.store.next_job;
      state = queued;
      created_at = b.now;
      updated_at = b.now;
    } in
    let s : Store = record b.store {
      jobs = b.store.jobs ++ (cp ∷ []);
      next_job = b.store.next_job + 1;
    } in
    (commit_event b s (job_event cp), cp)

-- HasDescendants: the prefix ends in one slash, whether or not `path` does.
unfoldable pub has_descendants : Batch → Text → Bool
has_descendants b path =
    let prefix = trim_suffix_slash path ++ (b'/' ∷ []) in
    any (λ (p : Text × Entry). has_prefix prefix p.0) b.store.entries

unfoldable pub update_job : Batch → ℕ → (Job → Job) → Batch × Option Job
unfolding write_job
update_job b i mutate = elim (find_job i b.store.jobs) [
  | none ↦ (b, none)
  | some j ↦ let cp : Job = record (mutate j) { updated_at = b.now } in (write_job b i cp, some cp)
]

unfoldable pub start_job : Batch → ℕ → Batch × Job × Bool
unfolding write_job
start_job b i = elim (find_job i b.store.jobs) [
  | none ↦ (b, no_job, false)
  | some j ↦
      let cp : Job = record j { state = running; updated_at = b.now } in
      if not (state_eq j.state queued) then (b, j, false) else (write_job b i cp, cp, true)
]

unfoldable pub retry_job : Batch → ℕ → Batch × Job × Bool
unfolding write_job
retry_job b i = elim (find_job i b.store.jobs) [
  | none ↦ (b, no_job, false)
  | some j ↦
      let cp : Job = record j {
        state = queued;
        attempts = 0;
        last_error = [];
        updated_at = b.now;
      } in
      if not (state_eq j.state failed) then (b, j, false) else (write_job b i cp, cp, true)
]

-- The loop of PruneDoneJobs, with the count of jobs removed.
unfoldable pub prune_done_loop : ℕ → List Job → List Job × ℕ
prune_done_loop cutoff [] = ([], 0)
prune_done_loop cutoff (j ∷ js) =
    let (kept, removed) = prune_done_loop cutoff js in
    if state_eq j.state done && ltb j.updated_at cutoff
    then (kept, suc removed)
    else (j ∷ kept, removed)

abbrev reset_jobs : Batch → List Job → Batch
reset_jobs b js = commit_event b (set_jobs b.store js) reset_event

unfoldable pub prune_done_jobs : Batch → ℕ → Batch × ℕ
unfolding prune_done_loop
prune_done_jobs b cutoff =
    let (kept, removed) = prune_done_loop cutoff b.store.jobs in
    if removed == 0 then (b, 0) else (reset_jobs b kept, removed)

-- `counts` of PruneFailedJobs: a missing path counts 0.
unfoldable pub count_of : Text → List (Text × ℕ) → ℕ
count_of p [] = 0
count_of p ((q, n) ∷ m) = if text_eq q p then n else count_of p m

-- The loop of PruneFailedJobs, from the newest job to the oldest: the jobs kept, in queue order,
-- the counts and the number removed.
unfoldable pub prune_failed_loop : ℕ → List Job → List Job × List (Text × ℕ) × ℕ
prune_failed_loop max_per_path [] = ([], [], 0)
prune_failed_loop max_per_path (j ∷ js) =
    let (kept, counts, removed) = prune_failed_loop max_per_path js in
    if not (state_eq j.state failed)
    then (j ∷ kept, counts, removed)
    else if ltb (count_of j.path counts) max_per_path
    then (j ∷ kept, (j.path, count_of j.path counts + 1) ∷ counts, removed)
    else (kept, counts, suc removed)

unfoldable pub prune_failed_jobs : Batch → ℕ → Batch × ℕ
unfolding prune_failed_loop
prune_failed_jobs b max_per_path =
    let (kept, counts, removed) = prune_failed_loop max_per_path b.store.jobs in
    if removed == 0 then (b, 0) else (reset_jobs b kept, removed)

unfoldable pub set_active_gcode_path : Batch → Text → Batch × Bool
set_active_gcode_path b path =
    let p = trim_space path in
    let s : Store = record b.store { active = p } in
    if text_eq b.store.active p then (b, false) else (commit_event b s (active_gcode_event p), true)
