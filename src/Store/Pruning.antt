-- ===== src/Store/Pruning.antt =====
-- What is taken out of the queue: pruning, discarding and superseding.
use makera_cnc_controller.Base.{
  ℕ, suc, ◌+◌, ◌≤◌, ◌≡◌, refl, Bool, not, ◌&&◌, List, [], ◌∷◌, arith, ltb, leb, if◌then◌else◌,
  length, keep_if,
}
use makera_cnc_controller.Base.Text.{Text, text_eq, text_eq_iff}
use makera_cnc_controller.Store.{done, failed, state_eq, Job}
use makera_cnc_controller.Store.Batch.{Batch}
use makera_cnc_controller.Store.Jobs.{
  prune_done_loop, prune_done_jobs, count_of, prune_failed_loop, prune_failed_jobs,
}

abbrev pub is_failed_of : Text → Job → Bool
is_failed_of p j = state_eq j.state failed && text_eq j.path p

abbrev pub count_if : (Job → Bool) → List Job → ℕ
count_if p [] = 0
count_if p (j ∷ js) = let n = count_if p js in if p j then suc n else n

-- The jobs to keep, told by the queue behind each: a failed job stays while fewer than `n` failed jobs
-- of its path are newer.
pub newest_failed : ℕ → List Job → List Job
newest_failed n [] = []
newest_failed n (j ∷ js) =
    if state_eq j.state failed && leb n (count_if (is_failed_of j.path) js)
    then newest_failed n js
    else j ∷ newest_failed n js

-- The counts of the loop stop at the limit.
counts-min :
    (n : ℕ) (p : Text) (js : List Job)
    → count_of p (prune_failed_loop n js).1
      ≡ (if ltb (count_if (is_failed_of p) js) n then count_if (is_failed_of p) js else n)
unfolding prune_failed_loop count_of
counts-min n p [] = ground arith
counts-min n p (j ∷ js) =
    ground (arith, counts-min n p js, counts-min n j.path js, text_eq_iff j.path p)

prune_failed-newest : (n : ℕ) (js : List Job) → (prune_failed_loop n js).0 ≡ newest_failed n js
unfolding prune_failed_loop newest_failed
prune_failed-newest n [] = refl
prune_failed-newest n (j ∷ js) = ground (arith, prune_failed-newest n js, counts-min n j.path js)

removed_count :
    (n : ℕ) (js : List Job)
    → length (prune_failed_loop n js).0 + (prune_failed_loop n js).2 ≡ length js
unfolding prune_failed_loop
removed_count n [] = omega arith
removed_count n (j ∷ js) = ground (arith, removed_count n js)

same_length : (n : ℕ) (js : List Job) → length (newest_failed n js) ≤ length js
unfolding newest_failed
same_length n [] = omega arith
same_length n (j ∷ js) = ground (arith, same_length n js)

newest_all :
    (n : ℕ) (js : List Job) → length (newest_failed n js) ≡ length js → newest_failed n js ≡ js
unfolding newest_failed
newest_all n [] e = refl
newest_all n (j ∷ js) e = ground (arith, newest_all n js, same_length n js)

-- PruneFailedJobs keeps exactly the jobs that are not failed and, of each path, the newest failed ones
-- up to the limit, in queue order, and reports how many it removed.
pub prune_failed_jobs-newest :
    (b : Batch) (n : ℕ)
    → ((prune_failed_jobs b n).0.store.jobs ≡ newest_failed n b.store.jobs)
      × (length (newest_failed n b.store.jobs) + (prune_failed_jobs b n).1 ≡ length b.store.jobs)
unfolding prune_failed_jobs
prune_failed_jobs-newest b n = ground (
  arith,
  prune_failed-newest n b.store.jobs,
  removed_count n b.store.jobs,
  newest_all n b.store.jobs,
)

count-newest :
    (n : ℕ) (p : Text) (js : List Job)
    → count_if (is_failed_of p) (newest_failed n js) ≤ count_if (is_failed_of p) js
unfolding newest_failed
count-newest n p [] = omega arith
count-newest n p (j ∷ js) = ground (arith, count-newest n p js)

pub newest_failed_bounds :
    (n : ℕ) (p : Text) (js : List Job) → count_if (is_failed_of p) (newest_failed n js) ≤ n
unfolding newest_failed
newest_failed_bounds n p [] = omega arith
newest_failed_bounds n p (j ∷ js) =
    ground (arith, newest_failed_bounds n p js, count-newest n p js, text_eq_iff j.path p)

newest_failed_live :
    (n : ℕ) (js : List Job)
    → keep_if (λ j. not (state_eq j.state failed)) (newest_failed n js)
      ≡ keep_if (λ j. not (state_eq j.state failed)) js
unfolding newest_failed
newest_failed_live n [] = refl
newest_failed_live n (j ∷ js) = ground (arith, newest_failed_live n js)

-- After PruneFailedJobs no path has more than the limit of failed jobs, and the jobs that are not
-- failed stand as before, in order.
pub prune_failed_jobs_bounds :
    (b : Batch) (n : ℕ) (p : Text)
    → let js = (prune_failed_jobs b n).0.store.jobs in
      (count_if (is_failed_of p) js ≤ n)
      × (keep_if (λ j. not (state_eq j.state failed)) js
          ≡ keep_if (λ j. not (state_eq j.state failed)) b.store.jobs)
prune_failed_jobs_bounds b n p =
    rw ((prune_failed_jobs-newest b n).0)
      (newest_failed_bounds n p b.store.jobs, newest_failed_live n b.store.jobs)

abbrev pub is_stale : ℕ → Job → Bool
is_stale cutoff j = state_eq j.state done && ltb j.updated_at cutoff

prune_done-keep :
    (cutoff : ℕ) (js : List Job)
    → (prune_done_loop cutoff js).0 ≡ keep_if (λ j. not (is_stale cutoff j)) js
unfolding prune_done_loop
prune_done-keep cutoff [] = refl
prune_done-keep cutoff (j ∷ js) = ground (arith, prune_done-keep cutoff js)

prune_done-count :
    (cutoff : ℕ) (js : List Job) → (prune_done_loop cutoff js).1 ≡ count_if (is_stale cutoff) js
unfolding prune_done_loop
prune_done-count cutoff [] = refl
prune_done-count cutoff (j ∷ js) = ground (arith, prune_done-count cutoff js)

nothing_stale :
    (cutoff : ℕ) (js : List Job)
    → count_if (is_stale cutoff) js ≡ 0
    → keep_if (λ j. not (is_stale cutoff j)) js ≡ js
nothing_stale cutoff [] e = refl
nothing_stale cutoff (j ∷ js) e = ground (arith, nothing_stale cutoff js)

-- PruneDoneJobs takes out the done jobs last updated before the cutoff and no other, keeps the order,
-- and reports how many there were.
pub prune_done_jobs-keep :
    (b : Batch) (cutoff : ℕ)
    → ((prune_done_jobs b cutoff).0.store.jobs
        ≡ keep_if (λ j. not (is_stale cutoff j)) b.store.jobs)
      × ((prune_done_jobs b cutoff).1 ≡ count_if (is_stale cutoff) b.store.jobs)
unfolding prune_done_jobs
prune_done_jobs-keep b cutoff = ground (
  arith,
  prune_done-keep cutoff b.store.jobs,
  prune_done-count cutoff b.store.jobs,
  nothing_stale cutoff b.store.jobs,
)
