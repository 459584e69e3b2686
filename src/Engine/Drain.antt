-- ===== src/Engine/Drain.antt =====
-- internal/synceng/engine.go: `drain`, one pass over the queued jobs, and the recovery at start-up
-- (internal/synceng/reconcile.go). The pass yields what became of each job of the queue.
use makera_cnc_controller.Base.{
  Bool, not, ◌&&◌, ◌||◌, none, some, List, [], ◌∷◌, if◌then◌else◌, any,
}
use makera_cnc_controller.Base.Text.{Text, text_eq}
use makera_cnc_controller.Store.{running, failed, state_eq, Job, Result}
use makera_cnc_controller.Store.Batch.{Batch}
use makera_cnc_controller.Store.Jobs.{update_job}
use makera_cnc_controller.Store.Commit.{World}
use makera_cnc_controller.Store.Commit.Opening.{save, queued_jobs}
use makera_cnc_controller.Engine.{
  Engine, should_attempt, Fault, Reply, denied, not_idle, Attempt, blocked, ran,
}
use makera_cnc_controller.Engine.Record.{run_job}

-- A set of paths.
abbrev pub is_deferred : Text → List Text → Bool
is_deferred p deferred = any (text_eq p) deferred

unfoldable pub job_touches_deferred_path : Job → List Text → Bool
job_touches_deferred_path job deferred =
    is_deferred job.path deferred
    || (not (text_eq job.dest_path []) && is_deferred job.dest_path deferred)

unfoldable pub defer_job_paths : Job → List Text → List Text
defer_job_paths job deferred =
    if text_eq job.dest_path [] then job.path ∷ deferred else job.dest_path ∷ job.path ∷ deferred

-- What a pass did with a job: it was held behind a deferred path, it is backing off, it was attempted,
-- or the pass had ended.
pub data Fate : Type 0 where
  held waiting unreached : Fate
  attempted : Attempt → Fate

abbrev pub none_reached : List Job → List (Job × Fate)
none_reached [] = []
none_reached (j ∷ js) = (j, unreached) ∷ none_reached js

-- Where the replies run out the machine is not available.
abbrev pub first_reply : List Reply → Reply
first_reply [] = denied not_idle
first_reply (r ∷ rs) = r

abbrev pub later_replies : List Reply → List Reply
later_replies [] = []
later_replies (r ∷ rs) = rs

abbrev told : Job → Fate → World × List (Job × Fate) → World × List (Job × Fate)
told job fate (w, fates) = (w, (job, fate) ∷ fates)

-- The loop over the queue, for any way to run a job.
module _ (run : World → Job → Reply → World × Attempt) (e : Engine) where
  unfoldable pub drain_loop : World → List Text → List Job → List Reply → World × List (Job × Fate)
  drain_loop w deferred [] replies = (w, [])
  drain_loop w deferred (job ∷ jobs) replies =
      let skip = told job held (drain_loop w deferred jobs replies) in
      let wait = told job waiting (drain_loop w (defer_job_paths job deferred) jobs replies) in
      let (w', outcome) = run w job (first_reply replies) in
      let stop = told job (attempted blocked) (w', none_reached jobs) in
      let fine =
        told job (attempted (ran none)) (drain_loop w' deferred jobs (later_replies replies)) in
      let bad = drain_loop w' (defer_job_paths job deferred) jobs (later_replies replies) in
      if job_touches_deferred_path job deferred
      then skip
      else if not (should_attempt e w.clock job)
      then wait
      else elim outcome [
        | blocked ↦ stop
        | ran none ↦ fine
        | ran (some f) ↦ told job (attempted (ran (some f))) bad
      ]

module _ (describe : Fault → Text) (is_gcode : Text → Bool) (in_cache : Text → Bool) where
  unfoldable pub drain : Engine → World → List Reply → World × List (Job × Fate)
  unfolding drain_loop run_job queued_jobs
  drain e w replies =
      drain_loop (run_job describe is_gcode in_cache e) e w [] (queued_jobs w.store) replies

abbrev pub interrupted : Text → Job → Job
interrupted msg j = record j { state = failed; last_error = msg }

-- The loop of recoverInterruptedJobs over ListJobs.
unfoldable pub recover_loop : Text → List Job → Batch → Batch
recover_loop msg [] b = b
recover_loop msg (j ∷ js) b =
    recover_loop msg js
      (if not (state_eq j.state running) then b else (update_job b j.id (interrupted msg)).0)

unfoldable pub recover_interrupted_jobs : World → Text → World × Result (Unit {0})
unfolding recover_loop
recover_interrupted_jobs w msg = save w (λ b. (recover_loop msg b.store.jobs b, tt))
