-- ===== src/Engine/Recovery.antt =====
-- The queue after a start-up: internal/synceng/reconcile.go, recoverInterruptedJobs.
use makera_cnc_controller.Base.{
  ℕ, suc, ◌≤◌, ◌<◌, ◌≡◌, some, refl, sym, ap, ◌∙◌, inl, inr, Bool-cases, if◌then◌else◌, List, [],
  ◌∷◌, ◌++◌, map, append_assoc, arith, All, All-append,
}
use makera_cnc_controller.Base.Text.{Text}
use makera_cnc_controller.Store.{Job, running, failed, state_eq, ok}
use makera_cnc_controller.Store.Batch.{Batch, find_job}
use makera_cnc_controller.Store.Jobs.{replace_job, update_job, write_job}
use makera_cnc_controller.Store.Commit.{World, batch, new_batch}
use makera_cnc_controller.Store.Commit.Opening.{save}
use makera_cnc_controller.Store.Invariant.{Chain, WellFormed}
use makera_cnc_controller.Store.Transactions.{publish_all-eq}
use makera_cnc_controller.Engine.Drain.{recover_loop, recover_interrupted_jobs, interrupted}

abbrev AllBelow : ℕ → List Job → Type 0
AllBelow lo js = All (λ (j : Job). j.id < lo) js

AllBelow-mono : (lo hi : ℕ) (js : List Job) → lo ≤ hi → AllBelow lo js → AllBelow hi js
AllBelow-mono lo hi [] h a = tt
AllBelow-mono lo hi (j ∷ js) h a = (omega (arith, a.0), AllBelow-mono lo hi js h a.1)

AllBelow-snoc :
    (front : List Job) (j : Job) (hi : ℕ)
    → AllBelow hi front
    → j.id < hi
    → AllBelow hi (front ++ (j ∷ []))
AllBelow-snoc front j hi a h = All-append (λ (x : Job). x.id < hi) front (j ∷ []) a (h, tt)

find_job-behind :
    (front rest : List Job) (i : ℕ)
    → AllBelow i front
    → find_job i (front ++ rest) ≡ find_job i rest
unfolding find_job
find_job-behind [] rest i a = refl
find_job-behind (j ∷ front) rest i a =
    let p = a.0 in ground (arith, find_job-behind front rest i a.1)

replace_job-behind :
    (front rest : List Job) (i : ℕ) (k : Job)
    → AllBelow i front
    → replace_job i k (front ++ rest) ≡ front ++ replace_job i k rest
unfolding replace_job
replace_job-behind [] rest i k a = refl
replace_job-behind (j ∷ front) rest i k a =
    let p = a.0 in ground (arith, replace_job-behind front rest i k a.1)

find_job-head : (j : Job) (rest : List Job) → find_job j.id (j ∷ rest) ≡ some j
unfolding find_job
find_job-head j rest = ground arith

replace_job-head : (j k : Job) (rest : List Job) → replace_job j.id k (j ∷ rest) ≡ k ∷ rest
unfolding replace_job
replace_job-head j k rest = ground arith

-- What a restart makes of a job: one that was running has failed.
abbrev pub restarted : Text → ℕ → Job → Job
restarted msg now j =
    if state_eq j.state running
    then record j { state = failed; last_error = msg; updated_at = now }
    else j

update_job-behind :
    (b : Batch) (front rest : List Job) (j : Job) (f : Job → Job)
    → AllBelow j.id front
    → b.store.jobs ≡ front ++ (j ∷ rest)
    → ((update_job b j.id f).0.store.jobs ≡ front ++ (record (f j) { updated_at = b.now } ∷ rest))
      × ((update_job b j.id f).0.now ≡ b.now)
unfolding update_job write_job
update_job-behind b front rest j f a e =
    let k : Job = record (f j) { updated_at = b.now } in
    let p : find_job j.id b.store.jobs ≡ some j =
      rw e (find_job-behind front (j ∷ rest) j.id a ∙ find_job-head j rest) in
    let q : replace_job j.id k b.store.jobs ≡ front ++ (k ∷ rest) = rw e (
      replace_job-behind front (j ∷ rest) j.id k a
      ∙ ap (λ t. front ++ t) (replace_job-head j k rest)) in
    rw (update_job, p) (q, refl)

recover_loop-jobs :
    (msg : Text) (front js : List Job) (b : Batch) (lo next : ℕ)
    → Chain lo js next
    → AllBelow lo front
    → b.store.jobs ≡ front ++ js
    → (recover_loop msg js b).store.jobs ≡ front ++ map (restarted msg b.now) js
unfolding recover_loop
recover_loop-jobs msg front [] b lo next c a e = e
recover_loop-jobs msg front (j ∷ js) b lo next c a e =
    let below = AllBelow-mono lo j.id front c.0 a in
    let wider = AllBelow-mono j.id (suc j.id) front (omega arith) below in
    elim (Bool-cases (state_eq j.state running)) [
      | inl r ↦
          let u = update_job-behind b front js j (interrupted msg) below e in
          let k : Job = record (interrupted msg j) { updated_at = b.now } in
          let longer = AllBelow-snoc front k (suc j.id) wider (omega arith) in
          let b' = (update_job b j.id (interrupted msg)).0 in
          rw (r, recover_loop)
            (recover_loop-jobs msg (front ++ (k ∷ [])) js b' (suc j.id) next c.1 longer
                (u.0 ∙ sym (append_assoc front (k ∷ []) js))
              ∙ (ap (λ t. (front ++ (k ∷ [])) ++ map (restarted msg t) js) u.1
                  ∙ append_assoc front (k ∷ []) (map (restarted msg b.now) js)))
      | inr r ↦
          let longer = AllBelow-snoc front j (suc j.id) wider (omega arith) in
          rw (r, recover_loop)
            (recover_loop-jobs msg (front ++ (j ∷ [])) js b (suc j.id) next c.1 longer
                (e ∙ sym (append_assoc front (j ∷ []) js))
              ∙ append_assoc front (j ∷ []) (map (restarted msg b.now) js))
    ]

-- A start-up on a well-formed store that is persisted leaves the queue in order, with each job that was running failed, with the
-- message given and stamped, and every other job as it was.
pub recover_interrupted_jobs-restarted :
    (w : World) (msg : Text)
    → WellFormed w.store
    → (recover_interrupted_jobs w msg).1 ≡ ok tt
    → (recover_interrupted_jobs w msg).0.store.jobs ≡ map (restarted msg w.clock) w.store.jobs
unfolding recover_interrupted_jobs save batch
recover_interrupted_jobs-restarted w msg v h =
    let b = recover_loop msg w.store.jobs (new_batch w) in
    ground (
      arith,
      recover_loop-jobs msg [] w.store.jobs (new_batch w) 1 w.store.next_job v.ids tt refl,
      publish_all-eq b.store b.events,
    )
