-- ===== src/Store/Transitions.antt =====
-- The state machine of a queued job, as a relation, and the calls that follow it.
use makera_cnc_controller.Base.{
  ℕ, suc, ◌<◌, ◌≡◌, refl, sym, ◌∙◌, inl, inr, Bool, true, false, ◌||◌, none, some, List, [], ◌∷◌,
  arith, ◌==◌, if◌then◌else◌, Bool-cases, Option-cases,
}
use makera_cnc_controller.Base.Map
use makera_cnc_controller.Store.{JobState, queued, running, done, failed, state_eq, Job}
use makera_cnc_controller.Store.Batch.{
  Batch, find_job, put_entry, set_entry_sync_if_match, set_entry_sync, set_entry_sync_if,
  delete_entry, delete_entry_if_sync, matching_queued_or_failed, retired, retire, discard_entry,
  discard_jobs, queued_upload_of, supersede_queued_uploads,
}
use makera_cnc_controller.Store.Jobs.{
  replace_job, enqueue, start_job, retry_job, prune_done_loop, prune_done_jobs, prune_failed_loop,
  prune_failed_jobs, set_active_gcode_path,
}
use makera_cnc_controller.Store.Ops.{
  Op, discards_entry, discards_jobs, supersedes_uploads, enqueues, updates_job, starts_job,
  retries_job, prunes_done, prunes_failed, apply,
}
use makera_cnc_controller.Store.Invariant.{WellFormed, Chain, find_job-id}
use makera_cnc_controller.Store.Lifecycle.{
  is_update, find_job-append, find_job-retire, find_job-replace, find_job-replace_self,
}

infix 40 ◌⟶◌
pub data ◌⟶◌ : JobState → JobState → Type 0 where
  stay : {s : JobState} → s ⟶ s
  start : queued ⟶ running
  give_up : queued ⟶ done
  forget : failed ⟶ done
  retry : failed ⟶ queued

find_job_above : (i lo next : ℕ) (js : List Job) → Chain lo js next → i < lo → find_job i js ≡ none
unfolding find_job
find_job_above i lo next [] c h = refl
find_job_above i lo next (j ∷ js) c h = ground (arith, find_job_above i (suc j.id) next js c.1)

-- Pruning a queue with rising ids shows no other job under an id.
prune_done_finds :
    (i cutoff lo next : ℕ) (j : Job) (js : List Job)
    → Chain lo js next
    → find_job i (prune_done_loop cutoff js).0 ≡ some j
    → find_job i js ≡ some j
unfolding find_job prune_done_loop
prune_done_finds i cutoff lo next j [] c f = f
prune_done_finds i cutoff lo next j (x ∷ js) c f = ground (
  arith,
  prune_done_finds i cutoff (suc x.id) next j js c.1,
  find_job_above i (suc x.id) next js c.1,
)

prune_failed_finds :
    (i n lo next : ℕ) (j : Job) (js : List Job)
    → Chain lo js next
    → find_job i (prune_failed_loop n js).0 ≡ some j
    → find_job i js ≡ some j
unfolding find_job prune_failed_loop
prune_failed_finds i n lo next j [] c f = f
prune_failed_finds i n lo next j (x ∷ js) c f = ground (
  arith,
  prune_failed_finds i n (suc x.id) next j js c.1,
  find_job_above i (suc x.id) next js c.1,
)

retired-⟶ :
    (j : Job) (now : ℕ) (b : Bool)
    → (b ≡ true → (state_eq j.state queued || state_eq j.state failed) ≡ true)
    → j.state ⟶ (if b then retired now j else j).state
retired-⟶ j now false h = stay
retired-⟶ j now true h = go j.state (h refl)
  where
    go : (s : JobState) → (state_eq s queued || state_eq s failed) ≡ true → s ⟶ done
    go queued e = give_up
    go running e = cc
    go done e = cc
    go failed e = forget

-- The states of one job before and after, where both are known to be found under its id.
same-⟶ : (j j' : Job) → some j ≡ some j' → j.state ⟶ j'.state
same-⟶ j j' e = let p : j.state ≡ j'.state = ground arith in rw p stay

retire-⟶ :
    (b : Batch) (test : Job → Bool) (i : ℕ) (j j' : Job)
    → (test j ≡ true → (state_eq j.state queued || state_eq j.state failed) ≡ true)
    → find_job i b.store.jobs ≡ some j
    → find_job i (retire b.now test b.store.jobs) ≡ some j'
    → j.state ⟶ j'.state
retire-⟶ b test i j j' h e f =
    let p : (if test j then retired b.now j else j).state ≡ j'.state =
      ground (arith, find_job-retire i b.now test j b.store.jobs e) in
    rw (← p) (retired-⟶ j b.now (test j) h)

-- What a write of one job leaves under each id.
write-⟶ :
    (i k : ℕ) (cp j j' x : Job) (js : List Job)
    → cp.id ≡ k
    → x.state ⟶ cp.state
    → find_job i js ≡ some j
    → find_job k js ≡ some x
    → find_job i (replace_job k cp js) ≡ some j'
    → j.state ⟶ j'.state
write-⟶ i k cp j j' x js c t e g f = elim (Bool-cases (i == k)) [
  | inl same ↦
      let p : x.state ≡ j.state = ground arith in
      let q : cp.state ≡ j'.state = ground (arith, find_job-replace i k cp j x js c e g) in
      rw (← p, ← q) t
  | inr other ↦ same-⟶ j j' (ground (arith, find_job-replace i k cp j x js c e g))
]

start-⟶ : (s : JobState) → state_eq s queued ≡ true → s ⟶ running
start-⟶ queued e = start
start-⟶ running e = cc
start-⟶ done e = cc
start-⟶ failed e = cc

retry-⟶ : (s : JobState) → state_eq s failed ≡ true → s ⟶ queued
retry-⟶ failed e = retry
retry-⟶ running e = cc
retry-⟶ done e = cc
retry-⟶ queued e = cc

start_job-⟶ :
    (b : Batch) (i k : ℕ) (j j' : Job)
    → find_job i b.store.jobs ≡ some j
    → find_job i (start_job b k).0.store.jobs ≡ some j'
    → j.state ⟶ j'.state
unfolding start_job
start_job-⟶ b i k j j' e f = elim (Option-cases (find_job k b.store.jobs)) [
  | inl g ↦ same-⟶ j j' (ground arith)
  | inr (x, g) ↦ elim (Bool-cases (state_eq x.state queued)) [
    | inl q ↦
        write-⟶ i k (record x { state = running; updated_at = b.now }) j j' x b.store.jobs
          (find_job-id k b.store.jobs x g) (start-⟶ x.state q) e g (ground arith)
    | inr q ↦ same-⟶ j j' (ground arith)
  ]
]

retry_job-⟶ :
    (b : Batch) (i k : ℕ) (j j' : Job)
    → find_job i b.store.jobs ≡ some j
    → find_job i (retry_job b k).0.store.jobs ≡ some j'
    → j.state ⟶ j'.state
unfolding retry_job
retry_job-⟶ b i k j j' e f = elim (Option-cases (find_job k b.store.jobs)) [
  | inl g ↦ same-⟶ j j' (ground arith)
  | inr (x, g) ↦ elim (Bool-cases (state_eq x.state failed)) [
    | inl q ↦
        write-⟶ i k (record x { state = queued; attempts = 0; last_error = []; updated_at = b.now })
          j j' x b.store.jobs (find_job-id k b.store.jobs x g) (retry-⟶ x.state q) e g
          (ground arith)
    | inr q ↦ same-⟶ j j' (ground arith)
  ]
]

-- In a well-formed store every call that `Op` names but UpdateJob moves each job that it leaves in the queue along an
-- edge: from queued to running or done, from failed to queued or done, and from nowhere else. Among these calls
-- is not replaceModel, with which Restore puts another queue in the place of this one.
pub apply_moves :
    (op : Op) (b : Batch) (i : ℕ) (j j' : Job)
    → WellFormed b.store
    → is_update op ≡ false
    → find_job i b.store.jobs ≡ some j
    → find_job i (apply op b).store.jobs ≡ some j'
    → j.state ⟶ j'.state
unfolding apply put_entry set_entry_sync set_entry_sync_if set_entry_sync_if_match delete_entry
    delete_entry_if_sync discard_entry discard_jobs supersede_queued_uploads enqueue
    set_active_gcode_path prune_done_jobs prune_failed_jobs matching_queued_or_failed
    queued_upload_of
apply_moves (updates_job k g h) b i j j' v u e f = cc
apply_moves (discards_entry p kinds) b i j j' v u e f =
    elim (Option-cases (Map.lookup p b.store.entries)) [
      | inl g ↦ same-⟶ j j' (ground arith)
      | inr (x, g) ↦
          retire-⟶ b (matching_queued_or_failed p kinds) i j j' (λ t. ground arith) e (ground arith)
    ]
apply_moves (discards_jobs p kinds) b i j j' v u e f =
    retire-⟶ b (matching_queued_or_failed p kinds) i j j' (λ t. ground arith) e f
apply_moves (supersedes_uploads p) b i j j' v u e f =
    retire-⟶ b (queued_upload_of p) i j j' (λ t. ground arith) e f
apply_moves (enqueues x) b i j j' v u e f =
    same-⟶ j j' (sym (find_job-append i j b.store.jobs _ e) ∙ f)
apply_moves (starts_job k) b i j j' v u e f = start_job-⟶ b i k j j' e f
apply_moves (retries_job k) b i j j' v u e f = retry_job-⟶ b i k j j' e f
apply_moves (prunes_done c) b i j j' v u e f =
    same-⟶ j j' (ground (arith, prune_done_finds i c 1 b.store.next_job j' b.store.jobs v.ids))
apply_moves (prunes_failed n) b i j j' v u e f =
    same-⟶ j j' (ground (arith, prune_failed_finds i n 1 b.store.next_job j' b.store.jobs v.ids))
apply_moves _ b i j j' v u e f = same-⟶ j j' (ground arith)

-- A job that was started is not started again: of two calls in a row, the second is refused and
-- changes nothing.
start_job_once :
    (b : Batch) (i : ℕ)
    → (start_job b i).2 ≡ true
    → let again = start_job (start_job b i).0 i in
      (again.2 ≡ false) × (again.0 ≡ (start_job b i).0) × (again.1 ≡ (start_job b i).1)
unfolding start_job
start_job_once b i h = elim (Option-cases (find_job i b.store.jobs)) [
  | inl g ↦ ground arith
  | inr (x, g) ↦ ground (
    arith,
    find_job-replace_self i (record x { state = running; updated_at = b.now }) x b.store.jobs
        (find_job-id i b.store.jobs x g) g,
  )
]
