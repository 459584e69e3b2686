-- ===== src/Store/Commit/Opening.antt =====
-- internal/store/store.go: Open, Snapshot and Restore, a batch that does not fail by itself, and the reading of the queue.
use makera_cnc_controller.Base.{
  ℕ, ◌+◌, Option, none, some, List, [], ◌∷◌, map, ltb, leb, ◌==◌, if◌then◌else◌, keep_if,
}
use makera_cnc_controller.Base.Text.{Text, trim_space}
use makera_cnc_controller.Store.{Entry, queued, state_eq, Job, reset_event, Store, Result, ok}
use makera_cnc_controller.Store.Batch.{Batch, commit_event, normalize_loaded_entry}
use makera_cnc_controller.Store.Commit.{Persisted, World, batch}

unfoldable pub normalize_loaded : List (Text × Entry) → List (Text × Entry)
normalize_loaded [] = []
normalize_loaded ((k, e) ∷ m) = (k, normalize_loaded_entry e) ∷ normalize_loaded m

-- What os.ReadFile gives.
pub data ReadFile : Type 0 where
  absent unreadable : ReadFile
  holds : List ℕ → ReadFile

empty_store : Text → Store
empty_store path = record {
  path = path;
  entries = [];
  jobs = [];
  next_job = 1;
  active = [];
  subs = [];
  next_sub = 0;
}

loaded : Text → Option Persisted → Option Store
unfolding normalize_loaded
loaded path none = none
loaded path (some p) = some (record {
  path = path;
  entries = normalize_loaded p.entries;
  jobs = p.jobs;
  next_job = if ltb 0 p.next_job then p.next_job else 1;
  active = trim_space p.active_gcode_path;
  subs = [];
  next_sub = 0;
})

-- Open; none is an error. `decode` is json.Unmarshal of a document.
unfoldable pub open_store : (List ℕ → Option Persisted) → Text → ReadFile → Option Store
unfolding empty_store loaded
open_store decode path absent = some (empty_store path)
open_store decode path unreadable = none
open_store decode path (holds bytes) = loaded path (decode bytes)

-- clearJobDiagnostics.
unfoldable pub clear_job_diagnostics : Job → Job
clear_job_diagnostics j = record j {
  blocked_reason = [];
  blocked_message = [];
  blocked_until = none;
}

-- Snapshot, the copy for a backup.
unfoldable pub snapshot : Store → Persisted
unfolding clear_job_diagnostics
snapshot s = record {
  entries = s.entries;
  jobs = map clear_job_diagnostics s.jobs;
  next_job = s.next_job;
  active_gcode_path = s.active;
}

-- The loop of Restore over the jobs: `next` rises above every id.
unfoldable pub next_job_above : ℕ → List Job → ℕ
next_job_above next [] = next
next_job_above next (j ∷ js) = next_job_above (if leb next j.id then j.id + 1 else next) js

-- The batch of Restore with replaceModel; the map of the snapshot has each key once.
unfoldable pub replace_model : Batch → Persisted → Batch
unfolding normalize_loaded clear_job_diagnostics next_job_above
replace_model b p =
    let next = next_job_above p.next_job p.jobs in
    let s : Store = record b.store {
      entries = normalize_loaded p.entries;
      jobs = map clear_job_diagnostics p.jobs;
      next_job = if next == 0 then 1 else next;
      active = trim_space p.active_gcode_path;
    } in
    commit_event b s reset_event

unfoldable pub restore : World → Persisted → World × Result (Unit {0})
unfolding batch replace_model
restore w p = batch w (λ b. (replace_model b p, ok tt))

-- A batch of one call that returns no error of its own: the wrappers on Store.
unfoldable pub save : {A : Type 0} → World → (Batch → Batch × A) → World × Result A
unfolding batch
save w f = batch w (λ b. let (b', a) = f b in (b', ok a))

unfoldable pub queued_jobs : Store → List Job
queued_jobs s = keep_if (λ j. state_eq j.state queued) s.jobs

first_job : List Job → Option Job
first_job [] = none
first_job (j ∷ js) = some j

unfoldable pub next_queued : Store → Option Job
unfolding first_job queued_jobs
next_queued s = first_job (queued_jobs s)
