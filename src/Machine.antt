-- ===== src/Machine.antt =====
-- internal/machine/state.go: the run state of the machine and the tracker of its latest report.
-- The tracker is modelled with the state of the latest report only.
pub mod Halts
pub mod Status
pub mod Reported
use makera_cnc_controller.Base.{
  ℕ, ◌+◌, Bool, true, false, Option, none, some, List, [], ◌∷◌, leb, ◌==◌, if◌then◌else◌,
}
use makera_cnc_controller.Base.Text.{Text, codes, text_eq, trim_space}

pub data State : Type 0 where
  unknown idle run hold alarm sleep home pause wait tool : State

unfoldable pub can_run_file_ops : State → Bool
can_run_file_ops idle = true
can_run_file_ops _ = false

abbrev pub named : Text → List (Text × State) → State
named s [] = unknown
named s ((name, st) ∷ names) = if text_eq s name then st else named s names

abbrev pub state_names : List (Text × State)
state_names =
    (codes "Idle", idle)
    ∷ (codes "Run", run)
    ∷ (codes "Hold", hold)
    ∷ (codes "Alarm", alarm)
    ∷ (codes "Sleep", sleep)
    ∷ (codes "Home", home)
    ∷ (codes "Pause", pause)
    ∷ (codes "Wait", wait)
    ∷ (codes "Tool", tool)
    ∷ []

unfoldable pub normalize_state : Text → State
normalize_state s = named (trim_space s) state_names

-- `observed_at` is 0 before the first report.
pub record Tracker : Type 0 where
  pub state : State
  pub observed_at : ℕ

unfoldable pub new_tracker : Tracker
new_tracker = record { state = unknown; observed_at = 0 }

-- Observe, and ObserveStatusPayload on a report that is recognised.
unfoldable pub observe : ℕ → State → Tracker → Tracker
observe now s t = record { state = s; observed_at = now }

-- ObserveStatusPayload: `none` is a payload that is no status report.
unfoldable pub observe_status_payload : ℕ → Option State → Tracker → Tracker × Bool
unfolding observe
observe_status_payload now none t = (t, false)
observe_status_payload now (some s) t = (observe now s t, true)

-- The state of Snapshot.
unfoldable pub snapshot_state : Tracker → State
snapshot_state t = if t.observed_at == 0 then unknown else t.state

unfoldable pub fresh : ℕ → ℕ → Tracker → Bool
fresh now max_age t = if t.observed_at == 0 then false else leb now (t.observed_at + max_age)
