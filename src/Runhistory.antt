-- ===== src/Runhistory.antt =====
-- internal/runhistory/runhistory.go: the runs of the machine, derived from its reports and the lines sent to it. The
-- floating-point numbers of a report are tokens, which the code compares for equality and copies. A time that
-- is before the start of a run counts as the start, where the code has a negative duration.
pub mod Runs
pub mod Halted
pub mod Bounds
use makera_cnc_controller.Base.{
  ℕ, zero, suc, ◌+◌, ◌-◌, ◌*◌, ◌/◌, Bool, true, false, not, ◌&&◌, ◌||◌, Option, none, some, List,
  [], ◌∷◌, ◌++◌, map, ltb, leb, ◌==◌, if◌then◌else◌, length, keep_if, is_some,
}
use makera_cnc_controller.Base.Text.{Text, codes, text_eq, has_prefix, trim_space}
use makera_cnc_controller.Base.{drop}
use makera_cnc_controller.Machine.{
  State, unknown, idle, run, hold, alarm, sleep, home, pause, wait, tool,
}
use makera_cnc_controller.Attention.{HaltReason, state_eq}
use makera_cnc_controller.Gcodelog.{last_n}
use mathlib.Core.List.{reverse}

abbrev pub max_commands_per_run : ℕ
max_commands_per_run = 40

-- Ten minutes, in nanoseconds.
abbrev pub pending_file_hint_max_age : ℕ
pending_file_hint_max_age = 600000000000

-- A triple of a report: its current value, target and override.
pub record Triple : Type 0 where
  pub current : ℕ
  pub target : ℕ
  pub override : ℕ

pub record Report : Type 0 where
  pub state : State
  pub observed_at : ℕ
  pub progress : List ℕ
  pub feed : Option Triple
  pub spindle : Option Triple
  pub halt_reason : Option HaltReason
  pub raw : Text

pub record StateTransition : Type 0 where
  pub time : ℕ
  pub state : State
  pub raw : Text

pub record AlarmEvent : Type 0 where
  pub time : ℕ
  pub halt_reason : Option HaltReason
  pub raw : Text

pub record OverrideEvent : Type 0 where
  pub time : ℕ
  pub value : Triple

pub record CommandEvent : Type 0 where
  pub time : ℕ
  pub source : Text
  pub text : Text

-- `id` is an int64 as its 64 bits: a number from 2 ^ 63 on is negative.
pub record Run : Type 0 where
  pub id : ℕ
  pub source : Text
  pub file : Text
  pub started_at : ℕ
  pub ended_at : Option ℕ
  pub duration_ms : ℕ
  pub is_active : Bool
  pub start_state : State
  pub end_state : State
  pub state_transitions : List StateTransition
  pub alarms : List AlarmEvent
  pub feed_overrides : List OverrideEvent
  pub spindle_overrides : List OverrideEvent
  pub commands : List CommandEvent
  pub progress : List ℕ

-- `hint_at` is 0 where there is no hint.
pub record PendingFile : Type 0 where
  pub hint_source : Text
  pub hint_file : Text
  pub hint_at : ℕ

abbrev no_hint : PendingFile
no_hint = record { hint_source = []; hint_file = []; hint_at = 0 }

-- `active` is the index of the run that the pointer names.
pub record History : Type 0 where
  pub cap : ℕ
  pub runs : List Run
  pub next_id : ℕ
  pub active : Option ℕ
  pub last_state : State
  pub last_feed : Option Triple
  pub last_spin : Option Triple
  pub pending : PendingFile

unfoldable pub new_history : ℕ → History
new_history capacity = record {
  cap = if capacity == 0 then 100 else capacity;
  runs = [];
  next_id = 1;
  active = none;
  last_state = unknown;
  last_feed = none;
  last_spin = none;
  pending = no_hint;
}

unfoldable pub change_run : ℕ → (Run → Run) → List Run → List Run
change_run i f [] = []
change_run zero f (r ∷ rs) = f r ∷ rs
change_run (suc i) f (r ∷ rs) = r ∷ change_run i f rs

-- A write through h.active.
unfoldable pub change_active : History → (Run → Run) → History
unfolding change_run
change_active h f = elim h.active [ none ↦ h | some i ↦ record h { runs = change_run i f h.runs } ]

lower : Text → Text
lower [] = []
lower (c ∷ s) = (if leb 65 c && leb c 90 then c + 32 else c) ∷ lower s

strip_quotes : Text → Text
strip_quotes [] = []
strip_quotes (c ∷ s) = if c == 34 || c == 39 then strip_quotes s else c ∷ s

-- strings.Trim(s, `"'`)
trim_quotes : Text → Text
unfolding strip_quotes
trim_quotes s = reverse (strip_quotes (reverse (strip_quotes s)))

-- The file that a command plays, or the empty text.
unfoldable pub extract_run_file : Text → Text
unfolding lower trim_quotes
extract_run_file text =
    let trimmed = trim_space text in
    let small = lower trimmed in
    if has_prefix (codes "play ") small
    then trim_quotes (trim_space (drop 5 trimmed))
    else if has_prefix (codes "m32 ") small || has_prefix (codes "m23 ") small
    then trim_quotes (trim_space (drop 4 trimmed))
    else []

take_file : Text → Text → Run → Run
take_file file source r = if text_eq r.file [] then record r { file = file; source = source } else r

add_command : CommandEvent → Run → Run
add_command c r = record r { commands = last_n max_commands_per_run (r.commands ++ (c ∷ [])) }

-- ObserveLine, for a line to the machine; the time of the line, or else of the clock.
unfoldable pub observe_line : History → ℕ → Text → Text → History
unfolding change_active take_file add_command
observe_line h now source text =
    let file = extract_run_file text in
    let hinted = record h {
      pending = record { hint_source = source; hint_file = file; hint_at = now };
    } in
    let named = if text_eq file [] then h else change_active hinted (take_file file source) in
    change_active named (add_command (record { time = now; source = source; text = text }))
