-- ===== src/Attention.antt =====
-- internal/attention/attention.go: the events in which the machine needs a human. The floating-point numbers of a
-- report are tokens, which the code compares for equality and copies; path.Base is a parameter.
pub mod Observing
pub mod Marks
pub mod Writes
pub mod Episodes
use makera_cnc_controller.Base.{
  ℕ, zero, suc, ◌+◌, ◌-◌, Bool, true, false, not, ◌&&◌, ◌||◌, Option, none, some, List, [], ◌∷◌,
  ◌++◌, map, ltb, ◌==◌, if◌then◌else◌, length, drop, keep_if, is_some,
}
use mathlib.Core.List.{reverse}
use makera_cnc_controller.Base.Text.{Text, codes, text_eq}
use makera_cnc_controller.Machine.{
  State, unknown, idle, run, hold, alarm, sleep, home, pause, wait, tool,
}

pub data Kind : Type 0 where
  tool_change rotary_index paused waiting held alarmed : Kind

pub data ChangeKind : Type 0 where
  change_opened change_updated change_resolved : ChangeKind

pub record Marker : Type 0 where
  pub type_name : Text
  pub axis : Text
  pub target : Option ℕ
  pub operation : Text
  pub instruction : Text
  pub line : ℕ

pub record Context : Type 0 where
  pub job_path : Text
  pub marker : Option Marker

pub record ToolStatus : Type 0 where
  pub number : ℕ
  pub offset : ℕ
  pub target : Option ℕ

pub record HaltReason : Type 0 where
  pub code : ℕ
  pub message : Text
  pub recovery : Text
  pub severity : Text

-- The fields of a report that are looked at; `observed_at` is 0 for the zero time.
pub record Report : Type 0 where
  pub state : State
  pub observed_at : ℕ
  pub tool_status : Option ToolStatus
  pub halt_reason : Option HaltReason
  pub progress : List ℕ
  pub raw : Text

pub record Event : Type 0 where
  pub id : ℕ
  pub kind : Kind
  pub state : State
  pub job_path : Text
  pub job_name : Text
  pub started_at : ℕ
  pub resolved_at : Option ℕ
  pub is_active : Bool
  pub tool_status : Option ToolStatus
  pub halt_reason : Option HaltReason
  pub marker : Option Marker
  pub progress : List ℕ
  pub raw : Text

pub record Change : Type 0 where
  pub change : ChangeKind
  pub event : Event

-- A subscriber's channel, of capacity 32.
pub record Watcher : Type 0 where
  pub watch_id : ℕ
  pub pending : List Change

-- `active` is an index into the events, none for -1.
pub record Monitor : Type 0 where
  pub cap : ℕ
  pub events : List Event
  pub next_id : ℕ
  pub active : Option ℕ
  pub last_state : State
  pub subs : List Watcher
  pub next_sub : ℕ

unfoldable pub new_monitor : ℕ → Monitor
new_monitor capacity = record {
  cap = if capacity == 0 then 100 else capacity;
  events = [];
  next_id = 1;
  active = none;
  last_state = unknown;
  subs = [];
  next_sub = 0;
}

abbrev state_tag : State → ℕ
state_tag unknown = 0
state_tag idle = 1
state_tag run = 2
state_tag hold = 3
state_tag alarm = 4
state_tag sleep = 5
state_tag home = 6
state_tag pause = 7
state_tag wait = 8
state_tag tool = 9

-- `==` on states.
abbrev pub state_eq : State → State → Bool
state_eq a b = state_tag a == state_tag b

unfoldable pub plain_kind : State → Option Kind
plain_kind tool = some tool_change
plain_kind pause = some paused
plain_kind wait = some waiting
plain_kind hold = some held
plain_kind alarm = some alarmed
plain_kind _ = none

names_rotary : Option Marker → Bool
names_rotary none = false
names_rotary (some marker) = text_eq marker.type_name (codes "rotary_index")

-- kindForStatus; none is false.
unfoldable pub kind_for_status : State → Context → Option Kind
unfolding plain_kind names_rotary
kind_for_status st ctx =
    if names_rotary ctx.marker && (state_eq st wait || state_eq st pause)
    then some rotary_index
    else plain_kind st

in_pause : State → Bool
in_pause st = state_eq st wait || state_eq st pause || state_eq st hold

unfoldable pub continues_episode : Event → State → Kind → Bool
unfolding in_pause
continues_episode e st alarmed = false
continues_episode e st kind = elim e.kind [
  | alarmed ↦ false
  | rotary_index ↦ state_eq st wait || state_eq st pause
  | tool_change ↦ state_eq st tool || state_eq st wait || state_eq st pause
  | _ ↦ in_pause e.state && in_pause st
]

same_target : Option ℕ → Option ℕ → Bool
same_target none none = true
same_target (some a) (some b) = a == b
same_target _ _ = false

same_tool : Option ToolStatus → Option ToolStatus → Bool
unfolding same_target
same_tool none none = true
same_tool (some a) (some b) =
    (a.number == b.number) && (a.offset == b.offset) && same_target a.target b.target
same_tool _ _ = false

same_halt_reason : Option HaltReason → Option HaltReason → Bool
same_halt_reason none none = true
same_halt_reason (some a) (some b) =
    (a.code == b.code)
    && text_eq a.message b.message
    && text_eq a.recovery b.recovery
    && text_eq a.severity b.severity
same_halt_reason _ _ = false

unfoldable pub offer_change : Change → Watcher → Watcher
offer_change c w =
    if ltb (length w.pending) 32 then record w { pending = w.pending ++ (c ∷ []) } else w

unfoldable pub publish : Monitor → Change → Monitor
unfolding offer_change
publish m c = record m { subs = map (offer_change c) m.subs }

unfoldable pub event_at : ℕ → List Event → Option Event
event_at i [] = none
event_at zero (e ∷ es) = some e
event_at (suc i) (e ∷ es) = event_at i es

unfoldable pub write_at : ℕ → Event → List Event → List Event
write_at i e [] = []
write_at zero e (x ∷ es) = e ∷ es
write_at (suc i) e (x ∷ es) = x ∷ write_at i e es

-- The event that `m.active` points to.
unfoldable pub active_event : Monitor → Option Event
unfolding event_at
active_event m = elim m.active [ none ↦ none | some i ↦ event_at i m.events ]

unfoldable pub write_active : Monitor → Event → Monitor
unfolding write_at
write_active m e = elim m.active [ none ↦ m | some i ↦ record m { events = write_at i e m.events } ]
