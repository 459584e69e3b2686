-- ===== src/Runhistory/Runs.antt =====
-- internal/runhistory/runhistory.go: how reports begin, change and end runs, and what is done with the history of runs.
use makera_cnc_controller.Base.{
  ℕ, suc, ◌%◌, ◌^◌, ◌+◌, ◌-◌, ◌/◌, Bool, true, false, not, ◌&&◌, ◌||◌, Option, none, some, List, [],
  ◌∷◌, ◌++◌, ltb, leb, ◌==◌, if◌then◌else◌, length, keep_if, is_some,
}
use makera_cnc_controller.Base.Text.{Text, codes, text_eq}
use makera_cnc_controller.Machine.{unknown, idle, alarm, sleep}
use makera_cnc_controller.Attention.{HaltReason, state_eq}
use makera_cnc_controller.Gcodelog.{last_n, above, number_behind}
use mathlib.Core.List.{reverse}
use makera_cnc_controller.Runhistory.{
  pending_file_hint_max_age, Triple, Report, AlarmEvent, OverrideEvent, Run, no_hint, History,
  change_active,
}

unfoldable pub starts_run : History → Report → ℕ → Bool
starts_run h st now =
    if state_eq st.state idle || state_eq st.state unknown
    then false
    else if ltb 0 (length st.progress)
    then true
    else not (text_eq h.pending.hint_file [])
      && not (h.pending.hint_at == 0)
      && leb (now - h.pending.hint_at) pending_file_hint_max_age

unfoldable pub ends_run : Report → Bool
ends_run st =
    state_eq st.state idle
    || state_eq st.state sleep
    || state_eq st.state alarm
    || state_eq st.state unknown

unfoldable pub add_transition : Report → ℕ → Run → Run
add_transition st now r = record r {
  state_transitions =
      r.state_transitions ++ (record { time = now; state = st.state; raw = st.raw } ∷ []);
}

controller_source : Text
controller_source = codes "controller"

unfoldable pub start_run : History → Report → ℕ → History
unfolding add_transition controller_source
start_run h st now =
    let stale =
      not (h.pending.hint_at == 0) && ltb pending_file_hint_max_age (now - h.pending.hint_at) in
    let pending = if stale then no_hint else h.pending in
    let r : Run = record {
      id = h.next_id;
      source = if text_eq pending.hint_source [] then controller_source else pending.hint_source;
      file = pending.hint_file;
      started_at = now;
      ended_at = none;
      duration_ms = 0;
      is_active = true;
      start_state = st.state;
      end_state = unknown;
      state_transitions = [];
      alarms = [];
      feed_overrides = [];
      spindle_overrides = [];
      commands = [];
      progress = [];
    } in
    let runs = last_n h.cap (h.runs ++ (add_transition st now r ∷ [])) in
    record h {
      runs = runs;
      next_id = (h.next_id + 1) % 2 ^ 64;
      active = some (length runs - 1);
      last_state = st.state;
      last_feed = none;
      last_spin = none;
      pending = pending;
    }

-- The code of the last alarm, if it has one.
last_code : List AlarmEvent → Option ℕ
last_code [] = none
last_code (a ∷ []) = elim a.halt_reason [ none ↦ none | some reason ↦ some reason.code ]
last_code (a ∷ b ∷ alarms) = last_code (b ∷ alarms)

same_code : Option ℕ → Option HaltReason → Bool
same_code (some c) (some reason) = c == reason.code
same_code _ _ = false

unfoldable pub add_alarm : Report → ℕ → Run → Run
unfolding last_code same_code
add_alarm st now r = if same_code (last_code r.alarms) st.halt_reason then r else record r {
  alarms = r.alarms ++ (record { time = now; halt_reason = st.halt_reason; raw = st.raw } ∷ []);
}

-- tripleChanged and spindleChanged, for a value that was reported.
triple_changed : Option Triple → Triple → Bool
triple_changed none v = true
triple_changed (some a) v = not (a.target == v.target) || not (a.override == v.override)

override_events : Option Triple → Option Triple → ℕ → List OverrideEvent
unfolding triple_changed
override_events last none now = []
override_events last (some v) now =
    if triple_changed last v then record { time = now; value = v } ∷ [] else []

last_value : Option Triple → Option Triple → Option Triple
unfolding triple_changed
last_value last none = last
last_value last (some v) = if triple_changed last v then some v else last

unfoldable pub update_run : History → Report → ℕ → Run → Run
unfolding add_transition add_alarm override_events
update_run h st now r =
    let timed : Run = record r {
      duration_ms = (now - r.started_at) / 1000000;
      progress = st.progress;
    } in
    let moved =
      if not (state_eq h.last_state st.state) then add_transition st now timed else timed in
    let alarmed = if state_eq st.state alarm then add_alarm st now moved else moved in
    record alarmed {
      feed_overrides = alarmed.feed_overrides ++ override_events h.last_feed st.feed now;
      spindle_overrides = alarmed.spindle_overrides ++ override_events h.last_spin st.spindle now;
    }

unfoldable pub update_active_run : History → Report → ℕ → History
unfolding change_active update_run last_value
update_active_run h st now = record (change_active h (update_run h st now)) {
  last_feed = last_value h.last_feed st.feed;
  last_spin = last_value h.last_spin st.spindle;
}

unfoldable pub end_run : History → Report → ℕ → History
unfolding change_active
end_run h st now =
    let ended : Run → Run = λ r. record r {
      is_active = false;
      end_state = st.state;
      ended_at = some now;
      duration_ms = (now - r.started_at) / 1000000;
    } in
    record (change_active h ended) { active = none; pending = no_hint }

unfoldable pub track_run : History → Report → ℕ → History
unfolding update_active_run end_run
track_run h st now =
    let updated = update_active_run h st now in
    if is_some h.active then if ends_run st then end_run updated st now else updated else h

-- ObserveStatus, at the time of the report, or else of the clock.
unfoldable pub observe_report : History → ℕ → Report → History
unfolding track_run start_run starts_run
observe_report h clock st =
    let now = if st.observed_at == 0 then clock else st.observed_at in
    let started = if not (is_some h.active) && starts_run h st now then start_run h st now else h in
    record (track_run started st now) { last_state = st.state }

unfoldable pub recent_runs : History → List Run
recent_runs h = reverse h.runs

unfoldable pub snapshot_runs : History → List Run
snapshot_runs h = h.runs

unfoldable pub clear : History → History
clear h = record h {
  runs = [];
  next_id = 1;
  active = none;
  last_state = unknown;
  last_feed = none;
  last_spin = none;
  pending = no_hint;
}

unfoldable pub is_unattributed_short_motion : Run → Bool
is_unattributed_short_motion r =
    not r.is_active && text_eq r.file [] && (length r.progress == 0) && leb r.duration_ms 5000

max_id : ℕ → List Run → ℕ
max_id m [] = m
max_id m (r ∷ rs) = max_id (if above m r.id then r.id else m) rs

-- The last run that is active, from the index `i` on.
unfoldable pub last_active : ℕ → Option ℕ → List Run → Option ℕ
last_active i found [] = found
last_active i found (r ∷ rs) = last_active (suc i) (if r.is_active then some i else found) rs

unfoldable pub replace_runs : History → List Run → History
unfolding is_unattributed_short_motion max_id last_active
replace_runs h runs =
    let kept = keep_if (λ r. not (is_unattributed_short_motion r)) (last_n h.cap runs) in
    record h {
      runs = kept;
      next_id = number_behind (max_id 0 kept);
      active = last_active 0 none kept;
    }
