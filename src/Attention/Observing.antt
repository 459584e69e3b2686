-- ===== src/Attention/Observing.antt =====
-- internal/attention/attention.go: the calls that observe a report, take a snapshot and subscribe.
use makera_cnc_controller.Base.{
  ℕ, ◌+◌, ◌-◌, Bool, true, false, not, ◌&&◌, ◌||◌, Option, none, some, List, [], ◌∷◌, ◌++◌, ltb,
  ◌==◌, if◌then◌else◌, length, drop, keep_if, is_some,
}
use mathlib.Core.List.{reverse}
use makera_cnc_controller.Base.Text.{Text, text_eq}
use makera_cnc_controller.Attention.{
  Kind, rotary_index, change_opened, change_updated, change_resolved, Context, Report, Event,
  Monitor, state_eq, kind_for_status, continues_episode, same_tool, same_halt_reason, publish,
  active_event, write_active,
}

module _ (base : Text → Text) where
  unfoldable pub job_name_of : Text → Text
  job_name_of p = if text_eq p [] then [] else base p

  -- The details that a report adds to an event, and whether there are any.
  unfoldable pub add_details : Event → Report → Context → Event × Bool
  unfolding job_name_of same_tool same_halt_reason
  add_details e st ctx =
      let named = text_eq e.job_path [] && not (text_eq ctx.job_path []) in
      let tooled = not (same_tool e.tool_status st.tool_status) && is_some st.tool_status in
      let halted = not (same_halt_reason e.halt_reason st.halt_reason) && is_some st.halt_reason in
      let marked = not (is_some e.marker) && is_some ctx.marker in
      let quoted = text_eq e.raw [] && not (text_eq st.raw []) in
      (
        record e {
          job_path = if named then ctx.job_path else e.job_path;
          job_name = if named then job_name_of ctx.job_path else e.job_name;
          tool_status = if tooled then st.tool_status else e.tool_status;
          halt_reason = if halted then st.halt_reason else e.halt_reason;
          marker = if marked then ctx.marker else e.marker;
          kind = if marked then rotary_index else e.kind;
          raw = if quoted then st.raw else e.raw;
        },
        named || tooled || halted || marked || quoted,
      )

  -- updateActiveLocked, on the event that is active.
  unfoldable pub update_active : Monitor → Event → Report → Context → Monitor × Bool
  unfolding add_details write_active
  update_active m e st ctx =
      let (e', changed) = add_details e st ctx in
      if state_eq e.state st.state then (write_active m e', changed) else (m, false)

  -- A report of the state that was last reported.
  unfoldable pub repeat_state : Monitor → Report → Context → Monitor
  unfolding update_active active_event publish
  repeat_state m st ctx = elim (active_event m) [
    | none ↦ m
    | some e ↦
        let (m', changed) = update_active m e st ctx in
        let after = (add_details e st ctx).0 in
        if changed then publish m' (record { change = change_updated; event = after }) else m'
  ]

  unfoldable pub continue_episode : Monitor → Event → Kind → Report → Context → Monitor
  unfolding update_active publish
  continue_episode m e kind st ctx =
      let turned : Event = record e {
        state = st.state;
        kind = elim kind [ rotary_index ↦ rotary_index | _ ↦ e.kind ];
      } in
      let after = (add_details turned st ctx).0 in
      publish
        (record (update_active (write_active m turned) turned st ctx).0 { last_state = st.state })
        (record { change = change_updated; event = after })

  unfoldable pub resolve_active : Monitor → Event → ℕ → Monitor
  unfolding write_active publish
  resolve_active m e now =
      let resolved : Event = record e { is_active = false; resolved_at = some now } in
      record (publish (write_active m resolved)
        (record { change = change_resolved; event = resolved })) { active = none }

  unfoldable pub open_event : Monitor → Kind → Report → Context → ℕ → Monitor
  unfolding job_name_of publish
  open_event m kind st ctx now =
      let e : Event = record {
        id = m.next_id;
        kind = kind;
        state = st.state;
        job_path = ctx.job_path;
        job_name = job_name_of ctx.job_path;
        started_at = now;
        resolved_at = none;
        is_active = true;
        tool_status = st.tool_status;
        halt_reason = st.halt_reason;
        marker = ctx.marker;
        progress = st.progress;
        raw = st.raw;
      } in
      let events = m.events ++ (e ∷ []) in
      let recent =
        if ltb m.cap (length events) then drop (length events - m.cap) events else events in
      publish
        (record m { next_id = m.next_id + 1; events = recent; active = some (length recent - 1) })
        (record { change = change_opened; event = e })

  -- A report of another state that begins no episode or a new one; `e` is the event that is active.
  unfoldable pub change_state :
      Monitor → Option Event → Option Kind → Report → Context → ℕ → Monitor
  unfolding resolve_active open_event
  change_state m active kind st ctx now =
      let resolved : Monitor = elim active [ none ↦ m | some e ↦ resolve_active m e now ] in
      let moved : Monitor = record resolved { last_state = st.state } in
      elim kind [ none ↦ moved | some k ↦ open_event moved k st ctx now ]

  unfoldable pub observe_state :
      Monitor → Option Event → Option Kind → Report → Context → ℕ → Monitor
  unfolding continue_episode change_state
  observe_state m (some e) (some kind) st ctx now =
      if continues_episode e st.state kind
      then continue_episode m e kind st ctx
      else change_state m (some e) (some kind) st ctx now
  observe_state m none kind st ctx now = change_state m none kind st ctx now
  observe_state m (some e) none st ctx now = change_state m (some e) none st ctx now

  -- ObserveStatus, at the time `clock` of the monitor.
  unfoldable pub observe_status : ℕ → Monitor → Report → Context → Monitor
  unfolding repeat_state observe_state kind_for_status
  observe_status clock m st ctx =
      let now = if st.observed_at == 0 then clock else st.observed_at in
      if state_eq st.state m.last_state
      then repeat_state m st ctx
      else observe_state m (active_event m) (kind_for_status st.state ctx) st ctx now

-- Snapshot: the active event, and all of them with the newest first.
unfoldable pub snapshot_events : Monitor → Option Event × List Event
unfolding active_event
snapshot_events m = (active_event m, reverse m.events)

unfoldable pub subscribe_changes : Monitor → Monitor × ℕ
subscribe_changes m = (
  record m {
    subs = m.subs ++ (record { watch_id = m.next_sub; pending = [] } ∷ []);
    next_sub = m.next_sub + 1;
  },
  m.next_sub,
)

unfoldable pub unsubscribe_changes : Monitor → ℕ → Monitor
unsubscribe_changes m i = record m { subs = keep_if (λ w. not (w.watch_id == i)) m.subs }
