-- ===== src/Examples/Relays.antt =====
-- The theorems on the multiplexer, applied to a short session, and those on what is observed on the way.
use makera_cnc_controller.Base.{◌≡◌, refl, false, some, List, [], ◌∷◌, ◌++◌, true, arith, length}
use makera_cnc_controller.Base.Text.{codes}
use makera_cnc_controller.Protocol.{Frame}
use makera_cnc_controller.Relay.{
  Mux, new_mux, acquire_injection, route_machine_frame, note_status, deliver_inject,
}
use makera_cnc_controller.Relay.Window.{Session, new_session, take_frame, takes, acquires, Reached}
use makera_cnc_controller.Relay.Order.{sent_in_order}
use makera_cnc_controller.Relay.Queueing.{flying}
use makera_cnc_controller.Relay.Feed.{opened, routed, route, routes, Fed, raws}
use makera_cnc_controller.Relay.Replies.{replies_whole}
use makera_cnc_controller.Relay.Download.{new_download, packet, total_packets}
use makera_cnc_controller.Relay.Download.Packets.{assemble, file_reader, packets_whole}
use makera_cnc_controller.Gcodelog.{new_log, recent, last_n}
use makera_cnc_controller.Gcodelog.Recent.{LogOp, appends, apply_ops, keep_ops, recent_refines}
use makera_cnc_controller.Base.{is_some}
use makera_cnc_controller.Machine.{wait, run}
use makera_cnc_controller.Attention.{Report, Context, new_monitor}
use makera_cnc_controller.Attention.Marks.{marks}
use makera_cnc_controller.Attention.Episodes.{observe_all, attention_episodes}
use makera_cnc_controller.Attention.Writes.{needs_attention}
use makera_cnc_controller.Base.{ℕ, ◌≤◌, none}
use makera_cnc_controller.Base.Text.{Text}
use makera_cnc_controller.Machine.{alarm}
use makera_cnc_controller.Runhistory
use makera_cnc_controller.Runhistory.{new_history}
use makera_cnc_controller.Runhistory.Halted.{
  observe_reports, is_marked, ids, numbers, number_after, halted_reports_open_runs,
}
use makera_cnc_controller.Runhistory.Bounds.{
  reports, clears, apply_histories, within, history_bounds,
}

abbrev command : Frame
command = record { cmd = 0xA2; data_bytes = codes "G0 X1"; raw = codes "G0 X1" }

abbrev windowed : Mux
windowed = record new_mux { injecting = true; inject_open = true; inject_cap = 256 }

abbrev windowed_session : Session
windowed_session = record new_session { mux = windowed }

windowed-Reached : Reached windowed_session
unfolding new_session new_mux acquire_injection
windowed-Reached = Reached.next new_session windowed_session Reached.start (acquires windowed refl)

-- The controller's command arrives while the window is open.
abbrev holding_session : Session
holding_session = take_frame windowed_session command

holding-Reached : Reached holding_session
unfolding new_session new_mux
holding-Reached =
    Reached.next windowed_session holding_session windowed-Reached (takes command refl)

sent_in_order_example :
    holding_session.arrived
    ≡ holding_session.sent
      ++ (flying holding_session.in_flight
          ++ (holding_session.flushing ++ holding_session.mux.held_controller))
sent_in_order_example = sent_in_order holding_session holding-Reached

abbrev reply : Frame
reply = record { cmd = 0xA2; data_bytes = codes "ok"; raw = codes "ok" }

windowed-Fed : Fed (opened windowed)
unfolding new_mux acquire_injection
windowed-Fed = Fed.start new_mux windowed refl

replied-Fed : Fed (route (opened windowed) reply)
replied-Fed = Fed.next (opened windowed) (route (opened windowed) reply) windowed-Fed (routes reply)

replies_whole_example :
    let s = route (opened windowed) reply in
    raws s.diverted ≡ s.got ++ (s.transport.scan_buf ++ raws s.mux.inject_queue)
unfolding route routed opened route_machine_frame note_status deliver_inject new_mux
replies_whole_example = replies_whole (route (opened windowed) reply) replied-Fed refl

packets_whole_example :
    let content = codes "G0 X1" in
    let d = new_download (length content) (codes "md5") in
    assemble (packet (file_reader content) d) 1 (total_packets d) ≡ some content
packets_whole_example = packets_whole (codes "G0 X1") (codes "md5") (omega arith)

abbrev logged : List LogOp
logged =
    appends 7 (codes "send") (codes "api") (codes "G0 X1")
    ∷ appends 8 (codes "recv") (codes "api") (codes "ok")
    ∷ []

recent_refines_example :
    let h = keep_ops (new_log 1).cap (record { lines = []; next = 1 }) logged in
    (recent (apply_ops (new_log 1) logged) ≡ last_n (new_log 1).cap h.lines)
    × ((apply_ops (new_log 1) logged).next_seq ≡ h.next)
recent_refines_example = recent_refines 1 logged

-- The machine pauses, and goes on.
abbrev pausing : List (ℕ × Report × Context)
pausing =
    (
      5,
      record {
        state = wait;
        observed_at = 5;
        tool_status = none;
        halt_reason = none;
        progress = [];
        raw = codes "<Wait>";
      },
      record { job_path = []; marker = none },
    )
    ∷ (
      6,
      record {
        state = run;
        observed_at = 6;
        tool_status = none;
        halt_reason = none;
        progress = [];
        raw = codes "<Run>";
      },
      record { job_path = []; marker = none },
    )
    ∷ []

abbrev base_name : Text → Text
base_name p = p

attention_episodes_example :
    let m = observe_all base_name (new_monitor 1) pausing in
    (is_some m.active ≡ needs_attention m.last_state)
    × (marks m.active m.events ≡ true)
    × (length m.events ≤ m.cap)
attention_episodes_example = attention_episodes base_name 1 pausing

-- The machine halts in a job.
abbrev halted_report : Runhistory.Report
halted_report = record {
  state = alarm;
  observed_at = 9;
  progress = 1 ∷ [];
  feed = none;
  spindle = none;
  halt_reason = none;
  raw = codes "<Alarm>";
}

halted_reports_open_runs_example :
    let h = observe_reports (new_history 2) ((9, halted_report) ∷ (10, halted_report) ∷ []) in
    (h.active ≡ none)
    × (is_marked h.runs ≡ false)
    × (ids h.runs ≡ last_n (new_history 2).cap (numbers (new_history 2).next_id 2))
    × (h.next_id ≡ number_after (new_history 2).next_id 2)
unfolding new_history ids
halted_reports_open_runs_example =
    halted_reports_open_runs (new_history 2) ((9, halted_report) ∷ (10, halted_report) ∷ []) refl
      refl (omega arith) (refl, (refl, tt))

history_bounds_example :
    let h = apply_histories (new_history 2) (reports 9 halted_report ∷ clears ∷ []) in
    (length h.runs ≤ h.cap) × (within h.active (length h.runs) ≡ true)
history_bounds_example = history_bounds 2 (reports 9 halted_report ∷ clears ∷ [])
