-- ===== src/Client/Queries.antt =====
-- internal/client/conn.go: the queries of the machine's state and player, and the reason of a cancelled upload.
use makera_cnc_controller.Base.{ℕ, ◌||◌, Option, none, some, List, [], ◌==◌, if◌then◌else◌, length}
use makera_cnc_controller.Base.Text.{Text, codes, text_eq, trim_space}
use makera_cnc_controller.Base.Strings.{to_lower, trim_if, is_nul}
use makera_cnc_controller.Protocol.{Frame, encode}
use makera_cnc_controller.Protocol.Escape.{query_status}
use makera_cnc_controller.Protocol.Parsing.{PlayStatus, parse_play_status}
use makera_cnc_controller.Client.{NetError, is_timeout, Inbound, Turn, again, done, each_frame}
use makera_cnc_controller.Client.Commands.{
  ClientError, net, invalid_play_status, Result, ok, err, Conn, seen_by, normal_info_error,
  transact, net_fault,
}

unfoldable pub latest : Option ClientError → Option ClientError → Option ClientError
latest diagnostic none = diagnostic
latest diagnostic (some e) = some e

unfoldable pub drain_round :
    Option ClientError → Frame → Turn (Option ClientError) (Option ClientError)
unfolding latest
drain_round diagnostic f =
    again (if f.cmd == 0x90 then latest diagnostic (normal_info_error f.data_bytes) else diagnostic)

unfoldable pub drain_fault : Option ClientError → NetError → Option ClientError
drain_fault diagnostic e = if is_timeout e then diagnostic else some (net e)

-- drainAvailableFrames: the frames that have come already are dropped, up to the first quiet moment.
unfoldable pub drain_available_frames : Inbound → Option (Option ClientError × Inbound)
unfolding drain_round drain_fault
drain_available_frames i = each_frame drain_fault drain_round none i

unfoldable pub diagnosed :
    Option (List (List ℕ))
    → Option ClientError
    → Turn (Option (List (List ℕ)) × Unit {0}) (Option (List (List ℕ)) × Result (List ℕ))
diagnosed seen none = again (seen, tt)
diagnosed seen (some e) = done (seen, err e)

unfoldable pub state_round :
    Option (List (List ℕ)) × Unit {0}
    → Frame
    → Turn (Option (List (List ℕ)) × Unit {0}) (Option (List (List ℕ)) × Result (List ℕ))
unfolding diagnosed
state_round (seen, _) f =
    if f.cmd == 0x81
    then done (seen, ok f.data_bytes)
    else if f.cmd == 0x90
    then diagnosed seen (normal_info_error f.data_bytes)
    else again (seen, tt)

unfoldable pub after_drain :
    Conn → Option (Option ClientError × Inbound) → Option (Result (List ℕ) × Conn)
unfolding state_round transact
after_drain k none = none
after_drain k (some (some e, i)) = some (err e, record k { inbound = i })
after_drain k (some (none, i)) =
    transact net_fault state_round (record k { inbound = i }) query_status (k.observed, tt)

-- QueryState.
unfoldable pub query_state : Conn → Option (Result (List ℕ) × Conn)
unfolding drain_available_frames after_drain
query_state k = after_drain k (drain_available_frames k.inbound)

playing : Option PlayStatus → Result PlayStatus
playing none = err invalid_play_status
playing (some p) = ok p

undiagnosed :
    Option (List (List ℕ))
    → Option ClientError
    → Turn (Option (List (List ℕ)) × Unit {0}) (Option (List (List ℕ)) × Result PlayStatus)
undiagnosed seen none = again (seen, tt)
undiagnosed seen (some e) = done (seen, err e)

unfoldable pub playback_round :
    Option (List (List ℕ)) × Unit {0}
    → Frame
    → Turn (Option (List (List ℕ)) × Unit {0}) (Option (List (List ℕ)) × Result PlayStatus)
unfolding playing undiagnosed
playback_round (seen, _) f =
    if f.cmd == 0xB7
    then done (seen, playing (parse_play_status f.data_bytes))
    else if f.cmd == 0x81
    then again (seen_by seen f.data_bytes, tt)
    else if f.cmd == 0x90
    then undiagnosed seen (normal_info_error f.data_bytes)
    else again (seen, tt)

-- QueryActivePlayback.
unfoldable pub query_active_playback : Conn → Option (Result PlayStatus × Conn)
unfolding transact playback_round
query_active_playback k = transact net_fault playback_round k (encode 0xB7 []) (k.observed, tt)

-- cleanUploadCancelReason.
unfoldable pub clean_upload_cancel_reason : Text → Text
clean_upload_cancel_reason s =
    let t = trim_space (trim_if is_nul (trim_space s)) in
    if length t == 0 || text_eq (to_lower t) (codes "ok") then [] else t

unfoldable pub reason_round : Unit {0} → Frame → Turn (Unit {0}) Text
unfolding clean_upload_cancel_reason
reason_round _ f =
    let reason = clean_upload_cancel_reason f.data_bytes in
    if (f.cmd == 0x90 || f.cmd == 0x83 || f.cmd == 0x82 || f.cmd == 0xB5)
    then (if length reason == 0 then again tt else done reason)
    else again tt

-- uploadCancelReason.
unfoldable pub upload_cancel_reason : Text → Inbound → Option (Text × Inbound)
unfolding clean_upload_cancel_reason reason_round
upload_cancel_reason payload i =
    let reason = clean_upload_cancel_reason payload in
    if length reason == 0
    then each_frame (λ (_ : Unit {0}) (_ : NetError). []) reason_round tt i
    else some (reason, i)
