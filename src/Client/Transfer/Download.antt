-- ===== src/Client/Transfer/Download.antt =====
-- internal/client/conn.go: Download.
use makera_cnc_controller.Base.{
  ℕ, ◌+◌, ◌%◌, ◌^◌, Bool, true, false, not, ◌||◌, Option, none, some, List, [], ◌∷◌, ◌++◌, ltb, leb,
  ◌==◌, if◌then◌else◌, length, take, drop,
}
use makera_cnc_controller.Base.Text.{Text}
use makera_cnc_controller.Protocol.{Frame, encode}
use makera_cnc_controller.Protocol.Escape.{download_command}
use makera_cnc_controller.Relay.Download.{uint32_bytes, uint32_of}
use makera_cnc_controller.Client.{
  NetError, Outbound, write_frame, Inbound, Turn, again, done, each_frame,
}
use makera_cnc_controller.Client.Transfer.{
  TransferError, net, canceled, short_view, zero_packets, sink_failed,
}

pub data DownloadState : Type 0 where
  wait_md5 wait_view read_data : DownloadState

-- The variables of Download: `file` is what the writer has taken, and `sinks` says how its calls end: none takes
-- all, and `some n` takes n bytes and fails. Behind the end of the list each takes all.
pub record Fetch : Type 0 where
  pub out : Outbound
  pub state : DownloadState
  pub md5hex : Text
  pub total : ℕ
  pub next_seq : ℕ
  pub file : List ℕ
  pub sinks : List (Option ℕ)
  pub progress : List (ℕ × ℕ)

-- What Download returns: the variables, with its error, if any.
abbrev pub FetchEnd : Type 0
FetchEnd = Fetch × Option TransferError

-- A frame is written, and the loop goes on in the state that `next` gives.
unfoldable pub ask : Fetch → ℕ → List ℕ → Fetch → Turn Fetch FetchEnd
ask d cmd payload next =
    let (out, fault) = write_frame d.out (encode cmd payload) in
    elim fault [
      | some e ↦ done (record d { out = out }, some (net e))
      | none ↦ again (record next { out = out })
    ]

-- reqSeq.
unfoldable pub req_seq : Fetch → ℕ → Fetch → Turn Fetch FetchEnd
unfolding ask
req_seq d seq next = ask d 0xB3 (uint32_bytes seq) next

unfoldable pub finish : Fetch → Turn Fetch FetchEnd
finish d =
    let (out, fault) = write_frame d.out (encode 0xB4 []) in
    elim fault [
      | some e ↦ done (record d { out = out }, some (net e))
      | none ↦ done (record d { out = out }, none)
    ]

-- `w.Write`: whether all was taken.
unfoldable pub sink : Fetch → List (Option ℕ) → List ℕ → Fetch × Bool
sink d [] bytes = (record d { file = d.file ++ bytes }, true)
sink d (none ∷ rest) bytes = (record d { file = d.file ++ bytes; sinks = rest }, true)
sink d (some n ∷ rest) bytes = (record d { file = d.file ++ take n bytes; sinks = rest }, false)

-- A data frame with the number that is waited for.
unfoldable pub take_packet : Fetch → ℕ → List ℕ → Turn Fetch FetchEnd
unfolding sink req_seq finish
take_packet d seq bytes =
    let (d', took) = sink d d.sinks bytes in
    let p : Fetch = record d' { progress = d.progress ++ (seq, d.total) ∷ [] } in
    let n : Fetch = record p { next_seq = (d.next_seq + 1) % 2 ^ 32 } in
    if not took
    then done (d', some sink_failed)
    else if leb d.total seq
    then finish p
    else req_seq n n.next_seq n

-- The cases of the loop behind FILE_CANCEL, by the state.
unfoldable pub download_round : DownloadState → Fetch → Frame → Turn Fetch FetchEnd
unfolding ask req_seq take_packet
download_round wait_md5 d f =
    if f.cmd == 0xB1
    then (let d' : Fetch = record d { md5hex = f.data_bytes } in
        ask d' 0xB2 [] (record d' { state = wait_view }))
    else again d
download_round wait_view d f =
    let total = uint32_of (take 4 f.data_bytes) in
    let t : Fetch = record d { total = total } in
    let n : Fetch = record t { next_seq = 1 } in
    if not (f.cmd == 0xB2)
    then again d
    else if ltb (length f.data_bytes) 6
    then done (d, some short_view)
    else if total == 0
    then done (t, some zero_packets)
    else req_seq n 1 (record n { state = read_data })
download_round read_data d f =
    let seq = uint32_of (take 4 f.data_bytes) in
    if f.cmd == 0xB4
    then done (d, none)
    else if not (f.cmd == 0xB3) || ltb (length f.data_bytes) 4
    then again d
    else if not (seq == d.next_seq)
    then req_seq d d.next_seq d
    else take_packet d seq (drop 4 f.data_bytes)

-- What is returned for the MD5 is empty after a read that fails and after FILE_CANCEL.
unfoldable pub download_step : Fetch → Frame → Turn Fetch FetchEnd
unfolding download_round
download_step d f =
    if f.cmd == 0xB5
    then done (record d { md5hex = [] }, some canceled)
    else download_round d.state d f

unfoldable pub download_fault : Fetch → NetError → FetchEnd
download_fault d e = (record d { md5hex = [] }, some (net e))

abbrev pub fetch_start : Outbound → List (Option ℕ) → Fetch
fetch_start o sinks = record {
  out = o;
  state = wait_md5;
  md5hex = [];
  total = 0;
  next_seq = 0;
  file = [];
  sinks = sinks;
  progress = [];
}

unfoldable pub download : Text → List (Option ℕ) → Outbound → Inbound → Option (FetchEnd × Inbound)
unfolding download_step download_fault
download remote_path sinks o i =
    let (out, fault) = write_frame o (download_command remote_path) in
    elim fault [
      | some e ↦ some ((fetch_start out sinks, some (net e)), i)
      | none ↦ each_frame download_fault download_step (fetch_start out sinks) i
    ]
