-- ===== src/Client/Transfer.antt =====
-- internal/client/conn.go: Upload and Download. The machine drives an upload and the proxy a download.
-- The delay before the first frame of an upload and the inactivity deadlines are left out.
pub mod Download
use makera_cnc_controller.Base.{
  ℕ, ◌+◌, ◌-◌, ◌*◌, ◌/◌, ◌%◌, ◌^◌, Bool, true, false, not, ◌||◌, Option, none, some, List, [], ◌∷◌,
  ◌++◌, ltb, leb, ◌==◌, if◌then◌else◌, length, take, drop,
}
use makera_cnc_controller.Base.Text.{Text}
use makera_cnc_controller.Protocol.{Frame, encode}
use makera_cnc_controller.Protocol.Escape.{upload_command, download_command}
use makera_cnc_controller.Relay.Download.{uint32_bytes, uint32_of, filled}
use makera_cnc_controller.Client.{
  NetError, Outbound, write_frame, Inbound, Turn, again, done, each_frame,
}

pub data TransferError : Type 0 where
  net : NetError → TransferError
  unreadable canceled short_view zero_packets sink_failed : TransferError

-- The variables of Upload's loop: what is written, `lastCmd` with `lastData`, and the calls of `progress`.
pub record Upload : Type 0 where
  pub out : Outbound
  pub last : Option (ℕ × List ℕ)
  pub progress : List (ℕ × ℕ)

-- How the loop ends: FILE_CANCEL with its data, an error, or FILE_END.
pub data UploadEnd : Type 0 where
  canceled_with : List ℕ → UploadEnd
  broken_off : TransferError → UploadEnd
  uploaded : UploadEnd

-- The file: what ReadAt gives at an offset for a length, none being an error other than its end. `size` is its
-- length and `packet_size` the size of a packet.
module _ (reader : ℕ → ℕ → Option (List ℕ)) (size packet_size : ℕ) where
  -- `int64(seq-1) * packetSize`, where seq is a uint32.
  unfoldable pub packet_offset : ℕ → ℕ
  packet_offset seq = (seq + 2 ^ 32 - 1) % 2 ^ 32 * packet_size

  unfoldable pub chunk_length : ℕ → ℕ
  unfolding packet_offset
  chunk_length seq =
      if ltb size (packet_offset seq + packet_size) then size - packet_offset seq else packet_size

  -- dataPacket.
  unfoldable pub data_packet : ℕ → Option (List ℕ)
  unfolding chunk_length
  data_packet seq =
      if chunk_length seq == 0
      then some (uint32_bytes seq)
      else elim (reader (packet_offset seq) (chunk_length seq)) [
        | none ↦ none
        | some bytes ↦ some (uint32_bytes seq ++ filled (chunk_length seq) bytes)
      ]

  unfoldable pub packet_count : ℕ
  packet_count =
      let total = (size + packet_size - 1) / packet_size % 2 ^ 32 in if total == 0 then 1 else total

  -- `send`, in a round that goes on.
  unfoldable pub send : Upload → ℕ → List ℕ → Turn Upload (Upload × UploadEnd)
  send u cmd payload =
      let (out, fault) = write_frame u.out (encode cmd payload) in
      elim fault [
        | some e ↦ done (record u { out = out }, broken_off (net e))
        | none ↦ again (record u { out = out; last = some (cmd, payload) })
      ]

  unfoldable pub resend : Upload → Option (ℕ × List ℕ) → Turn Upload (Upload × UploadEnd)
  resend u none = again u
  resend u (some (cmd, payload)) =
      let (out, fault) = write_frame u.out (encode cmd payload) in
      elim fault [
        | some e ↦ done (record u { out = out }, broken_off (net e))
        | none ↦ again (record u { out = out })
      ]

  unfoldable pub resend_last : Upload → Turn Upload (Upload × UploadEnd)
  unfolding resend
  resend_last u = resend u u.last

  abbrev reported : ℕ → Turn Upload (Upload × UploadEnd) → Turn Upload (Upload × UploadEnd)
  reported seq (again u) = again (record u { progress = u.progress ++ (seq, packet_count) ∷ [] })
  reported seq (done r) = done r

  unfoldable pub send_data : Upload → ℕ → Turn Upload (Upload × UploadEnd)
  unfolding data_packet send packet_count
  send_data u seq = elim (data_packet seq) [
    | none ↦ done (u, broken_off unreadable)
    | some payload ↦ reported seq (send u 0xB3 payload)
  ]

  -- One round of Upload's loop. FILE_CANCEL, FILE_RETRY, FILE_MD5, FILE_VIEW, FILE_DATA and FILE_END.
  unfoldable pub upload_round : Text → Upload → Frame → Turn Upload (Upload × UploadEnd)
  unfolding send resend_last send_data packet_count
  upload_round md5hex u f =
      if f.cmd == 0xB5
      then done (u, canceled_with f.data_bytes)
      else if f.cmd == 0xB6
      then resend_last u
      else if f.cmd == 0xB1
      then send u 0xB1 md5hex
      else if f.cmd == 0xB2
      then send u 0xB2
          (uint32_bytes packet_count ++ ((packet_size / 256 % 256) ∷ (packet_size % 256) ∷ []))
      else if f.cmd == 0xB3
      then (if ltb (length f.data_bytes) 4
          then again u
          else send_data u (uint32_of (take 4 f.data_bytes)))
      else if f.cmd == 0xB4
      then done (record u { progress = u.progress ++ (packet_count, packet_count) ∷ [] }, uploaded)
      else again u

  unfoldable pub upload_fault : Upload → NetError → Upload × UploadEnd
  upload_fault u e = (u, broken_off (net e))

  unfoldable pub upload_loop :
      Text → Turn Upload (Upload × UploadEnd) → Inbound → Option ((Upload × UploadEnd) × Inbound)
  unfolding upload_round upload_fault
  upload_loop md5hex (done r) i = some (r, i)
  upload_loop md5hex (again u) i = each_frame upload_fault (upload_round md5hex) u i

  -- Upload up to the reason of a cancellation.
  unfoldable pub upload : Text → Text → Outbound → Inbound → Option ((Upload × UploadEnd) × Inbound)
  unfolding upload_loop send
  upload remote_path md5hex o i =
      let (out, fault) = write_frame o (upload_command remote_path) in
      let u : Upload = record { out = out; last = none; progress = [] } in
      elim fault [
        | some e ↦ some ((u, broken_off (net e)), i)
        | none ↦ upload_loop md5hex (send u 0xB1 md5hex) i
      ]
