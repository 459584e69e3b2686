-- ===== src/Relay/Download.antt =====
-- internal/relay/download_cache.go: a download of the controller, served from the proxy's cache. A write to the
-- controller may fail, and the code goes on as if it had not: the frames returned are those it writes. The
-- file is `reader`: what ReadAt gives at an offset for a length, none being an error other than its end.
pub mod Packets
use makera_cnc_controller.Base.{
  ℕ, zero, suc, ◌+◌, ◌-◌, ◌*◌, ◌/◌, ◌%◌, Bool, true, false, Option, none, some, List, [], ◌∷◌, ◌++◌,
  ltb, ◌==◌, if◌then◌else◌, length, get_or, take,
}
use makera_cnc_controller.Base.Text.{Text}
use makera_cnc_controller.Protocol.{Frame, encode}

abbrev pub tcp_packet_size : ℕ
tcp_packet_size = 8192

abbrev pub max_uint32 : ℕ
max_uint32 = 4294967295

pub record Download : Type 0 where
  pub size : ℕ
  pub md5hex : Text
  pub packet_size : ℕ
  pub last_frame : List ℕ

-- newControllerDownload, for a size that is not negative.
unfoldable pub new_download : ℕ → Text → Download
new_download size md5hex = record {
  size = size;
  md5hex = md5hex;
  packet_size = tcp_packet_size;
  last_frame = [];
}

unfoldable pub write_frame : Download → ℕ → List ℕ → Download × List (List ℕ)
write_frame d cmd payload =
    let frame = encode cmd payload in (record d { last_frame = frame }, frame ∷ [])

unfoldable pub start_download : Download → Download × List (List ℕ)
unfolding write_frame
start_download d = write_frame d 0xB1 d.md5hex

unfoldable pub total_packets : Download → ℕ
total_packets d =
    let packets = (d.size + d.packet_size - 1) / d.packet_size in
    if d.packet_size == 0
    then 1
    else if ltb packets 1
    then 1
    else if ltb max_uint32 packets
    then max_uint32
    else packets

unfoldable pub uint32_bytes : ℕ → List ℕ
uint32_bytes n = (n / 16777216 % 256) ∷ (n / 65536 % 256) ∷ (n / 256 % 256) ∷ (n % 256) ∷ []

unfoldable pub uint32_of : List ℕ → ℕ
uint32_of b = get_or b 0 0 * 16777216 + get_or b 1 0 * 65536 + get_or b 2 0 * 256 + get_or b 3 0

unfoldable pub write_view : Download → Download × List (List ℕ)
unfolding write_frame
write_view d =
    let p = d.packet_size in
    write_frame d 0xB2 (uint32_bytes (total_packets d) ++ ((p / 256 % 256) ∷ (p % 256) ∷ []))

-- A payload of zeros into which what was read is copied.
unfoldable pub filled : ℕ → List ℕ → List ℕ
filled zero bytes = []
filled (suc n) [] = 0 ∷ filled n []
filled (suc n) (b ∷ bytes) = b ∷ filled n bytes

-- The bytes of the file that packet `seq` stands for: the offset and the length.
unfoldable pub packet_range : Download → ℕ → ℕ × ℕ
packet_range d seq =
    let first = (if seq == 0 then 1 else seq) - 1 in
    let off = (if ltb d.size (first * d.packet_size) then d.size else first * d.packet_size) in
    (off, if ltb d.size (off + d.packet_size) then d.size - off else d.packet_size)

module _ (reader : ℕ → ℕ → Option (List ℕ)) where
  -- The part of a packet behind its number, unless it cannot be read.
  unfoldable pub packet : Download → ℕ → Option (List ℕ)
  packet d seq =
      let (off, n) = packet_range d seq in
      if n == 0
      then some []
      else elim (reader off n) [ none ↦ none | some bytes ↦ some (filled n bytes) ]

  unfoldable pub write_data : Download → ℕ → Download × List (List ℕ)
  unfolding packet write_frame
  write_data d seq = elim (packet d seq) [
    | none ↦ (d, [])
    | some bytes ↦ write_frame d 0xB3 (uint32_bytes (if seq == 0 then 1 else seq) ++ bytes)
  ]

  -- Handle: the download, what it writes, whether it is done, and whether the frame was taken.
  unfoldable pub handle_download : Download → Frame → (Download × List (List ℕ)) × Bool × Bool
  unfolding write_view write_data write_frame
  handle_download d f =
      if f.cmd == 0xB6
      then ((d, if ltb 0 (length d.last_frame) then d.last_frame ∷ [] else []), false, true)
      else if f.cmd == 0xB2
      then (write_view d, false, true)
      else if f.cmd == 0xB3
      then (
        if ltb (length f.data_bytes) 4
            then (d, [])
            else write_data d (uint32_of (take 4 f.data_bytes)),
        false,
        true,
      )
      else if f.cmd == 0xB4
      then (write_frame d 0xB4 [], true, true)
      else if f.cmd == 0xB5
      then ((d, []), true, true)
      else ((d, []), false, false)
