-- ===== src/Protocol.antt =====
-- internal/protocol/crc.go and internal/protocol/frame.go: the wire frames.
-- A byte slice is a list of numbers below 256. A big-endian uint16 is two of them.
pub mod Scanner
pub mod Listing
pub mod Escape
pub mod Parsing
pub mod Gcode
pub mod Paused
pub mod Arguments
pub mod RoundTrip
pub mod Checksum
pub mod Progress
use makera_cnc_controller.Base.{
  ℕ, zero, suc, ◌+◌, ◌-◌, ◌*◌, ◌/◌, ◌%◌, ◌^◌, ◌≤◌, ◌<◌, bit_and, bit_xor, ◌≡◌, refl, sym, ap, ◌∙◌,
  ◌≢◌, ◌↔◌, ◌⊎◌, inl, inr, Bool, true, false, not, ◌&&◌, ◌||◌, Option, none, some, List, [], ◌∷◌,
  ◌++◌, map, append-nil, append_assoc, arith, ltb, leb, ◌==◌, if◌then◌else◌, ==_iff, Bool-cases,
  Option-cases, is_some, length, take, drop, get_or, length-append, length-drop, length-take,
  keep_if, any, length-keep_if-le, All, All-append, All-map, All-keep_if,
}
use makera_cnc_controller.Base.Text.{
  Text, codes, text_eq, text_eq_iff, text_eq_refl, text_eq_sym, has_prefix, is_space, trim_left,
  trim_space, trim_suffix_slash,
}

abbrev pub IsByte : ℕ → Type 0
IsByte b = b < 256

abbrev pub footer : ℕ
footer = 0x55AA

-- One round of the table's inner loop, on a uint16.
crc_bit : ℕ → ℕ
crc_bit crc =
    if not (bit_and crc 0x8000 == 0)
    then bit_xor (crc * 2 % 65536) 0x1021 % 65536
    else crc * 2 % 65536

-- crcTable[i].
unfoldable pub crc_table : ℕ → ℕ
unfolding crc_bit
crc_table i =
    crc_bit (crc_bit (crc_bit (crc_bit (crc_bit (crc_bit (crc_bit (crc_bit (i * 256 % 65536))))))))

-- The loop of CRC16, from a given value.
unfoldable pub crc16_loop : ℕ → List ℕ → ℕ
unfolding crc_table
crc16_loop crc [] = crc
crc16_loop crc (b ∷ rest) =
    let tmp = bit_xor (crc / 256 % 256) b in
    crc16_loop (bit_xor (crc * 256 % 65536) (crc_table tmp) % 65536) rest

unfoldable pub crc16 : List ℕ → ℕ
unfolding crc16_loop
crc16 bytes = crc16_loop 0 bytes

pub record Frame : Type 0 where
  pub cmd : ℕ
  pub data_bytes : List ℕ
  pub raw : List ℕ

-- LEN, CMD and DATA, which the checksum covers.
unfoldable pub body : ℕ → List ℕ → List ℕ
body cmd payload =
    let data_len = 1 + length payload + 2 in
    (data_len / 256 % 256) ∷ (data_len % 256) ∷ cmd ∷ payload

unfoldable pub trailer : ℕ → List ℕ
trailer crc = (crc / 256 % 256) ∷ (crc % 256) ∷ (footer / 256 % 256) ∷ (footer % 256) ∷ []

unfoldable pub encode : ℕ → List ℕ → List ℕ
unfolding body trailer
encode cmd payload = 0x86 ∷ 0x68 ∷ (body cmd payload ++ trailer (crc16 (body cmd payload)))
