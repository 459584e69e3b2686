-- ===== src/Protocol/Scanner.antt =====
-- internal/protocol/frame.go: `Scanner`, which cuts a stream of bytes into frames.
use makera_cnc_controller.Base.{
  ℕ, zero, suc, ◌+◌, ◌-◌, ◌*◌, ◌^◌, not, ◌&&◌, ◌||◌, Option, none, some, List, [], ◌∷◌, ◌++◌, ltb,
  ◌==◌, if◌then◌else◌, is_some, length, take, drop, get_or,
}
use makera_cnc_controller.Protocol.{footer, Frame}

-- What parseOne returns: the frame, if there is one, and the number of bytes to drop.
pub record Parsed : Type 0 where
  pub frame : Option Frame
  pub consumed : ℕ

abbrev nothing : ℕ → Parsed
nothing n = record { frame = none; consumed = n }

-- The distance to the next 0x86, or the length where there is none.
unfoldable pub next_header : List ℕ → ℕ
next_header [] = 0
next_header (b ∷ rest) = if b == 0x86 then 0 else next_header rest + 1

abbrev pub uint16_at : List ℕ → ℕ → ℕ
uint16_at b i = get_or b i 0 * 256 + get_or b (i + 1) 0

-- From a header on, with LEN and CMD at hand.
unfoldable pub parse_body : List ℕ → Parsed
parse_body b =
    let data_len = uint16_at b 2 in
    let total = 4 + data_len + 2 in
    if ltb data_len 3 || ltb (2 ^ 17) total
    then nothing 2
    else if ltb (length b) total
    then nothing 0
    else if not (uint16_at b (total - 2) == footer)
    then nothing 2
    else record {
      frame = some (record {
        cmd = get_or b 4 0;
        data_bytes = take (data_len - 3) (drop 5 b);
        raw = take total b;
      });
      consumed = total;
    }

unfoldable pub parse_one : List ℕ → Parsed
unfolding parse_body next_header
parse_one [] = nothing 0
parse_one (x ∷ []) = if x == 0x86 then nothing 0 else nothing 1
parse_one (x ∷ y ∷ rest) =
    if not (x == 0x86 && y == 0x68)
    then nothing (next_header (y ∷ rest) + 1)
    else if ltb (length rest) 3
    then nothing 0
    else parse_body (x ∷ y ∷ rest)

-- The loop of Push; `rest` is what stays in the buffer.
pub record Scan : Type 0 where
  pub frames : List Frame
  pub rest : List ℕ

abbrev pub with_frame : Option Frame → Scan → Scan
with_frame none s = s
with_frame (some f) s = record s { frames = f ∷ s.frames }

unfoldable pub scan : ℕ → List ℕ → Scan
unfolding parse_one
scan zero b = record { frames = []; rest = b }
scan (suc fuel) b =
    let p = parse_one b in
    let more = with_frame p.frame (scan fuel (drop p.consumed b)) in
    if is_some p.frame || ltb 0 p.consumed then more else record { frames = []; rest = b }

-- Each round but the last drops a byte at least.
abbrev scan_all : List ℕ → Scan
scan_all b = scan (length b + 1) b

-- `if len(s.buf) > 1<<16 { s.buf = s.buf[len(s.buf)-2:] }`
unfoldable pub cap_buffer : List ℕ → List ℕ
cap_buffer b = if ltb (2 ^ 16) (length b) then drop (length b - 2) b else b

unfoldable pub push : List ℕ → List ℕ → List Frame × List ℕ
unfolding scan cap_buffer
push buf p = let s = scan_all (buf ++ p) in (s.frames, cap_buffer s.rest)
