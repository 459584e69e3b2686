-- ===== src/Protocol/Progress.antt =====
-- The scanner makes progress, ends by itself and keeps its buffer small.
use makera_cnc_controller.Base.{
  ℕ, zero, suc, ◌+◌, ◌-◌, ◌^◌, ◌≤◌, ◌<◌, ◌≡◌, refl, ◌∙◌, ◌⊎◌, false, ◌&&◌, Option, none, some, List,
  [], ◌∷◌, ◌++◌, arith, ◌==◌, is_some, length, drop, length-drop,
}
use makera_cnc_controller.Protocol.{Frame}
use makera_cnc_controller.Protocol.Scanner.{
  next_header, parse_one, Scan, with_frame, scan, cap_buffer, push,
}

next_header-le : (b : List ℕ) → next_header b ≤ length b
unfolding next_header
next_header-le [] = omega arith
next_header-le (x ∷ b) = ground (arith, next_header-le b)

-- parseOne drops at most what is there, and never returns a frame without dropping it.
pub parse_one_bounds :
    (b : List ℕ)
    → ((parse_one b).consumed ≤ length b)
      × (is_some (parse_one b).frame && ((parse_one b).consumed == 0) ≡ false)
unfolding parse_one
parse_one_bounds [] = ground arith
parse_one_bounds (x ∷ []) = ground arith
parse_one_bounds (x ∷ y ∷ rest) = ground (arith, next_header-le (y ∷ rest))

with_frame-rest : (o : Option Frame) (s : Scan) → (with_frame o s).rest ≡ s.rest
with_frame-rest none s = refl
with_frame-rest (some f) s = refl

-- With fuel above the length the loop ends by its own test: what is left yields no frame and drops
-- nothing.
pub scan_done :
    (fuel : ℕ) (b : List ℕ)
    → length b < fuel
    → let p = parse_one (scan fuel b).rest in (p.frame ≡ none) × (p.consumed ≡ 0)
unfolding scan
scan_done zero b h = absurd (omega arith)
scan_done (suc fuel) b h = ground (
  arith,
  parse_one_bounds b,
  length-drop (parse_one b).consumed b,
  with_frame-rest (parse_one b).frame (scan fuel (drop (parse_one b).consumed b)),
  scan_done fuel (drop (parse_one b).consumed b),
)

pub scan-suc : (fuel : ℕ) (b : List ℕ) → length b < fuel → scan (suc fuel) b ≡ scan fuel b
unfolding scan
scan-suc zero b h = absurd (omega arith)
scan-suc (suc fuel) b h = ground (
  arith,
  parse_one_bounds b,
  length-drop (parse_one b).consumed b,
  scan-suc fuel (drop (parse_one b).consumed b),
)

-- More fuel changes nothing.
pub scan-fuel :
    (extra fuel : ℕ) (b : List ℕ) → length b < fuel → scan (extra + fuel) b ≡ scan fuel b
scan-fuel zero fuel b h = let e : zero + fuel ≡ fuel = omega arith in rw e
scan-fuel (suc extra) fuel b h =
    let e : suc extra + fuel ≡ suc (extra + fuel) = omega arith in
    rw e (scan-suc (extra + fuel) b (omega arith) ∙ scan-fuel extra fuel b h)

-- After a push the buffer holds at most 2 ^ 16 bytes, and either it yields no further frame, or it is the
-- 2 bytes that the cap keeps.
pub push_bounds :
    (buf p : List ℕ)
    → let (frames, kept) = push buf p in
      (length kept ≤ 2 ^ 16) × ((parse_one kept).frame ≡ none ⊎ (length kept ≡ 2))
unfolding push cap_buffer
push_bounds buf p =
    let b = buf ++ p in
    ground (
      arith,
      scan_done (length b + 1) b (omega arith),
      length-drop (length (scan (length b + 1) b).rest - 2) (scan (length b + 1) b).rest,
    )
