-- ===== src/Protocol/Checksum.antt =====
-- The checksum of a frame, as its receiver checks it.
use makera_cnc_controller.Base.{
  ℕ, zero, suc, ◌+◌, ◌*◌, ◌/◌, ◌%◌, ◌<◌, bit_xor, ◌≡◌, refl, ap, ◌∙◌, Bool, true, false,
  if◌then◌else◌, Bool-cases, inl, inr, List, [], ◌∷◌, ◌++◌, arith, ◌==◌, ==_iff, length, take, drop,
}
use makera_cnc_controller.Protocol.{crc_table, crc16_loop, crc16, body, encode}

-- Two functions that evaluation finds equal below a bound.
agree : (f g : ℕ → ℕ) → ℕ → Bool
agree f g zero = true
agree f g (suc bound) = if f bound == g bound then agree f g bound else false

agree_at : (f g : ℕ → ℕ) (bound v : ℕ) → v < bound → agree f g bound ≡ true → f v ≡ g v
unfolding agree
agree_at f g zero v below same = absurd (omega arith)
agree_at f g (suc bound) v below same = elim (Bool-cases (v == bound)) [
  | inl e ↦ rw ((==_iff v bound).0 e) (ground arith)
  | inr e ↦ ground (arith, agree_at f g bound v)
]

xor_self : (x : ℕ) → x < 256 → bit_xor x x ≡ 0
unfolding agree
xor_self x h = agree_at (λ v. bit_xor v v) (λ v. 0) 256 x h refl

xor_zero : (x : ℕ) → x < 256 → bit_xor (x * 256) 0 ≡ x * 256
unfolding agree
xor_zero x h = agree_at (λ v. bit_xor (v * 256) 0) (λ v. v * 256) 256 x h refl

crc_of_zero : crc_table 0 ≡ 0
unfolding crc_table
crc_of_zero = refl

crc16_loop-append :
    (xs ys : List ℕ) (crc : ℕ) → crc16_loop crc (xs ++ ys) ≡ crc16_loop (crc16_loop crc xs) ys
unfolding crc16_loop
crc16_loop-append [] ys crc = refl
crc16_loop-append (x ∷ xs) ys crc = crc16_loop-append xs ys _

crc16_loop-lt : (xs : List ℕ) (crc : ℕ) → crc < 65536 → crc16_loop crc xs < 65536
unfolding crc16_loop
crc16_loop-lt [] crc h = h
crc16_loop-lt (x ∷ xs) crc h = crc16_loop-lt xs _ (omega arith)

first_byte : (crc : ℕ) → crc < 65536 → crc16_loop crc ((crc / 256 % 256) ∷ []) ≡ crc % 256 * 256
unfolding crc16_loop
first_byte crc h =
    let a : crc * 256 % 65536 ≡ crc % 256 * 256 = omega arith in
    let b : crc % 256 * 256 % 65536 ≡ crc % 256 * 256 = omega arith in
    rw
      (xor_self (crc / 256 % 256) (omega arith), crc_of_zero, a, xor_zero (crc % 256) (omega arith))
      b

second_byte : (low : ℕ) → low < 256 → crc16_loop (low * 256) (low ∷ []) ≡ 0
unfolding crc16_loop
second_byte low h =
    let a : low * 256 * 256 % 65536 ≡ 0 = omega arith in
    let b : low * 256 / 256 % 256 ≡ low = omega arith in rw (a, b, xor_self low h, crc_of_zero)

-- Two bytes of the value itself bring it back to 0.
residue : (crc : ℕ) → crc < 65536 → crc16_loop crc ((crc / 256 % 256) ∷ (crc % 256) ∷ []) ≡ 0
residue crc h =
    crc16_loop-append ((crc / 256 % 256) ∷ []) ((crc % 256) ∷ []) crc
    ∙ rw (first_byte crc h) (second_byte (crc % 256) (omega arith))

body_residue : (b : List ℕ) → crc16 (b ++ ((crc16 b / 256 % 256) ∷ (crc16 b % 256) ∷ [])) ≡ 0
body_residue b =
    unfold crc16 in
    crc16_loop-append b _ 0 ∙ residue (crc16_loop 0 b) (crc16_loop-lt b 0 (omega arith))

take_two :
    (xs : List ℕ) (a b : ℕ) (ys : List ℕ)
    → take (length xs + 2) (xs ++ (a ∷ b ∷ ys)) ≡ xs ++ (a ∷ b ∷ [])
take_two [] a b ys = refl
take_two (x ∷ xs) a b ys =
    let e : suc (length xs) + 2 ≡ suc (length xs + 2) = omega arith in
    rw e (ap (◌∷◌ x) (take_two xs a b ys))

covered :
    (cmd : ℕ) (payload : List ℕ)
    → let crc = crc16 (body cmd payload) in
      take (length payload + 5) (drop 2 (encode cmd payload))
      ≡ body cmd payload ++ ((crc / 256 % 256) ∷ (crc % 256) ∷ [])
unfolding encode
covered cmd payload =
    let crc = crc16 (body cmd payload) in
    let n : length payload + 5 ≡ length (body cmd payload) + 2 = unfold body in omega arith in
    rw n (take_two (body cmd payload) (crc / 256 % 256) (crc % 256) _)

-- The receiver's check passes on every encoded frame: the checksum over LEN, CMD, DATA and the two bytes
-- of the checksum is 0, whatever the command and the payload.
crc16-encode :
    (cmd : ℕ) (payload : List ℕ)
    → crc16 (take (length payload + 5) (drop 2 (encode cmd payload))) ≡ 0
crc16-encode cmd payload = rw (covered cmd payload) (body_residue (body cmd payload))
