-- ===== src/Protocol/RoundTrip.antt =====
-- The scanner reads back what `Encode` writes.
use makera_cnc_controller.Base.{
  ℕ, zero, suc, ◌+◌, ◌-◌, ◌*◌, ◌/◌, ◌%◌, ◌^◌, ◌≤◌, ◌<◌, ◌≡◌, refl, ap, none, some, List, [], ◌∷◌,
  ◌++◌, append-nil, append_assoc, arith, length, take, drop, get_or, length-append, All,
}
use makera_cnc_controller.Protocol.{Frame, body, trailer, crc16, encode}
use makera_cnc_controller.Protocol.Scanner.{parse_one, with_frame, scan, cap_buffer, push}
use makera_cnc_controller.Protocol.Progress.{scan-suc}

get_or-append : (xs ys : List ℕ) (i d : ℕ) → get_or (xs ++ ys) (length xs + i) d ≡ get_or ys i d
get_or-append [] ys i d = let e : 0 + i ≡ i = omega arith in rw e
get_or-append (x ∷ xs) ys i d =
    let e : suc (length xs) + i ≡ suc (length xs + i) = omega arith in
    rw e (get_or-append xs ys i d)

take-length : (xs ys : List ℕ) → take (length xs) (xs ++ ys) ≡ xs
take-length [] ys = refl
take-length (x ∷ xs) ys = ap (◌∷◌ x) (take-length xs ys)

drop-length : (xs ys : List ℕ) → drop (length xs) (xs ++ ys) ≡ ys
drop-length [] ys = refl
drop-length (x ∷ xs) ys = drop-length xs ys

-- A payload whose LEN fits two bytes.
abbrev pub Fits : List ℕ → Type 0
Fits payload = length payload ≤ 65532

abbrev pub frame_of : ℕ → List ℕ → Frame
frame_of cmd payload = record { cmd = cmd; data_bytes = payload; raw = encode cmd payload }

pub length-encode : (cmd : ℕ) (payload : List ℕ) → length (encode cmd payload) ≡ length payload + 9
unfolding encode body trailer
length-encode cmd payload =
    omega (arith, length-append payload (trailer (crc16 (body cmd payload))))

encode-split :
    (cmd : ℕ) (payload rest : List ℕ)
    → let n = length payload + 3 in
      let crc = crc16 (body cmd payload) in
      encode cmd payload ++ rest
      ≡ 0x86
        ∷ 0x68
        ∷ (n / 256 % 256)
        ∷ (n % 256)
        ∷ cmd
        ∷ (payload ++ ((crc / 256 % 256) ∷ (crc % 256) ∷ 0x55 ∷ 0xAA ∷ rest))
unfolding encode body trailer
encode-split cmd payload rest =
    let e : 1 + length payload + 2 ≡ length payload + 3 = omega arith in
    rw (e, append_assoc payload)

-- A buffer that begins with a whole frame of a given length.
parse_whole :
    (n d1 d2 cmd : ℕ) (t : List ℕ)
    → let b : List ℕ = 0x86 ∷ 0x68 ∷ d1 ∷ d2 ∷ cmd ∷ t in
      d1 * 256 + d2 ≡ n + 3
      → n ≤ 65532
      → n + 4 ≤ length t
      → get_or t (n + 2) 0 ≡ 0x55
      → get_or t (n + 3) 0 ≡ 0xAA
      → parse_one b ≡ record {
        frame = some (record { cmd = cmd; data_bytes = take n t; raw = take (n + 9) b });
        consumed = n + 9;
      }
unfolding parse_one
parse_whole n d1 d2 cmd t e fits long f1 f2 =
    let e1 : 4 + (d1 * 256 + d2) + 2 ≡ n + 9 = omega arith in
    let e2 : n + 9 - 2 ≡ suc (suc (suc (suc (suc (n + 2))))) = omega arith in
    let e3 : n + 9 - 2 + 1 ≡ suc (suc (suc (suc (suc (n + 3))))) = omega arith in
    let e4 : d1 * 256 + d2 - 3 ≡ n = omega arith in rw (e1, e3, e2, e4, f1, f2) (ground arith)

raw_bytes :
    (cmd : ℕ) (payload rest : List ℕ)
    → take (length payload + 9) (encode cmd payload ++ rest) ≡ encode cmd payload
raw_bytes cmd payload rest =
    rw (← length-encode cmd payload) (take-length (encode cmd payload) rest)

parse_one-encode :
    (cmd : ℕ) (payload rest : List ℕ)
    → Fits payload
    → parse_one (encode cmd payload ++ rest)
      ≡ record { frame = some (frame_of cmd payload); consumed = length payload + 9 }
parse_one-encode cmd payload rest h =
    let n = length payload in
    let crc = crc16 (body cmd payload) in
    let c1 = crc / 256 % 256 in
    let c2 = crc % 256 in
    let t : List ℕ = payload ++ (c1 ∷ c2 ∷ 0x55 ∷ 0xAA ∷ rest) in
    let p =
      parse_whole n ((n + 3) / 256 % 256) ((n + 3) % 256) cmd t (omega arith) h
        (omega (arith, length-append payload (c1 ∷ c2 ∷ 0x55 ∷ 0xAA ∷ rest)))
        (get_or-append payload (c1 ∷ c2 ∷ 0x55 ∷ 0xAA ∷ rest) 2 0)
        (get_or-append payload (c1 ∷ c2 ∷ 0x55 ∷ 0xAA ∷ rest) 3 0) in
    cc (
      p,
      encode-split cmd payload rest,
      take-length payload (c1 ∷ c2 ∷ 0x55 ∷ 0xAA ∷ rest),
      raw_bytes cmd payload rest,
    )

pub scan-encode :
    (fuel cmd : ℕ) (payload rest : List ℕ)
    → Fits payload
    → scan (suc fuel) (encode cmd payload ++ rest)
      ≡ with_frame (some (frame_of cmd payload)) (scan fuel rest)
unfolding scan
scan-encode fuel cmd payload rest h =
    let e : drop (length payload + 9) (encode cmd payload ++ rest) ≡ rest =
      rw (← length-encode cmd payload) (drop-length (encode cmd payload) rest) in
    rw (parse_one-encode cmd payload rest h, e)

-- The stream of some frames, one behind the other.
unfoldable pub encode_all : List (ℕ × List ℕ) → List ℕ
encode_all [] = []
encode_all ((cmd, payload) ∷ ms) = encode cmd payload ++ encode_all ms

abbrev pub frames_of : List (ℕ × List ℕ) → List Frame
frames_of [] = []
frames_of ((cmd, payload) ∷ ms) = frame_of cmd payload ∷ frames_of ms

abbrev pub AllFit : List (ℕ × List ℕ) → Type 0
AllFit ms = All (λ (m : ℕ × List ℕ). Fits m.1) ms

scan-encode_all :
    (fuel : ℕ) (ms : List (ℕ × List ℕ)) (tail : List ℕ)
    → AllFit ms
    → length (encode_all ms ++ tail) < fuel
    → scan fuel (encode_all ms ++ tail)
      ≡ record { frames = frames_of ms ++ (scan fuel tail).frames; rest = (scan fuel tail).rest }
unfolding encode_all
scan-encode_all fuel [] tail h l = refl
scan-encode_all zero ((cmd, payload) ∷ ms) tail h l = absurd (omega arith)
scan-encode_all (suc fuel) ((cmd, payload) ∷ ms) tail h l =
    let whole = encode_all ms ++ tail in
    let a = append_assoc (encode cmd payload) (encode_all ms) tail in
    let b : length (encode cmd payload ++ whole) < suc fuel = rw a at l in
    let n = length-append (encode cmd payload) whole in
    let m = length-append (encode_all ms) tail in
    let k = length-encode cmd payload in
    rw (
      a,
      scan-encode fuel cmd payload whole h.0,
      scan-encode_all fuel ms tail h.1 (omega arith),
      scan-suc fuel tail (omega arith),
    )

-- A buffer that a push would leave as it is.
pub record IsWaiting (b : List ℕ) : Type 0 where
  pub no_frame : (parse_one b).frame ≡ none
  pub no_drop : (parse_one b).consumed ≡ 0
  pub small : length b ≤ 2 ^ 16

scan_waiting :
    (fuel : ℕ) (b : List ℕ) → IsWaiting b → scan fuel b ≡ record { frames = []; rest = b }
unfolding scan
scan_waiting zero b h = refl
scan_waiting (suc fuel) b h = ground arith

-- However a stream of frames, of payloads of at most 65532 bytes, is cut into reads: where the buffer and
-- the new bytes make up whole frames and a rest that is still waited on, a push returns exactly those
-- frames, with their commands, payloads and wire bytes, and keeps the rest.
pub push-encode_all :
    (ms : List (ℕ × List ℕ)) (buf p tail : List ℕ)
    → AllFit ms
    → buf ++ p ≡ encode_all ms ++ tail
    → IsWaiting tail
    → push buf p ≡ (frames_of ms, tail)
unfolding push cap_buffer
push-encode_all ms buf p tail h e t =
    rw
      (
        e,
        scan-encode_all (length (encode_all ms ++ tail) + 1) ms tail h (omega arith),
        scan_waiting (length (encode_all ms ++ tail) + 1) tail t,
        append-nil (frames_of ms),
      )
      (ground (arith, t.small))

-- A frame of which something is still to come.
pub prefix_waits :
    (n d1 d2 : ℕ) (t : List ℕ)
    → d1 * 256 + d2 ≡ n + 3
    → n ≤ 65000
    → length t < n + 5
    → IsWaiting (0x86 ∷ 0x68 ∷ d1 ∷ d2 ∷ t)
unfolding parse_one
prefix_waits n d1 d2 t e small h = record {
  no_frame = ground arith;
  no_drop = ground arith;
  small = omega arith;
}
