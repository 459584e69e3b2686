-- ===== src/Client/Packets.antt =====
-- internal/client/conn.go: dataPacket cuts a file into packets.
use makera_cnc_controller.Base.{
  ℕ, zero, suc, ◌+◌, ◌-◌, ◌*◌, ◌%◌, ◌^◌, ◌≤◌, ◌<◌, ◌≡◌, refl, sym, ap, ◌∙◌, some, List, [], ◌∷◌,
  ◌++◌, append-nil, arith, ltb, ◌==◌, if◌then◌else◌, length, take, drop, length-take, length-drop,
  inl, inr, Bool-cases,
}
use makera_cnc_controller.Base.Slices.{take_all}
use makera_cnc_controller.Relay.Download.{uint32_bytes, filled}
use makera_cnc_controller.Relay.Download.Packets.{file_reader, filled-all}
use makera_cnc_controller.Client.Transfer.{packet_offset, chunk_length, data_packet}

-- The bytes of a file in packet m + 1.
abbrev pub part : List ℕ → ℕ → ℕ → List ℕ
part content ps m = take ps (drop (m * ps) content)

slice :
    (header : List ℕ) (n : ℕ) (xs ys : List ℕ)
    → length xs ≡ n
    → xs ≡ ys
    → (if n == 0 then some header else some (header ++ filled n xs)) ≡ some (header ++ ys)
slice header zero [] ys h e = ap some (sym (append-nil header) ∙ ap (λ t. header ++ t) e)
slice header zero (x ∷ xs) ys h e = absurd (omega arith)
slice header (suc n) xs ys h e =
    let f : header ++ filled (suc n) xs ≡ header ++ ys =
      ap (λ t. header ++ t) (filled-all (suc n) xs h ∙ e) in
    ground arith

module _ (content : List ℕ) (ps m : ℕ) (small : suc m < 2 ^ 32) where
  offset_eq : packet_offset (file_reader content) (length content) ps (suc m) ≡ m * ps
  unfolding packet_offset
  offset_eq = let e : (suc m + 2 ^ 32 - 1) % 2 ^ 32 ≡ m = omega arith in ap (λ t. t * ps) e

  -- The length of what is read, and what it is.
  chunk_eq :
      (n : ℕ)
      → n ≡ (if ltb (length content) (m * ps + ps) then length content - m * ps else ps)
      → (length (take n (drop (m * ps) content)) ≡ n)
        × (take n (drop (m * ps) content) ≡ part content ps m)
  chunk_eq n e =
      let xs = drop (m * ps) content in
      let l : length xs ≡ length content - m * ps = length-drop (m * ps) content in
      elim (Bool-cases (ltb (length content) (m * ps + ps))) [
        | inl short ↦
            let k : n ≡ length xs = ground arith in
            (
              omega (arith, length-take n xs),
              take_all n xs (omega arith) ∙ sym (take_all ps xs (ground arith)),
            )
        | inr whole ↦
            let k : n ≡ ps = ground arith in
            (
              let le : ps ≤ length xs = ground arith in omega (arith, length-take n xs),
              ap (λ t. take t xs) k,
            )
      ]

  -- Packet m + 1 is its number and its part of the file.
  pub data_packet_lem :
      data_packet (file_reader content) (length content) ps (suc m)
      ≡ some (uint32_bytes (suc m) ++ part content ps m)
  unfolding data_packet chunk_length
  data_packet_lem =
      let n = (if ltb (length content) (m * ps + ps) then length content - m * ps else ps) in
      let (l, e) = chunk_eq n refl in
      rw offset_eq
        (slice (uint32_bytes (suc m)) n (take n (drop (m * ps) content)) (part content ps m) l e)
