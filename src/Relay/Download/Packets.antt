-- ===== src/Relay/Download/Packets.antt =====
-- internal/relay/download_cache.go: the packets of a download make up the file.
use makera_cnc_controller.Base.{
  ℕ, zero, suc, ◌+◌, ◌-◌, ◌*◌, ◌≤◌, ◌≡◌, refl, sym, ap, ◌∙◌, Option, none, some, List, [], ◌∷◌,
  ◌++◌, ltb, ◌==◌, if◌then◌else◌, length, take, drop, length-take, length-drop, arith, ◌⊎◌,
  Bool-cases, inl, inr,
}
use makera_cnc_controller.Base.Slices.{take_all, take_nil, take-add, drop_all, drop-drop}
use makera_cnc_controller.Base.Text.{Text}
use makera_cnc_controller.Relay.Download.{
  tcp_packet_size, max_uint32, Download, new_download, total_packets, packet_range, packet, filled,
}

-- ReadAt on a file with these bytes.
abbrev pub file_reader : List ℕ → ℕ → ℕ → Option (List ℕ)
file_reader content off n = some (take n (drop off content))

-- What the controller puts together: the packets numbered from `first` on.
unfoldable pub assemble : (ℕ → Option (List ℕ)) → ℕ → ℕ → Option (List ℕ)
assemble get first zero = some []
assemble get first (suc n) = elim (get first) [
  | none ↦ none
  | some bytes ↦ elim (assemble get (suc first) n) [
    | none ↦ none
    | some rest ↦ some (bytes ++ rest)
  ]
]

pub filled-all : (n : ℕ) (xs : List ℕ) → length xs ≡ n → filled n xs ≡ xs
unfolding filled
filled-all zero [] h = refl
filled-all zero (x ∷ xs) h = absurd (omega (arith, h))
filled-all (suc n) [] h = absurd (omega arith)
filled-all (suc n) (x ∷ xs) h = ap (λ t. x ∷ t) (filled-all n xs (omega (arith, h)))

slice_eq :
    (n : ℕ) (xs ys : List ℕ)
    → length xs ≡ n
    → xs ≡ ys
    → (if n == 0 then some [] else some (filled n xs)) ≡ some ys
slice_eq zero [] ys h e = ap some e
slice_eq zero (x ∷ xs) ys h e = absurd (omega arith)
slice_eq (suc n) xs ys h e = let f = filled-all (suc n) xs h in ground arith

range_at :
    (size p off : ℕ)
    → let o = (if ltb size off then size else off) in
      let n = (if ltb size (o + p) then size - o else p) in
      ((o ≡ off) × (n ≡ p) × (off + p ≤ size))
      ⊎ ((o ≡ off) × (n ≡ size - off) × (off ≤ size) × (size ≤ off + p))
      ⊎ ((n ≡ 0) × (size ≤ off))
range_at size p off = elim (Bool-cases (ltb size off)) [
  | inl y ↦ inr (inr (ground arith, ground arith))
  | inr y ↦ elim (Bool-cases (ltb size (off + p))) [
    | inl z ↦ inr (inl (ground arith, ground arith, ground arith, ground arith))
    | inr z ↦ inl (ground arith, ground arith, ground arith)
  ]
]

-- Where a packet begins that is whole, that is the last, and that is behind the end.
range-cases :
    (d : Download) (k off : ℕ)
    → off ≡ k * d.packet_size
    → (((packet_range d (suc k)).0 ≡ off)
        × ((packet_range d (suc k)).1 ≡ d.packet_size)
        × (off + d.packet_size ≤ d.size))
      ⊎ (((packet_range d (suc k)).0 ≡ off)
          × ((packet_range d (suc k)).1 ≡ d.size - off)
          × (off ≤ d.size)
          × (d.size ≤ off + d.packet_size))
      ⊎ (((packet_range d (suc k)).1 ≡ 0) × (d.size ≤ off))
unfolding packet_range
range-cases d k off e =
    let one : (if suc k == 0 then 1 else suc k) - 1 ≡ k = ground arith in
    rw (packet_range, one, sym e) (range_at d.size d.packet_size off)

module _ (content : List ℕ) (d : Download) (whole : d.size ≡ length content) where
  packet_bytes :
      (k off : ℕ)
      → off ≡ k * d.packet_size
      → packet (file_reader content) d (suc k) ≡ some (take d.packet_size (drop off content))
  unfolding packet
  packet_bytes k off e =
      let ps = d.packet_size in
      let n = (packet_range d (suc k)).1 in
      elim (range-cases d k off e) [
        | inl (o, m, fits) ↦
            let l : length (take ps (drop off content)) ≡ ps =
              omega (arith, length-take ps (drop off content), length-drop off content) in
            rw (o, m) (slice_eq ps (take ps (drop off content)) (take ps (drop off content)) l refl)
        | inr (inl (o, m, fits, short)) ↦
            let r = d.size - off in
            let l : length (take r (drop off content)) ≡ r =
              omega (arith, length-take r (drop off content), length-drop off content) in
            let a : take r (drop off content) ≡ drop off content =
              take_all r (drop off content) (omega (arith, length-drop off content)) in
            let b : take ps (drop off content) ≡ drop off content =
              take_all ps (drop off content) (omega (arith, length-drop off content)) in
            rw (o, m)
              (slice_eq r (take r (drop off content)) (take ps (drop off content)) l (a ∙ sym b))
        | inr (inr (m, past)) ↦
            rw m (ap some (sym (rw (drop_all off content (omega arith)) (take_nil ps))))
      ]

  assemble_from :
      (n k off : ℕ)
      → off ≡ k * d.packet_size
      → assemble (packet (file_reader content) d) (suc k) n
        ≡ some (take (n * d.packet_size) (drop off content))
  unfolding assemble
  assemble_from zero k off e =
      let none_left : 0 * d.packet_size ≡ 0 = omega arith in rw none_left refl
  assemble_from (suc n) k off e =
      let next : off + d.packet_size ≡ suc k * d.packet_size = omega (arith, e) in
      let more : d.packet_size + n * d.packet_size ≡ suc n * d.packet_size = omega arith in
      rw (assemble, packet_bytes k off e, assemble_from n (suc k) (off + d.packet_size) next)
        (ap some (
          ap (λ t. take d.packet_size (drop off content) ++ take (n * d.packet_size) t)
            (sym (drop-drop d.packet_size off content))
          ∙ take-add d.packet_size (n * d.packet_size) (drop off content)
          ∙ ap (λ t. take t (drop off content)) more))

-- The packets from 1 to the number that the view announces, put together, are the file, whatever its bytes, for
-- a file of at most 2 ^ 32 - 1 packets.
pub packets_whole :
    (content : List ℕ) (md5hex : Text)
    → length content ≤ max_uint32 * tcp_packet_size
    → let d = new_download (length content) md5hex in
      assemble (packet (file_reader content) d) 1 (total_packets d) ≡ some content
packets_whole content md5hex fits =
    let d = new_download (length content) md5hex in
    let size : d.size ≡ length content = unfold new_download in refl in
    let enough : length content ≤ total_packets d * d.packet_size =
      unfold new_download total_packets in ground arith in
    assemble_from content d size (total_packets d) 0 0 (omega arith)
    ∙ ap some (take_all (total_packets d * d.packet_size) content enough)
