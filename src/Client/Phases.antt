-- ===== src/Client/Phases.antt =====
-- internal/client/conn.go: what Download has of a file, in each of its states.
use native.Mathlib.Nat.{lt-div-mul-add, div-lt_iff_lt-mul}
use makera_cnc_controller.Base.{
  ℕ, suc, ◌+◌, ◌-◌, ◌*◌, ◌/◌, ◌%◌, ◌^◌, ◌≤◌, ◌<◌, ◌≡◌, ap, ◌∙◌, Bool, true, false, Option, none,
  some, List, [], arith, ltb, ◌==◌, length, take, inl, inr, ◌⊎◌, Bool-cases, Option-cases,
}
use makera_cnc_controller.Protocol.{Frame, encode}
use makera_cnc_controller.Relay.Download.{uint32_of}
use makera_cnc_controller.Relay.Download.Packets.{file_reader}
use makera_cnc_controller.Client.{write_frame, Turn, again, done}
use makera_cnc_controller.Client.Transfer.{data_packet, packet_count}
use makera_cnc_controller.Client.Transfer.Download.{
  DownloadState, wait_md5, wait_view, read_data, Fetch, FetchEnd, ask,
}

-- A file of at most 2 ^ 32 - 1 packets is no longer than its packets.
pub packets_cover :
    (reader : ℕ → ℕ → Option (List ℕ)) (size ps : ℕ)
    → 0 < ps
    → size ≤ (2 ^ 32 - 1) * ps
    → (size ≤ packet_count reader size ps * ps)
      × (packet_count reader size ps < 2 ^ 32)
      × (0 < packet_count reader size ps)
unfolding packet_count
packets_cover reader size ps pos fits =
    let q = (size + ps - 1) / ps in
    let small : q < 2 ^ 32 = (div-lt_iff_lt-mul pos).1 (omega arith) in
    let kept : q % 2 ^ 32 ≡ q = omega arith in
    let above : size + ps - 1 < q * ps + ps = lt-div-mul-add pos in
    rw kept (elim (Bool-cases (q == 0)) [
      | inl z ↦
          let none_left : q ≡ 0 = ground arith in
          rw z (omega (arith, above, ap (λ (t : ℕ). t * ps) none_left))
      | inr n ↦ rw n (ground arith)
    ])

module _ (content : List ℕ) (ps : ℕ) where
  -- What a machine sends that holds the file in packets of this size: the number of packets in a FILE_VIEW, and in
  -- a FILE_DATA the packet that Upload sends under its number.
  abbrev pub Serves : Frame → Type 0
  Serves f =
      ((f.cmd == 0xB2) ≡ true
        → uint32_of (take 4 f.data_bytes) ≡ packet_count (file_reader content) (length content) ps)
      × ((f.cmd == 0xB3) ≡ true
          → ltb (length f.data_bytes) 4 ≡ false
          → data_packet (file_reader content) (length content) ps (uint32_of (take 4 f.data_bytes))
            ≡ some f.data_bytes)

  -- The first m packets.
  abbrev pub Prefix : List ℕ → Type 0
  Prefix file = (m : ℕ) × (file ≡ take (m * ps) content)

  abbrev pub PhaseAt : DownloadState → ℕ → ℕ → List ℕ → Type 0
  PhaseAt wait_md5 next_seq total file = file ≡ []
  PhaseAt wait_view next_seq total file = file ≡ []
  PhaseAt read_data next_seq total file =
      (m : ℕ) × (next_seq ≡ suc m)
      × (m < packet_count (file_reader content) (length content) ps)
      × (total ≡ packet_count (file_reader content) (length content) ps)
      × (file ≡ take (m * ps) content)

  abbrev pub Phase : DownloadState → Fetch → Type 0
  Phase st d = PhaseAt st d.next_seq d.total d.file

  abbrev pub Inv : Fetch → Type 0
  Inv d = Phase d.state d × (d.sinks ≡ [])

  -- A result: the file so far, which is whole unless the machine ended it or there is an error.
  abbrev pub Whole : Bool → FetchEnd → Type 0
  Whole ended r = Prefix r.0.file × (r.1 ≡ none → (r.0.file ≡ content) ⊎ (ended ≡ true))

  abbrev pub Kept : Bool → Turn Fetch FetchEnd → Type 0
  Kept ended (again d) = Inv d
  Kept ended (done r) = Whole ended r

  pub empty_prefix : (file : List ℕ) → file ≡ [] → file ≡ take (0 * ps) content
  empty_prefix file h = h ∙ ap (λ t. take t content) (let e : 0 ≡ 0 * ps = omega arith in e)

  pub prefix_of : (st : DownloadState) (d : Fetch) → Phase st d → Prefix d.file
  prefix_of wait_md5 d h = (0, empty_prefix d.file h)
  prefix_of wait_view d h = (0, empty_prefix d.file h)
  prefix_of read_data d (m, nx, lt, tot, fe) = (m, fe)

  -- A frame is written, and what follows holds whatever becomes of it.
  pub ask-Kept :
      (ended : Bool) (d : Fetch) (cmd : ℕ) (payload : List ℕ) (next : Fetch)
      → Prefix d.file
      → Inv next
      → Kept ended (ask d cmd payload next)
  unfolding ask
  ask-Kept ended d cmd payload next p inv =
      elim (Option-cases (write_frame d.out (encode cmd payload)).1) [
        | inl ok ↦ rw (ok, Kept) inv
        | inr (e, bad) ↦ rw (bad, Kept) (p, λ h. cc)
      ]
