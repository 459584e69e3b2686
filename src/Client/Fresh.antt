-- ===== src/Client/Fresh.antt =====
-- internal/client/conn.go: QueryState answers with a report that came after the query.
use mathlib.Core.Path.{subst}
use makera_cnc_controller.Base.{
  ℕ, zero, suc, ◌<◌, ◌≡◌, refl, sym, ap, ◌∙◌, true, Option, none, some, List, [], ◌∷◌, arith, ◌==◌,
  if◌then◌else◌, inl, inr, ◌⊎◌, Bool-cases, Option-cases,
}
use makera_cnc_controller.Protocol.{Frame}
use makera_cnc_controller.Protocol.Escape.{query_status}
use makera_cnc_controller.Client.{
  NetError, write_frame, ReadResult, refused, got, Inbound, Received, frame, failed, absorb,
  received, read_loop, read_frame, remaining, again, done, frame_loop, each_frame,
}
use makera_cnc_controller.Client.Loops.{
  heard, fold_frames, fold-again, fold-done, each_frame-Folds, read_frame-Next, loop-again,
  loop-failed,
}
use makera_cnc_controller.Client.Commands.{
  ClientError, net, ok, err, Conn, normal_info_error, transact, net_fault,
}
use makera_cnc_controller.Client.Queries.{
  latest, drain_round, drain_fault, drain_available_frames, state_round, after_drain, query_state,
}

-- What is left to read behind the first read that fails.
behind_read : List Frame → List ℕ → Option NetError → List ReadResult → Inbound → Inbound
behind_read (f ∷ fs) b e rs i = i
behind_read [] b (some e) rs i = record { pending = []; buffer = b; reads = rs }
behind_read [] b none rs i = i

behind_reads : List ReadResult → List ℕ → Inbound
unfolding behind_read
behind_reads [] b = record { pending = []; buffer = b; reads = [] }
behind_reads (refused e ∷ rs) b = record { pending = []; buffer = b; reads = rs }
behind_reads (got bytes e ∷ rs) b =
    let (fs, b') = absorb b bytes in behind_read fs b' e rs (behind_reads rs b')

pub behind_first : Inbound → Inbound
unfolding behind_reads
behind_first i = behind_reads i.reads i.buffer

-- A frame that is read changes nothing of that; a read that fails leaves it.
abbrev Leaves : Inbound → Received → Type 0
Leaves j (frame f i) = behind_first i ≡ j
Leaves j (failed e i) = i ≡ j

received-Leaves :
    (fs : List Frame) (b : List ℕ) (e : Option NetError) (rs : List ReadResult) (next : Received)
    → Leaves (behind_reads rs b) next
    → Leaves (behind_read fs b e rs (behind_reads rs b)) (received fs b e rs next)
unfolding received behind_read behind_first
received-Leaves (f ∷ fs) b e rs next h = refl
received-Leaves [] b (some e) rs next h = refl
received-Leaves [] b none rs (frame f i) h = h
received-Leaves [] b none rs (failed e i) h = h

read_loop-Leaves : (rs : List ReadResult) (b : List ℕ) → Leaves (behind_reads rs b) (read_loop rs b)
unfolding read_loop behind_reads
read_loop-Leaves [] b = refl
read_loop-Leaves (refused e ∷ rs) b = refl
read_loop-Leaves (got bytes e ∷ rs) b =
    let (fs, b') = absorb b bytes in
    received-Leaves fs b' e rs (read_loop rs b') (read_loop-Leaves rs b')

read_frame-Leaves : (i : Inbound) → Leaves (behind_first i) (read_frame i)
read_frame-Leaves i = at i.pending i.buffer i.reads
  where
    at :
        (fs : List Frame) (b : List ℕ) (rs : List ReadResult)
        → let j : Inbound = record { pending = fs; buffer = b; reads = rs } in
          Leaves (behind_first j) (read_frame j)
    at (f ∷ fs) b rs = unfold behind_first read_frame in refl
    at [] b rs = unfold behind_first read_frame in read_loop-Leaves rs b

-- A drain reads up to the first read that fails, and leaves what is behind it.
drain-leaves :
    (fuel : ℕ) (d : Option ClientError) (i : Inbound)
    → remaining i < fuel
    → (d' : Option ClientError) × (frame_loop drain_fault drain_round fuel d i
        ≡ some (d', behind_first i))
unfolding drain_round
drain-leaves zero d i h = absurd (omega arith)
drain-leaves (suc fuel) d i h = elim (read_frame-Next i) [
  | inl (f, i', r, hd, n) ↦
      let d1 = (if f.cmd == 0x90 then latest d (normal_info_error f.data_bytes) else d) in
      let (d2, more) = drain-leaves fuel d1 i' (omega arith) in
      let same : behind_first i' ≡ behind_first i =
        subst (Leaves (behind_first i)) r (read_frame-Leaves i) in
      (
        d2,
        loop-again drain_fault drain_round fuel d i f i' d1 r refl
            ∙ more
            ∙ ap (λ j. some (d2, j)) same,
      )
  | inr (e, i', r, hd) ↦
      let same : i' ≡ behind_first i = subst (Leaves (behind_first i)) r (read_frame-Leaves i) in
      (
        drain_fault d e,
        loop-failed drain_fault drain_round fuel d i e i' r
            ∙ ap (λ j. some (drain_fault d e, j)) same,
      )
]

-- One of the frames is a status report with this payload.
abbrev pub Reports : List ℕ → List Frame → Type 0
Reports payload [] = ⊥
Reports payload (f ∷ fs) =
    (((f.cmd == 0x81) ≡ true) × (f.data_bytes ≡ payload)) ⊎ Reports payload fs

-- One round: a status report ends it, an error line ends it with that error, and all else is passed over.
round-cases :
    (seen : Option (List (List ℕ))) (f : Frame)
    → (((f.cmd == 0x81) ≡ true) × (state_round (seen, tt) f ≡ done (seen, ok f.data_bytes)))
      ⊎ ((e : ClientError) × (state_round (seen, tt) f ≡ done (seen, err e)))
      ⊎ (state_round (seen, tt) f ≡ again (seen, tt))
unfolding state_round
round-cases seen f = elim (Bool-cases (f.cmd == 0x81)) [
  | inl y ↦ inl (y, rw y refl)
  | inr n ↦ elim (Bool-cases (f.cmd == 0x90)) [
    | inr m ↦ inr (inr (rw (n, m) refl))
    | inl y ↦ elim (Option-cases (normal_info_error f.data_bytes)) [
      | inl fine ↦ inr (inr (rw (n, y, fine) refl))
      | inr (e, bad) ↦ inr (inl (e, rw (n, y, bad) refl))
    ]
  ]
]

fold-Reports :
    (seen : Option (List (List ℕ))) (fs : List Frame) (e : NetError) (payload : List ℕ)
    → (fold_frames net_fault state_round (seen, tt) fs e).1 ≡ ok payload
    → Reports payload fs
fold-Reports seen [] e payload h = let h' : err (net e) ≡ ok payload = unfold fold_frames in h in cc
fold-Reports seen (f ∷ fs) e payload h = elim (round-cases seen f) [
  | inl (y, t) ↦
      let d = fold-done net_fault state_round (seen, tt) f fs e (seen, ok f.data_bytes) t in
      let same : ok f.data_bytes ≡ ok payload = sym (ap (λ r. r.1) d) ∙ h in inl (y, cc)
  | inr (inl (x, t)) ↦
      let d = fold-done net_fault state_round (seen, tt) f fs e (seen, err x) t in
      let other : err x ≡ ok payload = sym (ap (λ r. r.1) d) ∙ h in cc
  | inr (inr t) ↦
      let d = fold-again net_fault state_round (seen, tt) f fs e (seen, tt) t in
      inr (fold-Reports seen fs e payload (sym (ap (λ r. r.1) d) ∙ h))
]

some_fields :
    {A B : Type 0} {a a' : A} {b b' : B}
    → ◌≡◌ {A = Option (A × B)} (some (a, b)) (some (a', b'))
    → a ≡ a'
some_fields h = cc

-- A query that gives a result has it from the frames heard behind it.
asked :
    (k k' : Conn) (i : Inbound) (payload : List ℕ)
    → transact net_fault state_round (record k { inbound = i }) query_status (k.observed, tt)
      ≡ some (ok payload, k')
    → Reports payload (heard i).frames
unfolding transact
asked k k' i payload h =
    let (i', folded) = each_frame-Folds net_fault state_round (k.observed, tt) i in
    elim (Option-cases (write_frame k.out query_status).1) [
      | inr (e, bad) ↦ let no_result = (rw (bad, transact) at h) in cc
      | inl fine ↦
          let result = (rw folded at (rw (fine, transact) at h)) in
          let kept = some_fields result in
          fold-Reports k.observed (heard i).frames (heard i).fault payload kept
    ]

drained :
    (k k' : Conn) (d : Option ClientError) (i : Inbound) (payload : List ℕ)
    → after_drain k (some (d, i)) ≡ some (ok payload, k')
    → Reports payload (heard i).frames
unfolding after_drain
drained k k' (some e) i payload h = cc
drained k k' none i payload h = asked k k' i payload h

-- What QueryState returns as the machine's state is the payload of a status report that is read behind the first
-- read that gives no frame but an error or the end of a quiet moment, and so never one that was waiting when the
-- query was made.
pub query_state_fresh :
    (k k' : Conn) (payload : List ℕ)
    → query_state k ≡ some (ok payload, k')
    → Reports payload (heard (behind_first k.inbound)).frames
unfolding query_state drain_available_frames each_frame
query_state_fresh k k' payload h =
    let (d, e) = drain-leaves (suc (remaining k.inbound)) none k.inbound (omega arith) in
    drained k k' d (behind_first k.inbound) payload (sym (ap (after_drain k) e) ∙ h)
