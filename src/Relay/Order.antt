-- ===== src/Relay/Order.antt =====
-- internal/relay/mux.go: the order in which the controller's frames reach the machine.
use makera_cnc_controller.Base.{
  ℕ, true, false, some, List, [], ◌∷◌, ◌++◌, ◌≡◌, refl, sym, ap, ◌∙◌, arith, append-nil, length,
  ◌==◌, inl, inr, ◌⊎◌, if◌then◌else◌, Bool-cases,
}
use makera_cnc_controller.Relay.{
  Mux, new_mux, acquire_injection, acquire_interactive, release_round, end_window,
  finish_local_transfer,
}
use makera_cnc_controller.Relay.Window.{
  Session, new_session, take_frame, round, begin_round, ◌⟶◌, takes, forwards, acquires, leases,
  releases, rounds, flushes, routes, writes, reads, begins_local, finishes_local, Reached, start,
  next,
}
use makera_cnc_controller.Relay.Queueing.{
  flying, waiting, Ordered, same_window, List-cases, Same, route-Same, begin_local-Same, write-Same,
  read-Same, note-Noted, arrive-Ordered, forward-Ordered, flush-Ordered,
}

-- A round takes every held frame, and ends the window if there is none.
record Rounded (m : Mux) (r : Mux × List (List ℕ)) : Type 0 where
  taken : r.1 ≡ m.held_controller
  left : r.0.held_controller ≡ []
  window : r.0.injecting ≡ (if length m.held_controller == 0 then false else m.injecting)

release-Rounded : (m : Mux) → Rounded m (release_round m)
unfolding release_round end_window
release-Rounded m = elim (List-cases m.held_controller) [
  | inl h ↦ rw h record { taken = ground arith; left = ground arith; window = ground arith }
  | inr (raw, held, h) ↦ record { taken = ground arith; left = ground arith; window = ground arith }
]

round-Ordered :
    (s : Session) (r : Mux × List (List ℕ))
    → s.flushing ≡ []
    → s.mux.injecting ≡ true
    → Rounded s.mux r
    → Ordered s
    → Ordered (begin_round s r)
unfolding begin_round waiting
round-Ordered s (m, []) e w n o = record {
  fifo = o.fifo ∙ rw (e, n.left, sym n.taken) refl;
  closed_held = λ q. n.left;
  closed_flushing = λ q. e;
  closed_releasing = λ q. refl;
  flying_held = λ q. n.left;
  flying_flushing = λ q. e;
}
round-Ordered s (m, raw ∷ held) e w n o =
    let full : s.mux.held_controller ≡ raw ∷ held = sym n.taken in
    let open_ : m.injecting ≡ true = let x = n.window in ground (arith, ap length full) in
    record {
      fifo =
          o.fifo
          ∙ rw (e, n.left, full)
              (ap (λ t. s.sent ++ (flying s.in_flight ++ t)) (sym (append-nil (raw ∷ held))));
      closed_held = λ q. n.left;
      closed_flushing = λ q. ground arith;
      closed_releasing = λ q. ground arith;
      flying_held = λ q. n.left;
      flying_flushing = λ q. let g = o.flying_held q in ground arith;
    }

releasing_open : (s : Session) → s.releasing ≡ true → Ordered s → s.mux.injecting ≡ true
releasing_open s w o = elim (Bool-cases s.mux.injecting) [
  | inl y ↦ y
  | inr y ↦ let c = o.closed_releasing y in ground arith
]

-- A window opens where none is, so nothing is held or being flushed.
opens-Ordered :
    (s : Session) (m : Mux)
    → s.mux.injecting ≡ false
    → m.held_controller ≡ s.mux.held_controller
    → m.injecting ≡ true
    → Ordered s
    → Ordered (record s { mux = m })
unfolding waiting
opens-Ordered s m w h i o = record {
  fifo = rw h o.fifo;
  closed_held = λ q. ground arith;
  closed_flushing = λ q. ground arith;
  closed_releasing = λ q. ground arith;
  flying_held = λ q. h ∙ o.flying_held q;
  flying_flushing = o.flying_flushing;
}

acquire-opens :
    (m n : Mux)
    → (acquire_injection m ≡ some n) ⊎ (acquire_interactive m ≡ some n)
    → (m.injecting ≡ false) × (n.held_controller ≡ m.held_controller) × (n.injecting ≡ true)
unfolding acquire_injection acquire_interactive
acquire-opens m n (inl e) = ground arith
acquire-opens m n (inr e) = ground arith

Step-Ordered : (s t : Session) → s ⟶ t → Ordered s → Ordered t
unfolding take_frame round finish_local_transfer waiting Same
Step-Ordered s _ (takes f e) o = arrive-Ordered s f _ e o (note-Noted s.mux f)
Step-Ordered s _ (forwards raw e) o = forward-Ordered s raw e o
Step-Ordered s _ (acquires m e) o =
    let w = acquire-opens s.mux m (inl e) in opens-Ordered s m w.0 w.1 w.2 o
Step-Ordered s _ (leases m e) o =
    let w = acquire-opens s.mux m (inr e) in opens-Ordered s m w.0 w.1 w.2 o
Step-Ordered s _ (releases w e) o = record {
  fifo = o.fifo;
  closed_held = o.closed_held;
  closed_flushing = o.closed_flushing;
  closed_releasing = λ q. ground arith;
  flying_held = o.flying_held;
  flying_flushing = o.flying_flushing;
}
Step-Ordered s _ (rounds w e) o =
    round-Ordered s _ e (releasing_open s w o) (release-Rounded s.mux) o
Step-Ordered s _ (flushes raw rest e) o = flush-Ordered s raw rest e o
Step-Ordered s _ (routes f) o = let e = route-Same s.mux f in same_window s _ e.0 e.1 o
Step-Ordered s _ (writes t t' m p h) o =
    let e = write-Same t t' s.mux m p h in same_window s m e.0 e.1 o
Step-Ordered s _ (reads t t' m size p h) o =
    let e = read-Same t t' s.mux m size p h in same_window s m e.0 e.1 o
Step-Ordered s _ begins_local o = let e = begin_local-Same s.mux in same_window s _ e.0 e.1 o
Step-Ordered s _ finishes_local o = same_window s _ refl refl o

new_session-Ordered : Ordered new_session
unfolding new_session new_mux waiting flying
new_session-Ordered = record {
  fifo = refl;
  closed_held = λ _. refl;
  closed_flushing = λ _. refl;
  closed_releasing = λ _. refl;
  flying_held = λ _. refl;
  flying_flushing = λ _. refl;
}

Reached-Ordered : (s : Session) → Reached s → Ordered s
Reached-Ordered _ start = new_session-Ordered
Reached-Ordered _ (next s t r st) = Step-Ordered s t st (Reached-Ordered s r)

-- However the pumps, an operation of the proxy and its release interleave: the controller's frames, less the
-- status polls answered from the cache, are at every moment those that reached the machine, in the order of
-- their arrival, then the one that the pump is about to write, then those that a release has taken, and last
-- those still held. None is lost, doubled or overtaken.
pub sent_in_order :
    (s : Session)
    → Reached s
    → s.arrived ≡ s.sent ++ (flying s.in_flight ++ (s.flushing ++ s.mux.held_controller))
unfolding waiting
sent_in_order s r = (Reached-Ordered s r).fifo
