-- ===== src/Relay/Queueing.antt =====
-- internal/relay/mux.go: the frames of the controller on their way, at a note and at a write.
use makera_cnc_controller.Base.{
  ℕ, Bool, true, false, Option, none, some, List, [], ◌∷◌, ◌++◌, ◌≡◌, refl, sym, ap, ◌∙◌, arith,
  append_assoc, append-nil, is_some, Option-cases, inl, inr, ◌⊎◌, not, ◌&&◌, if◌then◌else◌,
  Bool-cases,
}
use makera_cnc_controller.Protocol.{Frame}
use makera_cnc_controller.Relay.{
  Mux, is_status_poll, note_controller_frame, route_machine_frame, begin_local_transfer, hold,
  note_status, deliver_inject, abort_interactive, track_transfer,
}
use makera_cnc_controller.Relay.Injection.{
  Transport, done, inject_write, inject_read, read_queue, note_injected_frames,
}
use makera_cnc_controller.Relay.Window.{Session, arrive}

unfoldable pub flying : Option (List ℕ) → List (List ℕ)
flying none = []
flying (some raw) = raw ∷ []

-- What has arrived and not reached the machine, in the order in which it will.
unfoldable pub waiting : Session → List (List ℕ)
unfolding flying
waiting s = flying s.in_flight ++ (s.flushing ++ s.mux.held_controller)

pub record Ordered (s : Session) : Type 0 where
  pub fifo : s.arrived ≡ s.sent ++ waiting s
  pub closed_held : s.mux.injecting ≡ false → s.mux.held_controller ≡ []
  pub closed_flushing : s.mux.injecting ≡ false → s.flushing ≡ []
  pub closed_releasing : s.mux.injecting ≡ false → s.releasing ≡ false
  pub flying_held : is_some s.in_flight ≡ true → s.mux.held_controller ≡ []
  pub flying_flushing : is_some s.in_flight ≡ true → s.flushing ≡ []

-- A step of the mux that keeps the held frames, and the window open or shut.
pub same_window :
    (s : Session) (m : Mux)
    → m.held_controller ≡ s.mux.held_controller
    → m.injecting ≡ s.mux.injecting
    → Ordered s
    → Ordered (record s { mux = m })
unfolding waiting
same_window s m h i o = record {
  fifo = rw h o.fifo;
  closed_held = λ e. h ∙ o.closed_held (sym i ∙ e);
  closed_flushing = λ e. o.closed_flushing (sym i ∙ e);
  closed_releasing = λ e. o.closed_releasing (sym i ∙ e);
  flying_held = λ e. h ∙ o.flying_held e;
  flying_flushing = o.flying_flushing;
}

pub List-cases : {A : Type 0} (xs : List A) → (xs ≡ []) ⊎ ((x : A) × (ys : List A) × (xs ≡ x ∷ ys))
List-cases [] = inl refl
List-cases (x ∷ xs) = inr (x, xs, refl)

unfoldable pub Same : Mux → Mux → Type 0
Same m n = (n.held_controller ≡ m.held_controller) × (n.injecting ≡ m.injecting)

pub route-Same : (m : Mux) (f : Frame) → Same m (route_machine_frame m f).0
unfolding Same route_machine_frame note_status deliver_inject
route-Same m f = ground arith

pub begin_local-Same : (m : Mux) → Same m (begin_local_transfer m).0
unfolding Same begin_local_transfer abort_interactive
begin_local-Same m = ground arith

pub write-Same :
    (t t' : Transport) (m n : Mux) (p : List ℕ) → inject_write t m p ≡ done (t', n) → Same m n
unfolding Same inject_write note_injected_frames
write-Same t t' m n p e = ground arith

pub read-Same :
    (t t' : Transport) (m n : Mux) (size : ℕ) (p : List ℕ)
    → inject_read size t m ≡ done (t', n, p)
    → Same m n
unfolding Same inject_read read_queue
read-Same t t' m n size p e = elim (List-cases m.inject_queue) [
  | inl q ↦ ground arith
  | inr (f, fs, q) ↦ ground arith
]

-- What the note of a frame does with the frame: it is to be forwarded while no window is open; in a window
-- it is held behind the others, unless it is a status poll.
pub record Noted (m : Mux) (f : Frame) (r : Mux × Bool) : Type 0 where
  pub window : r.0.injecting ≡ m.injecting
  pub told : r.1 ≡ not m.injecting
  pub held : r.0.held_controller ≡ (
      if m.injecting && not (is_status_poll f)
      then m.held_controller ++ (f.raw ∷ [])
      else m.held_controller)

pub note-Noted : (m : Mux) (f : Frame) → Noted m f (note_controller_frame m f)
unfolding note_controller_frame track_transfer abort_interactive hold
note-Noted m f = record { window = ground arith; told = ground arith; held = ground arith }

pub behind : (a b c d e : List (List ℕ)) → (a ++ (b ++ (c ++ d))) ++ e ≡ a ++ (b ++ (c ++ (d ++ e)))
behind a b c d e =
    append_assoc a (b ++ (c ++ d)) e
    ∙ ap (λ t. a ++ t) (append_assoc b (c ++ d) e ∙ ap (λ t. b ++ t) (append_assoc c d e))

pub arrive-Ordered :
    (s : Session) (f : Frame) (r : Mux × Bool)
    → s.in_flight ≡ none
    → Ordered s
    → Noted s.mux f r
    → Ordered (arrive s f r)
unfolding arrive waiting flying
arrive-Ordered s f (m, true) e o n =
    let shut : s.mux.injecting ≡ false = let t = n.told in ground arith in
    let h : m.held_controller ≡ [] = let k = n.held in let c = o.closed_held shut in ground arith in
    let g = o.closed_flushing shut in
    record {
      fifo =
          let still : s.arrived ≡ s.sent =
            o.fifo ∙ rw (e, g, o.closed_held shut) (append-nil s.sent) in
          rw (h, g, still) refl;
      closed_held = λ q. h;
      closed_flushing = λ q. g;
      closed_releasing = λ q. o.closed_releasing shut;
      flying_held = λ q. h;
      flying_flushing = λ q. g;
    }
arrive-Ordered s f (m, false) e o n =
    let open_ : s.mux.injecting ≡ true = let t = n.told in ground arith in
    record {
      fifo = elim (Bool-cases (is_status_poll f)) [
        | inl y ↦
            let kept : m.held_controller ≡ s.mux.held_controller = let k = n.held in ground arith in
            rw (y, kept) o.fifo
        | inr y ↦
            let more : m.held_controller ≡ s.mux.held_controller ++ (f.raw ∷ []) =
              let k = n.held in ground arith in
            rw (y, more)
              (ap (λ t. t ++ (f.raw ∷ [])) o.fifo
                ∙ behind s.sent (flying s.in_flight) s.flushing s.mux.held_controller (f.raw ∷ []))
      ];
      closed_held = λ q. let w = n.window in ground arith;
      closed_flushing = λ q. let w = n.window in ground arith;
      closed_releasing = λ q. let w = n.window in ground arith;
      flying_held = λ q. ground arith;
      flying_flushing = λ q. ground arith;
    }

pub forward-Ordered :
    (s : Session) (raw : List ℕ)
    → s.in_flight ≡ some raw
    → Ordered s
    → Ordered (record s { in_flight = none; sent = s.sent ++ (raw ∷ []) })
unfolding waiting flying
forward-Ordered s raw e o =
    let h : s.mux.held_controller ≡ [] = o.flying_held (ap is_some e) in
    let g : s.flushing ≡ [] = o.flying_flushing (ap is_some e) in
    record {
      fifo = o.fifo ∙ rw (e, g, h) (sym (append-nil (s.sent ++ (raw ∷ []))));
      closed_held = o.closed_held;
      closed_flushing = o.closed_flushing;
      closed_releasing = o.closed_releasing;
      flying_held = λ q. h;
      flying_flushing = λ q. g;
    }

pub flush-Ordered :
    (s : Session) (raw : List ℕ) (rest : List (List ℕ))
    → s.flushing ≡ raw ∷ rest
    → Ordered s
    → Ordered (record s { flushing = rest; sent = s.sent ++ (raw ∷ []) })
unfolding waiting flying
flush-Ordered s raw rest e o =
    let quiet : s.in_flight ≡ none = elim (Option-cases s.in_flight) [
      | inl y ↦ y
      | inr (x, y) ↦ let g = o.flying_flushing (ap is_some y) in ground arith
    ] in
    record {
      fifo =
          o.fifo
          ∙ rw (e, quiet) (sym (append_assoc s.sent (raw ∷ []) (rest ++ s.mux.held_controller)));
      closed_held = o.closed_held;
      closed_flushing = λ q. let g = o.closed_flushing q in ground arith;
      closed_releasing = o.closed_releasing;
      flying_held = o.flying_held;
      flying_flushing = λ q. let g = o.flying_flushing q in ground arith;
    }
