-- ===== src/Relay/Feed.antt =====
-- internal/relay/mux.go: a managed window as the operation sees it, and the steps of the mux while it is open.
use makera_cnc_controller.Base.{
  ℕ, zero, suc, Bool, true, false, some, List, [], ◌∷◌, ◌++◌, ◌≡◌, refl, sym, ap, ◌∙◌, ◌⊎◌, inl,
  inr, arith, append_assoc, ltb, length, take, drop, Bool-cases,
}
use makera_cnc_controller.Protocol.{Frame}
use makera_cnc_controller.Relay.Queueing.{List-cases}
use makera_cnc_controller.Relay.{
  Mux, note_controller_frame, route_machine_frame, acquire_injection, abort_interactive,
  track_transfer, hold, begin_local_transfer, finish_local_transfer,
}
use makera_cnc_controller.Relay.Injection.{
  note_injected_frames, read_queue, Transport, done, inject_write, inject_read,
}

-- `diverted` is the frames of the machine that were not forwarded to the controller, and `got` is the bytes that
-- the operation has read.
pub record Feed : Type 0 where
  pub mux : Mux
  pub transport : Transport
  pub diverted : List Frame
  pub got : List ℕ

unfoldable pub opened : Mux → Feed
opened m = record {
  mux = m;
  transport = record { scan_buf = []; write_buf = [] };
  diverted = [];
  got = [];
}

unfoldable pub routed : Feed → Frame → Mux × Bool → Feed
routed s f (m, true) = record s { mux = m }
routed s f (m, false) = record s { mux = m; diverted = s.diverted ++ (f ∷ []) }

unfoldable pub route : Feed → Frame → Feed
unfolding routed route_machine_frame
route s f = routed s f (route_machine_frame s.mux f)

infix 4 ◌⟿◌
-- One step while a managed window is open.
pub data ◌⟿◌ (s : Feed) : Feed → Type 0 where
  notes : (f : Frame) → s ⟿ record s { mux = (note_controller_frame s.mux f).0 }
  routes : (f : Frame) → s ⟿ route s f
  writes :
      (p : List ℕ) (t : Transport) (m : Mux)
      → inject_write s.transport s.mux p ≡ done (t, m)
      → s ⟿ record s { mux = m; transport = t }
  reads :
      (size : ℕ) (t : Transport) (m : Mux) (p : List ℕ)
      → inject_read size s.transport s.mux ≡ done (t, m, p)
      → s ⟿ record s { mux = m; transport = t; got = s.got ++ p }
  begins_local : s ⟿ record s { mux = (begin_local_transfer s.mux).0 }
  finishes_local : s ⟿ record s { mux = finish_local_transfer s.mux }

pub data Fed : Feed → Type 0 where
  start : (m n : Mux) → acquire_injection m ≡ some n → Fed (opened n)
  next : (s t : Feed) → Fed s → s ⟿ t → Fed t

abbrev pub raws : List Frame → List ℕ
raws [] = []
raws (f ∷ fs) = f.raw ++ raws fs

pub raws-append : (fs gs : List Frame) → raws (fs ++ gs) ≡ raws fs ++ raws gs
raws-append [] gs = refl
raws-append (f ∷ fs) gs =
    ap (λ t. f.raw ++ t) (raws-append fs gs) ∙ sym (append_assoc f.raw (raws fs) (raws gs))

pub take-drop : (n : ℕ) (xs : List ℕ) → take n xs ++ drop n xs ≡ xs
take-drop zero xs = refl
take-drop (suc n) [] = refl
take-drop (suc n) (x ∷ xs) = ap (λ t. x ∷ t) (take-drop n xs)

-- Up to now nothing is lost; or a frame was, and the window shows it.
abbrev pub Whole : Feed → Type 0
Whole s =
    (s.mux.inject_overflow ≡ false)
    × (s.mux.inject_open ≡ true)
    × (raws s.diverted ≡ s.got ++ (s.transport.scan_buf ++ raws s.mux.inject_queue))

abbrev pub Broken : Feed → Type 0
Broken s =
    (s.mux.inject_overflow ≡ true)
    × (s.mux.inject_open ≡ false)
    × (rest : List ℕ) × (raws s.diverted ≡ s.got ++ (s.transport.scan_buf ++ rest))

pub record Managed (s : Feed) : Type 0 where
  pub managed : s.mux.interactive ≡ false
  pub window : s.mux.injecting ≡ true
  pub unaborted : s.mux.abort_open ≡ false
  pub stream : Whole s ⊎ Broken s

-- A step of the mux that leaves what the operation sees.
pub record Apart (m n : Mux) : Type 0 where
  pub interactive : n.interactive ≡ m.interactive
  pub injecting : n.injecting ≡ m.injecting
  pub abort_open : n.abort_open ≡ m.abort_open
  pub inject_open : n.inject_open ≡ m.inject_open
  pub inject_queue : n.inject_queue ≡ m.inject_queue
  pub inject_overflow : n.inject_overflow ≡ m.inject_overflow

pub Apart-Managed :
    (s : Feed) (m : Mux) → Apart s.mux m → Managed s → Managed (record s { mux = m })
Apart-Managed s m a g = record {
  managed = a.interactive ∙ g.managed;
  window = a.injecting ∙ g.window;
  unaborted = a.abort_open ∙ g.unaborted;
  stream = elim g.stream [
    | inl x ↦ inl (a.inject_overflow ∙ x.0, a.inject_open ∙ x.1, rw a.inject_queue x.2)
    | inr x ↦ inr (a.inject_overflow ∙ x.0, a.inject_open ∙ x.1, x.2, x.3)
  ];
}

pub note-Apart :
    (m : Mux) (f : Frame) → m.interactive ≡ false → Apart m (note_controller_frame m f).0
unfolding note_controller_frame track_transfer abort_interactive hold
note-Apart m f h = record {
  interactive = ground arith;
  injecting = ground arith;
  abort_open = ground arith;
  inject_open = ground arith;
  inject_queue = ground arith;
  inject_overflow = ground arith;
}

pub begin_local-Apart : (m : Mux) → m.interactive ≡ false → Apart m (begin_local_transfer m).0
unfolding begin_local_transfer abort_interactive
begin_local-Apart m h = record {
  interactive = ground arith;
  injecting = ground arith;
  abort_open = ground arith;
  inject_open = ground arith;
  inject_queue = ground arith;
  inject_overflow = ground arith;
}

pub write-Apart :
    (t t' : Transport) (m n : Mux) (p : List ℕ)
    → inject_write t m p ≡ done (t', n)
    → Apart m n × (t'.scan_buf ≡ t.scan_buf)
unfolding inject_write note_injected_frames
write-Apart t t' m n p e = (
  record {
    interactive = ground arith;
    injecting = ground arith;
    abort_open = ground arith;
    inject_open = ground arith;
    inject_queue = ground arith;
    inject_overflow = ground arith;
  },
  ground arith,
)

pub empty : (xs : List ℕ) → ltb 0 (length xs) ≡ false → xs ≡ []
empty [] h = refl
empty (x ∷ xs) h = ground arith

-- A Read takes what the last one left over, or else the first of the buffered frames.
pub read-cases :
    (size : ℕ) (t t' : Transport) (m n : Mux) (p : List ℕ)
    → inject_read size t m ≡ done (t', n, p)
    → ((n ≡ m) × (t'.scan_buf ≡ drop size t.scan_buf) × (p ≡ take size t.scan_buf))
      ⊎ ((f : Frame) × (fs : List Frame) × (t.scan_buf ≡ [])
          × (m.inject_open ≡ true)
          × (m.inject_queue ≡ f ∷ fs)
          × (n ≡ record m { inject_queue = fs })
          × (t'.scan_buf ≡ drop size f.raw)
          × (p ≡ take size f.raw))
unfolding inject_read read_queue
read-cases size t t' m n p e = elim (Bool-cases (ltb 0 (length t.scan_buf))) [
  | inl y ↦ inl (ground arith, ground arith, ground arith)
  | inr y ↦ elim (Bool-cases m.inject_open) [
    | inl o ↦ elim (List-cases m.inject_queue) [
      | inl q ↦ absurd (ground arith)
      | inr (f, fs, q) ↦
          inr (f, fs, empty t.scan_buf y, o, q, ground arith, ground arith, ground arith)
    ]
    | inr o ↦ absurd (ground arith)
  ]
]
