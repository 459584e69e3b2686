-- ===== src/Relay/Window.antt =====
-- internal/relay/relay.go and mux.go: the two pumps, an operation of the proxy, and the release of its window,
-- interleaved at the sections under the mutex and at the writes to the machine between them.
use makera_cnc_controller.Base.{
  ℕ, Bool, true, false, Option, none, some, List, [], ◌∷◌, ◌++◌, ◌≡◌, if◌then◌else◌,
}
use makera_cnc_controller.Protocol.{Frame}
use makera_cnc_controller.Relay.{
  Mux, new_mux, is_status_poll, note_controller_frame, route_machine_frame, acquire_injection,
  acquire_interactive, release_round, begin_local_transfer, finish_local_transfer,
}
use makera_cnc_controller.Relay.Injection.{Transport, done, inject_write, inject_read}

-- `in_flight` is the frame that the controller's pump was told to forward and has not written yet;
-- `flushing` is what a release took and has not written yet. `arrived` is the raw frames of the controller that
-- were not answered from the cache, and `sent` is those that reached the machine, in order.
pub record Session : Type 0 where
  pub mux : Mux
  pub in_flight : Option (List ℕ)
  pub releasing : Bool
  pub flushing : List (List ℕ)
  pub arrived : List (List ℕ)
  pub sent : List (List ℕ)

unfoldable pub new_session : Session
new_session = record {
  mux = new_mux;
  in_flight = none;
  releasing = false;
  flushing = [];
  arrived = [];
  sent = [];
}

-- The controller's pump takes a frame.
unfoldable pub arrive : Session → Frame → Mux × Bool → Session
arrive s f (m, true) = record s {
  mux = m;
  in_flight = some f.raw;
  arrived = s.arrived ++ (f.raw ∷ []);
}
arrive s f (m, false) = record s {
  mux = m;
  arrived = if is_status_poll f then s.arrived else s.arrived ++ (f.raw ∷ []);
}

unfoldable pub take_frame : Session → Frame → Session
unfolding arrive note_controller_frame
take_frame s f = arrive s f (note_controller_frame s.mux f)

-- A round of the release begins.
unfoldable pub begin_round : Session → Mux × List (List ℕ) → Session
begin_round s (m, []) = record s { mux = m; releasing = false }
begin_round s (m, raw ∷ held) = record s { mux = m; flushing = raw ∷ held }

unfoldable pub round : Session → Session
unfolding begin_round release_round
round s = begin_round s (release_round s.mux)

infix 4 ◌⟶◌
-- One atomic step. The pump is one goroutine, and the owner of a window releases it once.
pub data ◌⟶◌ (s : Session) : Session → Type 0 where
  takes : (f : Frame) → s.in_flight ≡ none → s ⟶ take_frame s f
  forwards :
      (raw : List ℕ)
      → s.in_flight ≡ some raw
      → s ⟶ record s { in_flight = none; sent = s.sent ++ (raw ∷ []) }
  acquires : (m : Mux) → acquire_injection s.mux ≡ some m → s ⟶ record s { mux = m }
  leases : (m : Mux) → acquire_interactive s.mux ≡ some m → s ⟶ record s { mux = m }
  releases : s.mux.injecting ≡ true → s.releasing ≡ false → s ⟶ record s { releasing = true }
  rounds : s.releasing ≡ true → s.flushing ≡ [] → s ⟶ round s
  flushes :
      (raw : List ℕ) (rest : List (List ℕ))
      → s.flushing ≡ raw ∷ rest
      → s ⟶ record s { flushing = rest; sent = s.sent ++ (raw ∷ []) }
  routes : (f : Frame) → s ⟶ record s { mux = (route_machine_frame s.mux f).0 }
  writes :
      (t t' : Transport) (m : Mux) (p : List ℕ)
      → inject_write t s.mux p ≡ done (t', m)
      → s ⟶ record s { mux = m }
  reads :
      (t t' : Transport) (m : Mux) (size : ℕ) (p : List ℕ)
      → inject_read size t s.mux ≡ done (t', m, p)
      → s ⟶ record s { mux = m }
  begins_local : s ⟶ record s { mux = (begin_local_transfer s.mux).0 }
  finishes_local : s ⟶ record s { mux = finish_local_transfer s.mux }

pub data Reached : Session → Type 0 where
  start : Reached new_session
  next : (s t : Session) → Reached s → s ⟶ t → Reached t
