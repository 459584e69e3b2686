-- ===== src/Relay/Injection.antt =====
-- internal/relay/mux.go: the transport that a window lends to the proxy. Its state is beside that of the multiplexer.
use makera_cnc_controller.Base.{
  ℕ, ◌+◌, not, ◌&&◌, ◌||◌, List, [], ◌∷◌, ltb, ◌==◌, if◌then◌else◌, length, take, drop,
}
use makera_cnc_controller.Protocol.{Frame}
use makera_cnc_controller.Protocol.Scanner.{push}
use makera_cnc_controller.Relay.{Mux, is_status_poll}

-- injectTransport, less its deadline: what a Read left over, and the scanner over what was written.
pub record Transport : Type 0 where
  pub scan_buf : List ℕ
  pub write_buf : List ℕ

pub data InjectError : Type 0 where
  inject_overflowed injection_closed timed_out : InjectError

pub data Outcome {ℓ} (A : Type ℓ) : Type ℓ where
  done : A → Outcome A
  fault : InjectError → Outcome A

unfoldable pub count_polls : List Frame → ℕ
count_polls [] = 0
count_polls (f ∷ fs) = (if is_status_poll f then 1 else 0) + count_polls fs

-- noteInjectedFrames.
unfoldable pub note_injected_frames : Transport → Mux → List ℕ → Transport × Mux
unfolding count_polls
note_injected_frames t m p =
    let (frames, kept) = push t.write_buf p in
    let polls = count_polls frames in
    (
      record t { write_buf = kept },
      if polls == 0
          then m
          else if m.injecting && not m.interactive && m.inject_open
          then record m { inject_status_polls = m.inject_status_polls + polls }
          else m,
    )

-- Write, up to the write to the machine, which is made if the result is `done`.
unfoldable pub inject_write : Transport → Mux → List ℕ → Outcome (Transport × Mux)
unfolding note_injected_frames
inject_write t m p =
    if m.inject_overflow
    then fault inject_overflowed
    else if not m.injecting || (m.interactive && not m.inject_open)
    then fault injection_closed
    else done (note_injected_frames t m p)

-- Read into a buffer of a given size, which times out where nothing is buffered.
unfoldable pub read_queue : ℕ → Transport → Mux → List Frame → Outcome (Transport × Mux × List ℕ)
read_queue size t m [] = fault timed_out
read_queue size t m (f ∷ fs) =
    done (record t { scan_buf = drop size f.raw }, record m { inject_queue = fs }, take size f.raw)

unfoldable pub inject_read : ℕ → Transport → Mux → Outcome (Transport × Mux × List ℕ)
unfolding read_queue
inject_read size t m =
    if ltb 0 (length t.scan_buf)
    then done (record t { scan_buf = drop size t.scan_buf }, m, take size t.scan_buf)
    else if not m.inject_open
    then fault (if m.inject_overflow then inject_overflowed else injection_closed)
    else read_queue size t m m.inject_queue
