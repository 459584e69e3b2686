-- ===== src/Relay.antt =====
-- internal/relay/mux.go: the multiplexer of a controller session, which lets an operation of the proxy borrow
-- the machine between the controller's transactions. A function is one section under the mux's mutex. A
-- channel is whether it is there, which a closed one is not, and the frames buffered in it.
pub mod Injection
pub mod Window
pub mod Queueing
pub mod Order
pub mod Feed
pub mod Diverting
pub mod Replies
pub mod Download
use makera_cnc_controller.Base.{
  ℕ, ◌+◌, ◌-◌, Bool, true, false, not, ◌&&◌, ◌||◌, Option, none, some, List, [], ◌∷◌, ◌++◌, ltb,
  ◌==◌, if◌then◌else◌, length, take, drop,
}
use makera_cnc_controller.Protocol.{Frame, encode}
use makera_cnc_controller.Protocol.Scanner.{push}

abbrev pub cmd_ctrl_single : ℕ
cmd_ctrl_single = 0xA1

abbrev pub cmd_file_start : ℕ
cmd_file_start = 0xB0

abbrev pub cmd_file_end : ℕ
cmd_file_end = 0xB4

abbrev pub cmd_file_cancel : ℕ
cmd_file_cancel = 0xB5

abbrev pub cmd_status_res : ℕ
cmd_status_res = 0x81

-- `inject_open` and `abort_open` are `injectCh != nil` and `abortCh != nil`.
pub record Mux : Type 0 where
  pub injecting : Bool
  pub interactive : Bool
  pub inject_open : Bool
  pub inject_queue : List Frame
  pub inject_cap : ℕ
  pub inject_overflow : Bool
  pub inject_status_polls : ℕ
  pub abort_open : Bool
  pub held_controller : List (List ℕ)
  pub last_status : List ℕ
  pub controller_mid_xfer : Bool

unfoldable pub new_mux : Mux
new_mux = record {
  injecting = false;
  interactive = false;
  inject_open = false;
  inject_queue = [];
  inject_cap = 0;
  inject_overflow = false;
  inject_status_polls = 0;
  abort_open = false;
  held_controller = [];
  last_status = [];
  controller_mid_xfer = false;
}

is_question : List ℕ → Bool
is_question (c ∷ []) = c == 63
is_question _ = false

unfoldable pub is_status_poll : Frame → Bool
unfolding is_question
is_status_poll f = f.cmd == cmd_ctrl_single && is_question f.data_bytes

-- abortInteractiveLocked.
unfoldable pub abort_interactive : Mux → Mux
abort_interactive m =
    if not m.abort_open
    then m
    else record m { abort_open = false; inject_open = false; inject_queue = [] }

-- The switch on the frame's command.
unfoldable pub track_transfer : Mux → Frame → Mux
track_transfer m f =
    if f.cmd == cmd_file_start
    then record m { controller_mid_xfer = true }
    else if f.cmd == cmd_file_end || f.cmd == cmd_file_cancel
    then record m { controller_mid_xfer = false }
    else m

unfoldable pub hold : Mux → List ℕ → Mux
hold m raw = record m { held_controller = m.held_controller ++ (raw ∷ []) }

-- The result is true if the frame is to be forwarded now.
unfoldable pub note_controller_frame : Mux → Frame → Mux × Bool
unfolding track_transfer abort_interactive hold
note_controller_frame m f =
    let t = track_transfer m f in
    if not t.injecting
    then (t, true)
    else if is_status_poll f
    then (t, false)
    else (hold (if t.interactive then abort_interactive t else t) f.raw, false)

unfoldable pub cached_status_frame : Mux → Option (List ℕ)
cached_status_frame m =
    if length m.last_status == 0 then none else some (encode cmd_status_res m.last_status)

unfoldable pub begin_local_transfer : Mux → Mux × Bool
unfolding abort_interactive
begin_local_transfer m = if m.controller_mid_xfer then (m, false) else (
  record (if m.interactive then abort_interactive m else m) { controller_mid_xfer = true },
  true,
)

unfoldable pub finish_local_transfer : Mux → Mux
finish_local_transfer m = record m { controller_mid_xfer = false }

-- The bytes of writeControl.
unfoldable pub write_control : ℕ → List ℕ
write_control c = encode cmd_ctrl_single (c ∷ [])

-- AcquireInjection; none is ErrBusy.
unfoldable pub acquire_injection : Mux → Option Mux
acquire_injection m =
    if m.injecting
    then none
    else if m.controller_mid_xfer
    then none
    else some (record m {
      injecting = true;
      interactive = false;
      inject_open = true;
      inject_queue = [];
      inject_cap = 256;
      inject_overflow = false;
      abort_open = false;
    })

unfoldable pub acquire_interactive : Mux → Option Mux
acquire_interactive m =
    if m.injecting
    then none
    else if m.controller_mid_xfer
    then none
    else some (record m {
      injecting = true;
      interactive = true;
      inject_open = true;
      inject_queue = [];
      inject_cap = 128;
      inject_overflow = false;
      abort_open = true;
    })

-- One round of releaseInjection: the frames to write to the machine, of which there are none once the
-- window has ended.
unfoldable pub end_window : Mux → Mux
end_window m = record m {
  injecting = false;
  interactive = false;
  inject_status_polls = 0;
  inject_open = false;
  inject_queue = [];
  abort_open = false;
}

unfoldable pub release_round : Mux → Mux × List (List ℕ)
unfolding end_window
release_round m =
    let held = m.held_controller in
    let taken : Mux = record m { held_controller = [] } in
    if length held == 0 then (end_window taken, []) else (taken, held)

-- deliverInjectLocked.
unfoldable pub deliver_inject : Mux → Frame → Mux
deliver_inject m f =
    if not m.inject_open
    then m
    else if ltb (length m.inject_queue) m.inject_cap
    then record m { inject_queue = m.inject_queue ++ (f ∷ []) }
    else if m.interactive
    then m
    else record m { inject_overflow = true; inject_open = false; inject_queue = [] }

-- The first statement of routeMachineFrame.
unfoldable pub note_status : Mux → Frame → Mux
note_status m f = if f.cmd == cmd_status_res then record m { last_status = f.data_bytes } else m

-- The result is true if the frame goes to the controller.
unfoldable pub route_machine_frame : Mux → Frame → Mux × Bool
unfolding note_status deliver_inject
route_machine_frame m f =
    let n = note_status m f in
    if not n.injecting
    then (n, true)
    else if not (f.cmd == cmd_status_res)
    then (deliver_inject n f, false)
    else if n.interactive
    then (deliver_inject n f, false)
    else if ltb 0 n.inject_status_polls
    then (deliver_inject (record n { inject_status_polls = n.inject_status_polls - 1 }) f, false)
    else (n, true)
