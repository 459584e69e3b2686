-- ===== src/Session/Gate.antt =====
-- internal/session/arbiter.go: WithMachine, which runs an operation on the machine once it is known to be
-- idle. The mode and the connection are taken without interference, whose interleavings stand in Session/Sockets; the
-- tracker changes between its reads. The clock stands still.
use makera_cnc_controller.Base.{ℕ, Bool, true, false, not, ◌&&◌, Option, none, some, if◌then◌else◌}
use makera_cnc_controller.Machine.{
  State, Tracker, can_run_file_ops, snapshot_state, fresh, observe_status_payload,
}
use makera_cnc_controller.Session.{
  is_relay, Arbiter, Begun, refused, must_dial, cached, acquire_begin, acquire_install,
  drop_owner_conn, SessionError, relay_active, not_idle, busy, other_error,
}

-- QueryState: an error, a timeout among them, or a payload with the state read from it, if any.
pub data Query : Type 0 where
  timed_out failed : Query
  answered : Option State → Query

-- AcquireMachine of the relay.
pub data Injection : Type 0 where
  granted relay_busy no_session injection_failed : Injection

-- How the operation ends.
pub data Ending : Type 0 where
  fine connection_error operation_error : Ending

-- What WithMachine meets. `drift` is what reports do to the tracker that the relay observes between two reads of it. `injector` is none where none is wired; `dial` is none for a failure.
pub record Env : Type 0 where
  pub now : ℕ
  pub max_age : ℕ
  pub drift : Tracker → Tracker
  pub injector : Option Injection
  pub dial : Option ℕ
  pub query : Query
  pub ending : Ending

-- `ran` is true if the operation was run.
pub record Outcome : Type 0 where
  pub arbiter : Arbiter
  pub tracker : Tracker
  pub ran : Bool
  pub error : Option SessionError

-- ensureFreshIdle: the tracker, whether to drop the connection, and the error.
pub record Checked : Type 0 where
  pub tracker : Tracker
  pub drop_conn : Bool
  pub error : Option SessionError

-- Snapshot, and then Fresh.
unfoldable pub is_idle_now : Env → Tracker → Bool
is_idle_now v t = fresh v.now v.max_age (v.drift t) && can_run_file_ops (snapshot_state t)

unfoldable pub after_query : Env → Tracker → Query → Checked
unfolding is_idle_now
after_query v t timed_out = record { tracker = t; drop_conn = false; error = some not_idle }
after_query v t failed = record { tracker = t; drop_conn = true; error = some other_error }
after_query v t (answered payload) =
    let (t', known) = observe_status_payload v.now payload t in
    let read = v.drift t' in
    record {
      tracker = v.drift read;
      drop_conn = false;
      error = if known && is_idle_now v read then none else some not_idle;
    }

unfoldable pub ensure_fresh_idle : Env → Tracker → Bool → Checked
unfolding after_query
ensure_fresh_idle v t force =
    if not force && fresh v.now v.max_age (v.drift t)
    then record {
      tracker = v.drift t;
      drop_conn = false;
      error = if can_run_file_ops (snapshot_state t) then none else some not_idle;
    }
    else after_query v (v.drift t) v.query

unfoldable pub operation_error_of : Ending → Option SessionError
operation_error_of fine = none
operation_error_of connection_error = some other_error
operation_error_of operation_error = some other_error

-- The check, if it is asked for.
unfoldable pub check : Env → Tracker → Bool → Checked
unfolding ensure_fresh_idle is_idle_now
check v t require_idle =
    if require_idle
    then ensure_fresh_idle v (v.drift (v.drift t)) (not (is_idle_now v t))
    else record { tracker = t; drop_conn = false; error = none }

unfoldable pub drops : Ending → Bool
drops connection_error = true
drops _ = false

-- `fn` on the owner's connection, with the connection dropped after a connection error.
unfoldable pub run_owner : Env → Arbiter → Tracker → Bool → ℕ → Outcome
unfolding operation_error_of drops check
run_owner v a t require_idle c =
    let k = check v t require_idle in
    let dropped = (drop_owner_conn a c).0 in
    elim k.error [
      | some e ↦ record {
        arbiter = if k.drop_conn then dropped else a;
        tracker = k.tracker;
        ran = false;
        error = some e;
      }
      | none ↦ record {
        arbiter = if drops v.ending then dropped else a;
        tracker = k.tracker;
        ran = true;
        error = operation_error_of v.ending;
      }
    ]

unfoldable pub stopped : Arbiter → Tracker → SessionError → Outcome
stopped a t e = record { arbiter = a; tracker = t; ran = false; error = some e }

unfoldable pub installed : Env → Arbiter → Tracker → Bool → Option ℕ → Outcome
unfolding run_owner stopped
installed v a t require_idle none = stopped a t relay_active
installed v a t require_idle (some c) = run_owner v a t require_idle c

-- acquireOwnerConn, and then `run_owner`.
unfoldable pub dialed : Env → Arbiter → Tracker → Bool → Option ℕ → Outcome
unfolding run_owner stopped installed
dialed v a t require_idle none = stopped a t other_error
dialed v a t require_idle (some c) =
    let i = acquire_install a c in installed v i.arbiter t require_idle i.use_conn

unfoldable pub begun : Env → Arbiter → Tracker → Bool → Begun → Outcome
unfolding dialed
begun v a t require_idle refused = stopped a t relay_active
begun v a t require_idle must_dial = dialed v a t require_idle v.dial
begun v a t require_idle (cached c) = run_owner v a t require_idle c

-- withInjection.
unfoldable pub inject : Env → Arbiter → Tracker → Bool → Option Injection → Outcome
inject v a t require_idle none = stopped a t relay_active
inject v a t require_idle (some relay_busy) = stopped a t busy
inject v a t require_idle (some no_session) = stopped a t relay_active
inject v a t require_idle (some injection_failed) = stopped a t other_error
inject v a t require_idle (some granted) =
    let k = check v t require_idle in
    elim k.error [
      | some e ↦ record { arbiter = a; tracker = k.tracker; ran = false; error = some e }
      | none ↦ record {
        arbiter = a;
        tracker = k.tracker;
        ran = true;
        error = operation_error_of v.ending;
      }
    ]

unfoldable pub with_machine : Env → Arbiter → Tracker → Bool → Outcome
unfolding begun inject
with_machine v a t require_idle =
    if is_relay a.mode
    then inject v a t require_idle v.injector
    else begun v a t require_idle (acquire_begin a)
