-- ===== src/Session.antt =====
-- internal/session/arbiter.go and internal/session/errors.go: who may talk to the machine.
-- A connection is a number. The sections under the arbiter's mutex are the atomic steps; what happens
-- outside it, dialing and the machine's answers, comes from the environment.
pub mod Gate
pub mod Idle
pub mod Sockets
use makera_cnc_controller.Base.{
  ℕ, zero, suc, ◌+◌, ◌-◌, ◌*◌, ◌/◌, ◌%◌, ◌^◌, ◌≤◌, ◌<◌, bit_and, bit_xor, ◌≡◌, refl, sym, ap, ◌∙◌,
  ◌≢◌, ◌↔◌, ◌⊎◌, inl, inr, Bool, true, false, not, ◌&&◌, ◌||◌, Option, none, some, List, [], ◌∷◌,
  ◌++◌, map, append-nil, append_assoc, arith, ltb, leb, ◌==◌, if◌then◌else◌, ==_iff, Bool-cases,
  Option-cases, is_some, length, take, drop, get_or, length-append, length-drop, length-take,
  keep_if, any, length-keep_if-le, All, All-append, All-map, All-keep_if,
}
use makera_cnc_controller.Base.Text.{
  Text, codes, text_eq, text_eq_iff, text_eq_refl, text_eq_sym, has_prefix, is_space, trim_left,
  trim_space, trim_suffix_slash,
}

pub data Mode : Type 0 where
  owner relay : Mode

abbrev pub is_relay : Mode → Bool
is_relay owner = false
is_relay relay = true

-- The fields that the mutex guards.
pub record Arbiter : Type 0 where
  pub mode : Mode
  pub owner_conn : Option ℕ
  pub connection_generation : ℕ

unfoldable pub new_arbiter : Arbiter
new_arbiter = record { mode = owner; owner_conn = none; connection_generation = 0 }

-- The connection to close comes with the new state.
unfoldable pub enter_relay : Arbiter → Arbiter × Option ℕ
enter_relay a = (
  record a { mode = relay; connection_generation = a.connection_generation + 1; owner_conn = none },
  a.owner_conn,
)

unfoldable pub exit_relay : Arbiter → Arbiter
exit_relay a = record a { mode = owner }

-- What the first section of acquireOwnerConn finds.
pub data Begun : Type 0 where
  refused must_dial : Begun
  cached : ℕ → Begun

begin_owner : Option ℕ → Begun
begin_owner none = must_dial
begin_owner (some c) = cached c

unfoldable pub acquire_begin : Arbiter → Begun
unfolding begin_owner
acquire_begin a = if is_relay a.mode then refused else begin_owner a.owner_conn

-- The second section, with the connection that was dialed: the connection to use, if any, and the one
-- to close.
pub record Installed : Type 0 where
  pub arbiter : Arbiter
  pub use_conn : Option ℕ
  pub to_close : Option ℕ

unfoldable pub install_owner : ℕ → Arbiter → ℕ → Option ℕ → Installed
install_owner bump a c none = record {
  arbiter = record a {
    owner_conn = some c;
    connection_generation = a.connection_generation + bump;
  };
  use_conn = some c;
  to_close = none;
}
install_owner bump a c (some existing) = record {
  arbiter = a;
  use_conn = some existing;
  to_close = some c;
}

unfoldable pub install : ℕ → Arbiter → ℕ → Installed
unfolding install_owner
install bump a c =
    if is_relay a.mode
    then record { arbiter = a; use_conn = none; to_close = some c }
    else install_owner bump a c a.owner_conn

unfoldable pub acquire_install : Arbiter → ℕ → Installed
unfolding install
acquire_install a c = install 1 a c

-- The section of SendControl behind its dial; without a connection to use, the relay's writer is used.
unfoldable pub control_install : Arbiter → ℕ → Installed
unfolding install
control_install a c = install 0 a c

abbrev is_conn : ℕ → Option ℕ → Bool
is_conn c none = false
is_conn c (some d) = d == c

-- dropOwnerConn, and the release of a jog lease after a connection error.
unfoldable pub drop_owner_conn : Arbiter → ℕ → Arbiter × Option ℕ
drop_owner_conn a c =
    if is_conn c a.owner_conn then (record a { owner_conn = none }, some c) else (a, none)

pub data SessionError : Type 0 where
  relay_active not_idle busy other_error : SessionError

unfoldable pub retryable : SessionError → Bool
retryable relay_active = true
retryable not_idle = true
retryable busy = true
retryable other_error = false
