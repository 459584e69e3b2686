-- ===== src/Engine.antt =====
-- internal/synceng/engine.go: the sync engine, which drains the job queue against the machine.
-- The machine's side of an attempt is a `Reply`, and what other parts of the program write to the
-- store while the machine works is a list of calls. The clock stands still within one pass.
pub mod Execute
pub mod Record
pub mod Drain
pub mod Recovery
pub mod Reconcile
pub mod Startup
pub mod Backoff
pub mod Ordering
pub mod Strict
pub mod Settling
pub mod Settled
pub mod Stale
use makera_cnc_controller.Base.{
  ℕ, zero, suc, ◌+◌, ◌-◌, ◌*◌, ◌/◌, ◌%◌, ◌^◌, ◌≤◌, ◌<◌, bit_and, bit_xor, ◌≡◌, refl, sym, ap, ◌∙◌,
  ◌≢◌, ◌↔◌, ◌⊎◌, inl, inr, Bool, true, false, not, ◌&&◌, ◌||◌, Option, none, some, List, [], ◌∷◌,
  ◌++◌, map, append-nil, append_assoc, arith, ltb, leb, ◌==◌, if◌then◌else◌, ==_iff, Bool-cases,
  Option-cases, is_some, length, take, drop, get_or, length-append, length-drop, length-take,
  keep_if, any, length-keep_if-le, All, All-append, All-map, All-keep_if,
}
use makera_cnc_controller.Base.Text.{
  Text, codes, text_eq, text_eq_iff, text_eq_refl, text_eq_sym, has_prefix, is_space, trim_left,
  trim_space, trim_suffix_slash,
}
use makera_cnc_controller.Store.{
  SyncState, synced, local_only, pending_upload, uploading, pending_delete, deleting,
  pending_rename, remote_only, error, blank, sync_eq, CacheState, cache_none, cache_ready,
  cache_validating, cache_blank, cache_eq, Entry, bare_entry, JobKind, job_upload, job_delete,
  job_rename, job_mkdir, job_other, kind_eq, JobState, queued, running, done, failed, state_eq, Job,
  no_job, Event, entry_event, job_event, active_gcode_event, reset_event, Subscriber, Store,
  StoreError, flush_failed, job_not_found, Result, ok, err, sync_state_in,
}
use makera_cnc_controller.Store.Ops.{Op}

-- An int64 Duration that is positive, in nanoseconds.
abbrev pub seconds : ℕ → ℕ
seconds n = n * 1000000000

abbrev pub zero_byte_upload_settle : ℕ
zero_byte_upload_settle = seconds 15

-- The settings that `New` leaves in the engine.
pub record Engine : Type 0 where
  pub base_backoff : ℕ
  pub max_backoff : ℕ
  pub max_attempts : ℕ

or_default : ℕ → ℕ → ℕ
or_default value default = if value == 0 then default else value

-- `New`, for the settings above.
unfoldable pub new_engine : Engine → Engine
unfolding or_default
new_engine cfg = record {
  base_backoff = or_default cfg.base_backoff (seconds 2);
  max_backoff = or_default cfg.max_backoff (seconds 60);
  max_attempts = or_default cfg.max_attempts 8;
}

-- `wait <= 0` on an int64 whose bit pattern is `w`.
abbrev pub not_positive : ℕ → Bool
not_positive w = w == 0 || leb (2 ^ 63) w

-- The wait before a retry: the shift of the int64 base wraps modulo 2 ^ 64.
unfoldable pub backoff : Engine → ℕ → ℕ
backoff e attempts =
    let wait = e.base_backoff * 2 ^ (attempts - 1) % 2 ^ 64 in
    if ltb e.max_backoff wait || not_positive wait then e.max_backoff else wait

-- `now.Sub(then) >= wait`, also where `then` is later than `now`.
abbrev pub has_passed : ℕ → ℕ → ℕ → Bool
has_passed now then_ wait = leb (then_ + wait) now

unfoldable pub should_attempt : Engine → ℕ → Job → Bool
unfolding backoff
should_attempt e now j =
    if kind_eq j.kind job_upload
      && (j.size == 0)
      && (j.attempts == 0)
      && not (has_passed now j.created_at zero_byte_upload_settle)
    then false
    else if j.attempts == 0
    then true
    else has_passed now j.updated_at (backoff e j.attempts)

-- An error on the way of an attempt. `completed` is machineCompletedError.
pub data Fault : Type 0 where
  machine_fault : Text → Fault
  bad_path bad_destination : Text → Fault
  bad_cache_path : Fault
  unknown_kind : Fault
  store_fault : StoreError → Fault
  completed : Fault → Fault

-- session.Retryable: the errors of WithMachine that block an attempt.
pub data Denial : Type 0 where
  relay_active not_idle busy : Denial

-- What an attempt meets: a session error, another error before the callback, or the machine at work,
-- with the calls that others make on the store in the meantime and the error that the operation ends in.
pub data Reply : Type 0 where
  denied : Denial → Reply
  unreachable : Text → Reply
  served : List Op → Option Text → Reply

-- What runJob returns: `blocked` is false, and `ran` is true with the error.
pub data Attempt : Type 0 where
  blocked : Attempt
  ran : Option Fault → Attempt
