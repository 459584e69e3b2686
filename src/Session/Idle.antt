-- ===== src/Session/Idle.antt =====
-- internal/session/arbiter.go: when WithMachine runs its operation.
use makera_cnc_controller.Base.{
  ℕ, ◌≡◌, refl, inl, inr, Bool, true, false, not, ◌&&◌, Option, none, some, if◌then◌else◌,
  Bool-cases, arith,
}
use makera_cnc_controller.Machine.{Tracker, fresh, observe_status_payload}
use makera_cnc_controller.Session.{
  Arbiter, is_relay, Begun, refused, must_dial, cached, acquire_begin, acquire_install,
  SessionError, not_idle, retryable,
}
use makera_cnc_controller.Session.Gate.{
  Query, timed_out, failed, answered, Injection, granted, relay_busy, no_session, injection_failed,
  Ending, fine, connection_error, operation_error, Env, Outcome, Checked, is_idle_now,
  ensure_fresh_idle, check, with_machine, after_query, run_owner, installed, dialed, begun, inject,
  stopped, operation_error_of,
}

-- A read of the tracker that allows file operations, with the tracker at the check of its freshness behind it.
abbrev pub Seen : Env → Tracker → Type 0
Seen v later = (t : Tracker) × (later ≡ v.drift t) × (is_idle_now v t ≡ true)

Sound : Env → Checked → Type 0
Sound v k = k.error ≡ none → Seen v k.tracker

idle_if : (b : Bool) (e : SessionError) → (if b then none else some e) ≡ none → b ≡ true
idle_if true e h = refl
idle_if false e h = ground arith

and_right : (a b : Bool) → a && b ≡ true → b ≡ true
and_right a b h = ground arith

after-Sound : (v : Env) (t : Tracker) (q : Query) → Sound v (after_query v t q)
unfolding Sound after_query
after-Sound v t timed_out h = ground arith
after-Sound v t failed h = ground arith
after-Sound v t (answered s) h =
    let seen = and_right (observe_status_payload v.now s t).1 _ (idle_if _ not_idle h) in
    (v.drift (observe_status_payload v.now s t).0, refl, seen)

fresh_idle-Sound : (v : Env) (t : Tracker) (force : Bool) → Sound v (ensure_fresh_idle v t force)
unfolding Sound ensure_fresh_idle is_idle_now
fresh_idle-Sound v t force = elim (Bool-cases (not force && fresh v.now v.max_age (v.drift t))) [
  | inl e ↦ rw (e, Sound) (λ h. (t, refl, let idle = idle_if _ not_idle h in ground arith))
  | inr e ↦ rw (e, Sound) (after-Sound v (v.drift t) v.query)
]

check-Sound : (v : Env) (t : Tracker) → Sound v (check v t true)
unfolding check
check-Sound v t = fresh_idle-Sound v (v.drift (v.drift t)) _

ended_not_retryable :
    (d : Ending) (e : SessionError) → operation_error_of d ≡ some e → retryable e ≡ false
unfolding operation_error_of retryable
ended_not_retryable fine e h = ground arith
ended_not_retryable connection_error e h = ground arith
ended_not_retryable operation_error e h = ground arith

-- An operation that was run had its idleness checked, and did not end in an error that asks for a retry.
record Right (v : Env) (q : Bool) (o : Outcome) : Type 0 where
  idle : o.ran ≡ true → q ≡ true → Seen v o.tracker
  final : (e : SessionError) → o.ran ≡ true → o.error ≡ some e → retryable e ≡ false

stopped-Right :
    (v : Env) (a : Arbiter) (t : Tracker) (q : Bool) (e : SessionError) → Right v q (stopped a t e)
unfolding stopped
stopped-Right v a t q e = record { idle = λ h _. ground arith; final = λ _ h _. ground arith }

run_owner-Right :
    (v : Env) (a : Arbiter) (t : Tracker) (q : Bool) (c : ℕ) → Right v q (run_owner v a t q c)
unfolding run_owner Sound
run_owner-Right v a t true c =
    let s = check-Sound v t in
    record {
      idle = λ h _. ground arith;
      final = λ e r h. ground (arith, ended_not_retryable v.ending e);
    }
run_owner-Right v a t false c = record {
  idle = λ h r. ground arith;
  final = λ e r h. ground (arith, ended_not_retryable v.ending e);
}

installed-Right :
    (v : Env) (a : Arbiter) (t : Tracker) (q : Bool) (u : Option ℕ)
    → Right v q (installed v a t q u)
unfolding installed
installed-Right v a t q none = stopped-Right v a t q _
installed-Right v a t q (some c) = run_owner-Right v a t q c

dialed-Right :
    (v : Env) (a : Arbiter) (t : Tracker) (q : Bool) (d : Option ℕ) → Right v q (dialed v a t q d)
unfolding dialed
dialed-Right v a t q none = stopped-Right v a t q _
dialed-Right v a t q (some c) = installed-Right v (acquire_install a c).arbiter t q _

begun-Right :
    (v : Env) (a : Arbiter) (t : Tracker) (q : Bool) (b : Begun) → Right v q (begun v a t q b)
unfolding begun
begun-Right v a t q refused = stopped-Right v a t q _
begun-Right v a t q must_dial = dialed-Right v a t q v.dial
begun-Right v a t q (cached c) = run_owner-Right v a t q c

inject-Right :
    (v : Env) (a : Arbiter) (t : Tracker) (q : Bool) (i : Option Injection)
    → Right v q (inject v a t q i)
unfolding inject Sound
inject-Right v a t q none = stopped-Right v a t q _
inject-Right v a t q (some relay_busy) = stopped-Right v a t q _
inject-Right v a t q (some no_session) = stopped-Right v a t q _
inject-Right v a t q (some injection_failed) = stopped-Right v a t q _
inject-Right v a t true (some granted) =
    let s = check-Sound v t in
    record {
      idle = λ h _. ground arith;
      final = λ e r h. ground (arith, ended_not_retryable v.ending e);
    }
inject-Right v a t false (some granted) = record {
  idle = λ h r. ground arith;
  final = λ e r h. ground (arith, ended_not_retryable v.ending e);
}

with_machine-Right :
    (v : Env) (a : Arbiter) (t : Tracker) (q : Bool) → Right v q (with_machine v a t q)
unfolding with_machine
with_machine-Right v a t q = elim (Bool-cases (is_relay a.mode)) [
  | inl e ↦ rw e (inject-Right v a t q v.injector)
  | inr e ↦ rw e (begun-Right v a t q (acquire_begin a))
]

-- Where WithMachine ends in an error that asks the caller to retry, its operation was not run.
pub retryable_not_run :
    (v : Env) (a : Arbiter) (t : Tracker) (q : Bool) (e : SessionError)
    → (with_machine v a t q).error ≡ some e
    → retryable e ≡ true
    → (with_machine v a t q).ran ≡ false
retryable_not_run v a t q e h r = elim (Bool-cases (with_machine v a t q).ran) [
  | inl x ↦ let p = (with_machine-Right v a t q).final e x h in ground arith
  | inr x ↦ x
]
