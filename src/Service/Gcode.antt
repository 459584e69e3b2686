-- ===== src/Service/Gcode.antt =====
-- internal/service/service.go: what SendGcode does on the machine's connection, and queryRecoveryStatus. The log of
-- the traffic and the record of the command behind it are left out.
pub mod Returns
use makera_cnc_controller.Base.{
  ℕ, ◌≡◌, refl, ap, ◌∙◌, sym, Bool, true, false, not, ◌&&◌, ◌||◌, Option, none, some, List, [], ◌⊎◌,
  inl, inr, if◌then◌else◌, Bool-cases, arith,
}
use makera_cnc_controller.Base.Text.{Text}
use makera_cnc_controller.Protocol.Gcode.{Response, fire_and_forget, reply_expected, classify_gcode}
use makera_cnc_controller.Protocol.Paused.{can_run_while_paused}
use makera_cnc_controller.Machine.{
  State, idle, pause, Tracker, fresh, snapshot_state, observe_status_payload,
}
use makera_cnc_controller.Machine.Status.{Status, parse_status_payload}
use makera_cnc_controller.Client.Loops.{heard}
use makera_cnc_controller.Client.Commands.{
  ClientError, Result, ok, err, Conn, Reply, send_gcode_line,
}
use makera_cnc_controller.Client.Queries.{query_state}
use makera_cnc_controller.Client.Fresh.{Reports, behind_first, query_state_fresh}

pub data GcodeError : Type 0 where
  client : ClientError → GcodeError
  malformed_status not_idle : GcodeError

-- A state that is known, or the reason why none is.
pub data Known : Type 0 where
  known : State → Known
  unknown_for : GcodeError → Known

-- `written` is true if the line has been handed to the connection; `output` is what comes back then.
pub record GcodeResult : Type 0 where
  pub conn : Conn
  pub tracker : Tracker
  pub written : Bool
  pub output : Text
  pub error : Option GcodeError

abbrev expects : Response → Bool
expects reply_expected = true
expects fire_and_forget = false

abbrev client_error : Option ClientError → Option GcodeError
client_error none = none
client_error (some e) = some (client e)

abbrev is_idle : State → Bool
is_idle idle = true
is_idle _ = false

abbrev is_pause : State → Bool
is_pause pause = true
is_pause _ = false

module _ (Num : Type 0) (parse_float : Text → Option Num) (to_int : Num → Bool × ℕ)
    (is_zero : Num → Bool) (parse_base : Text → Option (Bool × ℕ)) (now max_age : ℕ) where
  abbrev parsed : List ℕ → Option (Status Num)
  parsed payload = parse_status_payload Num parse_float to_int is_zero payload

  of_report : Tracker → Conn → Option (Status Num) → Known × Conn × Tracker
  of_report t k none = (unknown_for malformed_status, k, t)
  of_report t k (some st) = (known st.state, k, (observe_status_payload now (some st.state) t).0)

  -- queryRecoveryStatus, by the outcome of QueryState.
  unfoldable pub query_recovery_status :
      Tracker → Option (Result (List ℕ) × Conn) → Option (Known × Conn × Tracker)
  unfolding of_report
  query_recovery_status t none = none
  query_recovery_status t (some (err e, k)) = some (unknown_for (client e), k, t)
  query_recovery_status t (some (ok payload, k)) = some (of_report t k (parsed payload))

  -- `t` is the tracker that Current reads and `later` the one that Fresh reads: a report can arrive between them.
  unfoldable pub known_state : Tracker → Tracker → Conn → Option (Known × Conn × Tracker)
  unfolding query_recovery_status
  known_state t later k =
      if fresh now max_age later
      then some (known (snapshot_state t), k, later)
      else query_recovery_status later (query_state k)

  sent : Tracker → Option (Reply × Conn) → Option GcodeResult
  sent t none = none
  sent t (some ((output, e), k)) =
      some
        (record { conn = k; tracker = t; written = true; output = output; error = client_error e })

  held_back : Tracker → Conn → GcodeError → GcodeResult
  held_back t k e = record { conn = k; tracker = t; written = false; output = []; error = some e }

  abbrev pub may_send : State → Text → Bool
  may_send st line = is_idle st || (is_pause st && can_run_while_paused parse_base line)

  gated : Text → Response → Option (Known × Conn × Tracker) → Option GcodeResult
  unfolding sent held_back
  gated line resp none = none
  gated line resp (some (unknown_for e, k, t)) = some (held_back t k e)
  gated line resp (some (known st, k, t)) =
      if may_send st line
      then sent t (send_gcode_line k line (expects resp))
      else some (held_back t k not_idle)

  -- The callback that SendGcode runs under WithMachine.
  unfoldable pub send_gcode : Text → Tracker → Tracker → Conn → Option GcodeResult
  unfolding gated known_state
  send_gcode line t later k =
      let (resp, requires_idle) = classify_gcode line in
      if requires_idle
      then gated line resp (known_state t later k)
      else sent later (send_gcode_line k line (expects resp))

  -- How the machine's state is known: the tracker has it and is then seen to be fresh, or else a report that is read
  -- behind the query for it has it.
  abbrev pub Knows : Tracker → Tracker → Conn → State → Type 0
  Knows t later k st =
      ((fresh now max_age later ≡ true) × (snapshot_state t ≡ st))
      ⊎ ((payload : List ℕ) × (report : Status Num) × Reports payload
            (heard (behind_first k.inbound)).frames
          × (parsed payload ≡ some report)
          × (report.state ≡ st))

  permitted :
      (st : State) (line : Text)
      → may_send st line ≡ true
      → (st ≡ idle) ⊎ ((st ≡ pause) × (can_run_while_paused parse_base line ≡ true))
  permitted idle line h = inl refl
  permitted pause line h = inr (refl, h)
  permitted _ line h = cc

  gated-known :
      (line : Text) (resp : Response) (o : Option (Known × Conn × Tracker)) (g : GcodeResult)
      → gated line resp o ≡ some g
      → g.written ≡ true
      → (st : State) × (k : Conn) × (t : Tracker) × (o ≡ some (known st, k, t))
        × (may_send st line ≡ true)
  unfolding gated held_back
  gated-known line resp none g h w = cc
  gated-known line resp (some (unknown_for e, k, t)) g h w =
      let same : held_back t k e ≡ g = cc in let no_write = ap (λ r. r.written) same ∙ w in cc
  gated-known line resp (some (known st, k, t)) g h w = elim (Bool-cases (may_send st line)) [
    | inl y ↦ (st, k, t, refl, y)
    | inr n ↦
        let stopped : some (held_back t k not_idle) ≡ some g = (rw n at h) in
        let same : held_back t k not_idle ≡ g = cc in
        let no_write = ap (λ r. r.written) same ∙ w in cc
  ]

  report-Knows :
      (t later : Tracker) (k k1 k2 : Conn) (t' : Tracker) (payload : List ℕ)
      (o : Option (Status Num)) (st : State)
      → Reports payload (heard (behind_first k.inbound)).frames
      → parsed payload ≡ o
      → ◌≡◌ {A = Known × Conn × Tracker} (of_report later k1 o) (known st, k2, t')
      → Knows t later k st
  unfolding of_report
  report-Knows t later k k1 k2 t' payload none st r p h = let no_state = ap (λ x. x.0) h in cc
  report-Knows t later k k1 k2 t' payload (some report) st r p h =
      let same : known report.state ≡ known st = ap (λ x. x.0) h in
      let e : report.state ≡ st = cc in inr (payload, report, r, p, e)

  query-Knows :
      (t later : Tracker) (k k' : Conn) (t' : Tracker) (q : Option (Result (List ℕ) × Conn))
      (st : State)
      → query_state k ≡ q
      → ◌≡◌ {A = Option (Known × Conn × Tracker)}
          (query_recovery_status later q)
          (some (known st, k', t'))
      → Knows t later k st
  unfolding query_recovery_status
  query-Knows t later k k' t' none st e h = cc
  query-Knows t later k k' t' (some (err x, k1)) st e h = cc
  query-Knows t later k k' t' (some (ok payload, k1)) st e h =
      report-Knows t later k k1 k' t' payload (parsed payload) st (query_state_fresh k k1 payload e)
        refl (cc)

  known-Knows :
      (t later : Tracker) (k k' : Conn) (t' : Tracker) (st : State)
      → ◌≡◌ {A = Option (Known × Conn × Tracker)} (known_state t later k) (some (known st, k', t'))
      → Knows t later k st
  unfolding known_state
  known-Knows t later k k' t' st h = elim (Bool-cases (fresh now max_age later)) [
    | inl y ↦
        let now_known : ◌≡◌ {A = Option (Known × Conn × Tracker)}
            (some (known (snapshot_state t), k, later)) (some (known st, k', t')) =
          (rw y at h) in
        let same : known (snapshot_state t) ≡ known st = cc in inl (y, cc)
    | inr n ↦ query-Knows t later k k' t' (query_state k) st refl (rw n at h)
  ]

  -- A line that is handed to the connection is one that the classification takes for a query, or the machine is known
  -- to be idle, or it is known to be suspended and the line is one that may be sent then.
  gcode_guarded :
      (line : Text) (t later : Tracker) (k : Conn) (g : GcodeResult)
      → send_gcode line t later k ≡ some g
      → g.written ≡ true
      → ((classify_gcode line).1 ≡ false)
        ⊎ ((st : State) × Knows t later k st
            × ((st ≡ idle) ⊎ ((st ≡ pause) × (can_run_while_paused parse_base line ≡ true))))
  unfolding send_gcode
  gcode_guarded line t later k g h w = elim (Bool-cases (classify_gcode line).1) [
    | inr n ↦ inl n
    | inl y ↦
        let (st, k', t', e, allowed) =
          gated-known line (classify_gcode line).0 (known_state t later k) g (rw y at h) w in
        inr (st, known-Knows t later k k' t' st e, permitted st line allowed)
  ]
