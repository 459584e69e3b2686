-- ===== src/Service/Gcode/Returns.antt =====
-- internal/service/service.go: a line given to SendGcode gets an answer, whatever the connection does.
use makera_cnc_controller.Base.{
  ℕ, ◌≡◌, refl, ap, ◌∙◌, Bool, true, false, Option, none, some, List, [], ◌⊎◌, inl, inr,
  if◌then◌else◌,
}
use makera_cnc_controller.Base.Text.{Text}
use makera_cnc_controller.Protocol.{Frame}
use makera_cnc_controller.Protocol.Escape.{query_status}
use makera_cnc_controller.Protocol.Gcode.{Response, classify_gcode}
use makera_cnc_controller.Machine.{Tracker, fresh}
use makera_cnc_controller.Client.{NetError, Inbound, Turn, write_frame}
use makera_cnc_controller.Client.Loops.{each_frame-Folds}
use makera_cnc_controller.Client.Commands.{
  Conn, ClientError, net, finished, Result, ok, err, Reply, transact, net_fault, console_command,
  console_round, console_fault, ensure_line_ending, send_console_command, send_gcode_line,
}
use makera_cnc_controller.Client.Queries.{
  query_state, state_round, after_drain, drain_available_frames, drain_fault, drain_round,
}
use makera_cnc_controller.Service.Gcode.{
  Known, known, unknown_for, GcodeResult, GcodeError, not_idle, query_recovery_status, known_state,
  sent, held_back, may_send, gated, send_gcode, expects,
}

abbrev Returns : {A : Type 0} → Option A → Type 0
Returns o = (a : _) × (o ≡ some a)

if-Returns :
    {A : Type 0} (b : Bool) (o p : Option A) → Returns o → Returns p → Returns (if b then o else p)
if-Returns true o p r s = r
if-Returns false o p r s = s

-- What goes on only where the request has been written.
if_written :
    {A : Type 0} (fault : Option NetError) (a : NetError → A) (o : Option A)
    → Returns o
    → Returns (elim fault [ some e ↦ some (a e) | none ↦ o ])
if_written none a o r = r
if_written (some e) a o r = (a e, refl)

module _ {S A : Type 0} (on_fault : S → NetError → Option (List (List ℕ)) × Result A)
    (round : S → Frame → Turn S (Option (List (List ℕ)) × Result A)) where
  transact-Returns :
      (k : Conn) (request : List ℕ) (s : S) → Returns (transact on_fault round k request s)
  unfolding transact
  transact-Returns k request s =
      let (i, folded) = each_frame-Folds on_fault round s k.inbound in
      let k' : Conn = record k { out = (write_frame k.out request).0 } in
      if_written (write_frame k.out request).1 (λ e. (err (net e), k')) _
        (_, ap (finished k') folded)

after_drain-Returns :
    (k : Conn) (d : Option ClientError) (i : Inbound) → Returns (after_drain k (some (d, i)))
unfolding after_drain
after_drain-Returns k (some e) i = (_, refl)
after_drain-Returns k none i =
    transact-Returns net_fault state_round (record k { inbound = i }) query_status (k.observed, _)

query_state-Returns : (k : Conn) → Returns (query_state k)
unfolding query_state drain_available_frames
query_state-Returns k =
    let (i, folded) = each_frame-Folds drain_fault drain_round none k.inbound in
    let (r, e) = after_drain-Returns k _ i in (r, ap (after_drain k) folded ∙ e)

send_gcode_line-Returns :
    (k : Conn) (line : Text) (expect_reply : Bool) → Returns (send_gcode_line k line expect_reply)
unfolding send_gcode_line send_console_command
send_gcode_line-Returns k line expect_reply =
    let (i, folded) = each_frame-Folds (console_fault expect_reply) console_round _ k.inbound in
    let written = write_frame k.out (console_command (ensure_line_ending line)) in
    let k' : Conn = record k { out = written.0 } in
    if_written written.1 (λ e. (([], some (net e)), k')) _ (_, ap (finished k') folded)

abbrev Answered : GcodeResult → Type 0
Answered g = (g.written ≡ true) ⊎ ((e : GcodeError) × (g.error ≡ some e) × (g.output ≡ []))

module _ (Num : Type 0) (parse_float : Text → Option Num) (to_int : Num → Bool × ℕ)
    (is_zero : Num → Bool) (parse_base : Text → Option (Bool × ℕ)) (now max_age : ℕ) where
  abbrev Answers : Option GcodeResult → Type 0
  Answers o = (g : GcodeResult) × (o ≡ some g) × Answered g

  query-Returns :
      (t : Tracker) (q : Option (Result (List ℕ) × Conn))
      → Returns q
      → Returns (query_recovery_status Num parse_float to_int is_zero parse_base now max_age t q)
  unfolding query_recovery_status
  query-Returns t none (a, e) = cc
  query-Returns t (some (err e, k)) r = (_, refl)
  query-Returns t (some (ok payload, k)) r = (_, refl)

  known_state-Returns :
      (t later : Tracker) (k : Conn)
      → Returns (known_state Num parse_float to_int is_zero parse_base now max_age t later k)
  unfolding known_state
  known_state-Returns t later k =
      if-Returns (fresh now max_age later) _ _ (_, refl)
        (query-Returns later (query_state k) (query_state-Returns k))

  sent-Answers :
      (t : Tracker) (o : Option (Reply × Conn))
      → Returns o
      → Answers (sent Num parse_float to_int is_zero parse_base now max_age t o)
  unfolding sent
  sent-Answers t none (a, e) = cc
  sent-Answers t (some ((output, e), k)) r = (_, refl, inl refl)

  if-Answers :
      (b : Bool) (o p : Option GcodeResult) → Answers o → Answers p → Answers (if b then o else p)
  if-Answers true o p r s = r
  if-Answers false o p r s = s

  gated-Answers :
      (line : Text) (resp : Response) (o : Option (Known × Conn × Tracker))
      → Returns o
      → Answers (gated Num parse_float to_int is_zero parse_base now max_age line resp o)
  unfolding gated held_back
  gated-Answers line resp none (a, e) = cc
  gated-Answers line resp (some (unknown_for e, k, t)) r = (_, refl, inr (e, refl, refl))
  gated-Answers line resp (some (known st, k, t)) r =
      if-Answers (may_send Num parse_float to_int is_zero parse_base now max_age st line) _ _
        (sent-Answers t _ (send_gcode_line-Returns k line (expects resp)))
        (_, refl, inr (not_idle, refl, refl))

  -- SendGcode's callback always gives an answer, whatever the reads and writes on the connection end with: the line
  -- has been handed to the connection, or there is an error and no output.
  send_gcode-Returns :
      (line : Text) (t later : Tracker) (k : Conn)
      → (g : GcodeResult) × (send_gcode Num parse_float to_int is_zero parse_base now max_age line t
            later k
          ≡ some g)
        × ((g.written ≡ true) ⊎ ((e : GcodeError) × (g.error ≡ some e) × (g.output ≡ [])))
  unfolding send_gcode
  send_gcode-Returns line t later k =
      let (resp, requires_idle) = classify_gcode line in
      if-Answers requires_idle _ _ (gated-Answers line resp _ (known_state-Returns t later k))
        (sent-Answers later _ (send_gcode_line-Returns k line (expects resp)))
