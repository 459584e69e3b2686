-- ===== src/Client/Commands.antt =====
-- internal/client/conn.go: the management commands, console commands and queries. A deadline that passes is the error
-- of a read, `timeout`.
use makera_cnc_controller.Base.{
  ℕ, Bool, true, false, not, ◌&&◌, ◌||◌, Option, none, some, List, [], ◌∷◌, ◌++◌, ◌==◌,
  if◌then◌else◌, drop, length,
}
use makera_cnc_controller.Base.Text.{Text, codes, text_eq, has_prefix, trim_space}
use makera_cnc_controller.Base.Strings.{to_lower, trim_right_if, is_line_end, contains, ends_in}
use makera_cnc_controller.Protocol.{Frame, encode}
use makera_cnc_controller.Protocol.Escape.{
  ls_command, rm_command, mv_command, mkdir_command, md5_command, ftype_command,
}
use makera_cnc_controller.Protocol.Parsing.{Row, parse_listing, parse_ftype, parse_md5_response}
use makera_cnc_controller.Client.{
  NetError, no_progress, is_timeout, Outbound, write_frame, Inbound, Turn, again, done, each_frame,
}

-- IsConnectionError on an error of the transport.
unfoldable pub is_connection_error : NetError → Bool
is_connection_error no_progress = false
is_connection_error _ = true

-- `machine` is an error that the machine reports, `command_failed` a LOAD_ERROR, with its text.
pub data ClientError : Type 0 where
  net : NetError → ClientError
  machine command_failed : Text → ClientError
  no_reply invalid_play_status : ClientError

pub data Result (A : Type 0) : Type 0 where
  ok : A → Result A
  err : ClientError → Result A

-- A connection. `observed` holds what onStatus has been called with, if one is registered.
pub record Conn : Type 0 where
  pub out : Outbound
  pub inbound : Inbound
  pub observed : Option (List (List ℕ))

abbrev pub seen_by : Option (List (List ℕ)) → List ℕ → Option (List (List ℕ))
seen_by none payload = none
seen_by (some seen) payload = some (seen ++ payload ∷ [])

-- A frame is written and then a loop runs, with the calls of onStatus among its variables.
abbrev pub finished :
    {R : Type 0} → Conn → Option ((Option (List (List ℕ)) × R) × Inbound) → Option (R × Conn)
finished k none = none
finished k (some ((seen, r), i)) = some (r, record k { inbound = i; observed = seen })

module _ {S A : Type 0} (on_fault : S → NetError → Option (List (List ℕ)) × Result A)
    (round : S → Frame → Turn S (Option (List (List ℕ)) × Result A)) where
  unfoldable pub transact : Conn → List ℕ → S → Option (Result A × Conn)
  transact k request s =
      let (out, fault) = write_frame k.out request in
      let k' : Conn = record k { out = out } in
      elim fault [
        | some e ↦ some (err (net e), k')
        | none ↦ finished k' (each_frame on_fault round s k.inbound)
      ]

-- CommandResult.
pub record CommandResult : Type 0 where
  pub info : Text
  pub success : Bool

-- A loop's variables, with the calls of onStatus so far.
abbrev Seen : Type 0 → Type 0
Seen S = Option (List (List ℕ)) × S

unfoldable pub managed_round : Seen Text → Frame → Turn (Seen Text) (Seen (Result CommandResult))
managed_round (seen, info) f =
    if f.cmd == 0x83
    then again (seen, info ++ f.data_bytes)
    else if f.cmd == 0x84
    then done (seen, ok (record { info = info; success = true }))
    else if f.cmd == 0x85
    then done (seen, ok (record { info = info; success = false }))
    else again (seen, info)

abbrev pub net_fault : {S A : Type 0} → Seen S → NetError → Seen (Result A)
net_fault (seen, s) e = (seen, err (net e))

unfoldable pub run_managed : Conn → List ℕ → Option (Result CommandResult × Conn)
unfolding transact managed_round
run_managed k request = transact net_fault managed_round k request (k.observed, [])

-- What a method makes of the result of runManaged.
abbrev judged :
    {A : Type 0} → (Text → A) → Option (Result CommandResult × Conn) → Option (Result A × Conn)
judged use_info none = none
judged use_info (some (err e, k)) = some (err e, k)
judged use_info (some (ok r, k)) =
    some (if r.success then ok (use_info r.info) else err (command_failed r.info), k)

module _ (parse_time : Text → Option ℕ) where
  unfoldable pub list_dir : Conn → Text → Option (Result (List Row) × Conn)
  unfolding run_managed
  list_dir k dir = judged (parse_listing parse_time) (run_managed k (ls_command dir))

unfoldable pub remove : Conn → Text → Option (Result (Unit {0}) × Conn)
unfolding run_managed
remove k path = judged (λ _. tt) (run_managed k (rm_command path))

unfoldable pub rename : Conn → Text → Text → Option (Result (Unit {0}) × Conn)
unfolding run_managed
rename k from to = judged (λ _. tt) (run_managed k (mv_command from to))

unfoldable pub mkdir : Conn → Text → Option (Result (Unit {0}) × Conn)
unfolding run_managed
mkdir k dir = judged (λ _. tt) (run_managed k (mkdir_command dir))

md5_answer :
    Option (List (List ℕ)) → Text → Option Text → Turn (Seen (Unit {0})) (Seen (Result Text))
md5_answer seen text (some digest) = done (seen, ok digest)
md5_answer seen text none =
    if contains (codes "not found") text || contains (codes "error") (to_lower text)
    then done (seen, err (machine (trim_space text)))
    else again (seen, tt)

unfoldable pub md5_round : Seen (Unit {0}) → Frame → Turn (Seen (Unit {0})) (Seen (Result Text))
unfolding md5_answer
md5_round (seen, _) f =
    if f.cmd == 0x90 || f.cmd == 0x83
    then md5_answer seen f.data_bytes (parse_md5_response f.data_bytes)
    else if f.cmd == 0x85
    then done (seen, err (command_failed (trim_space f.data_bytes)))
    else again (seen, tt)

unfoldable pub md5 : Conn → Text → Option (Result Text × Conn)
unfolding transact md5_round
md5 k path = transact net_fault md5_round k (md5_command path) (k.observed, tt)

ftype_answer : Option (List (List ℕ)) → Option Text → Turn (Seen (Unit {0})) (Seen (Result Text))
ftype_answer seen (some t) = done (seen, ok t)
ftype_answer seen none = again (seen, tt)

unfoldable pub ftype_round : Seen (Unit {0}) → Frame → Turn (Seen (Unit {0})) (Seen (Result Text))
unfolding ftype_answer
ftype_round (seen, _) f =
    if f.cmd == 0x90 || f.cmd == 0x83 || f.cmd == 0x81
    then ftype_answer seen (parse_ftype f.data_bytes)
    else again (seen, tt)

unfoldable pub ftype : Conn → Option (Result Text × Conn)
unfolding transact ftype_round
ftype k = transact net_fault ftype_round k ftype_command (k.observed, tt)

-- normalInfoError.
unfoldable pub normal_info_error : List ℕ → Option ClientError
normal_info_error bytes =
    let trimmed = trim_right_if is_line_end bytes in
    let low = to_lower (trim_space trimmed) in
    if contains (codes "error") low || contains (codes "alarm") low
    then some (machine trimmed)
    else none

-- The variables of SendConsoleCommand's loop.
pub record Console : Type 0 where
  pub output : Text
  pub have_output : Bool
  pub observed_reply : Bool

abbrev newline_if : Bool → Text
newline_if true = 10 ∷ []
newline_if false = []

unfoldable pub append_output : Console → Text → Console
append_output c s = record {
  output = c.output ++ (newline_if c.have_output ++ s);
  have_output = true;
  observed_reply = true;
}

-- What SendConsoleCommand returns: the output and the error, if any.
abbrev pub Reply : Type 0
Reply = Text × Option ClientError

-- A line of NORMAL_INFO.
unfoldable pub console_line : Seen Console → Text → Turn (Seen Console) (Seen Reply)
unfolding append_output
console_line (seen, c) trimmed =
    let low = to_lower (trim_space trimmed) in
    if text_eq low (codes "ok")
    then done (seen, (c.output, none))
    else if has_prefix (codes "ok ") low
    then done (seen, (c.output ++ (newline_if c.have_output ++ trim_space (drop 3 trimmed)), none))
    else if contains (codes "error") low || contains (codes "alarm") low
    then done (seen, (c.output, some (machine trimmed)))
    else again (seen, append_output c trimmed)

unfoldable pub console_round : Seen Console → Frame → Turn (Seen Console) (Seen Reply)
unfolding console_line append_output
console_round (seen, c) f =
    if f.cmd == 0x90
    then console_line (seen, record c { observed_reply = true })
        (trim_right_if is_line_end f.data_bytes)
    else if f.cmd == 0x82
    then again (seen, append_output c (trim_right_if is_line_end f.data_bytes))
    else if f.cmd == 0x81
    then again (seen_by seen f.data_bytes, c)
    else again (seen, c)

-- A read that fails: quiescence or the hard deadline, or a fault of the connection.
unfoldable pub console_fault : Bool → Seen Console → NetError → Seen Reply
console_fault expect_reply (seen, c) e =
    if is_timeout e
    then (
      seen,
      if expect_reply && not c.observed_reply then ([], some no_reply) else (c.output, none),
    )
    else (seen, if c.have_output then (c.output, none) else ([], some (net e)))

-- WriteConsoleCommand's payload.
unfoldable pub console_command : Text → List ℕ
console_command line = encode 0xA2 (trim_right_if is_line_end line)

unfoldable pub send_console_command : Conn → Text → Bool → Option (Reply × Conn)
unfolding console_round console_fault console_command
send_console_command k line expect_reply =
    let (out, fault) = write_frame k.out (console_command line) in
    let k' : Conn = record k { out = out } in
    let c : Console = record { output = []; have_output = false; observed_reply = false } in
    elim fault [
      | some e ↦ some (([], some (net e)), k')
      | none ↦
          finished k'
            (each_frame (console_fault expect_reply) console_round (k.observed, c) k.inbound)
    ]

-- ensureLineEnding: an empty line stays as it is.
unfoldable pub ensure_line_ending : Text → Text
ensure_line_ending line = if length line == 0 || ends_in 10 line then line else line ++ 10 ∷ []

unfoldable pub send_gcode_line : Conn → Text → Bool → Option (Reply × Conn)
unfolding send_console_command ensure_line_ending
send_gcode_line k line expect_reply = send_console_command k (ensure_line_ending line) expect_reply
