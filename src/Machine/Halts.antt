-- ===== src/Machine/Halts.antt =====
-- internal/machine/state.go: the reasons of a halt, DescribeHaltReason and ParseHaltReason.
use makera_cnc_controller.Base.{
  ℕ, Bool, true, false, ◌&&◌, Option, none, some, List, [], ◌∷◌, leb, ◌==◌, if◌then◌else◌, length,
}
use makera_cnc_controller.Base.Text.{Text, codes, trim_space}
use makera_cnc_controller.Base.Strings.{until}
use makera_cnc_controller.Protocol.Parsing.{parse_int}

pub record HaltReason : Type 0 where
  pub code : Bool × ℕ
  pub message : Text
  pub recovery : Text

abbrev halt_reason_messages : List (ℕ × Text)
halt_reason_messages =
    (1, codes "Halt manually")
    ∷ (2, codes "Home fail")
    ∷ (3, codes "Probe fail")
    ∷ (4, codes "Calibrate fail")
    ∷ (5, codes "ATC home fail")
    ∷ (6, codes "ATC invalid tool number")
    ∷ (7, codes "ATC drop tool fail")
    ∷ (8, codes "ATC position occupied")
    ∷ (9, codes "Spindle overheated")
    ∷ (10, codes "Soft limit triggered")
    ∷ (11, codes "Cover opened when playing")
    ∷ (12, codes "Wireless probe dead or not set")
    ∷ (13, codes "Emergency stop button pressed")
    ∷ (14, codes "Power overheated")
    ∷ (15, codes "Machine has not been homed")
    ∷ (21, codes "Hard limit triggered")
    ∷ (22, codes "X axis motor error")
    ∷ (23, codes "Y axis motor error")
    ∷ (24, codes "Z axis motor error")
    ∷ (25, codes "Spindle stall")
    ∷ (26, codes "SD card read fail")
    ∷ (41, codes "Spindle alarm")
    ∷ []

message_for : ℕ → List (ℕ × Text) → Text
message_for code [] = codes "Unknown alarm"
message_for code ((k, text) ∷ rest) = if k == code then text else message_for code rest

-- Severity is the recovery, but for "unknown" where that is "inspect".
unfoldable pub recovery_for : ℕ → Text
recovery_for code =
    if leb 1 code && leb code 20
    then codes "unlock"
    else if leb 21 code && leb code 40
    then codes "reset"
    else if leb 41 code
    then codes "power_cycle"
    else codes "inspect"

unfoldable pub describe_halt_reason : Bool × ℕ → HaltReason
unfolding message_for recovery_for
describe_halt_reason (true, n) = record {
  code = (true, n);
  message = codes "Unknown alarm";
  recovery = codes "inspect";
}
describe_halt_reason (false, n) = record {
  code = (false, n);
  message = message_for n halt_reason_messages;
  recovery = recovery_for n;
}

described : Option (Bool × ℕ) → Option HaltReason
described none = none
described (some code) = some (describe_halt_reason code)

unfoldable pub parse_halt_reason : Text → Option HaltReason
unfolding described
parse_halt_reason s =
    let t = trim_space s in
    if length t == 0 then none else described (parse_int (trim_space (until (λ c. c == b',') t)))
