-- ===== src/Examples/Commands.antt =====
-- The theorems on reports and console lines, applied to an idle machine. No number is read from a report.
use makera_cnc_controller.Base.{ℕ, ◌≡◌, refl, none, Option, Bool, false, ◌==◌}
use makera_cnc_controller.Base.Text.{
  Text, codes, trim_space, trim_left, has_prefix, is_space, text_eq,
}
use makera_cnc_controller.Base.Strings.{until, behind, split, ends_in, without_end}
use makera_cnc_controller.Machine.{idle, normalize_state, can_run_file_ops}
use makera_cnc_controller.Machine.Status.{
  parse_status_payload, set_field, parse_parts, split_report, field_value, parse_number_list,
  empty_status,
}
use makera_cnc_controller.Machine.Reported.{body_of, reported_idle}

abbrev no_number : Text → Option ℕ
no_number s = none

abbrev as_int : ℕ → Bool × ℕ
as_int n = (false, n)

abbrev is_zero : ℕ → Bool
is_zero n = n == 0

abbrev no_base : Text → Option (Bool × ℕ)
no_base s = none

abbrev is_bar : ℕ → Bool
is_bar c = c == b'|'

reported_idle_example :
    ◌≡◌ {A = Text}
      (trim_space (until is_bar (body_of (trim_space (codes "<Idle|G:1>")))))
      (codes "Idle")
unfolding text_eq parse_status_payload set_field parse_parts split_report field_value
    parse_number_list normalize_state trim_space trim_left is_space has_prefix ends_in without_end
    split until behind can_run_file_ops
reported_idle_example =
    reported_idle ℕ no_number as_int is_zero (codes "<Idle|G:1>") (empty_status ℕ idle) refl refl
