-- ===== src/Machine/Status.antt =====
-- internal/machine/state.go: ParseStatusPayload. The raw text and the map of all fields,
-- which are kept for display, are left out. Floating-point numbers are parameters: their type, ParseFloat, the
-- conversion to an int (a sign and an amount) and the test for zero.
use makera_cnc_controller.Base.{
  ℕ, Bool, true, false, not, ◌&&◌, Option, none, some, List, [], ◌∷◌, ◌==◌, if◌then◌else◌, length,
  drop,
}
use makera_cnc_controller.Base.Text.{Text, codes, text_eq, has_prefix, trim_space}
use makera_cnc_controller.Base.Strings.{until, behind, split, ends_in, without_end}
use makera_cnc_controller.Machine.Halts.{HaltReason, parse_halt_reason}
use makera_cnc_controller.Machine.{State, unknown, normalize_state}

abbrev pub is_unknown : State → Bool
is_unknown unknown = true
is_unknown _ = false

module _ (Num : Type 0) where
  pub record Triple : Type 0 where
    pub current : Num
    pub target : Num
    pub override : Num

  -- The optional values are those of VacuumMode to ExternalMode that the report has, in this order.
  pub record Spindle : Type 0 where
    pub rpm : Triple
    pub optional : List Num

  pub record ToolStatus : Type 0 where
    pub active : Bool × ℕ
    pub offset : Num
    pub target : Option (Bool × ℕ)

  pub record LaserStatus : Type 0 where
    pub mode : Bool
    pub on : Bool
    pub testing : Bool
    pub power : Num
    pub scale : Num

  pub record ControllerStatus : Type 0 where
    pub model : Bool × ℕ
    pub functions : Bool × ℕ
    pub inch_mode : Bool
    pub absolute_mode : Bool

  -- `mpos` and `wpos` are the values of the axes x, y, z, a, b and c that there are.
  pub record Status : Type 0 where
    pub state : State
    pub mpos : List Num
    pub wpos : List Num
    pub feed : Option Triple
    pub spindle : Option Spindle
    pub tool : Option ToolStatus
    pub laser : Option LaserStatus
    pub controller : Option ControllerStatus
    pub probe_v : Option Num
    pub atc_state : Option (Bool × ℕ)
    pub level_delta : Option Num
    pub halt_reason : Option HaltReason
    pub progress : List Num
    pub machine : List Num

  abbrev pub empty_status : State → Status
  empty_status st = record {
    state = st;
    mpos = [];
    wpos = [];
    feed = none;
    spindle = none;
    tool = none;
    laser = none;
    controller = none;
    probe_v = none;
    atc_state = none;
    level_delta = none;
    halt_reason = none;
    progress = [];
    machine = [];
  }

  module _ (parse_float : Text → Option Num) (to_int : Num → Bool × ℕ) (is_zero : Num → Bool) where
    -- The numbers of the parts; nothing at all where one of them is no number.
    abbrev consed : Option Num → Option (List Num) → Option (List Num)
    consed none rest = none
    consed (some v) none = none
    consed (some v) (some vs) = some (v ∷ vs)

    numbers : List Text → Option (List Num)
    numbers [] = some []
    numbers (p ∷ ps) =
        let rest = numbers ps in
        if length (trim_space p) == 0 then rest else consed (parse_float (trim_space p)) rest

    abbrev or_nil : Option (List Num) → List Num
    or_nil none = []
    or_nil (some vs) = vs

    unfoldable pub parse_number_list : Text → List Num
    unfolding numbers
    parse_number_list s = or_nil (numbers (split b',' s))

    -- parseAxes: the names of the axes end after the sixth.
    first_six : List Num → List Num
    first_six (a ∷ b ∷ c ∷ d ∷ e ∷ f ∷ rest) = a ∷ b ∷ c ∷ d ∷ e ∷ f ∷ []
    first_six vs = vs

    triple_of : List Num → Option Triple
    triple_of (a ∷ b ∷ c ∷ rest) = some (record { current = a; target = b; override = c })
    triple_of _ = none

    spindle_of : List Num → Option Spindle
    unfolding first_six
    spindle_of (a ∷ b ∷ c ∷ rest) = some (record {
      rpm = record { current = a; target = b; override = c };
      optional = first_six rest;
    })
    spindle_of _ = none

    tool_of : List Num → Option ToolStatus
    tool_of (a ∷ b ∷ c ∷ rest) =
        some (record { active = to_int a; offset = b; target = some (to_int c) })
    tool_of (a ∷ b ∷ []) = some (record { active = to_int a; offset = b; target = none })
    tool_of _ = none

    laser_of : List Num → Option LaserStatus
    laser_of (a ∷ b ∷ c ∷ d ∷ e ∷ rest) = some (record {
      mode = not (is_zero a);
      on = not (is_zero b);
      testing = not (is_zero c);
      power = d;
      scale = e;
    })
    laser_of _ = none

    controller_of : List Num → Option ControllerStatus
    controller_of (a ∷ b ∷ c ∷ d ∷ rest) = some (record {
      model = to_int a;
      functions = to_int b;
      inch_mode = not (is_zero c);
      absolute_mode = not (is_zero d);
    })
    controller_of _ = none

    first_of : List Num → Option Num
    first_of [] = none
    first_of (v ∷ vs) = some v

    first_int : List Num → Option (Bool × ℕ)
    first_int [] = none
    first_int (v ∷ vs) = some (to_int v)

    unfoldable pub with_reason : Status → Option HaltReason → Status
    with_reason st none = st
    with_reason st (some r) = record st { halt_reason = some r }

    -- `switch key`
    unfoldable pub set_field : Status → Text → Text → Status
    unfolding parse_number_list first_six triple_of spindle_of tool_of laser_of controller_of
        first_of first_int with_reason
    set_field st key val =
        let vals = parse_number_list val in
        if text_eq key (codes "MPos")
        then record st { mpos = first_six vals }
        else if text_eq key (codes "WPos")
        then record st { wpos = first_six vals }
        else if text_eq key (codes "F")
        then record st { feed = triple_of vals }
        else if text_eq key (codes "S")
        then record st { spindle = spindle_of vals }
        else if text_eq key (codes "T")
        then record st { tool = tool_of vals }
        else if text_eq key (codes "W")
        then record st { probe_v = first_of vals }
        else if text_eq key (codes "L")
        then record st { laser = laser_of vals }
        else if text_eq key (codes "A")
        then record st { atc_state = first_int vals }
        else if text_eq key (codes "O")
        then record st { level_delta = first_of vals }
        else if text_eq key (codes "H")
        then with_reason st (parse_halt_reason val)
        else if text_eq key (codes "P")
        then record st { progress = vals }
        else if text_eq key (codes "C")
        then record st { machine = vals; controller = controller_of vals }
        else st

    unfoldable pub field_value : Status → Text → Option Text → Status
    unfolding set_field
    field_value st key none = st
    field_value st key (some val) =
        if length (trim_space key) == 0 then st else set_field st (trim_space key) (trim_space val)

    unfoldable pub parse_parts : Status → List Text → Status
    unfolding field_value
    parse_parts st [] = st
    parse_parts st (p ∷ ps) =
        let part = trim_space p in
        parse_parts (field_value st (until (λ c. c == b':') part) (behind (λ c. c == b':') part)) ps

    unfoldable pub split_report : Bool → List Text → Option Status
    unfolding parse_parts
    split_report bracketed [] = none
    split_report bracketed (first ∷ rest) =
        let st = normalize_state (trim_space first) in
        if is_unknown st && not bracketed && length rest == 0
        then none
        else some (parse_parts (empty_status st) rest)

    unfoldable pub parse_status_payload : Text → Option Status
    unfolding split_report
    parse_status_payload payload =
        let raw = trim_space payload in
        let bracketed = has_prefix (codes "<") raw && ends_in b'>' raw in
        let body = without_end b'>' (if has_prefix (codes "<") raw then drop 1 raw else raw) in
        if length body == 0 then none else split_report bracketed (split b'|' body)
