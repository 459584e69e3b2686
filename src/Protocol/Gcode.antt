-- ===== src/Protocol/Gcode.antt =====
-- internal/protocol/commands.go: how the firmware answers a console line, and which lines wait for an idle machine.
use makera_cnc_controller.Base.{
  ℕ, Bool, true, false, not, ◌&&◌, ◌||◌, Option, none, some, List, [], ◌∷◌, leb, ◌==◌,
  if◌then◌else◌, length, drop, any,
}
use makera_cnc_controller.Base.Text.{Text, codes, has_prefix, text_eq, trim_space}
use makera_cnc_controller.Base.Strings.{to_lower, is_digit, until, behind}

pub data Response : Type 0 where
  fire_and_forget reply_expected : Response

-- strings.IndexAny(s, " \t")
abbrev pub is_blank : ℕ → Bool
is_blank c = c == 32 || c == 9

abbrev pub listed : List Text → Text → Bool
listed names s = any (λ n. text_eq n s) names

abbrev pub reply_queries : List Text
reply_queries =
    codes "m114"
    ∷ codes "m115"
    ∷ codes "m119"
    ∷ codes "m105"
    ∷ codes "m503"
    ∷ codes "version"
    ∷ codes "model"
    ∷ codes "ftype"
    ∷ codes "time"
    ∷ codes "echo"
    ∷ codes "mem"
    ∷ codes "diagnose"
    ∷ codes "progress"
    ∷ []

abbrev pub dollar_queries : List Text
dollar_queries = codes "$" ∷ codes "$$" ∷ codes "$#" ∷ codes "$g" ∷ codes "$i" ∷ codes "$n" ∷ []

abbrev pub dual_nature_reporters : List Text
dual_nature_reporters =
    codes "m220"
    ∷ codes "m221"
    ∷ codes "m211"
    ∷ codes "m204"
    ∷ codes "m203"
    ∷ codes "m206"
    ∷ codes "m301"
    ∷ []

abbrev pub is_line_number : Text → Bool
is_line_number (c ∷ d ∷ s) = c == b'n' && is_digit d
is_line_number _ = false

abbrev unnumbered : Text → Option Text → Text
unnumbered line none = line
unnumbered line (some rest) = trim_space rest

unfoldable pub normalize_line : Text → Text
normalize_line line =
    let l = trim_space (to_lower line) in
    if is_line_number l then unnumbered l (behind is_blank l) else l

unfoldable pub first_token : Text → Text
first_token line = until is_blank line

-- What may begin the value of a parameter.
abbrev pub begins_value : ℕ → Bool
begins_value n = is_digit n || n == b'-' || n == b'+' || n == b'.'

-- The loop of hasSettingArg.
unfoldable pub has_parameter : Text → Bool
has_parameter (c ∷ n ∷ rest) =
    (leb b'a' c && leb c b'z' && begins_value n) || has_parameter (n ∷ rest)
has_parameter _ = false

unfoldable pub has_setting_arg : Text → Text → Bool
unfolding has_parameter
has_setting_arg line tok = has_parameter (trim_space (drop (length tok) line))

-- ClassifyGcode on a normalised line: the response, and whether the machine has to be idle.
unfoldable pub classify_token : Text → Text → Response × Bool
unfolding has_setting_arg
classify_token line tok =
    let base = until (λ c. c == b'.') tok in
    if has_prefix (codes "$") tok
    then (if listed dollar_queries tok then (reply_expected, false) else (fire_and_forget, true))
    else if listed reply_queries base
    then (reply_expected, false)
    else if text_eq base (codes "g30") || text_eq base (codes "g38")
    then (reply_expected, true)
    else if listed dual_nature_reporters base
    then (if has_setting_arg line tok then (fire_and_forget, true) else (reply_expected, false))
    else (fire_and_forget, true)

unfoldable pub classify_gcode : Text → Response × Bool
unfolding classify_token normalize_line first_token
classify_gcode line =
    let l = normalize_line line in
    if length l == 0 then (fire_and_forget, true) else classify_token l (first_token l)

unfoldable pub is_status_query : Text → Bool
unfolding classify_gcode
is_status_query line = not (classify_gcode line).1
