-- ===== src/Protocol/Parsing.antt =====
-- internal/protocol/listing.go and play_status.go: what the machine answers, parsed. time.ParseInLocation is the
-- parameter `parse_time`, which gives none where it fails; the zero time is 0.
use makera_cnc_controller.Base.{
  ℕ, ◌+◌, ◌*◌, ◌-◌, ◌^◌, Bool, true, false, not, ◌&&◌, ◌||◌, Option, none, some, List, [], ◌∷◌, map,
  ltb, leb, ◌==◌, if◌then◌else◌, length, any,
}
use makera_cnc_controller.Base.Text.{Text, codes, has_prefix, trim_space}
use makera_cnc_controller.Base.Strings.{
  to_lower, is_digit, trim_right_if, trim_if, is_line_end, is_nul, after, until, behind, fields,
  split, ends_in, without_end,
}
use makera_cnc_controller.Protocol.Escape.{unescape}
use makera_cnc_controller.Protocol.Listing.{DirEntry}

-- strconv.ParseInt and Atoi in base 10: whether there is a minus sign, and the amount, which fits 64 bits.
unfoldable pub digits_value : ℕ → Text → Option ℕ
digits_value acc [] = some acc
digits_value acc (c ∷ s) =
    let rest = digits_value (acc * 10 + (c - b'0')) s in if is_digit c then rest else none

unfoldable pub parse_digits : Text → Option ℕ
unfolding digits_value
parse_digits [] = none
parse_digits (c ∷ s) = digits_value 0 (c ∷ s)

abbrev in_range : ℕ → Bool → Option ℕ → Option (Bool × ℕ)
in_range bound minus none = none
in_range bound minus (some n) = if leb n bound then some (minus, n) else none

unfoldable pub parse_int : Text → Option (Bool × ℕ)
unfolding parse_digits
parse_int [] = none
parse_int (c ∷ s) =
    if c == b'-'
    then in_range (2 ^ 63) true (parse_digits s)
    else if c == b'+'
    then in_range (2 ^ 63 - 1) false (parse_digits s)
    else in_range (2 ^ 63 - 1) false (parse_digits (c ∷ s))

-- A row with the sign of its size, which the entry has without.
pub record Row : Type 0 where
  pub entry : DirEntry
  pub minus : Bool

-- strings.ReplaceAll(name, "\x01", " ")
unfoldable pub spaced : Text → Text
spaced s = map (λ c. if c == 1 then b' ' else c) s

abbrev zero_time : Option ℕ → ℕ
zero_time none = 0
zero_time (some t) = t

module _ (parse_time : Text → Option ℕ) where
  row_of : Text → Text → Bool × ℕ → Row
  row_of name date (minus, size) =
      let decoded = spaced name in
      record {
        entry = record {
          name = without_end b'/' decoded;
          is_dir = ends_in b'/' decoded;
          size = size;
          mtime = zero_time (parse_time date);
        };
        minus = minus;
      }

  numbers_of : Text → Text → Option (Bool × ℕ) → Option (Bool × ℕ) → Option Row
  unfolding row_of
  numbers_of name date (some size) (some n) = some (row_of name date size)
  numbers_of name date (some size) none = none
  numbers_of name date none n = none

  unfoldable pub parse_fields : List Text → Option Row
  unfolding numbers_of parse_int
  parse_fields (name ∷ size ∷ date ∷ []) =
      if has_prefix (codes ".") name
      then none
      else numbers_of name date (parse_int size) (parse_int date)
  parse_fields _ = none

  unfoldable pub parse_ls_line : Text → Option Row
  unfolding parse_fields
  parse_ls_line line =
      let l = trim_right_if is_line_end line in
      if length l == 0 || has_prefix (codes "<") l then none else parse_fields (fields l)

  abbrev with_row : Option Row → List Row → List Row
  with_row none rows = rows
  with_row (some r) rows = r ∷ rows

  parse_lines : List Text → List Row
  parse_lines [] = []
  parse_lines (l ∷ ls) = with_row (parse_ls_line l) (parse_lines ls)

  unfoldable pub parse_listing : Text → List Row
  unfolding parse_ls_line parse_lines
  parse_listing payload = parse_lines (split 10 payload)

-- The value ends at a space, a tab or a line's end: the other bytes that TrimSpace drops stay within it.
abbrev is_token_end : ℕ → Bool
is_token_end c = c == 32 || c == 9 || c == 13 || c == 10

ftype_value : Option Text → Option Text
ftype_value none = none
ftype_value (some rest) =
    let token = until is_token_end (trim_space rest) in
    if length token == 0 then none else some token

ftype_after : Option Text → Option Text
ftype_after none = none
ftype_after (some rest) = ftype_value (after (codes "=") rest)

unfoldable pub parse_ftype : Text → Option Text
unfolding ftype_after ftype_value
parse_ftype line = ftype_after (after (codes "ftype") line)

unfoldable pub is_hex : ℕ → Bool
is_hex c = is_digit c || leb b'a' c && leb c b'f' || leb b'A' c && leb c b'F'

unfoldable pub all_hex : Text → Bool
unfolding is_hex
all_hex s = not (any (λ c. not (is_hex c)) s)

digest_of : List Text → Option Text
digest_of [] = none
digest_of (digest ∷ rest) =
    if not (length digest == 32) || not (all_hex digest) then none else some (to_lower digest)

unfoldable pub parse_md5_response : Text → Option Text
unfolding digest_of
parse_md5_response payload = digest_of (fields (trim_space payload))

pub record PlayStatus : Type 0 where
  pub path : Text
  pub md5 : Text

abbrev is_bar : ℕ → Bool
is_bar c = c == b'|'

play_status_of : Text → Option Text → Option PlayStatus
play_status_of text none = none
play_status_of text (some md5_part) =
    let md5 = to_lower (trim_space md5_part) in
    let status : PlayStatus = record {
      path = trim_space (unescape (until is_bar text));
      md5 = md5;
    } in
    if any is_bar md5
    then none
    else if length md5 == 0
    then some status
    else if not (length md5 == 32) || not (all_hex md5)
    then none
    else some status

abbrev max_play_status_payload : ℕ
max_play_status_payload = 4096

unfoldable pub parse_play_status : List ℕ → Option PlayStatus
unfolding play_status_of
parse_play_status payload =
    let text = trim_if is_nul (trim_space payload) in
    if ltb max_play_status_payload (length payload)
    then none
    else play_status_of text (behind is_bar text)
