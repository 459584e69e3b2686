-- ===== src/Base/Strings.antt =====
-- More of Go's `strings`, on bytes; a letter or a space is one of ASCII.
use Prim.Native.Nat.{ℕ, ◌+◌}
use mathlib.Core.Bool.{Bool, false, ◌&&◌, ◌||◌}
use mathlib.Core.Option.{Option, none, some}
use mathlib.Core.List.{List, [], ◌∷◌, ◌++◌, map, reverse}
use makera_cnc_controller.Base.Tests.{leb, ◌==◌, if◌then◌else◌, is_some}
use makera_cnc_controller.Base.Lists.{length, drop}
use makera_cnc_controller.Base.Text.{Text, has_prefix, is_space}

unfoldable pub lower_byte : ℕ → ℕ
lower_byte c = if leb b'A' c && leb c b'Z' then c + 32 else c

-- strings.ToLower
unfoldable pub to_lower : Text → Text
unfolding lower_byte
to_lower s = map lower_byte s

unfoldable pub is_digit : ℕ → Bool
is_digit c = leb b'0' c && leb c b'9'

unfoldable pub trim_left_if : (ℕ → Bool) → Text → Text
trim_left_if p [] = []
trim_left_if p (c ∷ s) = if p c then trim_left_if p s else c ∷ s

-- strings.TrimRight with a set of bytes, and strings.Trim.
unfoldable pub trim_right_if : (ℕ → Bool) → Text → Text
unfolding trim_left_if
trim_right_if p s = reverse (trim_left_if p (reverse s))

unfoldable pub trim_if : (ℕ → Bool) → Text → Text
unfolding trim_left_if trim_right_if
trim_if p s = trim_right_if p (trim_left_if p s)

abbrev pub is_line_end : ℕ → Bool
is_line_end c = c == 13 || c == 10

abbrev pub is_nul : ℕ → Bool
is_nul c = c == 0

-- What follows the first occurrence of the first text in the second.
unfoldable pub after : Text → Text → Option Text
after sub [] = if has_prefix sub [] then some [] else none
after sub (c ∷ s) =
    let rest = after sub s in
    if has_prefix sub (c ∷ s) then some (drop (length sub) (c ∷ s)) else rest

-- strings.Contains(s, sub)
unfoldable pub contains : Text → Text → Bool
unfolding after
contains sub s = is_some (after sub s)

-- What stands before the first byte that passes.
unfoldable pub until : (ℕ → Bool) → Text → Text
until p [] = []
until p (c ∷ s) = if p c then [] else c ∷ until p s

-- What stands behind it, unless there is none.
unfoldable pub behind : (ℕ → Bool) → Text → Option Text
behind p [] = none
behind p (c ∷ s) = if p c then some s else behind p s

abbrev word_before : Text → List Text → List Text
word_before [] rest = rest
word_before (c ∷ cur) rest = (c ∷ cur) ∷ rest

-- strings.Fields, with the word that has begun.
unfoldable pub fields_from : Text → Text → List Text
fields_from cur [] = word_before cur []
fields_from cur (c ∷ s) =
    let rest = fields_from (if is_space c then [] else cur ++ (c ∷ [])) s in
    if is_space c then word_before cur rest else rest

unfoldable pub fields : Text → List Text
unfolding fields_from
fields s = fields_from [] s

-- strings.Split with a separator of one byte, and the part that has begun.
unfoldable pub split_from : ℕ → Text → Text → List Text
split_from sep cur [] = cur ∷ []
split_from sep cur (c ∷ s) =
    let rest = split_from sep (if c == sep then [] else cur ++ (c ∷ [])) s in
    if c == sep then cur ∷ rest else rest

unfoldable pub split : ℕ → Text → List Text
unfolding split_from
split sep s = split_from sep [] s

-- strings.HasSuffix and strings.TrimSuffix with one byte.
unfoldable pub ends_in : ℕ → Text → Bool
ends_in e [] = false
ends_in e (c ∷ []) = c == e
ends_in e (c ∷ d ∷ s) = ends_in e (d ∷ s)

unfoldable pub without_end : ℕ → Text → Text
without_end e [] = []
without_end e (c ∷ []) = if c == e then [] else c ∷ []
without_end e (c ∷ d ∷ s) = c ∷ without_end e (d ∷ s)
