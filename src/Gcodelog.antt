-- ===== src/Gcodelog.antt =====
-- internal/gcodelog/gcodelog.go: the bounded log of G-code traffic. The lines of one call bear one time.
pub mod Recent
use makera_cnc_controller.Base.{
  ℕ, suc, ◌+◌, ◌-◌, ◌%◌, ◌^◌, ◌&&◌, ◌||◌, leb, Bool, true, false, not, List, [], ◌∷◌, ◌++◌, map,
  ltb, ◌==◌, if◌then◌else◌, length, drop, keep_if,
}
use makera_cnc_controller.Base.Text.{Text, text_eq, trim_space}
use mathlib.Core.List.{reverse}

-- `seq` is an int64 as its 64 bits: a number from 2 ^ 63 on is negative.
pub record Line : Type 0 where
  pub seq : ℕ
  pub time : ℕ
  pub dir : Text
  pub source : Text
  pub text : Text

-- A subscriber's channel, of capacity 256.
pub record Reader : Type 0 where
  pub reader_id : ℕ
  pub pending : List Line

pub record Log : Type 0 where
  pub cap : ℕ
  pub ring : List Line
  pub next_seq : ℕ
  pub subs : List Reader
  pub next_sub : ℕ

unfoldable pub new_log : ℕ → Log
new_log capacity = record {
  cap = if capacity == 0 then 256 else capacity;
  ring = [];
  next_seq = 1;
  subs = [];
  next_sub = 0;
}

-- The last `n` elements.
unfoldable pub last_n : {A : Type 0} → ℕ → List A → List A
last_n n xs = drop (length xs - n) xs

add_char : ℕ → List Text → List Text
add_char c [] = (c ∷ []) ∷ []
add_char c (t ∷ ts) = (c ∷ t) ∷ ts

-- strings.Split(text, "\n")
unfoldable pub split_lines : Text → List Text
unfolding add_char
split_lines [] = [] ∷ []
split_lines (c ∷ s) = if c == 10 then [] ∷ split_lines s else add_char c (split_lines s)

strip_cr : Text → Text
strip_cr [] = []
strip_cr (c ∷ s) = if c == 13 then strip_cr s else c ∷ s

-- strings.TrimRight(t, "\r")
unfoldable pub trim_right_cr : Text → Text
unfolding strip_cr
trim_right_cr t = reverse (strip_cr (reverse t))

unfoldable pub offer_line : Line → Reader → Reader
offer_line ln r =
    if ltb (length r.pending) 256 then record r { pending = r.pending ++ (ln ∷ []) } else r

-- The body of the loop of Append behind the test for a blank line.
unfoldable pub append_line : Log → ℕ → Text → Text → Text → Log
unfolding last_n offer_line
append_line l now dir source t =
    let ln : Line = record { seq = l.next_seq; time = now; dir = dir; source = source; text = t } in
    let ring = l.ring ++ (ln ∷ []) in
    record l {
      ring = if ltb l.cap (length ring) then last_n l.cap ring else ring;
      next_seq = (l.next_seq + 1) % 2 ^ 64;
      subs = map (offer_line ln) l.subs;
    }

unfoldable pub append_lines : Log → ℕ → Text → Text → List Text → Log
unfolding append_line
append_lines l now dir source [] = l
append_lines l now dir source (raw ∷ raws) =
    let t = trim_right_cr raw in
    append_lines (if text_eq (trim_space t) [] then l else append_line l now dir source t) now dir
      source raws

unfoldable pub append : Log → ℕ → Text → Text → Text → Log
unfolding append_lines
append l now dir source text = append_lines l now dir source (split_lines text)

unfoldable pub recent : Log → List Line
recent l = l.ring

-- `x > m` where m is not negative.
abbrev pub above : ℕ → ℕ → Bool
above m x = ltb m x && ltb x (2 ^ 63)

unfoldable pub max_seq : ℕ → List Line → ℕ
max_seq m [] = m
max_seq m (ln ∷ lines) = max_seq (if above m ln.seq then ln.seq else m) lines

-- One more than the number, or 1 where that is not positive.
unfoldable pub number_behind : ℕ → ℕ
number_behind m =
    let next = (m + 1) % 2 ^ 64 in if (next == 0) || leb (2 ^ 63) next then 1 else next

unfoldable pub replace : Log → List Line → Log
unfolding last_n number_behind
replace l lines =
    let ring = last_n l.cap lines in
    record l { ring = ring; next_seq = number_behind (max_seq 0 ring) }

unfoldable pub subscribe_lines : Log → Log × ℕ
subscribe_lines l = (
  record l {
    subs = l.subs ++ (record { reader_id = l.next_sub; pending = [] } ∷ []);
    next_sub = l.next_sub + 1;
  },
  l.next_sub,
)

unfoldable pub unsubscribe_lines : Log → ℕ → Log
unsubscribe_lines l i = record l { subs = keep_if (λ r. not (r.reader_id == i)) l.subs }
