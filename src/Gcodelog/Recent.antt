-- ===== src/Gcodelog/Recent.antt =====
-- internal/gcodelog/gcodelog.go: the ring against the log without a bound.
use makera_cnc_controller.Base.{
  ℕ, suc, ◌+◌, ◌-◌, ◌%◌, ◌^◌, ◌<◌, ◌≤◌, ◌≡◌, refl, sym, ap, ◌∙◌, Bool-cases, inl, inr, List, [],
  ◌∷◌, ◌++◌, ltb, if◌then◌else◌, length, drop, arith, length-append,
}
use makera_cnc_controller.Base.Text.{Text, text_eq, trim_space}
use makera_cnc_controller.Gcodelog.{
  Line, Log, new_log, last_n, split_lines, trim_right_cr, append_line, append_lines, append, recent,
  replace, max_seq, above, number_behind, subscribe_lines, unsubscribe_lines,
}

-- The operations of the log.
pub data LogOp : Type 0 where
  appends : ℕ → Text → Text → Text → LogOp
  replaces : List Line → LogOp
  subscribes : LogOp
  unsubscribes : ℕ → LogOp

unfoldable pub apply_op : Log → LogOp → Log
apply_op l (appends now dir source text) = append l now dir source text
apply_op l (replaces lines) = replace l lines
apply_op l subscribes = (subscribe_lines l).0
apply_op l (unsubscribes i) = unsubscribe_lines l i

unfoldable pub apply_ops : Log → List LogOp → Log
unfolding apply_op
apply_ops l [] = l
apply_ops l (op ∷ ops) = apply_ops (apply_op l op) ops

-- The log without a bound: every line since the last import, and the next number.
pub record FullLog : Type 0 where
  pub lines : List Line
  pub next : ℕ

-- The greatest number that an imported line has, or 0: no line bears a greater positive number, and a line bears it
-- unless it is 0.
abbrev pub positive : Line → ℕ
positive ln = if ltb ln.seq (2 ^ 63) then ln.seq else 0

unfoldable pub greatest : List Line → ℕ
greatest [] = 0
greatest (ln ∷ lines) =
    let rest = greatest lines in if ltb (positive ln) rest then rest else positive ln

-- A line of text that is not blank is numbered and kept.
unfoldable pub keep_lines : ℕ → Text → Text → FullLog → List Text → FullLog
keep_lines now dir source h [] = h
keep_lines now dir source h (raw ∷ raws) =
    let t = trim_right_cr raw in
    let ln : Line = record { seq = h.next; time = now; dir = dir; source = source; text = t } in
    keep_lines now dir source
      (if text_eq (trim_space t) []
        then h
        else record { lines = h.lines ++ (ln ∷ []); next = (h.next + 1) % 2 ^ 64 })
      raws

unfoldable pub keep_op : ℕ → FullLog → LogOp → FullLog
keep_op cap h (appends now dir source text) = keep_lines now dir source h (split_lines text)
keep_op cap h (replaces lines) =
    let m = greatest (last_n cap lines) in
    record { lines = lines; next = if ltb (m + 1) (2 ^ 63) then m + 1 else 1 }
keep_op cap h subscribes = h
keep_op cap h (unsubscribes i) = h

unfoldable pub keep_ops : ℕ → FullLog → List LogOp → FullLog
unfolding keep_op
keep_ops cap h [] = h
keep_ops cap h (op ∷ ops) = keep_ops cap (keep_op cap h op) ops

-- The log shows the last lines of the history.
abbrev Shows : ℕ → Log → FullLog → Type 0
Shows cap l h = (l.cap ≡ cap) × (l.ring ≡ last_n cap h.lines) × (l.next_seq ≡ h.next)

pub last_n-short : {A : Type 0} (n : ℕ) (xs : List A) → length xs ≤ n → last_n n xs ≡ xs
unfolding last_n
last_n-short n xs h =
    let none_over : length xs - n ≡ 0 = omega (arith, h) in ap (λ (k : ℕ). drop k xs) none_over

last_n-cons :
    {A : Type 0} (n : ℕ) (x : A) (xs : List A) → n ≤ length xs → last_n n (x ∷ xs) ≡ last_n n xs
unfolding last_n
last_n-cons n x xs h =
    let one_more : suc (length xs) - n ≡ suc (length xs - n) = omega (arith, h) in
    ap (λ (k : ℕ). drop k (x ∷ xs)) one_more

-- Forgetting old lines before an append changes nothing that is shown behind it.
pub last_n-snoc :
    {A : Type 0} (n : ℕ) (xs : List A) (y : A)
    → last_n n (last_n n xs ++ (y ∷ [])) ≡ last_n n (xs ++ (y ∷ []))
last_n-snoc {A} n [] y = rw (last_n-short {A = A} n [] (omega arith)) refl
last_n-snoc n (x ∷ xs) y = elim (Bool-cases (ltb (length xs) n)) [
  | inl short ↦ rw (last_n-short n (x ∷ xs) (ground (arith, short))) refl
  | inr long ↦
      let over : n ≤ length xs = ground (arith, long) in
      ap (λ t. last_n n (t ++ (y ∷ []))) (last_n-cons n x xs over)
      ∙ last_n-snoc n xs y
      ∙ sym (last_n-cons n x (xs ++ (y ∷ [])) (omega (arith, over, length-append xs (y ∷ []))))
]

append_line-Shows :
    (cap : ℕ) (l : Log) (h : FullLog) (now : ℕ) (dir source t : Text)
    → Shows cap l h
    → let ln : Line = record { seq = h.next; time = now; dir = dir; source = source; text = t } in
      Shows cap
        (append_line l now dir source t)
        (record { lines = h.lines ++ (ln ∷ []); next = (h.next + 1) % 2 ^ 64 })
unfolding append_line
append_line-Shows cap l h now dir source t shown =
    let ln : Line = record { seq = l.next_seq; time = now; dir = dir; source = source; text = t } in
    ground (arith, last_n-snoc cap h.lines ln, last_n-short cap (l.ring ++ (ln ∷ [])))

keep_lines-Shows :
    (ts : List Text) (cap : ℕ) (l : Log) (h : FullLog) (now : ℕ) (dir source : Text)
    → Shows cap l h
    → Shows cap (append_lines l now dir source ts) (keep_lines now dir source h ts)
unfolding append_lines keep_lines
keep_lines-Shows [] cap l h now dir source shown = shown
keep_lines-Shows (raw ∷ raws) cap l h now dir source shown =
    let t = trim_right_cr raw in
    let blank = text_eq (trim_space t) [] in
    let ln : Line = record { seq = h.next; time = now; dir = dir; source = source; text = t } in
    keep_lines-Shows raws cap (if blank then l else append_line l now dir source t)
      (if blank then h else record { lines = h.lines ++ (ln ∷ []); next = (h.next + 1) % 2 ^ 64 })
      now dir source (ground (arith, append_line-Shows cap l h now dir source t shown, shown))

new_log-Shows :
    (capacity : ℕ)
    → Shows (new_log capacity).cap (new_log capacity) (record { lines = []; next = 1 })
unfolding new_log last_n
new_log-Shows capacity = ground arith

-- What the loop of Replace finds.
max_seq-greatest :
    (m : ℕ) (lines : List Line)
    → m < 2 ^ 63
    → (max_seq m lines ≡ (if ltb m (greatest lines) then greatest lines else m))
      × (greatest lines < 2 ^ 63)
unfolding max_seq greatest
max_seq-greatest m [] h = ground arith
max_seq-greatest m (ln ∷ lines) h =
    let m' = (if above m ln.seq then ln.seq else m) in
    let small : m' < 2 ^ 63 = ground arith in
    let rest = max_seq-greatest m' lines small in ground (arith, rest.0, rest.1)

behind-greatest :
    (lines : List Line)
    → number_behind (max_seq 0 lines)
      ≡ (if ltb (greatest lines + 1) (2 ^ 63) then greatest lines + 1 else 1)
unfolding number_behind
behind-greatest lines =
    let found = max_seq-greatest 0 lines (omega arith) in ground (arith, found.0, found.1)

apply_op-Shows :
    (cap : ℕ) (l : Log) (h : FullLog) (op : LogOp)
    → Shows cap l h
    → Shows cap (apply_op l op) (keep_op cap h op)
unfolding apply_op keep_op append replace subscribe_lines unsubscribe_lines
apply_op-Shows cap l h (appends now dir source text) shown =
    keep_lines-Shows (split_lines text) cap l h now dir source shown
apply_op-Shows cap l h (replaces lines) shown =
    ground (arith, shown, behind-greatest (last_n cap lines))
apply_op-Shows cap l h subscribes shown = shown
apply_op-Shows cap l h (unsubscribes i) shown = shown

apply_ops-Shows :
    (ops : List LogOp) (cap : ℕ) (l : Log) (h : FullLog)
    → Shows cap l h
    → Shows cap (apply_ops l ops) (keep_ops cap h ops)
unfolding apply_ops keep_ops
apply_ops-Shows [] cap l h shown = shown
apply_ops-Shows (op ∷ ops) cap l h shown =
    apply_ops-Shows ops cap (apply_op l op) (keep_op cap h op) (apply_op-Shows cap l h op shown)

-- The log refines the log without a bound: after any appends, imports, subscriptions and unsubscriptions of a new
-- log, the recent lines are the last of the lines that the unbounded log has since the last import, as many as
-- the capacity (256 for a capacity of 0), and the next line gets the number that it gets there. Behind an import that
-- is one more than the greatest of the numbers that are not negative among the lines shown, or 1 where that is no
-- int64; in the appends it goes on by one, and wraps as an int64 does.
pub recent_refines :
    (capacity : ℕ) (ops : List LogOp)
    → let cap = (new_log capacity).cap in
      let h = keep_ops cap (record { lines = []; next = 1 }) ops in
      (recent (apply_ops (new_log capacity) ops) ≡ last_n cap h.lines)
      × ((apply_ops (new_log capacity) ops).next_seq ≡ h.next)
unfolding recent
recent_refines capacity ops =
    let shown =
      apply_ops-Shows ops (new_log capacity).cap (new_log capacity)
        (record { lines = []; next = 1 }) (new_log-Shows capacity) in
    (shown.1, shown.2)
