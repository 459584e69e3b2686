-- ===== src/Protocol/Paused.antt =====
-- internal/protocol/commands.go: CanRunWhilePaused, which lines may be sent while a job is suspended.
-- `int(n)` for the n that strconv.ParseFloat reads is the parameter `parse_base`: a sign and an amount, or none
-- where ParseFloat fails.
use mathlib.Core.Path.{subst}
use makera_cnc_controller.Base.{
  ℕ, zero, suc, ◌<◌, ◌≡◌, refl, ap, Bool, true, false, not, ◌&&◌, ◌||◌, Option, none, some, List,
  [], ◌∷◌, ◌++◌, arith, leb, ◌==◌, if◌then◌else◌, length, drop, any, inl, inr, ◌⊎◌, Bool-cases,
  is_some, length-drop,
}
use makera_cnc_controller.Base.Text.{Text, codes, has_prefix, trim_space}
use makera_cnc_controller.Base.Strings.{is_digit, until}
use makera_cnc_controller.Protocol.Gcode.{normalize_line}

abbrev pub allowed_g : List ℕ
allowed_g = 0 ∷ 1 ∷ 2 ∷ 3 ∷ 17 ∷ 18 ∷ 19 ∷ 20 ∷ 21 ∷ 53 ∷ 90 ∷ 91 ∷ 94 ∷ []

abbrev pub allowed_m : List ℕ
allowed_m = 3 ∷ 4 ∷ 5 ∷ 7 ∷ 8 ∷ 9 ∷ 220 ∷ []

-- x y z a b c f s i j k r
abbrev pub is_modal_letter : ℕ → Bool
is_modal_letter c = any (λ l. c == l) (codes "xyzabcfsijkr")

abbrev pub is_letter : ℕ → Bool
is_letter c = leb b'a' c && leb c b'z'

abbrev pub is_comment : ℕ → Bool
is_comment c = c == b';' || c == b'('

abbrev ends_number : ℕ → Bool
ends_number c = not (is_digit c || c == b'.')

abbrev is_sign : ℕ → Bool
is_sign c = c == b'+' || c == b'-'

-- The value behind a letter: a sign and then digits and dots, all of which may be missing.
unfoldable pub value_of : Text → Text
value_of [] = []
value_of (c ∷ s) = if is_sign c then c ∷ until ends_number s else until ends_number (c ∷ s)

pub data Word : Type 0 where
  rejected command modal : Word

abbrev pub is_rejected : Word → Bool
is_rejected rejected = true
is_rejected _ = false

Word-cases : (w : Word) → (w ≡ rejected) ⊎ (w ≡ command) ⊎ (w ≡ modal)
Word-cases rejected = inl refl
Word-cases command = inr (inl refl)
Word-cases modal = inr (inr refl)

-- `allowedG[base]`, for a base that may be negative.
abbrev pub is_allowed : List ℕ → Bool × ℕ → Bool
is_allowed bases (minus, n) = (not minus || n == 0) && any (λ b. n == b) bases

-- `$J=` and `$J ` before the words.
unfoldable pub without_jog : Text → Text
without_jog l =
    if has_prefix (codes "$j=") l
    then trim_space (drop 3 l)
    else if has_prefix (codes "$j ") l
    then trim_space (drop 2 l)
    else l

module _ (parse_base : Text → Option (Bool × ℕ)) where
  numbered : List ℕ → Option (Bool × ℕ) → Word
  numbered bases none = rejected
  numbered bases (some b) = if is_allowed bases b then command else rejected

  unfoldable pub word_of : ℕ → Text → Word
  unfolding numbered
  word_of c value =
      if c == b'g'
      then (if length value == 0 then rejected else numbered allowed_g (parse_base value))
      else if c == b'm'
      then (if length value == 0 then rejected else numbered allowed_m (parse_base value))
      else if is_modal_letter c
      then (if length value == 0 then rejected else modal)
      else rejected

  -- The loop, with seenCommand and seenModalWord. Each round takes a byte at least.
  unfoldable pub scan_words : ℕ → Text → Bool → Bool → Option Bool
  scan_words zero line seen_command seen_modal = none
  scan_words (suc fuel) [] seen_command seen_modal = some (seen_command || seen_modal)
  scan_words (suc fuel) (c ∷ s) seen_command seen_modal =
      let value = value_of s in
      let skipped = scan_words fuel s seen_command seen_modal in
      let taken : Option Bool = elim (word_of c value) [
        | rejected ↦ some false
        | command ↦ scan_words fuel (drop (length value) s) true seen_modal
        | modal ↦ scan_words fuel (drop (length value) s) seen_command true
      ] in
      if is_comment c
      then some (seen_command || seen_modal)
      else if not (is_letter c)
      then skipped
      else taken

  abbrev pub holds : Option Bool → Bool
  holds none = false
  holds (some b) = b

  unfoldable pub can_run_while_paused : Text → Bool
  unfolding scan_words
  can_run_while_paused line =
      let l = normalize_line line in
      let words = without_jog l in
      if length l == 0 then false else holds (scan_words (suc (length words)) words false false)

  -- With fuel above the length the loop ends by itself.
  pub scan_words-total :
      (fuel : ℕ) (line : Text) (a b : Bool)
      → length line < fuel
      → is_some (scan_words fuel line a b) ≡ true
  unfolding scan_words
  scan_words-total zero line a b h = absurd (omega arith)
  scan_words-total (suc fuel) [] a b h = refl
  scan_words-total (suc fuel) (c ∷ s) a b h =
      let value = value_of s in
      let short = length-drop (length value) s in
      ground (
        arith,
        scan_words-total fuel s a b (omega arith),
        scan_words-total fuel (drop (length value) s) true b (omega (arith, short)),
        scan_words-total fuel (drop (length value) s) a true (omega (arith, short)),
      )

-- The part of a text that is left behind a number which stops before a letter.
abbrev Stops : Text → Text → Text → Type 0
Stops pre tail rest = (pre' : Text) × (rest ≡ pre' ++ tail) × (any is_comment pre' ≡ false)

number-Stops :
    (pre : Text) (c : ℕ) (s : Text)
    → is_letter c ≡ true
    → any is_comment pre ≡ false
    → Stops pre (c ∷ s) (drop (length (until ends_number (pre ++ c ∷ s))) (pre ++ c ∷ s))
unfolding until is_digit
number-Stops [] c s l h = let e : ends_number c ≡ true = ground arith in rw e ([], refl, refl)
number-Stops (q ∷ pre) c s l h = elim (Bool-cases (ends_number q)) [
  | inl stop ↦ rw stop (q ∷ pre, refl, h)
  | inr more ↦ rw more (number-Stops pre c s l (ground arith))
]

value-Stops :
    (pre : Text) (c : ℕ) (s : Text)
    → is_letter c ≡ true
    → any is_comment pre ≡ false
    → Stops pre (c ∷ s) (drop (length (value_of (pre ++ c ∷ s))) (pre ++ c ∷ s))
unfolding value_of
value-Stops [] c s l h = let e : is_sign c ≡ false = ground arith in rw e (number-Stops [] c s l h)
value-Stops (q ∷ pre) c s l h = elim (Bool-cases (is_sign q)) [
  | inl sign ↦ rw sign (number-Stops pre c s l (ground arith))
  | inr more ↦ rw more (number-Stops (q ∷ pre) c s l h)
]

module _ (parse_base : Text → Option (Bool × ℕ)) where
  -- Each letter before a comment begins a word that is not rejected, in a line that is let through.
  letters-pass :
      (fuel : ℕ) (pre : Text) (c : ℕ) (s : Text) (a b : Bool)
      → is_letter c ≡ true
      → any is_comment pre ≡ false
      → scan_words parse_base fuel (pre ++ c ∷ s) a b ≡ some true
      → is_rejected (word_of parse_base c (value_of s)) ≡ false
  unfolding scan_words
  letters-pass zero pre c s a b l h r = cc
  letters-pass (suc fuel) [] c s a b l h r = ground arith
  letters-pass (suc fuel) (p ∷ pre) c s a b l h r =
      let rest = pre ++ c ∷ s in
      let v = value_of rest in
      let plain : is_comment p ≡ false = ground arith in
      let later : any is_comment pre ≡ false = ground arith in
      elim (Bool-cases (is_letter p)) [
        | inr other ↦ letters-pass fuel pre c s a b l later (rw (plain, other, scan_words) at r)
        | inl letter ↦
            let (pre', e, h') = value-Stops pre c s l later in
            let taken = (rw (plain, letter, scan_words) at r) in
            elim (Word-cases (word_of parse_base p v)) [
              | inl w ↦ let t = (rw w at taken) in cc
              | inr (inl w) ↦ letters-pass fuel pre' c s true b l h' (rw e at (rw w at taken))
              | inr (inr w) ↦ letters-pass fuel pre' c s a true l h' (rw e at (rw w at taken))
            ]
      ]

  holds-true : (o : Option Bool) → holds parse_base o ≡ true → o ≡ some true
  holds-true none h = cc
  holds-true (some b) h = ap some h

  -- What a word that is not rejected may be.
  abbrev pub Permitted : ℕ → Text → Type 0
  Permitted c value =
      ((c ≡ b'g') × (b : Bool × ℕ) × (parse_base value ≡ some b) × (is_allowed allowed_g b ≡ true))
      ⊎ ((c ≡ b'm')
          × (b : Bool × ℕ) × (parse_base value ≡ some b)
          × (is_allowed allowed_m b ≡ true))
      ⊎ ((is_modal_letter c ≡ true) × (0 < length value))

  numbered-pass :
      (bases : List ℕ) (o : Option (Bool × ℕ))
      → is_rejected (numbered parse_base bases o) ≡ false
      → (b : Bool × ℕ) × (o ≡ some b) × (is_allowed bases b ≡ true)
  unfolding numbered
  numbered-pass bases none h = cc
  numbered-pass bases (some b) h = (b, refl, ground arith)

  word-Permitted :
      (c : ℕ) (value : Text) → is_rejected (word_of parse_base c value) ≡ false → Permitted c value
  unfolding word_of
  word-Permitted c value h = elim (Bool-cases (c == b'g')) [
    | inl g ↦
        let passes : is_rejected (numbered parse_base allowed_g (parse_base value)) ≡ false =
          ground arith in
        let (b, p, q) = numbered-pass allowed_g (parse_base value) passes in
        inl (ground arith, b, p, q)
    | inr ng ↦ elim (Bool-cases (c == b'm')) [
      | inl m ↦
          let passes : is_rejected (numbered parse_base allowed_m (parse_base value)) ≡ false =
            ground arith in
          let (b, p, q) = numbered-pass allowed_m (parse_base value) passes in
          inr (inl (ground arith, b, p, q))
      | inr nm ↦ inr (inr (ground arith, ground arith))
    ]
  ]

  -- A line that may be sent while a job is suspended holds no other words: behind an optional $J, each letter of the
  -- normalised line that stands before a comment begins a G word or an M word on the list of those allowed, or a
  -- word of an axis, a feed, a speed or an arc with a value. Of a comment and what stands behind it, and of what
  -- normalising drops at the start of the line, nothing is said.
  pub paused_words :
      (line pre : Text) (c : ℕ) (s : Text)
      → can_run_while_paused parse_base line ≡ true
      → without_jog (normalize_line line) ≡ pre ++ c ∷ s
      → any is_comment pre ≡ false
      → is_letter c ≡ true
      → Permitted c (value_of s)
  unfolding can_run_while_paused
  paused_words line pre c s h e k l = elim (Bool-cases (length (normalize_line line) == 0)) [
    | inl z ↦ let no_line = (rw z at h) in cc
    | inr n ↦
        let words = without_jog (normalize_line line) in
        let scanned =
          holds-true (scan_words parse_base (suc (length words)) words false false) (rw n at h) in
        let r =
          subst (λ t. scan_words parse_base (suc (length words)) t false false ≡ some true) e
            scanned in
        word-Permitted c (value_of s) (letters-pass (suc (length words)) pre c s false false l k r)
  ]
