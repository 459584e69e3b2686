-- ===== src/Attention/Marks.antt =====
-- internal/attention/attention.go: lists of events of which one is active, or none.
use makera_cnc_controller.Base.{
  ℕ, zero, suc, ◌-◌, ◌≤◌, ◌≡◌, refl, ap, Bool, Bool-cases, inl, inr, true, false, not, ◌&&◌, Option,
  none, some, List, [], ◌∷◌, ◌++◌, ltb, if◌then◌else◌, length, drop, arith, is_some, length-append,
  length-drop,
}
use makera_cnc_controller.Attention.{Event, event_at, write_at}

-- No event is active; and the one at an index is, and no other.
unfoldable pub quiet : List Event → Bool
quiet [] = true
quiet (e ∷ es) = not e.is_active && quiet es

unfoldable pub marked : ℕ → List Event → Bool
unfolding quiet
marked i [] = false
marked zero (e ∷ es) = e.is_active && quiet es
marked (suc i) (e ∷ es) = not e.is_active && marked i es

abbrev pub marks : Option ℕ → List Event → Bool
marks none es = quiet es
marks (some i) es = marked i es

pub quiet-snoc :
    (es : List Event) (e : Event)
    → e.is_active ≡ true
    → quiet es ≡ true
    → marked (length es) (es ++ (e ∷ [])) ≡ true
unfolding quiet marked
quiet-snoc [] e h q = ground arith
quiet-snoc (x ∷ es) e h q = ground (arith, quiet-snoc es e h)

-- Dropping events before the last.
pub marked-drop :
    (k n : ℕ) (es : List Event)
    → length es ≡ suc n
    → k ≤ n
    → marked n es ≡ true
    → marked (n - k) (drop k es) ≡ true
unfolding marked
marked-drop zero n es l h m = let whole : n - 0 ≡ n = omega arith in rw whole m
marked-drop (suc k) n [] l h m = ground arith
marked-drop (suc k) zero (e ∷ es) l h m = ground arith
marked-drop (suc k) (suc n) (e ∷ es) l h m = ground (arith, marked-drop k n es)

pub marked-found : (i : ℕ) (es : List Event) → marked i es ≡ true → is_some (event_at i es) ≡ true
unfolding marked event_at
marked-found i [] m = ground arith
marked-found zero (e ∷ es) m = refl
marked-found (suc i) (e ∷ es) m = ground (arith, marked-found i es)

pub write_at-found :
    (i : ℕ) (e : Event) (es : List Event)
    → marked i es ≡ true
    → event_at i (write_at i e es) ≡ some e
unfolding marked event_at write_at
write_at-found i e [] m = ground arith
write_at-found zero e (x ∷ es) m = refl
write_at-found (suc i) e (x ∷ es) m = ground (arith, write_at-found i e es)

pub write_at-marked :
    (i : ℕ) (e : Event) (es : List Event)
    → marked i es ≡ true
    → (if e.is_active then marked i (write_at i e es) else quiet (write_at i e es)) ≡ true
unfolding marked quiet write_at
write_at-marked i e [] m = ground arith
write_at-marked zero e (x ∷ es) m = ground arith
write_at-marked (suc i) e (x ∷ es) m = ground (arith, write_at-marked i e es)

pub event_at-active :
    (i : ℕ) (e : Event) (es : List Event)
    → marked i es ≡ true
    → event_at i es ≡ some e
    → e.is_active ≡ true
unfolding marked event_at
event_at-active i e [] m h = ground arith
event_at-active zero e (x ∷ es) m h = ground arith
event_at-active (suc i) e (x ∷ es) m h = ground (arith, event_at-active i e es)

pub length-write_at : (i : ℕ) (e : Event) (es : List Event) → length (write_at i e es) ≡ length es
unfolding write_at
length-write_at i e [] = refl
length-write_at zero e (x ∷ es) = refl
length-write_at (suc i) e (x ∷ es) = ap suc (length-write_at i e es)

-- The events that are kept when one opens.
pub recent-marked :
    (cap : ℕ) (es : List Event) (e : Event)
    → 1 ≤ cap
    → e.is_active ≡ true
    → quiet es ≡ true
    → let events = es ++ (e ∷ []) in
      let recent = if ltb cap (length events) then drop (length events - cap) events else events in
      (length recent ≤ cap) × (marked (length recent - 1) recent ≡ true)
recent-marked cap es e room on still =
    let events = es ++ (e ∷ []) in
    let long : length events ≡ suc (length es) = omega (arith, length-append es (e ∷ [])) in
    let k = length events - cap in
    let last = quiet-snoc es e on still in
    let short : k ≤ length es = omega (arith, room, long) in
    let kept = marked-drop k (length es) events long short last in
    let size : length (drop k events) ≡ length events - k = length-drop k events in
    elim (Bool-cases (ltb cap (length events))) [
      | inl t ↦
          let index : length (drop k events) - 1 ≡ length es - k = omega (arith, size, long) in
          rw t (omega (arith, size), rw index kept)
      | inr f ↦
          let index : length events - 1 ≡ length es = omega (arith, long) in
          rw f (ground (arith, f), rw index last)
    ]
