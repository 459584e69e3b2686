-- ===== src/Base/Trim.antt =====
-- strings.TrimSpace trims once and for all.
use Prim.Native.Nat.{ℕ}
use mathlib.Core.Path.{◌≡◌, refl}
use mathlib.Core.Logic.{inl, inr}
use mathlib.Core.Bool.{true, false}
use mathlib.Core.List.{[], ◌∷◌, ◌++◌, reverse, reverse-append, reverse-reverse, reverse-cons}
use native.Mathlib.Omega.{arith}
use makera_cnc_controller.Base.Tests.{Bool-cases}
use makera_cnc_controller.Base.Text.{Text, is_space, trim_left, trim_space}

trim_left_idem : (s : Text) → trim_left (trim_left s) ≡ trim_left s
unfolding trim_left
trim_left_idem [] = refl
trim_left_idem (c ∷ s) = ground (arith, trim_left_idem s)

trim_left-append : (s t : Text) → trim_left t ≡ t → trim_left (s ++ t) ≡ trim_left s ++ t
unfolding trim_left
trim_left-append [] t e = e
trim_left-append (c ∷ s) t e = ground (arith, trim_left-append s t e)

solid_front : (c : ℕ) (t : Text) → is_space c ≡ false → trim_left (c ∷ t) ≡ c ∷ t
unfolding trim_left
solid_front c t h = ground arith

-- A trim on the right of what begins with a byte that is not a space.
trim_right-cons :
    (c : ℕ) (t : Text)
    → is_space c ≡ false
    → reverse (trim_left (reverse (c ∷ t))) ≡ c ∷ reverse (trim_left (reverse t))
trim_right-cons c t h =
    rw (reverse-cons c t, trim_left-append (reverse t) (c ∷ []) (solid_front c [] h))
      (reverse-append (trim_left (reverse t)) (c ∷ []))

-- What is trimmed on the left stays so after a trim on the right.
trim_right_keeps :
    (s : Text)
    → trim_left (reverse (trim_left (reverse (trim_left s))))
      ≡ reverse (trim_left (reverse (trim_left s)))
trim_right_keeps [] = unfold trim_left in refl
trim_right_keeps (c ∷ s) = elim (Bool-cases (is_space c)) [
  | inl space ↦ rw (skip_space c s space) (trim_right_keeps s)
  | inr solid ↦ rw (solid_front c s solid, trim_right-cons c s solid) (solid_front c _ solid)
]
  where
    skip_space : (c : ℕ) (s : Text) → is_space c ≡ true → trim_left (c ∷ s) ≡ trim_left s
    skip_space c s h = unfold trim_left in ground arith

pub trim_space_idem : (s : Text) → trim_space (trim_space s) ≡ trim_space s
unfolding trim_space
trim_space_idem s = rw (trim_right_keeps s, reverse-reverse, trim_left_idem)
