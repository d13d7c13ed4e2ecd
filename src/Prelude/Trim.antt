-- ===== src/Prelude/Trim.antt =====
-- `trim_space` applied twice is `trim_space` applied once.
use kleym.Prelude.Tests.{Bool-cases}
use kleym.Prelude.Lists.{is_nil}
use kleym.Prelude.Text.{Text, is_space, trim_left, trim_right, trim_space}
use mathlib.Core.Path.{◌≡◌, refl, ap, ◌∙◌}
use mathlib.Core.Bool.{true, false, ◌&&◌}
use mathlib.Core.List.{[], ◌∷◌}
use mathlib.Core.Logic.{inl, inr}
use Prim.Native.Nat.{ℕ}

abbrev HeadIsNoSpace : Text → Type 0
HeadIsNoSpace [] = Unit
HeadIsNoSpace (c ∷ s) = is_space c ≡ false

trim_left-head : (s : Text) → HeadIsNoSpace (trim_left s)
unfolding trim_left
trim_left-head [] = tt
trim_left-head (c ∷ s) = elim (Bool-cases (is_space c)) [
  | inl e ↦ rw (e, trim_left) (trim_left-head s)
  | inr e ↦ rw (e, trim_left) e
]

trim_left_fixed : (s : Text) → HeadIsNoSpace s → trim_left s ≡ s
unfolding trim_left
trim_left_fixed [] h = refl
trim_left_fixed (c ∷ s) h = rw h

trim_right-head : (s : Text) → HeadIsNoSpace s → HeadIsNoSpace (trim_right s)
unfolding trim_right
trim_right-head [] h = tt
trim_right-head (c ∷ s) h = elim (Bool-cases (is_nil (trim_right s))) [
  | inl e ↦ rw (e, h, trim_right) h
  | inr e ↦ rw (e, trim_right) h
]

trim_right_drop :
    (c : ℕ) (s : Text) → (is_nil (trim_right s) && is_space c) ≡ true → trim_right (c ∷ s) ≡ []
unfolding trim_right
trim_right_drop c s h = rw h

trim_right_keep :
    (c : ℕ) (s : Text)
    → (is_nil (trim_right s) && is_space c) ≡ false
    → trim_right (c ∷ s) ≡ c ∷ trim_right s
unfolding trim_right
trim_right_keep c s h = rw h

trim_right_idem : (s : Text) → trim_right (trim_right s) ≡ trim_right s
trim_right_idem [] = unfold trim_right in refl
trim_right_idem (c ∷ s) = elim (Bool-cases (is_nil (trim_right s) && is_space c)) [
  | inl e ↦ rw (trim_right_drop c s e) (unfold trim_right in refl)
  | inr e ↦
      rw (trim_right_keep c s e) (
        trim_right_keep c (trim_right s) (rw (trim_right_idem s) e)
        ∙ ap (◌∷◌ c) (trim_right_idem s))
]

pub trim_space_idem : (s : Text) → trim_space (trim_space s) ≡ trim_space s
trim_space_idem s =
    let fixed = trim_left_fixed _ (trim_right-head _ (trim_left-head s)) in
    unfold trim_space in rw fixed (trim_right_idem (trim_left s))
