-- ===== src/Prelude/Keep.antt =====
-- Membership in filtered and in joined lists.
use mathlib.Core.List.{List, [], ◌∷◌, ◌++◌, Memᴰ}
use mathlib.Core.List.Memᴰ
use mathlib.Core.Path.{◌≡◌, sym, ap, ◌∙◌}
use mathlib.Core.Bool.{Bool, true}
use mathlib.Core.Logic.{◌⊎◌, inl, inr}
use kleym.Prelude.Tests.{Bool-cases}
use kleym.Prelude.Lists.{keep}

pub kept_mem :
    {A : Type 0} (test : A → Bool) (xs : List A) (x : A)
    → Memᴰ x (keep test xs)
    → Memᴰ x xs × (test x ≡ true)
unfolding keep
kept_mem test [] x m = absurd (Memᴰ.not-nil m)
kept_mem test (y ∷ ys) x m = elim (Bool-cases (test y)) [
  | inl t ↦ elim (Memᴰ.cases_cons (rw (t, keep) at m)) [
    | inl same ↦ (Memᴰ.head same, ap test same ∙ t)
    | inr later ↦ let (k, h) = kept_mem test ys x later in (Memᴰ.tail k, h)
  ]
  | inr f ↦ let (k, h) = kept_mem test ys x (rw (f, keep) at m) in (Memᴰ.tail k, h)
]

pub mem_kept :
    {A : Type 0} (test : A → Bool) (xs : List A) (x : A)
    → Memᴰ x xs
    → test x ≡ true
    → Memᴰ x (keep test xs)
unfolding keep
mem_kept test [] x m h = absurd (Memᴰ.not-nil m)
mem_kept test (y ∷ ys) x (Memᴰ.head e) h = rw (sym (ap test e) ∙ h) (Memᴰ.head e)
mem_kept test (y ∷ ys) x (Memᴰ.tail m) h = elim (Bool-cases (test y)) [
  | inl t ↦ rw t (Memᴰ.tail (mem_kept test ys x m h))
  | inr f ↦ rw f (mem_kept test ys x m h)
]

pub mem_append_cases {ℓ} :
    {A : Type ℓ} (x : A) (xs ys : List A) → Memᴰ x (xs ++ ys) → Memᴰ x xs ⊎ Memᴰ x ys
mem_append_cases x [] ys m = inr m
mem_append_cases x (z ∷ xs) ys (Memᴰ.head e) = inl (Memᴰ.head e)
mem_append_cases x (z ∷ xs) ys (Memᴰ.tail m) = elim (mem_append_cases x xs ys m) [
  | inl k ↦ inl (Memᴰ.tail k)
  | inr k ↦ inr k
]
