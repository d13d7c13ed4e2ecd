-- ===== src/Prelude/Sort.antt =====
-- Sorting by a three-way comparison, as `sort.Strings` and `slices.SortFunc` do. The comparison is a
-- total order whose ties are equal items, so the result does not depend on the algorithm.
use mathlib.Core.Path.{◌≡◌, refl, sym, ap₂}
use mathlib.Core.Logic.{◌≢◌}
use mathlib.Core.HLevel.{Π_prop, ⊥_prop}
use mathlib.Core.List.{
  List, [], ◌∷◌, Mem, Perm, Pairwise, Pairwise-singleton, mem-cons_self, forall_mem-cons,
}
use mathlib.Core.List.Pairwise
use mathlib.Core.List.Perm
use native.Mathlib.Omega.{arith}
use Prim.Native.Nat.{Ordering}
use kleym.Prelude.Order.{Compare}

module _ {ℓ} {A : Type ℓ} ⦃c : Compare A⦄ where
  -- `a` does not stand above `b`.
  abbrev pub Le : A → A → Type 0
  Le a b = c.cmp a b ≢ Ordering.gt

  abbrev pub IsSorted : List A → Type ℓ
  IsSorted = Pairwise Le

  abbrev IsBelow : A → List A → Type ℓ
  IsBelow a l = (x : A) → Mem x l → Le a x

  Le-prop : (a b : A) → IsProp (Le a b)
  Le-prop a b = Π_prop (λ _. ⊥_prop)

  pub Le-antisymm : (a b : A) → Le a b → Le b a → a ≡ b
  Le-antisymm a b h k = ground (arith, c.flipped a b, c.same a b)

  pub Le-trans : (x y z : A) → Le x y → Le y z → Le x z
  Le-trans x y z h k = ground (arith, c.trans x y z, c.same x y, c.same y z, c.self x)

  Le-total : (a b : A) → c.cmp a b ≡ Ordering.gt → Le b a
  Le-total a b h = ground (arith, c.flipped a b)

  insert_place : A → A → List A → List A → Ordering → List A
  insert_place x y ys rest Ordering.gt = y ∷ rest
  insert_place x y ys rest Ordering.eq = x ∷ y ∷ ys
  insert_place x y ys rest Ordering.lt = x ∷ y ∷ ys

  ordered_insert : A → List A → List A
  unfolding insert_place
  ordered_insert x [] = x ∷ []
  ordered_insert x (y ∷ ys) = insert_place x y ys (ordered_insert x ys) (c.cmp x y)

  unfoldable pub sort : List A → List A
  unfolding ordered_insert
  sort [] = []
  sort (x ∷ xs) = ordered_insert x (sort xs)

  insert_place-perm :
      (x y : A) (ys rest : List A) (o : Ordering)
      → Perm rest (x ∷ ys)
      → Perm (insert_place x y ys rest o) (x ∷ y ∷ ys)
  unfolding insert_place
  insert_place-perm x y ys rest Ordering.gt p = Perm.trans (Perm.cons y p) (Perm.swap x y ys)
  insert_place-perm x y ys rest Ordering.eq p = Perm.rfl
  insert_place-perm x y ys rest Ordering.lt p = Perm.rfl

  ordered_insert-perm : (x : A) (l : List A) → Perm (ordered_insert x l) (x ∷ l)
  unfolding ordered_insert
  ordered_insert-perm x [] = Perm.rfl
  ordered_insert-perm x (y ∷ ys) = insert_place-perm x y ys _ (c.cmp x y) (ordered_insert-perm x ys)

  pub sort-perm : (l : List A) → Perm (sort l) l
  unfolding sort
  sort-perm [] = Perm.rfl
  sort-perm (x ∷ xs) = Perm.trans (ordered_insert-perm x (sort xs)) (Perm.cons x (sort-perm xs))

  IsBelow-cons : {a b : A} {l : List A} → Le a b → IsBelow a l → IsBelow a (b ∷ l)
  IsBelow-cons {a} p h = (forall_mem-cons (Le-prop a)).1 (p, h)

  IsBelow-perm : {a : A} {l r : List A} → Perm l r → IsBelow a r → IsBelow a l
  IsBelow-perm p h x m = h x ((Perm.mem_iff p).0 m)

  IsBelow-head : {a b : A} {l : List A} → Le a b → IsSorted (b ∷ l) → IsBelow a (b ∷ l)
  IsBelow-head {a} {b} p (Pairwise.cons h _) =
      IsBelow-cons {a = a} {b = b} p λ x m. Le-trans a b x p (h x m)

  insert_place-IsSorted :
      (x y : A) (ys rest : List A) (o : Ordering)
      → o ≡ c.cmp x y
      → IsSorted (y ∷ ys)
      → IsSorted rest
      → Perm rest (x ∷ ys)
      → IsSorted (insert_place x y ys rest o)
  unfolding insert_place
  insert_place-IsSorted x y ys rest Ordering.gt e (Pairwise.cons below _) sorted p =
      Pairwise.cons (IsBelow-perm p (IsBelow-cons {a = y} {b = x} (Le-total x y (sym e)) below))
        sorted
  insert_place-IsSorted x y ys rest Ordering.eq e s sorted p =
      Pairwise.cons (IsBelow-head (ground arith) s) s
  insert_place-IsSorted x y ys rest Ordering.lt e s sorted p =
      Pairwise.cons (IsBelow-head (ground arith) s) s

  ordered_insert-IsSorted : (x : A) (l : List A) → IsSorted l → IsSorted (ordered_insert x l)
  unfolding ordered_insert
  ordered_insert-IsSorted x [] s = Pairwise-singleton _ x
  ordered_insert-IsSorted x (y ∷ ys) s =
      insert_place-IsSorted x y ys _ (c.cmp x y) refl s
        (ordered_insert-IsSorted x ys (Pairwise.of_cons s)) (ordered_insert-perm x ys)

  pub sort-IsSorted : (l : List A) → IsSorted (sort l)
  unfolding sort
  sort-IsSorted [] = Pairwise.nil
  sort-IsSorted (x ∷ xs) = ordered_insert-IsSorted x (sort xs) (sort-IsSorted xs)

  -- The head of one sorted list is not above the head of a rearrangement.
  head_le_head : (a b : A) (l r : List A) → IsSorted (a ∷ l) → Perm (b ∷ r) (a ∷ l) → Le a b
  head_le_head a b l r s p =
      let least = IsBelow-head {a = a} {b = a} (ground (arith, c.self a)) s in
      IsBelow-perm p least b mem-cons_self

  pub sorted_unique : (l r : List A) → IsSorted l → IsSorted r → Perm l r → l ≡ r
  sorted_unique [] r sl sr p = Perm.nil-eq p
  sorted_unique (a ∷ l) [] sl sr p = Perm.eq-nil p
  sorted_unique (a ∷ l) (b ∷ r) (Pairwise.cons al sl) (Pairwise.cons br sr) p = ap₂ ◌∷◌ same (
      sorted_unique l r sl sr
        (Perm.cons_inv {a = a} (Perm.trans p (Perm.cons' (sym same) Perm.rfl))))
    where
      same : a ≡ b
      same =
          Le-antisymm a b (head_le_head a b l r (Pairwise.cons al sl) (Perm.symm p))
            (head_le_head b a r l (Pairwise.cons br sr) p)

  -- What is sorted depends on the items alone, not on the order in which they came.
  pub sort-eq_of_perm : {l r : List A} → Perm l r → sort l ≡ sort r
  sort-eq_of_perm {l} {r} p =
      sorted_unique (sort l) (sort r) (sort-IsSorted l) (sort-IsSorted r)
        (Perm.trans (sort-perm l) (Perm.trans p (Perm.symm (sort-perm r))))
