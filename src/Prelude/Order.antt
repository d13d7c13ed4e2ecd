-- ===== src/Prelude/Order.antt =====
-- A total order given by a three-way comparison, as Go's `cmp` and `strings.Compare` give it.
use Prim.Native.Nat.{ℕ, compare, Ordering}
use mathlib.Core.Path.{◌≡◌, refl, ap₂}
use mathlib.Core.List.{List, [], ◌∷◌}
use native.Mathlib.Omega.{arith}

-- `cmp.Or` of two comparisons: the first that is not "equal".
abbrev pub cmp_or : Ordering → Ordering → Ordering
cmp_or Ordering.lt o = Ordering.lt
cmp_or Ordering.eq o = o
cmp_or Ordering.gt o = Ordering.gt

abbrev pub flip : Ordering → Ordering
flip Ordering.lt = Ordering.gt
flip Ordering.eq = Ordering.eq
flip Ordering.gt = Ordering.lt

pub record Compare {ℓ} (A : Type ℓ) : Type ℓ where
  pub cmp : A → A → Ordering
  pub self : (a : A) → cmp a a ≡ Ordering.eq
  pub same : (a b : A) → cmp a b ≡ Ordering.eq → a ≡ b
  pub flipped : (a b : A) → cmp b a ≡ flip (cmp a b)
  pub trans : (a b c : A) → cmp a b ≡ Ordering.lt → cmp b c ≡ Ordering.lt → cmp a c ≡ Ordering.lt

pub nat_self : (a : ℕ) → compare a a ≡ Ordering.eq
nat_self a = ground arith

pub nat-same : (a b : ℕ) → compare a b ≡ Ordering.eq → a ≡ b
nat-same a b h = ground arith

pub nat-flipped : (a b : ℕ) → compare b a ≡ flip (compare a b)
nat-flipped a b = ground arith

pub nat_trans :
    (a b c : ℕ) → compare a b ≡ Ordering.lt → compare b c ≡ Ordering.lt → compare a c ≡ Ordering.lt
nat_trans a b c h k = ground arith

instance abbrev pub nat_compare : Compare ℕ
nat_compare = record {
  cmp = compare;
  self = nat_self;
  same = nat-same;
  flipped = nat-flipped;
  trans = nat_trans;
}

-- Facts about one position that the orders on lists and on tuples share.
flip-cmp_or : (o p : Ordering) → flip (cmp_or o p) ≡ cmp_or (flip o) (flip p)
flip-cmp_or Ordering.lt p = refl
flip-cmp_or Ordering.eq p = refl
flip-cmp_or Ordering.gt p = refl

cmp_or_eq : (o p : Ordering) → cmp_or o p ≡ Ordering.eq → (o ≡ Ordering.eq) × (p ≡ Ordering.eq)
cmp_or_eq Ordering.lt p h = ground arith
cmp_or_eq Ordering.eq p h = (refl, h)
cmp_or_eq Ordering.gt p h = ground arith

module _ {ℓ} {A : Type ℓ} ⦃c : Compare A⦄ where
  -- A lexicographic step is transitive when what follows is.
  cmp_or_trans :
      (x y z : A) (p q r : Ordering)
      → (p ≡ Ordering.lt → q ≡ Ordering.lt → r ≡ Ordering.lt)
      → cmp_or (c.cmp x y) p ≡ Ordering.lt
      → cmp_or (c.cmp y z) q ≡ Ordering.lt
      → cmp_or (c.cmp x z) r ≡ Ordering.lt
  cmp_or_trans x y z p q r rest h k =
      ground (arith, c.trans x y z, c.same x y, c.same y z, c.self x)

  abbrev pub list_cmp : List A → List A → Ordering
  list_cmp [] [] = Ordering.eq
  list_cmp [] (y ∷ ys) = Ordering.lt
  list_cmp (x ∷ xs) [] = Ordering.gt
  list_cmp (x ∷ xs) (y ∷ ys) = cmp_or (c.cmp x y) (list_cmp xs ys)

  pub list_self : (xs : List A) → list_cmp xs xs ≡ Ordering.eq
  list_self [] = refl
  list_self (x ∷ xs) = rw (c.self x) (list_self xs)

  pub list-same : (xs ys : List A) → list_cmp xs ys ≡ Ordering.eq → xs ≡ ys
  list-same [] [] h = refl
  list-same [] (y ∷ ys) h = ground arith
  list-same (x ∷ xs) [] h = ground arith
  list-same (x ∷ xs) (y ∷ ys) h =
      let (p, q) = cmp_or_eq (c.cmp x y) (list_cmp xs ys) h in
      ap₂ ◌∷◌ (c.same x y p) (list-same xs ys q)

  pub list-flipped : (xs ys : List A) → list_cmp ys xs ≡ flip (list_cmp xs ys)
  list-flipped [] [] = refl
  list-flipped [] (y ∷ ys) = refl
  list-flipped (x ∷ xs) [] = refl
  list-flipped (x ∷ xs) (y ∷ ys) =
      rw (c.flipped x y, list-flipped xs ys, flip-cmp_or (c.cmp x y) (list_cmp xs ys))

  pub list_trans :
      (xs ys zs : List A)
      → list_cmp xs ys ≡ Ordering.lt
      → list_cmp ys zs ≡ Ordering.lt
      → list_cmp xs zs ≡ Ordering.lt
  list_trans [] [] zs h k = k
  list_trans [] (y ∷ ys) [] h k = ground arith
  list_trans [] (y ∷ ys) (z ∷ zs) h k = refl
  list_trans (x ∷ xs) [] zs h k = ground arith
  list_trans (x ∷ xs) (y ∷ ys) [] h k = k
  list_trans (x ∷ xs) (y ∷ ys) (z ∷ zs) h k =
      cmp_or_trans x y z (list_cmp xs ys) (list_cmp ys zs) (list_cmp xs zs) (list_trans xs ys zs) h
        k

  -- Lexicographic order on lists: on code points it is Go's order on strings, since UTF-8 keeps it.
  instance abbrev pub list_compare : Compare (List A)
  list_compare = record {
    cmp = list_cmp;
    self = list_self;
    same = list-same;
    flipped = list-flipped;
    trans = list_trans;
  }

-- The order of a key that tells the items apart.
abbrev pub by_key {ℓ κ} :
    {A : Type ℓ} {B : Type κ} ⦃c : Compare B⦄ (key : A → B)
    → ((a b : A) → key a ≡ key b → a ≡ b)
    → Compare A
by_key ⦃c⦄ key apart = record {
  cmp = λ a b. c.cmp (key a) (key b);
  self = λ a. c.self (key a);
  same = λ a b h. apart a b (c.same (key a) (key b) h);
  flipped = λ a b. c.flipped (key a) (key b);
  trans = λ a b d h k. c.trans (key a) (key b) (key d) h k;
}
