-- ===== src/Identity/Conflicts.antt =====
-- `EvaluateVariantConflicts` of internal/identity/boundary.go.
pub mod Exact
pub mod Invariance
use Prim.Native.Nat.{Ordering}
use kleym.Prelude.{◌≡◌, refl, sym, ap, ◌∙◌, Option, none, some, List, [], ◌∷◌, ◌++◌, arith}
use kleym.Prelude.Order.{Compare, cmp_or, flip, list_compare, nat_compare, list_cmp}
use kleym.Prelude.Sort.{sort}
use kleym.Prelude.Text.{Text, codes}
use kleym.Identity.{NamespacedName}
use kleym.Identity.Boundary.{
  ConflictCause, variant_reuse, duplicate_spiffe_id, VariantRecord, VariantConflict, cause_text,
  variant_conflict, evaluate_variant_pair, compare_variant_conflicts,
}

-- Both directional records of a pair that is not exclusive.
unfoldable pub record_both :
    VariantRecord → VariantRecord → Option ConflictCause → List VariantConflict
record_both left right none = []
record_both left right (some cause) =
    variant_conflict left.binding_ref right cause
    ∷ variant_conflict right.binding_ref left cause
    ∷ []

unfoldable pub pair_conflicts : VariantRecord → VariantRecord → List VariantConflict
pair_conflicts left right = record_both left right (evaluate_variant_pair left right)

-- The inner loop: one record against all that stand after it.
unfoldable pub row_conflicts : VariantRecord → List VariantRecord → List VariantConflict
row_conflicts left [] = []
row_conflicts left (right ∷ rest) = pair_conflicts left right ++ row_conflicts left rest

-- The outer loop.
unfoldable pub all_conflicts : List VariantRecord → List VariantConflict
all_conflicts [] = []
all_conflicts (left ∷ rest) = row_conflicts left rest ++ all_conflicts rest

-- The seven texts that `compareVariantConflicts` looks at, in its order.
key : VariantConflict → List Text
unfolding cause_text
key c =
    c.binding_ref.namespace
    ∷ c.binding_ref.name
    ∷ c.peer_binding_ref.namespace
    ∷ c.peer_binding_ref.name
    ∷ cause_text c.cause
    ∷ c.peer_spiffe_id
    ∷ c.peer_variant
    ∷ []

cmp_or-eq : (o : Ordering) → cmp_or o Ordering.eq ≡ o
cmp_or-eq Ordering.lt = refl
cmp_or-eq Ordering.eq = refl
cmp_or-eq Ordering.gt = refl

compare-key : (a b : VariantConflict) → list_cmp (key a) (key b) ≡ compare_variant_conflicts a b
unfolding key compare_variant_conflicts
compare-key a b = rw (cmp_or-eq (list_cmp a.peer_variant b.peer_variant))

cause_text-injective : (a b : ConflictCause) → cause_text a ≡ cause_text b → a ≡ b
unfolding cause_text
cause_text-injective variant_reuse variant_reuse h = refl
cause_text-injective variant_reuse duplicate_spiffe_id h = cc
cause_text-injective duplicate_spiffe_id variant_reuse h = cc
cause_text-injective duplicate_spiffe_id duplicate_spiffe_id h = refl

key-injective : (a b : VariantConflict) → key a ≡ key b → a ≡ b
unfolding key
key-injective a b h = ground (arith, cause_text-injective a.cause b.cause)

pub conflict_self : (a : VariantConflict) → compare_variant_conflicts a a ≡ Ordering.eq
conflict_self a = rw (← compare-key a a) (list_compare.self (key a))

pub conflict-same : (a b : VariantConflict) → compare_variant_conflicts a b ≡ Ordering.eq → a ≡ b
conflict-same a b h = key-injective a b (list_compare.same (key a) (key b) (compare-key a b ∙ h))

pub conflict-flipped :
    (a b : VariantConflict) → compare_variant_conflicts b a ≡ flip (compare_variant_conflicts a b)
conflict-flipped a b =
    rw (← compare-key a b, ← compare-key b a) (list_compare.flipped (key a) (key b))

pub conflict_trans :
    (a b c : VariantConflict)
    → compare_variant_conflicts a b ≡ Ordering.lt
    → compare_variant_conflicts b c ≡ Ordering.lt
    → compare_variant_conflicts a c ≡ Ordering.lt
conflict_trans a b c h k =
    sym (compare-key a c)
    ∙ list_compare.trans (key a) (key b) (key c) (compare-key a b ∙ h) (compare-key b c ∙ k)

instance abbrev pub conflict_compare : Compare VariantConflict
conflict_compare = record {
  cmp = compare_variant_conflicts;
  self = conflict_self;
  same = conflict-same;
  flipped = conflict-flipped;
  trans = conflict_trans;
}

unfoldable pub evaluate_variant_conflicts : List VariantRecord → List VariantConflict
evaluate_variant_conflicts variants = sort (all_conflicts variants)
