-- ===== src/Identity/Conflicts/Invariance.antt =====
-- The result of `EvaluateVariantConflicts` does not depend on the order of its input.
use mathlib.Core.Logic.{∥∥₁_elim}
use mathlib.Core.Path.{subst₂}
use mathlib.Core.List.{Permᴰ, append_assoc, perm_append_comm}
use mathlib.Core.List.Perm
use mathlib.Core.List.{Perm-prop}
use kleym.Prelude.{◌≡◌, refl, sym, Option, none, some, List, [], ◌∷◌, ◌++◌, Perm, arith}
use kleym.Prelude.Sort.{sort-eq_of_perm}
use kleym.Prelude.Text.{Text, text_eq, text_eq_iff}
use kleym.Identity.Boundary.{ConflictCause, VariantRecord, VariantConflict, evaluate_variant_pair}
use kleym.Identity.Conflicts.{
  conflict_compare, record_both, pair_conflicts, row_conflicts, all_conflicts,
  evaluate_variant_conflicts,
}

text_eq_comm : (s t : Text) → text_eq s t ≡ text_eq t s
text_eq_comm s t = ground (arith, text_eq_iff s t, text_eq_iff t s)

-- Exclusivity is symmetric, with its cause.
pub evaluate_variant_pair_comm :
    (a b : VariantRecord) → evaluate_variant_pair a b ≡ evaluate_variant_pair b a
unfolding evaluate_variant_pair
evaluate_variant_pair_comm a b =
    rw
      (
        text_eq_comm a.spiffe_id b.spiffe_id,
        text_eq_comm a.binding_ref.namespace b.binding_ref.namespace,
        text_eq_comm a.service_account_name b.service_account_name,
        text_eq_comm a.variant b.variant,
      )
      refl

record_both_comm :
    (a b : VariantRecord) (o : Option ConflictCause) → Perm (record_both a b o) (record_both b a o)
unfolding record_both
record_both_comm a b none = Perm.rfl
record_both_comm a b (some cause) = Perm.swap _ _ []

pair_conflicts_comm : (a b : VariantRecord) → Perm (pair_conflicts a b) (pair_conflicts b a)
pair_conflicts_comm a b =
    unfold pair_conflicts in
    rw (evaluate_variant_pair_comm a b) (record_both_comm a b (evaluate_variant_pair b a))

module _ {ℓ} {A : Type ℓ} where
  append_swap : (x y z : List A) → Perm (x ++ (y ++ z)) (y ++ (x ++ z))
  append_swap x y z =
      rw (← append_assoc x y z, ← append_assoc y x z) (Perm.append_right z (perm_append_comm x y))

row_conflicts-perm :
    (a : VariantRecord) {rs ss : List VariantRecord}
    → Permᴰ rs ss
    → Perm (row_conflicts a rs) (row_conflicts a ss)
unfolding row_conflicts
row_conflicts-perm a Permᴰ.nil = Perm.rfl
row_conflicts-perm a (Permᴰ.cons {b = b} e p) =
    rw e (Perm.append_left (pair_conflicts a b) (row_conflicts-perm a p))
row_conflicts-perm a (Permᴰ.swap {a' = x} {b' = y} {l = l} e f) =
    rw (e, f) (append_swap (pair_conflicts a y) (pair_conflicts a x) (row_conflicts a l))
row_conflicts-perm a (Permᴰ.trans p q) =
    Perm.trans (row_conflicts-perm a p) (row_conflicts-perm a q)

regroup :
    (p p' r s t : List VariantConflict)
    → Perm p p'
    → Perm ((p ++ r) ++ (s ++ t)) ((p' ++ s) ++ (r ++ t))
regroup p p' r s t h =
    rw (append_assoc p r (s ++ t), append_assoc p' s (r ++ t)) (Perm.append h (append_swap r s t))

all_conflicts_swap :
    (x y : VariantRecord) (l : List VariantRecord)
    → Perm (all_conflicts (y ∷ x ∷ l)) (all_conflicts (x ∷ y ∷ l))
unfolding all_conflicts row_conflicts
all_conflicts_swap x y l =
    regroup _ _ (row_conflicts y l) (row_conflicts x l) (all_conflicts l) (pair_conflicts_comm y x)

all_conflicts-perm :
    {rs ss : List VariantRecord} → Permᴰ rs ss → Perm (all_conflicts rs) (all_conflicts ss)
unfolding all_conflicts
all_conflicts-perm Permᴰ.nil = Perm.rfl
all_conflicts-perm (Permᴰ.cons {b = b} e p) =
    rw e (Perm.append (row_conflicts-perm b p) (all_conflicts-perm p))
all_conflicts-perm (Permᴰ.swap {a' = x} {b' = y} {l = l} e f) =
    subst₂ (λ a b. Perm (all_conflicts (a ∷ b ∷ l)) (all_conflicts (x ∷ y ∷ l))) (sym e) (sym f)
      (all_conflicts_swap x y l)
all_conflicts-perm (Permᴰ.trans p q) = Perm.trans (all_conflicts-perm p) (all_conflicts-perm q)

-- Two lists of the same records, in any order, give the same conflicts in the same order.
pub evaluate_variant_conflicts-perm :
    {rs ss : List VariantRecord}
    → Perm rs ss
    → evaluate_variant_conflicts rs ≡ evaluate_variant_conflicts ss
unfolding evaluate_variant_conflicts
evaluate_variant_conflicts-perm p = sort-eq_of_perm (∥∥₁_elim p Perm-prop all_conflicts-perm)
