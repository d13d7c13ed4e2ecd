-- ===== src/Identity/Conflicts/Exact.antt =====
-- `EvaluateVariantConflicts` reports exactly the pairs that are not exclusive, in both directions.
use mathlib.Core.Logic.{∥∥₁_map, ∥∥₁_elim}
use mathlib.Core.List.{Memᴰ, Mem-prop, mem-cons_self, append-nil, perm_middle}
use mathlib.Core.List.Memᴰ
use mathlib.Core.List.Perm
use kleym.Prelude.{
  ◌≡◌, ◌≢◌, refl, sym, ◌⊎◌, inl, inr, ◌↔◌, Option, none, some, List, [], ◌∷◌, ◌++◌, Mem, Perm,
  arith,
}
use kleym.Prelude.Sort.{sort-perm}
use kleym.Prelude.Text.{text_eq_iff}
use kleym.Identity.Boundary.{
  ConflictCause, variant_reuse, duplicate_spiffe_id, VariantRecord, VariantConflict,
  variant_conflict, evaluate_variant_pair,
}
use kleym.Identity.Conflicts.{
  conflict_compare, record_both, pair_conflicts, row_conflicts, all_conflicts,
  evaluate_variant_conflicts,
}
use kleym.Identity.Conflicts.Invariance.{evaluate_variant_conflicts-perm}

-- The rule of docs/spec/operator.md, without the code's tests.
abbrev pub NonExclusive : VariantRecord → VariantRecord → ConflictCause → Type 0
NonExclusive x y duplicate_spiffe_id = x.spiffe_id ≡ y.spiffe_id
NonExclusive x y variant_reuse =
    (x.spiffe_id ≢ y.spiffe_id)
    × (x.binding_ref.namespace ≡ y.binding_ref.namespace)
    × (x.service_account_name ≡ y.service_account_name)
    × (x.variant ≡ y.variant)

-- The pair test finds a cause exactly when the rule gives that cause.
pub evaluate_variant_pair_iff :
    (x y : VariantRecord) (cause : ConflictCause)
    → (evaluate_variant_pair x y ≡ some cause) ↔ NonExclusive x y cause
unfolding evaluate_variant_pair
evaluate_variant_pair_iff x y duplicate_spiffe_id = ground (
  arith,
  text_eq_iff x.spiffe_id y.spiffe_id,
  text_eq_iff x.binding_ref.namespace y.binding_ref.namespace,
  text_eq_iff x.service_account_name y.service_account_name,
  text_eq_iff x.variant y.variant,
)
evaluate_variant_pair_iff x y variant_reuse = ground (
  arith,
  text_eq_iff x.spiffe_id y.spiffe_id,
  text_eq_iff x.binding_ref.namespace y.binding_ref.namespace,
  text_eq_iff x.service_account_name y.service_account_name,
  text_eq_iff x.variant y.variant,
)

-- `c` is what a record `x` is told of a peer `y` that stands at another place of the list.
abbrev pub Arises : List VariantRecord → VariantConflict → Type 0
Arises vs c =
    (x y : VariantRecord) × (rest : List VariantRecord) × (cause : ConflictCause) × Perm vs
      (x ∷ y ∷ rest)
    × NonExclusive x y cause
    × (c ≡ variant_conflict x.binding_ref y cause)

record_both_mem :
    (x y : VariantRecord) (o : Option ConflictCause) (c : VariantConflict)
    → Memᴰ c (record_both x y o)
    → (cause : ConflictCause) × (o ≡ some cause)
      × ((c ≡ variant_conflict x.binding_ref y cause)
          ⊎ (c ≡ variant_conflict y.binding_ref x cause))
unfolding record_both
record_both_mem x y none c m = absurd (Memᴰ.not-nil m)
record_both_mem x y (some cause) c (Memᴰ.head e) = (cause, refl, inl e)
record_both_mem x y (some cause) c (Memᴰ.tail m) = (cause, refl, inr (Memᴰ.eq_of_singleton m))

NonExclusive-comm :
    (x y : VariantRecord) (cause : ConflictCause) → NonExclusive x y cause → NonExclusive y x cause
NonExclusive-comm x y duplicate_spiffe_id h = sym h
NonExclusive-comm x y variant_reuse (d, n, s, v) = (λ e. d (sym e), sym n, sym s, sym v)

pair-Arises :
    (x y : VariantRecord) (rest vs : List VariantRecord) (c : VariantConflict)
    → Perm vs (x ∷ y ∷ rest)
    → Memᴰ c (pair_conflicts x y)
    → Arises vs c
unfolding pair_conflicts
pair-Arises x y rest vs c p m =
    let (cause, found, side) = record_both_mem x y (evaluate_variant_pair x y) c m in
    let apart = (evaluate_variant_pair_iff x y cause).0 found in
    elim side [
      | inl e ↦ (x, y, rest, cause, p, apart, e)
      | inr e ↦ (
        y,
        x,
        rest,
        cause,
        Perm.trans p (Perm.swap y x rest),
        NonExclusive-comm x y cause apart,
        e,
      )
    ]

-- `done` are the records of the inner loop that have been looked at.
row-Arises :
    (x : VariantRecord) (done rest vs : List VariantRecord) (c : VariantConflict)
    → Perm vs (x ∷ (rest ++ done))
    → Memᴰ c (row_conflicts x rest)
    → Arises vs c
unfolding row_conflicts
row-Arises x done [] vs c p m = absurd (Memᴰ.not-nil m)
row-Arises x done (y ∷ rest) vs c p m = elim (Memᴰ.append_cases (pair_conflicts x y) m) [
  | inl here ↦ pair-Arises x y (rest ++ done) vs c p here
  | inr later ↦
      row-Arises x (y ∷ done) rest vs c
        (Perm.trans p (Perm.cons x (Perm.symm (perm_middle rest done)))) later
]

Arises-of_mem :
    (done rest vs : List VariantRecord) (c : VariantConflict)
    → Perm vs (rest ++ done)
    → Memᴰ c (all_conflicts rest)
    → Arises vs c
unfolding all_conflicts
Arises-of_mem done [] vs c p m = absurd (Memᴰ.not-nil m)
Arises-of_mem done (x ∷ rest) vs c p m = elim (Memᴰ.append_cases (row_conflicts x rest) m) [
  | inl here ↦ row-Arises x done rest vs c p here
  | inr later ↦
      Arises-of_mem (x ∷ done) rest vs c (Perm.trans p (Perm.symm (perm_middle rest done))) later
]

first_reported :
    (x y : VariantRecord) (rest : List VariantRecord) (cause : ConflictCause)
    → NonExclusive x y cause
    → Mem (variant_conflict x.binding_ref y cause) (all_conflicts (x ∷ y ∷ rest))
unfolding all_conflicts row_conflicts pair_conflicts record_both
first_reported x y rest cause h =
    rw ((evaluate_variant_pair_iff x y cause).1 h, record_both) (mem-cons_self)

mem-sorted :
    (vs : List VariantRecord) (c : VariantConflict)
    → Mem c (evaluate_variant_conflicts vs) ↔ Mem c (all_conflicts vs)
unfolding evaluate_variant_conflicts
mem-sorted vs c = Perm.mem_iff (sort-perm (all_conflicts vs))

reported_of_arises :
    (vs : List VariantRecord) (c : VariantConflict)
    → Arises vs c
    → Mem c (evaluate_variant_conflicts vs)
reported_of_arises vs c (x, y, rest, cause, p, h, e) =
    rw (e, evaluate_variant_conflicts-perm p)
      ((mem-sorted (x ∷ y ∷ rest) (variant_conflict x.binding_ref y cause)).1
        (first_reported x y rest cause h))

-- A conflict is reported exactly when it arises from two records at different places of the input
-- that the rule does not tell apart: nothing is missed, nothing is made up, and both directions stand.
pub mem-evaluate_variant_conflicts :
    (vs : List VariantRecord) (c : VariantConflict)
    → Mem c (evaluate_variant_conflicts vs) ↔ ∥ Arises vs c ∥₁
mem-evaluate_variant_conflicts vs c = (
  λ m. ∥∥₁_map ((mem-sorted vs c).0 m) (Arises-of_mem [] vs vs c (rw append-nil Perm.rfl)),
  λ a. ∥∥₁_elim a Mem-prop (reported_of_arises vs c),
)
