-- ===== src/Identity/Selectors/Canonical.antt =====
-- `UniqueAndSorted` gives one canonical list for each set of trimmed, non-empty values, whatever the order
-- in which Go ranges over the map.
use mathlib.Core.List.{Memᴰ, mem-cons_self, perm_ext_iff_of_Nodup, Nodup-nil, Nodup-cons}
use mathlib.Core.List.Memᴰ
use mathlib.Core.List.Perm
use mathlib.Core.Logic.{∥∥₁_elim}
use mathlib.Core.Logic.Or
use mathlib.Core.Bool.{Bool-set}
use mathlib.Core.List.{mem-cons, mem-cons_of_mem}
use kleym.Prelude.{
  ◌≡◌, ◌≢◌, refl, sym, ap, subst, ◌∙◌, inl, inr, ◌↔◌, Bool, true, false, not, ◌||◌, List, [], ◌∷◌,
  Mem, map, Nodup, arith, keep, is_nil, Bool-cases, if◌then◌else◌,
}
use kleym.Prelude.Order.{list_compare, nat_compare}
use kleym.Prelude.Sort.{sorted_unique, sort-perm, sort-eq_of_perm, IsSorted, sort-IsSorted}
use kleym.Prelude.Text.{Text, text_eq, text_eq_iff, trim_space}
use kleym.Prelude.Trim.{trim_space_idem}
use kleym.Identity.Selectors.{occurs, set_add, collect, unique_and_sorted}

or-true : (b : Bool) → (b || true) ≡ true
or-true true = refl
or-true false = refl

or_false : (b : Bool) → b ≡ (b || false)
or_false true = refl
or_false false = refl

-- The values that count: trimmed, without the empty ones.
unfoldable pub trimmed : List Text → List Text
trimmed vs = keep (λ s. not (is_nil s)) (map trim_space vs)

mem_of_occurs : (s : Text) (l : List Text) → occurs s l ≡ true → Mem s l
unfolding occurs
mem_of_occurs s [] h = cc
mem_of_occurs s (x ∷ l) h = elim (Bool-cases (text_eq s x)) [
  | inl e ↦ mem-cons.1 (Or.inl ((text_eq_iff s x).0 e))
  | inr e ↦ mem-cons.1 (Or.inr (mem_of_occurs s l (rw e at h)))
]

occurs_of_mem : (s : Text) (l : List Text) → Memᴰ s l → occurs s l ≡ true
unfolding occurs
occurs_of_mem s [] m = elim m [ ]
occurs_of_mem s (x ∷ l) (Memᴰ.head e) = rw ((text_eq_iff s x).1 e)
occurs_of_mem s (x ∷ l) (Memᴰ.tail m) = rw (occurs_of_mem s l m) (or-true (text_eq s x))

pub occurs_iff : (s : Text) (l : List Text) → (occurs s l ≡ true) ↔ Mem s l
occurs_iff s l = (mem_of_occurs s l, λ m. ∥∥₁_elim m (Bool-set _ _) (occurs_of_mem s l))

pub occurs-eq : (s t : Text) (l : List Text) → text_eq s t ≡ true → occurs s l ≡ occurs t l
occurs-eq s t l e = ap (λ x. occurs x l) ((text_eq_iff s t).0 e)

occurs-set_add :
    (s t : Text) (set : List Text) → occurs s (set_add t set) ≡ (text_eq s t || occurs s set)
unfolding set_add occurs
occurs-set_add s t set = ground (arith, occurs-eq s t set)

abbrev keep_trimmed : Text → List Text → List Text
keep_trimmed t rest = if not (is_nil t) then t ∷ rest else rest

occurs-collect :
    (s : Text) (vs set : List Text)
    → occurs s (collect vs set) ≡ (occurs s set || occurs s (trimmed vs))
unfolding collect trimmed keep occurs
occurs-collect s [] set = or_false (occurs s set)
occurs-collect s (v ∷ vs) set =
    occurs-collect s vs _ ∙ ground (arith, occurs-set_add s (trim_space v) set)

set_add-Nodup : (t : Text) (set : List Text) → Nodup set → Nodup (set_add t set)
unfolding set_add
set_add-Nodup t set h = elim (Bool-cases (occurs t set)) [
  | inl e ↦ rw (e, set_add) h
  | inr e ↦ rw (e, set_add) (Nodup-cons.1 (λ m. cc (e, (occurs_iff t set).1 m), h))
]

add_or_skip-Nodup :
    (b : Bool) (t : Text) (set : List Text) → Nodup set → Nodup (if b then set else set_add t set)
add_or_skip-Nodup true t set h = h
add_or_skip-Nodup false t set h = set_add-Nodup t set h

collect-Nodup : (vs set : List Text) → Nodup set → Nodup (collect vs set)
unfolding collect
collect-Nodup [] set h = h
collect-Nodup (v ∷ vs) set h =
    collect-Nodup vs _ (add_or_skip-Nodup (is_nil (trim_space v)) (trim_space v) set h)

mem-collect : (vs : List Text) (s : Text) → Mem s (collect vs []) ↔ Mem s (trimmed vs)
unfolding occurs
mem-collect vs s = (
  λ m. (occurs_iff s _).0 (sym (occurs-collect s vs []) ∙ (occurs_iff s _).1 m),
  λ m. (occurs_iff s _).0 (occurs-collect s vs [] ∙ (occurs_iff s _).1 m),
)

-- The members of the result are the trimmed, non-empty values.
pub mem-unique_and_sorted :
    (vs : List Text) (s : Text) → Mem s (unique_and_sorted vs) ↔ Mem s (trimmed vs)
unfolding unique_and_sorted
mem-unique_and_sorted vs s =
    let sorted = Perm.mem_iff {a = s} (sort-perm (collect vs [])) in
    (λ m. (mem-collect vs s).0 (sorted.0 m), λ m. sorted.1 ((mem-collect vs s).1 m))

canonical :
    (vs ws : List Text)
    → ((s : Text) → Mem s (trimmed vs) ↔ Mem s (trimmed ws))
    → unique_and_sorted vs ≡ unique_and_sorted ws
unfolding unique_and_sorted
canonical vs ws same = sort-eq_of_perm (
    (perm_ext_iff_of_Nodup (collect-Nodup vs [] Nodup-nil) (collect-Nodup ws [] Nodup-nil)).1 λ s. (
      λ m. (mem-collect ws s).1 ((same s).0 ((mem-collect vs s).0 m)),
      λ m. (mem-collect vs s).1 ((same s).1 ((mem-collect ws s).0 m)),
    ))

-- Two lists of values give one result exactly when the same texts are left of them once they are trimmed
-- and the empty ones dropped: neither order nor repetition counts.
pub unique_and_sorted-eq_iff :
    (vs ws : List Text)
    → (unique_and_sorted vs ≡ unique_and_sorted ws)
      ↔ ((s : Text) → Mem s (trimmed vs) ↔ Mem s (trimmed ws))
unique_and_sorted-eq_iff vs ws = (same_members, same_result)
  where
    same_members :
        unique_and_sorted vs ≡ unique_and_sorted ws
        → (s : Text) → Mem s (trimmed vs) ↔ Mem s (trimmed ws)
    same_members e s = (
      λ m. (mem-unique_and_sorted ws s).0 (subst (Mem s) e ((mem-unique_and_sorted vs s).1 m)),
      λ m.
          (mem-unique_and_sorted vs s).0 (subst (Mem s) (sym e) ((mem-unique_and_sorted ws s).1 m)),
    )

    same_result :
        ((s : Text) → Mem s (trimmed vs) ↔ Mem s (trimmed ws))
        → unique_and_sorted vs ≡ unique_and_sorted ws
    same_result same = canonical vs ws same

-- The result is in ascending order, and no text stands in it twice.
pub unique_and_sorted_ascending :
    (vs : List Text) → IsSorted (unique_and_sorted vs) × Nodup (unique_and_sorted vs)
unfolding unique_and_sorted
unique_and_sorted_ascending vs = (
  sort-IsSorted (collect vs []),
  Perm.nodup (Perm.symm (sort-perm (collect vs []))) (collect-Nodup vs [] Nodup-nil),
)

trimmed_of_mem : (s : Text) (vs : List Text) → Memᴰ s (trimmed vs) → (trim_space s ≡ s) × (s ≢ [])
unfolding trimmed keep
trimmed_of_mem s [] m = elim m [ ]
trimmed_of_mem s (v ∷ vs) m = elim (Bool-cases (is_nil (trim_space v))) [
  | inl e ↦ trimmed_of_mem s vs (rw (e, trimmed, keep) at m)
  | inr e ↦ elim (Memᴰ.cases_cons (rw (e, trimmed, keep) at m)) [
    | inl same ↦ rw same (trim_space_idem v, λ n. cc (e, ap is_nil n))
    | inr later ↦ trimmed_of_mem s vs later
  ]
]

-- Every text of the result is trimmed and not empty.
pub unique_and_sorted_trimmed :
    (vs : List Text) (s : Text) → Mem s (unique_and_sorted vs) → (trim_space s ≡ s) × (s ≢ [])
unique_and_sorted_trimmed vs s m =
    ∥∥₁_elim ((mem-unique_and_sorted vs s).0 m) (hlevel) (trimmed_of_mem s vs)

is_nil-ne : (s : Text) → s ≢ [] → is_nil s ≡ false
is_nil-ne [] h = absurd (h refl)
is_nil-ne (c ∷ s) h = refl

trimmed_fixed :
    (l : List Text) → ((s : Text) → Mem s l → (trim_space s ≡ s) × (s ≢ [])) → trimmed l ≡ l
unfolding trimmed keep
trimmed_fixed [] h = refl
trimmed_fixed (x ∷ l) h =
    let (same, filled) = h x mem-cons_self in
    let rest = trimmed_fixed l (λ s m. h s (mem-cons_of_mem x m)) in
    rw (same, is_nil-ne x filled) (ap (◌∷◌ x) rest)

-- What is canonical stays as it is.
pub unique_and_sorted_idem :
    (vs : List Text) → unique_and_sorted (unique_and_sorted vs) ≡ unique_and_sorted vs
unique_and_sorted_idem vs =
    let once = unique_and_sorted vs in
    let (sorted, distinct) = unique_and_sorted_ascending vs in
    let (sorted', distinct') = unique_and_sorted_ascending once in
    let fixed = trimmed_fixed once (unique_and_sorted_trimmed vs) in
    sorted_unique (unique_and_sorted once) once sorted' sorted (
      (perm_ext_iff_of_Nodup distinct' distinct).1 (λ s.
        subst (λ l. Mem s (unique_and_sorted once) ↔ Mem s l) fixed (mem-unique_and_sorted once s)))
