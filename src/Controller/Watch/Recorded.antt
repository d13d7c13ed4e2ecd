-- ===== src/Controller/Watch/Recorded.antt =====
-- Which bindings a changed ClusterSPIFFEID gives requests for: those whose status records its name.
use mathlib.Core.Logic.{∥∥₁_map}
use kleym.Prelude.{
  ◌≡◌, refl, sym, ap, subst, ◌↔◌, ◌⊎◌, inl, inr, true, false, not, ◌&&◌, ◌||◌, Option, none, some,
  List, [], ◌∷◌, ◌++◌, Mem, keep, is_nil, Bool-cases, arith,
}
use kleym.Prelude.Text.{Text, text_eq, text_eq_iff, trim_space}
use kleym.Identity.{NamespacedName}
use kleym.Identity.Selectors.{occurs}
use kleym.Identity.Selectors.Canonical.{trimmed, occurs_iff}
use kleym.Api.{InferenceIdentityBinding, PendingClusterSpiffeIdStatus, OwnedClusterSpiffeIdStatus}
use kleym.Cluster.{Call, Reply, run}
use kleym.Controller.Conflict.{ref_of}
use kleym.Controller.Watch.{
  pending_name, owned_name, binding_cluster_spiffe_id_name_index_values, requests_of,
  map_cluster_spiffe_id_to_bindings,
}
use kleym.Controller.Watch.Requeue.{Serves, mem-requests, mem-compact_index_values}

-- The name that a status has recorded, before the ClusterSPIFFEID is created or after, without the space around it.
pub data RecordedAs (name : Text)
    : Option PendingClusterSpiffeIdStatus → Option OwnedClusterSpiffeIdStatus → Type 0 where
  as_pending :
      (p : PendingClusterSpiffeIdStatus) (owned : Option OwnedClusterSpiffeIdStatus)
      → trim_space p.name ≡ name
      → RecordedAs name (some p) owned
  as_owned :
      (pending : Option PendingClusterSpiffeIdStatus) (o : OwnedClusterSpiffeIdStatus)
      → trim_space o.name ≡ name
      → RecordedAs name pending (some o)

-- A name that is not empty, and that the durable status of a binding records.
abbrev pub Records : Text → InferenceIdentityBinding → Type 0
Records name b =
    (is_nil name ≡ false)
    × RecordedAs name b.status.pending_cluster_spiffe_id b.status.owned_cluster_spiffe_id

occurs-trimmed :
    (s v : Text) (vs : List Text)
    → occurs s (trimmed (v ∷ vs))
      ≡ ((not (is_nil s) && text_eq s (trim_space v)) || occurs s (trimmed vs))
unfolding trimmed keep occurs
occurs-trimmed s v vs = ground (arith, nil_of_eq)
  where
    nil_of_eq : text_eq s (trim_space v) ≡ true → is_nil s ≡ is_nil (trim_space v)
    nil_of_eq h = ap is_nil ((text_eq_iff s (trim_space v)).0 h)

nothing_trimmed : (s : Text) → occurs s (trimmed []) ≡ false
unfolding trimmed keep occurs
nothing_trimmed s = refl

-- A value that counts is the first one, trimmed, or counts among the others.
head_or_tail :
    (s v : Text) (vs : List Text)
    → occurs s (trimmed (v ∷ vs)) ≡ true
    → ((is_nil s ≡ false) × (trim_space v ≡ s)) ⊎ (occurs s (trimmed vs) ≡ true)
head_or_tail s v vs h = elim (Bool-cases (not (is_nil s) && text_eq s (trim_space v))) [
  | inl t ↦ inl (ground (arith, t), sym ((text_eq_iff s (trim_space v)).0 (ground (arith, t))))
  | inr f ↦ inr (ground (arith, f, h, occurs-trimmed s v vs))
]

at_head :
    (s v : Text) (vs : List Text)
    → is_nil s ≡ false
    → trim_space v ≡ s
    → occurs s (trimmed (v ∷ vs)) ≡ true
at_head s v vs h e =
    ground (arith, occurs-trimmed s v vs, h, (text_eq_iff s (trim_space v)).1 (sym e))

in_tail :
    (s v : Text) (vs : List Text)
    → occurs s (trimmed vs) ≡ true
    → occurs s (trimmed (v ∷ vs)) ≡ true
in_tail s v vs h = ground (arith, occurs-trimmed s v vs, h)

owned_of_occurs :
    (name : Text) (o : Option OwnedClusterSpiffeIdStatus)
    → occurs name (trimmed (owned_name o)) ≡ true
    → (is_nil name ≡ false)
      × (owned : OwnedClusterSpiffeIdStatus) × (o ≡ some owned)
      × (trim_space owned.name ≡ name)
unfolding owned_name
owned_of_occurs name none h = ground (arith, h, nothing_trimmed name)
owned_of_occurs name (some o) h = elim (head_or_tail name o.name [] h) [
  | inl (full, e) ↦ (full, o, refl, e)
  | inr late ↦ ground (arith, late, nothing_trimmed name)
]

recorded_owned :
    (name : Text) (p : Option PendingClusterSpiffeIdStatus) (o : Option OwnedClusterSpiffeIdStatus)
    → occurs name (trimmed (owned_name o)) ≡ true
    → (is_nil name ≡ false) × RecordedAs name p o
recorded_owned name p o h =
    let (full, owned, same, e) = owned_of_occurs name o h in
    (full, subst (RecordedAs name p) (sym same) (as_owned p owned e))

recorded_of_occurs :
    (name : Text) (p : Option PendingClusterSpiffeIdStatus) (o : Option OwnedClusterSpiffeIdStatus)
    → occurs name (trimmed (pending_name p ++ owned_name o)) ≡ true
    → (is_nil name ≡ false) × RecordedAs name p o
unfolding pending_name
recorded_of_occurs name none o h = recorded_owned name none o h
recorded_of_occurs name (some p) o h = elim (head_or_tail name p.name (owned_name o) h) [
  | inl (full, e) ↦ (full, as_pending p o e)
  | inr late ↦ recorded_owned name (some p) o late
]

occurs_of_recorded :
    (name : Text) (p : Option PendingClusterSpiffeIdStatus) (o : Option OwnedClusterSpiffeIdStatus)
    → is_nil name ≡ false
    → RecordedAs name p o
    → occurs name (trimmed (pending_name p ++ owned_name o)) ≡ true
unfolding pending_name owned_name
occurs_of_recorded name _ _ h (as_pending p o e) = at_head name p.name (owned_name o) h e
occurs_of_recorded name _ _ h (as_owned none o e) = at_head name o.name [] h e
occurs_of_recorded name _ _ h (as_owned (some p) o e) =
    in_tail name p.name _ (at_head name o.name [] h e)

-- The index of the ClusterSPIFFEID names holds what the status records.
occurs-index_iff :
    (name : Text) (b : InferenceIdentityBinding)
    → (occurs name (binding_cluster_spiffe_id_name_index_values b) ≡ true) ↔ Records name b
unfolding binding_cluster_spiffe_id_name_index_values
occurs-index_iff name b =
    let p = b.status.pending_cluster_spiffe_id in
    let o = b.status.owned_cluster_spiffe_id in
    let same = mem-compact_index_values (pending_name p ++ owned_name o) name in
    (
      λ h. recorded_of_occurs name p o ((occurs_iff name _).1 (same.0 ((occurs_iff name _).0 h))),
      λ (h, r).
          (occurs_iff name _).1 (same.1 ((occurs_iff name _).0 (occurs_of_recorded name p o h r))),
    )

-- A stored binding, of the reference, whose status records the name.
abbrev pub Recording : List InferenceIdentityBinding → Text → NamespacedName → Type 0
Recording store name ref =
    (b : InferenceIdentityBinding) × Mem b store × Records name b × (ref_of b ≡ ref)

-- When the lists of the cluster are those of a store of bindings under the registered indexes, a change of a
-- ClusterSPIFFEID gives a request for a reference exactly when a stored binding of that reference has a durable
-- status whose pending or owned name, without the space around it, is the name of the ClusterSPIFFEID and is not empty.
pub mem-map_cluster_spiffe_id_to_bindings :
    (store : List InferenceIdentityBinding) (answer : (c : Call) → Reply c)
    → (name : Text) (ref : NamespacedName) → Serves store answer
    → Mem ref (run answer (map_cluster_spiffe_id_to_bindings name)) ↔ ∥ Recording store name ref ∥₁
unfolding run map_cluster_spiffe_id_to_bindings requests_of
mem-map_cluster_spiffe_id_to_bindings store answer name ref serves = rw (serves.by_output name) (
  λ m.
      ∥∥₁_map ((mem-requests store _ ref).0 m)
        λ (b, k, t, e). (b, k, (occurs-index_iff name b).0 t, e),
  λ s.
      (mem-requests store _ ref).1
        (∥∥₁_map s λ (b, k, t, e). (b, k, (occurs-index_iff name b).1 t, e)),
)
