-- ===== src/Controller/Watch/Requeue.antt =====
-- Which bindings a changed object gives requests for, when the lists of the cluster are those of a store of
-- bindings under the field indexes.
use mathlib.Core.List.{Mem-prop, mem-map}
use mathlib.Core.List.Perm
use mathlib.Core.Logic.{∥∥₁_map, ∥∥₁_elim}
use kleym.Prelude.{
  ◌≡◌, refl, sym, ◌∙◌, ◌↔◌, Bool, true, false, not, ◌&&◌, List, [], ◌∷◌, Mem, map, keep, arith,
}
use kleym.Prelude.Order.{list_compare, nat_compare}
use kleym.Prelude.Keep.{kept_mem, mem_kept}
use kleym.Prelude.Sort.{sort-perm}
use kleym.Prelude.Text.{Text, text_eq, trim_space}
use kleym.Errors.{ok}
use kleym.Identity.{NamespacedName}
use kleym.Identity.Selectors.{occurs}
use kleym.Identity.Selectors.Canonical.{trimmed, occurs_iff, occurs-eq}
use kleym.Api.{InferenceIdentityBinding}
use kleym.Cluster.{Call, Reply, run, list_bindings, list_bindings_by_pool, list_bindings_by_output}
use kleym.Controller.Conflict.{ref_of}
use kleym.Controller.Watch.{
  binding_pool_ref_name_index_value, compact_after, compact_index_values,
  binding_cluster_spiffe_id_name_index_values, request_compare, requests_for_bindings, requests_of,
  map_binding_to_peers,
}

occurs-compact_after :
    (s : Text) (seen vs : List Text)
    → occurs s (compact_after seen vs) ≡ (occurs s (trimmed vs) && not (occurs s seen))
unfolding compact_after trimmed keep occurs
occurs-compact_after s seen [] = refl
occurs-compact_after s seen (v ∷ vs) =
    let t = trim_space v in
    let later = occurs-compact_after s seen vs in
    let later_seen = occurs-compact_after s (t ∷ seen) vs in
    ground (arith, later, later_seen, occurs-eq s t seen)

nothing_seen : (b : Bool) → (b && true) ≡ b
nothing_seen true = refl
nothing_seen false = refl

-- The index values are the trimmed, non-empty names.
pub mem-compact_index_values :
    (vs : List Text) (s : Text) → Mem s (compact_index_values vs) ↔ Mem s (trimmed vs)
unfolding compact_index_values occurs
mem-compact_index_values vs s =
    let same : occurs s (compact_after [] vs) ≡ occurs s (trimmed vs) =
      occurs-compact_after s [] vs ∙ nothing_seen (occurs s (trimmed vs)) in
    (
      λ m. (occurs_iff s _).0 (sym same ∙ (occurs_iff s _).1 m),
      λ m. (occurs_iff s _).0 (same ∙ (occurs_iff s _).1 m),
    )

-- What the API server's cache answers to a list, with the indexes that `setupFieldIndexes` registers.
pub record Serves (store : List InferenceIdentityBinding) (answer : (c : Call) → Reply c)
    : Type 0 where
  pub in_namespace :
      (namespace : Text)
      → answer (list_bindings namespace) ≡ ok (keep (λ b. text_eq b.namespace namespace) store)
  pub by_pool :
      (namespace name : Text)
      → answer (list_bindings_by_pool namespace name)
        ≡ ok (
            keep
              (λ b.
                text_eq b.namespace namespace && occurs name (binding_pool_ref_name_index_value b))
              store)
  pub by_output :
      (name : Text)
      → answer (list_bindings_by_output name)
        ≡ ok (keep (λ b. occurs name (binding_cluster_spiffe_id_name_index_values b)) store)

-- A stored binding that passes a test, of the reference.
abbrev pub Stored :
    List InferenceIdentityBinding → (InferenceIdentityBinding → Bool) → NamespacedName → Type 0
Stored store test ref =
    (b : InferenceIdentityBinding) × Mem b store × (test b ≡ true) × (ref_of b ≡ ref)

-- The requests for the bindings that pass a test.
pub mem-requests :
    (store : List InferenceIdentityBinding) (test : InferenceIdentityBinding → Bool)
    → (ref : NamespacedName)
    → Mem ref (requests_for_bindings (keep test store)) ↔ ∥ Stored store test ref ∥₁
unfolding requests_for_bindings
mem-requests store test ref =
    let sorted = Perm.mem_iff {a = ref} (sort-perm (map ref_of (keep test store))) in
    (
      λ m. ∥∥₁_elim (mem-map.0 (sorted.0 m)) (hlevel) (λ (b, k, e). ∥∥₁_map k (λ k'.
          let (in_store, passes) = kept_mem test store b k' in (b, ∣ in_store ∣₁, passes, e))),
      λ s. ∥∥₁_elim s Mem-prop (λ (b, k, t, e).
          sorted.1 (mem-map.1 ∣ (b, ∥∥₁_map k (λ k'. mem_kept test store b k' t), e) ∣₁)),
    )

-- A change of a binding gives a request for every binding of its namespace, and for no other.
pub mem-map_binding_to_peers :
    (store : List InferenceIdentityBinding) (answer : (c : Call) → Reply c)
    → (namespace : Text) (ref : NamespacedName) → Serves store answer
    → Mem ref (run answer (map_binding_to_peers namespace))
      ↔ ∥ Stored store (λ b. text_eq b.namespace namespace) ref ∥₁
unfolding run map_binding_to_peers requests_of
mem-map_binding_to_peers store answer namespace ref serves =
    rw (serves.in_namespace namespace) (mem-requests store _ ref)
