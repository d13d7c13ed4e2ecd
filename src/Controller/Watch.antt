-- ===== src/Controller/Watch.antt =====
-- inferenceidentitybinding_watch.go: the field indexes of the bindings, the events that are let through, and the
-- requests that a changed pool, binding or ClusterSPIFFEID gives.
pub mod Requeue
pub mod Recorded
pub mod Anchored
use kleym.Prelude.{
  ◌≡◌, arith, ap, ℕ, Bool, true, false, not, ◌&&◌, ◌||◌, ◌==◌, Option, some, none, List, [], ◌∷◌,
  ◌++◌, is_nil, keep, map, if◌then◌else◌,
}
use kleym.Prelude.Order.{Compare, by_key, list_compare, nat_compare}
use kleym.Prelude.Sort.{sort}
use kleym.Prelude.Text.{Text, codes, text_eq, trim_space}
use kleym.Errors.{Result, ok, err}
use kleym.Identity.{NamespacedName}
use kleym.Identity.Selectors.{occurs}
use kleym.Api.{InferenceIdentityBinding, PendingClusterSpiffeIdStatus, OwnedClusterSpiffeIdStatus}
use kleym.Gaie.Selector.{InferencePool}
use kleym.Cluster.{Prog, done, call, list_bindings, list_bindings_by_pool, list_bindings_by_output}
use kleym.Controller.Conflict.{ref_of}

unfoldable pub binding_pool_ref_name_index_value : InferenceIdentityBinding → List Text
binding_pool_ref_name_index_value b =
    let pool_name = trim_space b.spec.pool_ref.name in
    if is_nil pool_name then [] else pool_name ∷ []

-- The loop, with the values that were seen, the latest first.
compact_after : List Text → List Text → List Text
compact_after seen [] = []
compact_after seen (value ∷ rest) =
    let trimmed = trim_space value in
    let skipped = compact_after seen rest in
    let taken = trimmed ∷ compact_after (trimmed ∷ seen) rest in
    if is_nil trimmed || occurs trimmed seen then skipped else taken

unfoldable pub compact_index_values : List Text → List Text
unfolding compact_after
compact_index_values values = compact_after [] values

pending_name : Option PendingClusterSpiffeIdStatus → List Text
pending_name none = []
pending_name (some pending) = pending.name ∷ []

owned_name : Option OwnedClusterSpiffeIdStatus → List Text
owned_name none = []
owned_name (some owned) = owned.name ∷ []

unfoldable pub binding_cluster_spiffe_id_name_index_values : InferenceIdentityBinding → List Text
unfolding pending_name owned_name
binding_cluster_spiffe_id_name_index_values b =
    compact_index_values (
      pending_name b.status.pending_cluster_spiffe_id
      ++ owned_name b.status.owned_cluster_spiffe_id)

-- Of an object of an update event: its generation, and whether it has a deletion timestamp.
pub record Metadata : Type 0 where
  pub generation : ℕ
  pub deleting : Bool

pub data WatchEvent : Type 0 where
  created deleted generic : WatchEvent
  -- Either object may be nil.
  updated : Option Metadata → Option Metadata → WatchEvent

unfoldable pub deletion_timestamp_changed : Metadata → Metadata → Bool
deletion_timestamp_changed old new = elim old.deleting [
  | true ↦ not new.deleting
  | false ↦ new.deleting
]

unfoldable pub reconcile_watch_predicate : WatchEvent → Bool
reconcile_watch_predicate created = true
reconcile_watch_predicate deleted = true
reconcile_watch_predicate generic = true
reconcile_watch_predicate (updated none new) = true
reconcile_watch_predicate (updated (some old) none) = true
reconcile_watch_predicate (updated (some old) (some new)) =
    if not (old.generation == new.generation) then true else deletion_timestamp_changed old new

abbrev request_key : NamespacedName → List Text
request_key ref = (ref.namespace ++ codes "/" ++ ref.name) ∷ ref.namespace ∷ ref.name ∷ []

pub request_key-apart : (a b : NamespacedName) → request_key a ≡ request_key b → a ≡ b
request_key-apart a b h = ground arith

-- Requests are sorted by their printed form; of two that print alike Go may put either first.
instance abbrev pub request_compare : Compare NamespacedName
request_compare = by_key request_key request_key-apart

unfoldable pub requests_for_bindings : List InferenceIdentityBinding → List NamespacedName
requests_for_bindings bindings = sort (map ref_of bindings)

requests_of : Result (List InferenceIdentityBinding) → List NamespacedName
requests_of (ok bindings) = requests_for_bindings bindings
requests_of (err e) = []

unfoldable pub map_binding_to_peers : Text → Prog (List NamespacedName)
unfolding requests_of
map_binding_to_peers namespace = call (list_bindings namespace) λ reply. done (requests_of reply)

unfoldable pub map_cluster_spiffe_id_to_bindings : Text → Prog (List NamespacedName)
unfolding requests_of
map_cluster_spiffe_id_to_bindings name =
    call (list_bindings_by_output name) λ reply. done (requests_of reply)

-- A binding pinned to another group than the pool's is passed over.
unfoldable pub references_group : Text → InferenceIdentityBinding → Bool
references_group pool_group b =
    let ref_group = trim_space b.spec.pool_ref.group in
    not (not (is_nil ref_group) && not (is_nil pool_group) && not (text_eq ref_group pool_group))

after_references :
    InferencePool → Result (List InferenceIdentityBinding) → Prog (List NamespacedName)
after_references pool (err e) = done []
after_references pool (ok bindings) =
    if is_nil (keep (references_group pool.gvk.group) bindings)
    then done []
    else map_binding_to_peers pool.namespace

unfoldable pub map_pool_to_bindings : InferencePool → Prog (List NamespacedName)
unfolding after_references
map_pool_to_bindings pool =
    call (list_bindings_by_pool pool.namespace pool.name) (after_references pool)
