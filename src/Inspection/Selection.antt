-- ===== src/Inspection/Selection.antt =====
-- What internal/inspection/inspection.go reads off rendered selectors, and the pods and containers that match.
pub mod Scope
use kleym.Prelude.{
  Bool, true, false, not, ◌&&◌, ◌||◌, Option, none, some, List, [], ◌∷◌, ◌++◌, keep, is_nil, map,
  if◌then◌else◌,
}
use kleym.Prelude.Text.{Text, codes, text_eq, has_prefix, trim_prefix, cut, quote}
use kleym.Errors.{Result, ok, err, plain, ◌>>=◌}
use kleym.Value.{Value, text, object, Fields, end, field, lookup_field}
use kleym.Cluster.{Pod}
use kleym.Spirecm.{lookup_text, insert_text}
use kleym.Inspection.{BindingInspectionMatchedPod}

-- `workloadSelection`; `container_name` is `ContainerValue` where `ContainerSelectorType` is "name", its one
-- value that is not empty.
pub record WorkloadSelection : Type 0 where
  pub namespace : Text
  pub service_account : Text
  pub pod_labels : List (Text × Text)
  pub container_name : Option Text
  pub unsupported_selectors : List Text

abbrev unsupported : Text → WorkloadSelection → WorkloadSelection
unsupported selector w = record w {
  unsupported_selectors = w.unsupported_selectors ++ selector ∷ [];
}

-- A label whose key is not empty is kept.
with_label : Text → Option (Text × Text) → WorkloadSelection → WorkloadSelection
with_label selector (some (key, value)) w =
    if not (is_nil key)
    then record w { pod_labels = insert_text key value w.pod_labels }
    else unsupported selector w
with_label selector none w = unsupported selector w

-- One round of the loop.
unfoldable pub select : Text → WorkloadSelection → WorkloadSelection
unfolding with_label
select s w =
    if has_prefix s (codes "k8s:ns:")
    then record w { namespace = trim_prefix s (codes "k8s:ns:") }
    else if has_prefix s (codes "k8s:sa:")
    then record w { service_account = trim_prefix s (codes "k8s:sa:") }
    else if has_prefix s (codes "k8s:container-name:")
    then record w { container_name = some (trim_prefix s (codes "k8s:container-name:")) }
    else if has_prefix s (codes "k8s:pod-label:")
    then with_label s (cut (trim_prefix s (codes "k8s:pod-label:")) b':') w
    else unsupported s w

unfoldable pub select_all : List Text → WorkloadSelection → WorkloadSelection
select_all [] w = w
select_all (s ∷ rest) w = select_all rest (select s w)

abbrev pub empty_selection : WorkloadSelection
empty_selection = record {
  namespace = [];
  service_account = [];
  pod_labels = [];
  container_name = none;
  unsupported_selectors = [];
}

unfoldable pub workload_selection_from_selectors : List Text → WorkloadSelection
workload_selection_from_selectors selectors = select_all selectors empty_selection

unfoldable pub labels_match : List (Text × Text) → List (Text × Text) → Bool
labels_match [] labels = true
labels_match ((k, v) ∷ wanted) labels =
    text_eq (lookup_text k labels) v && labels_match wanted labels

unfoldable pub pod_matches_selection : Pod → WorkloadSelection → Bool
pod_matches_selection pod w =
    (is_nil w.namespace || text_eq pod.namespace w.namespace)
    && (is_nil w.service_account || text_eq pod.service_account_name w.service_account)
    && labels_match w.pod_labels pod.labels

unfoldable pub matching_pod_containers : Pod → WorkloadSelection → List Text
matching_pod_containers pod w = elim w.container_name [
  | none ↦ []
  | some name ↦ keep (λ container. text_eq container name) pod.containers
]

abbrev matched_pod : Pod → Text → BindingInspectionMatchedPod
matched_pod pod container = record {
  namespace = pod.namespace;
  pod = pod.name;
  container = container;
}

-- A pod without a container selector stands for itself, and else for its containers that match.
matches_in : Pod → WorkloadSelection → Option Text → List BindingInspectionMatchedPod
matches_in pod w none = matched_pod pod [] ∷ []
matches_in pod w (some name) = map (matched_pod pod) (matching_pod_containers pod w)

unfoldable pub matched_pods_from_pods :
    List Pod → WorkloadSelection → List BindingInspectionMatchedPod
unfolding matches_in
matched_pods_from_pods [] w = []
matched_pods_from_pods (pod ∷ pods) w =
    let rest = matched_pods_from_pods pods w in
    if not (pod_matches_selection pod w) then rest else matches_in pod w w.container_name ++ rest

-- One round of the loop of `podSelectorMatchLabels`.
add_label : Text → Value → List (Text × Text) → Result (List (Text × Text))
add_label key (text value) labels = ok (insert_text key value labels)
add_label key _ labels =
    err (
      plain (codes "rendered pod selector matchLabels[" ++ quote key ++ codes "] must be a string"))

unfoldable pub add_labels : Fields → List (Text × Text) → Result (List (Text × Text))
unfolding add_label
add_labels end labels = ok labels
add_labels (field key value fs) labels = add_label key value labels >>= add_labels fs

labels_of : Value → Result (List (Text × Text))
labels_of (object fs) = add_labels fs []
labels_of _ = err (plain (codes "rendered pod selector matchLabels must be an object"))

-- A selector without `matchLabels` is itself the map of labels.
unfoldable pub pod_selector_match_labels : Value → Result (List (Text × Text))
unfolding labels_of
pod_selector_match_labels (object fs) = elim (lookup_field (codes "matchLabels") fs) [
  | some raw ↦ labels_of raw
  | none ↦ labels_of (object fs)
]
pod_selector_match_labels v = labels_of v
