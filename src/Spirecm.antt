-- ===== src/Spirecm.antt =====
-- internal/spirecm/clusterspiffeid.go: the ClusterSPIFFEID that stands for a planned identity.
pub mod Claims
pub mod Naming
pub mod Desired
use kleym.Prelude.{
  ℕ, suc, ◌+◌, ◌-◌, Bool, true, false, not, ◌&&◌, ◌||◌, Option, none, some, List, [], ◌∷◌, ◌++◌,
  length, is_nil, if◌then◌else◌, ltb, leb, ◌==◌,
}
use kleym.Prelude.Text.{Text, codes, text_eq, trim_space, hex}
use kleym.Value.{
  Value, text, boolean, scalar, array, object, Items, nil, item, Fields, end, field, deep_equal,
}
use kleym.Identity.{Plan}
use kleym.Identity.Selectors.{utf8}
use kleym.Api.{InferenceIdentityBinding}
use kleym.Gaie.{GroupVersionKind}
use kleym.Cluster.{ClusterSpiffeId}

abbrev pub default_name_value : Text
default_name_value = codes "kleym"

abbrev pub managed_by_label_key : Text
managed_by_label_key = codes "kleym.sonda.red/managed-by"

abbrev pub binding_name_label_key : Text
binding_name_label_key = codes "kleym.sonda.red/binding-name"

abbrev pub binding_namespace_label_key : Text
binding_namespace_label_key = codes "kleym.sonda.red/binding-namespace"

abbrev pub ownership_claim_id_annotation_key : Text
ownership_claim_id_annotation_key = codes "kleym.sonda.red/ownership-claim-id"

abbrev pub max_dns_label_length : ℕ
max_dns_label_length = 63

abbrev pub name_hash_bytes : ℕ
name_hash_bytes = 4

-- `ClusterSPIFFEIDGVK`.
abbrev pub cluster_spiffe_id_gvk : GroupVersionKind
cluster_spiffe_id_gvk = record {
  group = codes "spire.spiffe.io";
  version = codes "v1alpha1";
  kind = codes "ClusterSPIFFEID";
}

-- A `map[string]string`: a missing key reads as the empty string.
unfoldable pub lookup_text : Text → List (Text × Text) → Text
lookup_text k [] = []
lookup_text k ((j, v) ∷ m) = if text_eq j k then v else lookup_text k m

unfoldable pub insert_text : Text → Text → List (Text × Text) → List (Text × Text)
insert_text k v [] = (k, v) ∷ []
insert_text k v ((j, w) ∷ m) = if text_eq j k then (k, v) ∷ m else (j, w) ∷ insert_text k v m

unfoldable pub set_cluster_spiffe_id_ownership_claim : ClusterSpiffeId → Text → ClusterSpiffeId
set_cluster_spiffe_id_ownership_claim o claim_id = record o {
  annotations = insert_text ownership_claim_id_annotation_key claim_id o.annotations;
}

unfoldable pub cluster_spiffe_id_ownership_claim : ClusterSpiffeId → Text
cluster_spiffe_id_ownership_claim o = lookup_text ownership_claim_id_annotation_key o.annotations

unfoldable pub managed_cluster_spiffe_id_labels : InferenceIdentityBinding → List (Text × Text)
managed_cluster_spiffe_id_labels binding =
    (managed_by_label_key, default_name_value)
    ∷ (binding_name_label_key, binding.name)
    ∷ (binding_namespace_label_key, binding.namespace)
    ∷ []

unfoldable pub build_cluster_spiffe_id_hint : InferenceIdentityBinding → Text
build_cluster_spiffe_id_hint binding = binding.namespace ++ codes "/" ++ binding.name

unfoldable pub render_fallback : Bool
render_fallback = false

-- `strings.ToLower` of a code point. Beyond ASCII only the two letters whose lower case is ASCII are
-- mapped: any other result is no letter or digit of ASCII, and the label below keeps nothing else.
unfoldable pub to_lower : ℕ → ℕ
to_lower c =
    if leb 65 c && leb c 90
    then c + 32
    else if c == 0x130
    then 105
    else if c == 0x212A
    then 107
    else c

unfoldable pub is_alpha_num : ℕ → Bool
is_alpha_num c = (leb b'a' c && leb c b'z') || (leb b'0' c && leb c b'9')

-- The loop of `sanitizeDNSLabel`: a run of other characters becomes one hyphen. After
-- a character that is kept the last one is no hyphen, and after any other it is.
unfoldable pub write_label : Bool → Text → Text
write_label last_hyphen [] = []
write_label last_hyphen (c ∷ s) =
    let kept = is_alpha_num (to_lower c) in
    let rest = write_label (not kept) s in
    if kept then to_lower c ∷ rest else if not last_hyphen then b'-' ∷ rest else rest

-- `strings.Trim(s, "-")`.
unfoldable pub trim_hyphens_left : Text → Text
trim_hyphens_left [] = []
trim_hyphens_left (c ∷ s) = if c == b'-' then trim_hyphens_left s else c ∷ s

unfoldable pub trim_hyphens_right : Text → Text
trim_hyphens_right [] = []
trim_hyphens_right (c ∷ s) =
    let rest = trim_hyphens_right s in if is_nil rest && c == b'-' then [] else c ∷ rest

unfoldable pub trim_hyphens : Text → Text
trim_hyphens s = trim_hyphens_right (trim_hyphens_left s)

unfoldable pub sanitize_dns_label : Text → Text
sanitize_dns_label input = trim_hyphens (write_label false (trim_space input))

unfoldable pub take {ℓ} : {A : Type ℓ} → ℕ → List A → List A
take (suc n) (x ∷ xs) = x ∷ take n xs
take _ _ = []

or_default : Text → Text → Text
or_default [] d = d
or_default s d = s

-- A base that is too long is cut, and trimmed again.
cut_base : ℕ → Text → Text
unfolding or_default
cut_base max_base_len base =
    if ltb max_base_len (length base)
    then or_default (trim_hyphens (take max_base_len base)) default_name_value
    else base

-- The length left for the base, at least 1. What Go computes below zero is 0 here and becomes 1 too.
max_base_length : Text → Text → ℕ
max_base_length mode_text hash_suffix =
    let n = max_dns_label_length - length mode_text - length hash_suffix - 2 in
    if ltb n 1 then 1 else n

module _ (sha1 : List ℕ → List ℕ) where
  unfoldable pub build_cluster_spiffe_id_name : Text → Text → Text → Text → Text
  unfolding or_default cut_base max_base_length
  build_cluster_spiffe_id_name namespace binding_name identity_anchor_kind spiffe_id =
      let mode_text = or_default (sanitize_dns_label identity_anchor_kind) (codes "identity") in
      let hash_suffix = hex (take name_hash_bytes (sha1 (utf8 spiffe_id))) in
      let base =
        sanitize_dns_label
          (default_name_value ++ codes "-" ++ namespace ++ codes "-" ++ binding_name) in
      cut_base (max_base_length mode_text hash_suffix) base
      ++ codes "-"
      ++ mode_text
      ++ codes "-"
      ++ hash_suffix

  selector_templates : List Text → Items
  selector_templates [] = nil
  selector_templates (s ∷ rest) = item (text s) (selector_templates rest)

  class_field : Text → Fields
  class_field class_name =
      if is_nil class_name then end else field (codes "className") (text class_name) end

  unfoldable pub desired_cluster_spiffe_id :
      InferenceIdentityBinding → Plan → Text → ClusterSpiffeId
  unfolding selector_templates class_field
  desired_cluster_spiffe_id binding plan class_name = record {
    name =
        build_cluster_spiffe_id_name binding.namespace binding.name plan.identity_anchor.kind
          plan.spiffe_id;
    uid = [];
    generation = 0;
    labels = managed_cluster_spiffe_id_labels binding;
    annotations = [];
    spec = object (
        field (codes "spiffeIDTemplate") (text plan.spiffe_id) (
          field (codes "podSelector") plan.pod_selector (
            field (codes "workloadSelectorTemplates") (array (selector_templates plan.selectors)) (
              field (codes "fallback") (boolean render_fallback) (
                field (codes "hint") (text (build_cluster_spiffe_id_hint binding))
                  (class_field class_name))))));
  }

labels_within : List (Text × Text) → List (Text × Text) → Bool
labels_within [] current = true
labels_within ((k, v) ∷ desired) current =
    text_eq (lookup_text k current) v && labels_within desired current

-- `unstructured.NestedMap(object, "spec")`, and then `reflect.DeepEqual`: no match where the live spec is missing
-- or no map.
specs_equal : Value → Value → Bool
specs_equal (object fs) (object gs) = deep_equal (object fs) (object gs)
specs_equal _ _ = false

unfoldable pub cluster_spiffe_id_in_sync : ClusterSpiffeId → ClusterSpiffeId → Bool
unfolding labels_within specs_equal
cluster_spiffe_id_in_sync current desired =
    specs_equal current.spec desired.spec && labels_within desired.labels current.labels

merge_labels : List (Text × Text) → List (Text × Text) → List (Text × Text)
merge_labels [] labels = labels
merge_labels ((k, v) ∷ desired) labels = merge_labels desired (insert_text k v labels)

unfoldable pub merge_desired_cluster_spiffe_id : ClusterSpiffeId → ClusterSpiffeId → ClusterSpiffeId
unfolding merge_labels
merge_desired_cluster_spiffe_id current desired = record current {
  spec = desired.spec;
  labels = merge_labels desired.labels current.labels;
}
