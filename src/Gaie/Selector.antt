-- ===== src/Gaie/Selector.antt =====
-- `DeriveSelectorsFromPool` and `ResolveInferenceTarget` of internal/gaie/resolver.go.
use kleym.Prelude.{
  Bool, true, false, not, ◌&&◌, Option, none, some, List, [], ◌∷◌, ◌++◌, is_nil, if◌then◌else◌,
}
use kleym.Prelude.Text.{Text, codes, text_eq, join, quote}
use kleym.Errors.{Error, plain, Result, ok, err, fail_if, ◌>>=◌, ◌>>◌}
use kleym.Value.{Value, text, object, Fields, end, field, lookup_field}
use kleym.Identity.{Validation, ResolvedInferenceTarget}
use kleym.Platform.{Platform}
use kleym.Gaie.{GroupVersionKind}

-- The pool as the API returns it: its metadata, and the whole object for `unstructured.NestedMap`.
pub record InferencePool : Type 0 where
  pub name : Text
  pub namespace : Text
  pub gvk : GroupVersionKind
  pub content : Fields

abbrev pub is_end : Fields → Bool
is_end end = true
is_end (field k v fs) = false

abbrev is_text : Value → Bool
is_text (text s) = true
is_text _ = false

-- The first key that is not `matchLabels`.
other_key : Fields → Option Text
other_key end = none
other_key (field k v fs) =
    let rest = other_key fs in if not (text_eq k (codes "matchLabels")) then some k else rest

all_texts : Fields → Bool
all_texts end = true
all_texts (field k v fs) = is_text v && all_texts fs

-- What a selector comes to: the map that is kept as the Pod selector, and the labels in it.
pub record SelectorShape : Type 0 where
  pub selector_map : Fields
  pub match_labels : Fields

labels_of_object : Fields → Value → Result SelectorShape
labels_of_object selector_map (object labels) =
    ok (record { selector_map = selector_map; match_labels = labels })
labels_of_object selector_map _ =
    err (plain (codes "pool spec.selector.matchLabels must be an object"))

-- A selector with `matchLabels` has nothing else; one without is a flat map of labels.
shape_of : Fields → Option Value → Result SelectorShape
unfolding labels_of_object other_key all_texts
shape_of selector_map (some raw) = elim (other_key selector_map) [
  | some key ↦ err (plain (codes "pool spec.selector." ++ key ++ codes " is not supported"))
  | none ↦ labels_of_object selector_map raw
]
shape_of selector_map none =
    if not (all_texts selector_map)
    then err (plain (codes "pool selector must use matchLabels for deterministic rendering"))
    else ok (record {
      selector_map = field (codes "matchLabels") (object selector_map) end;
      match_labels = selector_map;
    })

abbrev pub label_prefix : Text
label_prefix = codes "k8s:pod-label:"

abbrev pub label_selector : Text → Text → Text
label_selector key value = label_prefix ++ (key ++ (codes ":" ++ value))

module _ (v : Validation) where
  -- One round of the loop over the labels.
  derive_selector : Text → Value → Result Text
  derive_selector key (text value) = do
    fail_if (is_nil key) (plain (codes "pool selector labels must contain non-empty keys"))
    fail_if (is_nil value) (plain (codes "pool selector labels must contain non-empty values"))
    let key_errs = v.is_qualified_name key
    fail_if (not (is_nil key_errs)) (
        plain (
          codes "pool spec.selector.matchLabels key "
          ++ quote key
          ++ codes " is invalid: "
          ++ join key_errs (codes "; ")))
    let value_errs = v.is_valid_label_value value
    fail_if (not (is_nil value_errs)) (
        plain (
          codes "pool spec.selector.matchLabels["
          ++ quote key
          ++ codes "] value "
          ++ quote value
          ++ codes " is invalid: "
          ++ join value_errs (codes "; ")))
    ok (label_selector key value)
  derive_selector key _ =
      err
        (plain (codes "pool spec.selector.matchLabels[" ++ quote key ++ codes "] must be a string"))

  derive_selectors : Fields → Result (List Text)
  unfolding derive_selector
  derive_selectors end = ok []
  derive_selectors (field key value fs) = do
    selector ← derive_selector key value
    rest ← derive_selectors fs
    ok (selector ∷ rest)

abbrev is_some : Option Value → Bool
is_some none = false
is_some (some v) = true

abbrev found_selector : Option Fields → Fields
found_selector none = end
found_selector (some fs) = fs

-- `fmt.Errorf("failed to decode pool spec.selector: %w", err)`.
abbrev decode_failure {ℓ} : {A : Type ℓ} → Result A → Result A
decode_failure (ok a) = ok a
decode_failure (err e) = err (Error.wrapped (codes "failed to decode pool spec.selector") e)

module _ (platform : Platform) where
  unfoldable pub derive_selectors_from_pool : InferencePool → Result (Value × List Text)
  unfolding shape_of derive_selectors
  derive_selectors_from_pool pool = do
    found ← decode_failure (platform.nested_map pool.content (codes "spec" ∷ codes "selector" ∷ []))
    let selector_map = found_selector found
    fail_if (is_end selector_map) (plain (codes "pool spec.selector must be set"))
    fail_if (is_some (lookup_field (codes "matchExpressions") selector_map))
        (plain (codes "pool spec.selector.matchExpressions are not supported"))
    shape ← shape_of selector_map (lookup_field (codes "matchLabels") selector_map)
    fail_if (is_end shape.match_labels)
        (plain (codes "pool spec.selector.matchLabels must not be empty"))
    derived ← derive_selectors platform.validation shape.match_labels
    ok (object shape.selector_map, derived)

  unfoldable pub resolve_inference_target : InferencePool → Result ResolvedInferenceTarget
  resolve_inference_target pool = do
    (pod_selector, derived) ← derive_selectors_from_pool pool
    ok (record {
      identity_anchor = record { kind = codes "pool"; name = pool.name };
      pod_selector = pod_selector;
      derived_selectors = derived;
    })
