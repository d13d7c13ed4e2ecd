-- ===== src/Controller/Metrics.antt =====
-- inferenceidentitybinding_metrics.go: the outcome of a binding as the labels of a metric, the counter of
-- terminal outcomes, and the gauge that counts the bindings of each outcome. What is Prometheus' own is left out.
pub mod Outcomes
pub mod Gauge
use kleym.Prelude.{
  ℕ, ◌+◌, Bool, true, false, not, ◌&&◌, Option, some, none, List, [], ◌∷◌, if◌then◌else◌,
}
use kleym.Prelude.Text.{Text, codes, text_eq}
use kleym.Errors.{Result, ok, err}
use kleym.Api.{
  ConditionStatus, condition_true, condition_false, condition_unknown, Condition,
  InferenceIdentityBinding,
}
use kleym.Platform.{Platform}
use kleym.Controller.{
  condition_type_ready, condition_type_invalid_ref, condition_type_unsafe_selector,
  condition_type_conflict, condition_type_render_failure,
}

abbrev pub metric_reason_initializing : Text
metric_reason_initializing = codes "Initializing"

abbrev pub metric_reason_unclassified_failure : Text
metric_reason_unclassified_failure = codes "UnclassifiedFailure"

abbrev pub failure_outcome_condition_order : List Text
failure_outcome_condition_order =
    condition_type_invalid_ref ∷ condition_type_unsafe_selector ∷ condition_type_conflict
    ∷ condition_type_render_failure ∷ []

pub record BindingOutcomeLabels : Type 0 where
  pub condition : Text
  pub reason : Text

abbrev pub same_labels : BindingOutcomeLabels → BindingOutcomeLabels → Bool
same_labels a b = text_eq a.condition b.condition && text_eq a.reason b.reason

abbrev pub is_true : ConditionStatus → Bool
is_true condition_true = true
is_true _ = false

abbrev pub labels_of : Condition → BindingOutcomeLabels
labels_of c = record { condition = c.condition_type; reason = c.reason }

module _ (platform : Platform) where
  -- The `Ready` condition, when it decides the outcome before any failure is looked for.
  ready_outcome : Bool → Option Condition → Option BindingOutcomeLabels
  ready_outcome allow_initializing none = none
  ready_outcome allow_initializing (some ready) = elim ready.status [
    | condition_true ↦ some (record { condition = condition_type_ready; reason = ready.reason })
    | condition_unknown ↦
        if allow_initializing && text_eq ready.reason metric_reason_initializing
        then some (record { condition = condition_type_ready; reason = metric_reason_initializing })
        else none
    | condition_false ↦ none
  ]

  true_condition : Option Condition → Option BindingOutcomeLabels → Option BindingOutcomeLabels
  true_condition none otherwise = otherwise
  true_condition (some c) otherwise = if is_true c.status then some (labels_of c) else otherwise

  -- The loop over the failure conditions.
  first_failure :
      List Condition → List Text → Option BindingOutcomeLabels → Option BindingOutcomeLabels
  unfolding true_condition
  first_failure conditions [] otherwise = otherwise
  first_failure conditions (condition_type ∷ rest) otherwise =
      true_condition (platform.find_status_condition conditions condition_type)
        (first_failure conditions rest otherwise)

  unclassified : Option Condition → Option BindingOutcomeLabels
  unclassified none = none
  unclassified (some ready) = elim ready.status [
    | condition_false ↦
        some
          (record { condition = condition_type_ready; reason = metric_reason_unclassified_failure })
    | _ ↦ none
  ]

  or_else : Option BindingOutcomeLabels → Option BindingOutcomeLabels → Option BindingOutcomeLabels
  or_else (some labels) otherwise = some labels
  or_else none otherwise = otherwise

  unfoldable pub derive_binding_outcome_labels :
      InferenceIdentityBinding → Bool → Option BindingOutcomeLabels
  unfolding ready_outcome first_failure unclassified or_else
  derive_binding_outcome_labels b allow_initializing =
      let ready = platform.find_status_condition b.status.conditions condition_type_ready in
      or_else (ready_outcome allow_initializing ready)
        (first_failure b.status.conditions failure_outcome_condition_order (unclassified ready))

  -- `aggregated[labels]++`.
  increment :
      BindingOutcomeLabels → List (BindingOutcomeLabels × ℕ) → List (BindingOutcomeLabels × ℕ)
  increment labels [] = (labels, 1) ∷ []
  increment labels ((key, value) ∷ rest) =
      if same_labels key labels
      then (key, value + 1) ∷ rest
      else (key, value) ∷ increment labels rest

  count_outcome :
      Option BindingOutcomeLabels
      → List (BindingOutcomeLabels × ℕ)
      → List (BindingOutcomeLabels × ℕ)
  unfolding increment
  count_outcome none aggregated = aggregated
  count_outcome (some labels) aggregated = increment labels aggregated

  -- `RecordTerminalOutcome`, on the counter as the values of its labels.
  unfoldable pub record_outcome_of :
      InferenceIdentityBinding → List (BindingOutcomeLabels × ℕ) → List (BindingOutcomeLabels × ℕ)
  unfolding count_outcome
  record_outcome_of b counter = count_outcome (derive_binding_outcome_labels b false) counter

  aggregate :
      List InferenceIdentityBinding
      → List (BindingOutcomeLabels × ℕ)
      → List (BindingOutcomeLabels × ℕ)
  unfolding count_outcome
  aggregate [] aggregated = aggregated
  aggregate (b ∷ bs) aggregated =
      aggregate bs (count_outcome (derive_binding_outcome_labels b true) aggregated)

  -- `Collect`: the metrics that it sends, given what the list function returns, if there is one. The order
  -- of a map's entries means nothing.
  unfoldable pub collect :
      Option (Result (List InferenceIdentityBinding)) → List (BindingOutcomeLabels × ℕ)
  unfolding aggregate
  collect none = []
  collect (some (err e)) = []
  collect (some (ok bindings)) = aggregate bindings []
