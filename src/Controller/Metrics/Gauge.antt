-- ===== src/Controller/Metrics/Gauge.antt =====
-- The gauge's values are counts of bindings.
use kleym.Prelude.{
  ◌≡◌, refl, sym, ap, ◌∙◌, ℕ, ◌+◌, true, false, Option, some, none, List, [], ◌∷◌, if◌then◌else◌,
  Bool-cases, inl, inr, and-true, arith,
}
use kleym.Prelude.Text.{text_eq, text_eq_iff, text_eq_self}
use kleym.Errors.{ok}
use kleym.Api.{InferenceIdentityBinding}
use kleym.Platform.{Platform}
use kleym.Controller.Metrics.{
  BindingOutcomeLabels, same_labels, derive_binding_outcome_labels, increment, count_outcome,
  aggregate, collect,
}

-- The value of the metric with the labels, 0 if none is sent.
unfoldable pub value_of : BindingOutcomeLabels → List (BindingOutcomeLabels × ℕ) → ℕ
value_of labels [] = 0
value_of labels ((key, value) ∷ rest) =
    if same_labels key labels then value else value_of labels rest

abbrev has_labels : BindingOutcomeLabels → Option BindingOutcomeLabels → ℕ
has_labels labels none = 0
has_labels labels (some own) = if same_labels own labels then 1 else 0

module _ (p : Platform) where
  -- How many of the bindings have the outcome.
  unfoldable pub bindings_with : BindingOutcomeLabels → List InferenceIdentityBinding → ℕ
  bindings_with labels [] = 0
  bindings_with labels (b ∷ bs) =
      has_labels labels (derive_binding_outcome_labels p b true) + bindings_with labels bs

  same_labels_sound : (a b : BindingOutcomeLabels) → same_labels a b ≡ true → a ≡ b
  same_labels_sound a b h =
      let (c, r) = and-true (text_eq a.condition b.condition) (text_eq a.reason b.reason) h in
      let same_condition = (text_eq_iff a.condition b.condition).0 c in
      let same_reason = (text_eq_iff a.reason b.reason).0 r in cc

  same_labels_self : (a : BindingOutcomeLabels) → same_labels a a ≡ true
  same_labels_self a = rw (text_eq_self a.condition, text_eq_self a.reason) refl

  true_ne_false : true ≡ false → ⊥
  true_ne_false h = ground arith

  own_apart :
      (key own labels : BindingOutcomeLabels)
      → same_labels key labels ≡ true
      → same_labels key own ≡ false
      → same_labels own labels ≡ false
  own_apart key own labels k apart = elim (Bool-cases (same_labels own labels)) [
    | inl o ↦
        let same = same_labels_sound key labels k ∙ sym (same_labels_sound own labels o) in
        absurd (
          true_ne_false
            (sym (same_labels_self own) ∙ (sym (ap (λ x. same_labels x own) same) ∙ apart)))
    | inr o ↦ o
  ]

  value_of-increment :
      (labels own : BindingOutcomeLabels) (aggregated : List (BindingOutcomeLabels × ℕ))
      → value_of labels (increment p own aggregated)
        ≡ (if same_labels own labels then 1 else 0) + value_of labels aggregated
  unfolding value_of increment
  value_of-increment labels own [] = ground arith
  value_of-increment labels own ((key, value) ∷ rest) = elim (Bool-cases (same_labels key own)) [
    | inl same ↦ rw (same, same_labels_sound key own same) (ground arith)
    | inr apart ↦ elim (Bool-cases (same_labels key labels)) [
      | inl k ↦ rw (apart, k, own_apart key own labels k apart) (omega arith)
      | inr k ↦ rw (apart, k) (value_of-increment labels own rest)
    ]
  ]

  count_step :
      (labels : BindingOutcomeLabels) (own : Option BindingOutcomeLabels) (n : ℕ)
      → (aggregated : List (BindingOutcomeLabels × ℕ))
      → n + value_of labels (count_outcome p own aggregated)
        ≡ has_labels labels own + n + value_of labels aggregated
  unfolding count_outcome
  count_step labels none n aggregated = omega arith
  count_step labels (some own) n aggregated =
      omega (arith, value_of-increment labels own aggregated)

  value_of-aggregate :
      (labels : BindingOutcomeLabels) (bs : List InferenceIdentityBinding)
      → (aggregated : List (BindingOutcomeLabels × ℕ))
      → value_of labels (aggregate p bs aggregated)
        ≡ bindings_with labels bs + value_of labels aggregated
  unfolding aggregate bindings_with
  value_of-aggregate labels [] aggregated = omega arith
  value_of-aggregate labels (b ∷ bs) aggregated =
      value_of-aggregate labels bs _
      ∙ count_step labels (derive_binding_outcome_labels p b true) (bindings_with labels bs)
          aggregated

  -- The gauge's value for an outcome is the number of listed bindings that have it.
  pub value_of-collect :
      (labels : BindingOutcomeLabels) (bs : List InferenceIdentityBinding)
      → value_of labels (collect p (some (ok bs))) ≡ bindings_with labels bs
  unfolding collect value_of
  value_of-collect labels bs = value_of-aggregate labels bs [] ∙ omega arith
