-- ===== src/Controller/Status/Keeps.antt =====
-- The status updates of inferenceidentitybinding_status.go leave the ownership of the output as it is.
use kleym.Prelude.{◌≡◌, refl, ℕ, List, Bool-cases, Option-cases, ◌∙◌, inl, inr}
use kleym.Prelude.Text.{Text, text_eq}
use kleym.Errors.{StateError}
use kleym.Api.{InferenceIdentityBindingStatus, RenderedClusterSpiffeIdStatus}
use kleym.Identity.{Plan}
use kleym.Identity.Boundary.{VariantConflict}
use kleym.Platform.{Platform}
use kleym.Controller.{OperatorConfig}
use kleym.Controller.Status.{
  set_condition, initialize_conditions, apply_operator_config, apply_success_status,
  apply_conflict_status, apply_pending_conflict_status,
  apply_pending_managed_output_replacement_status, apply_failure_status, unless_failing,
  initialize_condition, references_valid, selectors_safe, variant_exclusive, rendering_healthy,
}

-- The two ownership fields are the same.
unfoldable pub SameOwnership :
    InferenceIdentityBindingStatus → InferenceIdentityBindingStatus → Type 0
SameOwnership s t =
    (s.owned_cluster_spiffe_id ≡ t.owned_cluster_spiffe_id)
    × (s.pending_cluster_spiffe_id ≡ t.pending_cluster_spiffe_id)

SameOwnership-trans :
    (s t u : InferenceIdentityBindingStatus)
    → SameOwnership s t
    → SameOwnership t u
    → SameOwnership s u
unfolding SameOwnership
SameOwnership-trans s t u (a, b) (c, d) = (a ∙ c, b ∙ d)

initialize_condition-keeps :
    (p : Platform) (g : ℕ) (condition_type message : Text) (s : InferenceIdentityBindingStatus)
    → SameOwnership (initialize_condition p g condition_type message s) s
unfolding SameOwnership initialize_condition set_condition
initialize_condition-keeps p g condition_type message s =
    elim (Option-cases (p.find_status_condition s.conditions condition_type)) [
      | inl e ↦ rw (e, initialize_condition) (refl, refl)
      | inr (c, e) ↦ rw (e, initialize_condition) (refl, refl)
    ]

same : (s : InferenceIdentityBindingStatus) → SameOwnership s s
unfolding SameOwnership
same s = (refl, refl)

pub initialize_conditions-KeepsOwnership :
    (p : Platform) (g : ℕ) (s : InferenceIdentityBindingStatus)
    → SameOwnership (initialize_conditions p g s) s
unfolding initialize_conditions
initialize_conditions-KeepsOwnership p g s =
    next _ _ _ (next _ _ _ (next _ _ _ (next _ _ _ (next _ _ _ (same s)))))
  where
    next :
        (condition_type message : Text) (t : InferenceIdentityBindingStatus)
        → SameOwnership t s
        → SameOwnership (initialize_condition p g condition_type message t) s
    next condition_type message t keeps =
        SameOwnership-trans _ t s (initialize_condition-keeps p g condition_type message t) keeps

module _ (p : Platform) (g : ℕ) where
  unless_failing-keeps :
      (failing condition_type : Text)
      → (set : InferenceIdentityBindingStatus → InferenceIdentityBindingStatus)
      → (s t : InferenceIdentityBindingStatus) → SameOwnership (set s) s
      → SameOwnership s t
      → SameOwnership (unless_failing p failing condition_type set s) t
  unfolding unless_failing
  unless_failing-keeps failing condition_type set s t keeps same =
      elim (Bool-cases (text_eq failing condition_type)) [
        | inl h ↦ rw h same
        | inr h ↦ rw h (SameOwnership-trans (set s) s t keeps same)
      ]

  pub apply_failure_status-KeepsOwnership :
      (e : StateError) (s : InferenceIdentityBindingStatus)
      → SameOwnership (apply_failure_status p g e s) s
  unfolding apply_failure_status SameOwnership set_condition
  apply_failure_status-KeepsOwnership e s =
      unless_failing-keeps e.condition_type _ (rendering_healthy p g) _ s (refl, refl)
        (unless_failing-keeps e.condition_type _ (variant_exclusive p g) _ s (refl, refl)
          (unless_failing-keeps e.condition_type _ (selectors_safe p g) _ s (refl, refl)
            (unless_failing-keeps e.condition_type _ (references_valid p g) _ s (refl, refl)
              (refl, refl))))

  pub apply_success_status-KeepsOwnership :
      (identities : List Plan) (managed : List RenderedClusterSpiffeIdStatus)
      → (s : InferenceIdentityBindingStatus)
      → SameOwnership (apply_success_status p g identities managed s) s
  unfolding apply_success_status SameOwnership set_condition
  apply_success_status-KeepsOwnership identities managed s = (refl, refl)

  pub apply_conflict_status-KeepsOwnership :
      (conflicts : List VariantConflict) (s : InferenceIdentityBindingStatus)
      → SameOwnership (apply_conflict_status p g conflicts s) s
  unfolding apply_conflict_status SameOwnership set_condition
  apply_conflict_status-KeepsOwnership conflicts s = (refl, refl)

  pub apply_pending_conflict_status-KeepsOwnership :
      (s : InferenceIdentityBindingStatus) → SameOwnership (apply_pending_conflict_status p g s) s
  unfolding apply_pending_conflict_status SameOwnership set_condition
  apply_pending_conflict_status-KeepsOwnership s = (refl, refl)

  pub apply_replacement_status-KeepsOwnership :
      (s : InferenceIdentityBindingStatus)
      → SameOwnership (apply_pending_managed_output_replacement_status p g s) s
  unfolding apply_pending_managed_output_replacement_status SameOwnership set_condition
  apply_replacement_status-KeepsOwnership s = (refl, refl)

pub configured-KeepsOwnership :
    (p : Platform) (g : ℕ) (config : OperatorConfig) (s : InferenceIdentityBindingStatus)
    → SameOwnership (apply_operator_config config (initialize_conditions p g s)) s
unfolding apply_operator_config SameOwnership
configured-KeepsOwnership p g config s =
    let (o, q) = initialize_conditions-KeepsOwnership p g s in (o, q)
