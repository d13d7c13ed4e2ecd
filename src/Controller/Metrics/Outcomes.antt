-- ===== src/Controller/Metrics/Outcomes.antt =====
-- The outcome labels of a binding agree with the status that the reconciliation gave it.
use kleym.Prelude.{◌≡◌, refl, ℕ, Bool, false, some, List, arith}
use kleym.Prelude.Text.{Text}
use kleym.Identity.{Plan}
use kleym.Api.{InferenceIdentityBinding, RenderedClusterSpiffeIdStatus}
use kleym.Platform.{Platform}
use kleym.Controller.{reason_reconciled}
use kleym.Controller.Status.{apply_failure_status, apply_success_status}
use kleym.Controller.Status.Conditions.{
  ConditionLaws, Kind, ready, invalid_ref, unsafe_selector, conflict, render_failure, name_of,
  same_kind, state_error, apply_failure_status-conditions, apply_success_status-conditions,
}
use kleym.Controller.Metrics.{
  ready_outcome, true_condition, first_failure, or_else, derive_binding_outcome_labels,
}

module _ (p : Platform) (laws : ConditionLaws p) where
  -- A binding whose status is the one of a failure is counted under the failing condition and the reason of
  -- the error, whatever its status was before.
  pub derive-apply_failure_status :
      (g : ℕ) (failing : Kind) (reason message : Text) (allow_initializing : Bool)
      → (b : InferenceIdentityBinding) → same_kind ready failing ≡ false
      → derive_binding_outcome_labels p
          (record b {
            status = apply_failure_status p g (state_error failing reason message) b.status;
          })
          allow_initializing
        ≡ some (record { condition = name_of failing; reason = reason })
  unfolding derive_binding_outcome_labels ready_outcome first_failure true_condition or_else
  derive-apply_failure_status g ready reason message allow b h = ground arith
  derive-apply_failure_status g invalid_ref reason message allow b h =
      rw
        (
          apply_failure_status-conditions p laws g invalid_ref ready reason message b.status h,
          apply_failure_status-conditions p laws g invalid_ref invalid_ref reason message b.status
              h,
        )
        refl
  derive-apply_failure_status g unsafe_selector reason message allow b h =
      rw
        (
          apply_failure_status-conditions p laws g unsafe_selector ready reason message b.status h,
          apply_failure_status-conditions p laws g unsafe_selector invalid_ref reason message
              b.status h,
          apply_failure_status-conditions p laws g unsafe_selector unsafe_selector reason message
              b.status h,
        )
        refl
  derive-apply_failure_status g conflict reason message allow b h =
      rw
        (
          apply_failure_status-conditions p laws g conflict ready reason message b.status h,
          apply_failure_status-conditions p laws g conflict invalid_ref reason message b.status h,
          apply_failure_status-conditions p laws g conflict unsafe_selector reason message b.status
              h,
          apply_failure_status-conditions p laws g conflict conflict reason message b.status h,
        )
        refl
  derive-apply_failure_status g render_failure reason message allow b h =
      rw
        (
          apply_failure_status-conditions p laws g render_failure ready reason message b.status h,
          apply_failure_status-conditions p laws g render_failure invalid_ref reason message
              b.status h,
          apply_failure_status-conditions p laws g render_failure unsafe_selector reason message
              b.status h,
          apply_failure_status-conditions p laws g render_failure conflict reason message b.status
              h,
          apply_failure_status-conditions p laws g render_failure render_failure reason message
              b.status h,
        )
        refl

  -- A binding whose status is a success is counted under `Ready` and `Reconciled`.
  pub derive-apply_success_status :
      (g : ℕ) (identities : List Plan) (managed : List RenderedClusterSpiffeIdStatus)
      → (allow_initializing : Bool) → (b : InferenceIdentityBinding)
      → derive_binding_outcome_labels p
          (record b { status = apply_success_status p g identities managed b.status })
          allow_initializing
        ≡ some (record { condition = name_of ready; reason = reason_reconciled })
  unfolding derive_binding_outcome_labels ready_outcome or_else
  derive-apply_success_status g identities managed allow b =
      rw (apply_success_status-conditions p laws g ready identities managed b.status) refl
