-- ===== src/Controller/Render.antt =====
-- inferenceidentitybinding_render.go and inferenceidentitybinding_resolver.go: the identity of a binding, and
-- what the controller asks of a failure.
pub mod Safety
use kleym.Prelude.{Bool, ◌||◌, ◌++◌}
use kleym.Prelude.Text.{Text, codes, text_eq}
use kleym.Errors.{StateError, Error, identity_state, Result, ok, err, error_text}
use kleym.Identity.{
  Plan, condition_type_unsafe_selector as unsafe_selector, reason_invalid_pool_selector,
}
use kleym.Identity.Boundary.{validate_variant}
use kleym.Identity.Planning.{plan_identity}
use kleym.Api.{InferenceIdentityBinding}
use kleym.Gaie.{PoolRef, binding_pool_ref, reason_inference_pool_crd_missing}
use kleym.Gaie.Selector.{InferencePool, resolve_inference_target}
use kleym.Gaie.Resolver.{resolve_inference_pool as resolve_pool}
use kleym.Controller.{
  Reconciler, Action, lift, lift_prog, gets, ◌>>=◌, new_state_error, condition_type_invalid_ref,
  condition_type_unsafe_selector, condition_type_render_failure,
  reason_cluster_spiffe_id_crd_missing, reason_managed_output_apply_failed,
}

-- The error of `ResolveInferenceTarget` becomes a state error of the identity package.
abbrev pub as_invalid_selector : {A : Type 0} → Result A → Result A
as_invalid_selector (ok a) = ok a
as_invalid_selector (err e) = err (
    identity_state (record {
      condition_type = unsafe_selector;
      reason = reason_invalid_pool_selector;
      message = error_text e;
    }))

unfoldable pub render_identity : Reconciler → InferenceIdentityBinding → InferencePool → Result Plan
render_identity r b pool = elim (as_invalid_selector (resolve_inference_target r.platform pool)) [
  | err e ↦ err e
  | ok target ↦ plan_identity r.platform.validation (record {
    namespace = b.namespace;
    service_account_name = b.spec.service_account_name;
    trust_domain = r.config.trust_domain;
    variant = b.spec.identity_boundary.variant;
    target = target;
  })
]

unfoldable pub binding_identity_variant : Reconciler → InferenceIdentityBinding → Result (Unit {0})
binding_identity_variant r b =
    validate_variant r.platform.validation b.spec.identity_boundary.variant

unfoldable pub resolve_inference_pool : Reconciler → PoolRef → Action InferencePool
resolve_inference_pool r ref = lift_prog (resolve_pool r.available_pool_gvks ref)

unfoldable pub render_identity_for_binding : Reconciler → Action Plan
render_identity_for_binding r = do
  ref ← λ b. lift (binding_pool_ref b) b
  pool ← resolve_inference_pool r ref
  λ b. lift (render_identity r b pool) b

unfoldable pub should_cleanup_managed_cluster_spiffe_ids : Text → Bool
should_cleanup_managed_cluster_spiffe_ids condition_type =
    text_eq condition_type condition_type_invalid_ref
    || text_eq condition_type condition_type_unsafe_selector
    || text_eq condition_type condition_type_render_failure

unfoldable pub is_infrastructure_not_ready_reason : Text → Bool
is_infrastructure_not_ready_reason reason =
    text_eq reason reason_inference_pool_crd_missing
    || text_eq reason reason_cluster_spiffe_id_crd_missing

abbrev pub new_cluster_spiffe_id_crd_missing_state_error : StateError
new_cluster_spiffe_id_crd_missing_state_error =
    new_state_error condition_type_render_failure reason_cluster_spiffe_id_crd_missing
      (codes "ClusterSPIFFEID CRD is not installed")

abbrev pub new_managed_output_apply_failed_state_error : Error → StateError
new_managed_output_apply_failed_state_error e =
    new_state_error condition_type_render_failure reason_managed_output_apply_failed
      (codes "Managed ClusterSPIFFEID output could not be applied: " ++ error_text e)
