-- ===== src/Inspection/Binding/Render/Kept.antt =====
-- The rendering of an inspected binding keeps the configuration that the report names, on every branch.
use kleym.Prelude.{◌≡◌, refl, ap, ◌∙◌, List}
use kleym.Errors.{Result, ok, err}
use kleym.Identity.{Plan, ResolvedInferenceTarget}
use kleym.Api.{InferenceIdentityBinding}
use kleym.Gaie.{GroupVersionKind, PoolRef, binding_pool_ref}
use kleym.Gaie.Selector.{InferencePool, resolve_inference_target}
use kleym.Gaie.Resolver.{resolve_inference_pool}
use kleym.Cluster.{Call, Reply, run, run-bind}
use kleym.Inspection.{BindingInspectionTargetRef, BindingInspectionReport}
use kleym.Inspection.Config.{ResolvedIdentityConfig}
use kleym.Inspection.Findings.{pool_ref_to_report_ref}
use kleym.Inspection.Binding.{BindingInspector, Rendered, with_pool_ref}
use kleym.Inspection.Binding.Render.{
  report_plan, after_plan, after_target, after_pool, after_pool_ref, inspect_rendered_identity,
}

module _ (i : BindingInspector) (b : InferenceIdentityBinding) (c : ResolvedIdentityConfig) where
  after_plan-keeps :
      (target : ResolvedInferenceTarget) (r : BindingInspectionReport) (planned : Result Plan)
      → (after_plan i b c target r planned).1.identity_config ≡ r.identity_config
  unfolding after_plan report_plan
  after_plan-keeps target r (ok plan) = refl
  after_plan-keeps target r (err e) = refl

  after_target-keeps :
      (ref : BindingInspectionTargetRef) (r : BindingInspectionReport)
      → (target : Result ResolvedInferenceTarget)
      → (after_target i b c ref r target).1.identity_config ≡ r.identity_config
  unfolding after_target
  after_target-keeps ref r (ok target) = after_plan-keeps target r _
  after_target-keeps ref r (err e) = refl

  after_pool-keeps :
      (ref : PoolRef) (r : BindingInspectionReport) (found : Result InferencePool)
      → (after_pool i b c ref r found).1.identity_config ≡ r.identity_config
  unfolding after_pool
  after_pool-keeps ref r (ok pool) =
      let report_ref = pool_ref_to_report_ref ref pool.gvk in
      after_target-keeps report_ref (with_pool_ref report_ref r)
        (resolve_inference_target i.platform pool)
  after_pool-keeps ref r (err e) = refl

  after_pool_ref-keeps :
      (answer : (c : Call) → Reply c) (available : List GroupVersionKind)
      → (r : BindingInspectionReport) (ref : Result PoolRef)
      → (run answer (after_pool_ref i b c available r ref)).1.identity_config ≡ r.identity_config
  unfolding after_pool_ref run
  after_pool_ref-keeps answer available r (ok ref) =
      ap (λ (x : Rendered). x.1.identity_config)
        (run-bind answer (resolve_inference_pool available ref) _)
      ∙ after_pool-keeps ref r _
  after_pool_ref-keeps answer available r (err e) = refl

  pub inspect_rendered_identity-keeps :
      (answer : (c : Call) → Reply c) (available : List GroupVersionKind)
      → (r : BindingInspectionReport)
      → (run answer (inspect_rendered_identity i b c available r)).1.identity_config
        ≡ r.identity_config
  unfolding inspect_rendered_identity
  inspect_rendered_identity-keeps answer available r =
      after_pool_ref-keeps answer available r (binding_pool_ref b)
