-- ===== src/Inspection/Binding/Render.antt =====
-- `inspectRenderedIdentity` of internal/inspection/inspection.go.
pub mod Agreement
pub mod Kept
use kleym.Prelude.{
  Bool, true, false, not, ◌&&◌, ◌||◌, Option, none, some, List, [], ◌∷◌, ◌++◌, keep, is_nil, ap,
  ap₂, ◌≡◌, if◌then◌else◌,
}
use kleym.Prelude.Text.{Text, codes, text_eq, has_prefix}
use kleym.Prelude.Order.{Compare, list_compare, nat_compare, by_key}
use kleym.Prelude.Sort.{sort}
use kleym.Errors.{
  Error, identity_state, Result, ok, err, error_text, is_not_found_error, is_no_match_error,
  is_forbidden_error,
}
use kleym.Platform.{Platform}
use kleym.Identity.{
  Plan, ResolvedInferenceTarget, condition_type_unsafe_selector, reason_invalid_pool_selector,
}
use kleym.Identity.Selectors.{occurs}
use kleym.Identity.Planning.{plan_identity}
use kleym.Api.{InferenceIdentityBinding}
use kleym.Gaie.{GroupVersionKind, PoolRef, binding_pool_ref, inference_pool_gvks}
use kleym.Gaie.Selector.{InferencePool, resolve_inference_target}
use kleym.Gaie.Resolver.{resolve_inference_pool}
use kleym.Spirecm.{build_cluster_spiffe_id_name, build_cluster_spiffe_id_hint, render_fallback}
use kleym.Cluster.{Prog, done, call, bind, rest_mapping, get_binding, list_pods, Pod}
use kleym.Inspection.{
  Severity, Capability, BindingInspectionTargetRef, BindingInspectionFinding,
  BindingInspectionMatchedPod, BindingInspectionSelectorProvenance, BindingInspectionReport,
  new_binding_inspection_report, normalize_binding_inspection_report, has_error_severity_finding,
}
use kleym.Inspection.Config.{Config, ResolvedIdentityConfig, resolve_identity_config}
use kleym.Inspection.Findings.{
  new_finding, finding_for_error, finding_invalid_ref, finding_rbac_limited, reason_rbac_limited,
  finding_dependency_missing, binding_not_found_finding, read_binding_failure,
  zero_matched_pods_finding, unsupported_selector_finding, identity_config_undiscovered_finding,
  pod_resource_target_ref, binding_inspection_binding_ref, binding_inspection_binding_target_ref,
  pool_ref_to_report_ref,
}
use kleym.Inspection.Selection.{
  WorkloadSelection, workload_selection_from_selectors, matched_pods_from_pods,
  pod_selector_match_labels,
}
use kleym.Inspection.Binding.{
  BindingInspector, InspectionError, Inspected, Rendered, add_finding, with_gaie_resources,
  with_pods, with_pool_ref,
}

abbrev is_safety_selector : Text → Bool
is_safety_selector s = has_prefix s (codes "k8s:ns:") || has_prefix s (codes "k8s:sa:")

unfoldable pub selector_provenance : Plan → List Text → BindingInspectionSelectorProvenance
selector_provenance rendered pool_derived = record {
  pool_derived_selectors = sort pool_derived;
  safety_selectors =
      sort (keep (λ s. not (occurs s pool_derived) && is_safety_selector s) rendered.selectors);
}

-- The error of `ResolveInferenceTarget` as a state error of the identity package.
abbrev invalid_pool_selector : Error → Error
invalid_pool_selector e = identity_state (record {
  condition_type = condition_type_unsafe_selector;
  reason = reason_invalid_pool_selector;
  message = error_text e;
})

module _ (i : BindingInspector) (b : InferenceIdentityBinding) (c : ResolvedIdentityConfig) where
  -- The report of an identity that could be rendered.
  unfoldable pub report_plan :
      Plan → ResolvedInferenceTarget → BindingInspectionReport → BindingInspectionReport
  report_plan plan target r =
      let provenance = selector_provenance plan target.derived_selectors in
      with_gaie_resources Capability.full (record r {
        resolved = record r.resolved {
          pool_selector = some target.pod_selector;
          selector_provenance = some provenance;
        };
        rendered_identity = record {
          spiffe_id = plan.spiffe_id;
          pod_selector = some plan.pod_selector;
          workload_selectors = plan.selectors;
          selector_provenance = some provenance;
        };
        rendered_cluster_spiffe_id = record {
          name =
              build_cluster_spiffe_id_name i.platform.sha1 b.namespace b.name
                plan.identity_anchor.kind plan.spiffe_id;
          spiffe_id = plan.spiffe_id;
          pod_selector = some plan.pod_selector;
          workload_selectors = plan.selectors;
          hint = build_cluster_spiffe_id_hint b;
          class_name = c.cluster_spiffe_id_class_name;
          fallback = some render_fallback;
        };
      })

  after_plan : ResolvedInferenceTarget → BindingInspectionReport → Result Plan → Rendered
  after_plan target r (ok plan) = (some plan, report_plan plan target r)
  after_plan target r (err e) = (
    none,
    add_finding (finding_for_error e (binding_inspection_binding_target_ref b) [])
        (with_gaie_resources Capability.full r),
  )

  after_target :
      BindingInspectionTargetRef
      → BindingInspectionReport
      → Result ResolvedInferenceTarget
      → Rendered
  unfolding after_plan
  after_target ref r (ok target) = after_plan target r (
      plan_identity i.platform.validation (record {
        namespace = b.namespace;
        service_account_name = b.spec.service_account_name;
        trust_domain = c.trust_domain;
        variant = b.spec.identity_boundary.variant;
        target = target;
      }))
  after_target ref r (err e) = (
    none,
    add_finding (finding_for_error (invalid_pool_selector e) ref [])
        (with_gaie_resources Capability.full r),
  )

  after_pool : PoolRef → BindingInspectionReport → Result InferencePool → Rendered
  unfolding after_target
  after_pool ref r (ok pool) =
      let report_ref = pool_ref_to_report_ref ref pool.gvk in
      after_target report_ref (with_pool_ref report_ref r)
        (resolve_inference_target i.platform pool)
  after_pool ref r (err e) =
      let report_ref =
        pool_ref_to_report_ref ref
          (record { group = []; version = []; kind = codes "InferencePool" }) in
      (
        none,
        add_finding (finding_for_error e report_ref [])
            (with_gaie_resources Capability.partial (with_pool_ref report_ref r)),
      )

  after_pool_ref : List GroupVersionKind → BindingInspectionReport → Result PoolRef → Prog Rendered
  unfolding after_pool
  after_pool_ref available r (ok ref) =
      bind (resolve_inference_pool available ref) λ found. done (after_pool ref r found)
  after_pool_ref available r (err e) = done (
    none,
    add_finding (finding_for_error e (binding_inspection_binding_target_ref b) finding_invalid_ref)
        (with_gaie_resources Capability.partial r),
  )

  unfoldable pub inspect_rendered_identity :
      List GroupVersionKind → BindingInspectionReport → Prog Rendered
  unfolding after_pool_ref
  inspect_rendered_identity available r = after_pool_ref available r (binding_pool_ref b)
