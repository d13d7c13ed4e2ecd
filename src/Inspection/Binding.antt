-- ===== src/Inspection/Binding.antt =====
-- The inspector of internal/inspection/inspection.go and what its steps share.
pub mod Render
pub mod Pods
pub mod Run
use kleym.Prelude.{
  Bool, true, false, not, ◌&&◌, ◌||◌, Option, none, some, List, [], ◌∷◌, ◌++◌, keep, is_nil, ap,
  ap₂, ◌≡◌, if◌then◌else◌,
}
use kleym.Prelude.Text.{Text, codes, text_eq, has_prefix}
use kleym.Prelude.Order.{Compare, list_compare, nat_compare, by_key}
use kleym.Prelude.Sort.{sort}
use kleym.Errors.{
  Error, identity_state, Result, ok, err, error_text, is_not_found_error, is_no_match_error,
  is_forbidden_error,
}
use kleym.Platform.{Platform}
use kleym.Identity.{
  Plan, ResolvedInferenceTarget, condition_type_unsafe_selector, reason_invalid_pool_selector,
}
use kleym.Identity.Selectors.{occurs}
use kleym.Identity.Planning.{plan_identity}
use kleym.Api.{InferenceIdentityBinding}
use kleym.Gaie.{GroupVersionKind, PoolRef, binding_pool_ref, inference_pool_gvks}
use kleym.Gaie.Selector.{InferencePool, resolve_inference_target}
use kleym.Gaie.Resolver.{resolve_inference_pool}
use kleym.Spirecm.{build_cluster_spiffe_id_name, build_cluster_spiffe_id_hint, render_fallback}
use kleym.Cluster.{Prog, done, call, bind, rest_mapping, get_binding, list_pods, Pod}
use kleym.Inspection.{
  Severity, Capability, BindingInspectionTargetRef, BindingInspectionFinding,
  BindingInspectionMatchedPod, BindingInspectionSelectorProvenance, BindingInspectionReport,
  new_binding_inspection_report, normalize_binding_inspection_report, has_error_severity_finding,
}
use kleym.Inspection.Config.{Config, ResolvedIdentityConfig, resolve_identity_config}
use kleym.Inspection.Findings.{
  new_finding, finding_for_error, finding_invalid_ref, finding_rbac_limited, reason_rbac_limited,
  finding_dependency_missing, binding_not_found_finding, read_binding_failure,
  zero_matched_pods_finding, unsupported_selector_finding, identity_config_undiscovered_finding,
  pod_resource_target_ref, binding_inspection_binding_ref, binding_inspection_binding_target_ref,
  pool_ref_to_report_ref,
}
use kleym.Inspection.Selection.{
  WorkloadSelection, workload_selection_from_selectors, matched_pods_from_pods,
  pod_selector_match_labels,
}

-- `bindingInspector`: `now` is the text of its clock, and `gvk_text` is `GroupVersionKind.String`.
pub record BindingInspector : Type 0 where
  pub platform : Platform
  pub now : Text
  pub identity_config : Config
  pub gvk_text : GroupVersionKind → Text

-- The errors of `InspectBinding`: its two sentinels, and any other.
pub data InspectionError : Type 0 where
  binding_not_found error_findings : InspectionError
  failure : Error → InspectionError

-- A report, and the error that comes with it.
abbrev pub Inspected : Type 0
Inspected = BindingInspectionReport × Option InspectionError

abbrev pub add_finding :
    BindingInspectionFinding → BindingInspectionReport → BindingInspectionReport
add_finding f r = record r { findings = r.findings ++ f ∷ [] }

abbrev pub with_gaie_resources : Capability → BindingInspectionReport → BindingInspectionReport
with_gaie_resources c r = record r { capabilities = record r.capabilities { gaie_resources = c } }

abbrev pub with_pods : Capability → BindingInspectionReport → BindingInspectionReport
with_pods c r = record r { capabilities = record r.capabilities { pods = c } }

abbrev pub with_pool_ref :
    BindingInspectionTargetRef → BindingInspectionReport → BindingInspectionReport
with_pool_ref ref r = record r { resolved = record r.resolved { pool_ref = some ref } }

-- The plan, if the identity could be rendered, and the report.
abbrev pub Rendered : Type 0
Rendered = Option Plan × BindingInspectionReport
