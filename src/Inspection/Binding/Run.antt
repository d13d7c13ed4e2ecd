-- ===== src/Inspection/Binding/Run.antt =====
-- `InspectBinding` of internal/inspection/inspection.go.
pub mod Kept
pub mod Shown
pub mod Clean
use kleym.Prelude.{
  Bool, true, false, not, ◌&&◌, ◌||◌, Option, none, some, List, [], ◌∷◌, ◌++◌, keep, is_nil, ap,
  ap₂, ◌≡◌, if◌then◌else◌,
}
use kleym.Prelude.Text.{Text, codes, text_eq, has_prefix}
use kleym.Prelude.Order.{Compare, list_compare, nat_compare, by_key}
use kleym.Prelude.Sort.{sort}
use kleym.Errors.{
  Error, identity_state, Result, ok, err, error_text, is_not_found_error, is_no_match_error,
  is_forbidden_error,
}
use kleym.Platform.{Platform}
use kleym.Identity.{
  Plan, ResolvedInferenceTarget, condition_type_unsafe_selector, reason_invalid_pool_selector,
}
use kleym.Identity.Selectors.{occurs}
use kleym.Identity.Planning.{plan_identity}
use kleym.Api.{InferenceIdentityBinding}
use kleym.Gaie.{GroupVersionKind, PoolRef, binding_pool_ref, inference_pool_gvks}
use kleym.Gaie.Selector.{InferencePool, resolve_inference_target}
use kleym.Gaie.Resolver.{resolve_inference_pool}
use kleym.Spirecm.{build_cluster_spiffe_id_name, build_cluster_spiffe_id_hint, render_fallback}
use kleym.Cluster.{Prog, done, call, bind, rest_mapping, get_binding, list_pods, Pod}
use kleym.Inspection.{
  Severity, Capability, BindingInspectionTargetRef, BindingInspectionFinding,
  BindingInspectionMatchedPod, BindingInspectionSelectorProvenance, BindingInspectionReport,
  new_binding_inspection_report, normalize_binding_inspection_report, has_error_severity_finding,
}
use kleym.Inspection.Config.{Config, ResolvedIdentityConfig, resolve_identity_config}
use kleym.Inspection.Findings.{
  new_finding, finding_for_error, finding_invalid_ref, finding_rbac_limited, reason_rbac_limited,
  finding_dependency_missing, binding_not_found_finding, read_binding_failure,
  zero_matched_pods_finding, unsupported_selector_finding, identity_config_undiscovered_finding,
  pod_resource_target_ref, binding_inspection_binding_ref, binding_inspection_binding_target_ref,
  pool_ref_to_report_ref,
}
use kleym.Inspection.Selection.{
  WorkloadSelection, workload_selection_from_selectors, matched_pods_from_pods,
  pod_selector_match_labels,
}
use kleym.Inspection.Binding.{
  BindingInspector, InspectionError, Inspected, Rendered, add_finding, with_gaie_resources,
  with_pods, with_pool_ref,
}
use kleym.Inspection.Binding.Render.{inspect_rendered_identity}
use kleym.Inspection.Binding.Pods.{inspect_matched_pods}

module _ (gvk_text : GroupVersionKind → Text) where
  -- One round of the loop.
  after_mapping :
      GroupVersionKind
      → Prog (Result (List GroupVersionKind))
      → Result (Unit {0})
      → Prog (Result (List GroupVersionKind))
  after_mapping gvk rest (ok _) =
      bind rest λ r. elim r [ ok available ↦ done (ok (gvk ∷ available)) | err e ↦ done (err e) ]
  after_mapping gvk rest (err e) =
      if is_no_match_error e
      then rest
      else done (err (Error.wrapped (codes "resolve REST mapping for " ++ gvk_text gvk) e))

  unfoldable pub filter_available_inspection_gvks :
      List GroupVersionKind → Prog (Result (List GroupVersionKind))
  unfolding after_mapping
  filter_available_inspection_gvks [] = done (ok [])
  filter_available_inspection_gvks (gvk ∷ rest) =
      call (rest_mapping gvk) (after_mapping gvk (filter_available_inspection_gvks rest))

-- The report of `resolveIdentityConfig`.
unfoldable pub report_identity_config :
    InferenceIdentityBinding
    → ResolvedIdentityConfig
    → BindingInspectionReport
    → BindingInspectionReport
report_identity_config b c r =
    let reported = record r {
      identity_config = record {
        trust_domain = c.trust_domain;
        trust_domain_source = c.trust_domain_source;
        cluster_spiffe_id_class_name = c.cluster_spiffe_id_class_name;
        cluster_spiffe_id_class_name_source = c.cluster_spiffe_id_class_name_source;
      };
    } in
    if not c.discovered
    then add_finding (identity_config_undiscovered_finding b c) reported
    else reported

unfoldable pub finish_report : BindingInspectionReport → Inspected
finish_report r =
    let report = normalize_binding_inspection_report r in
    if has_error_severity_finding report.findings
    then (report, some InspectionError.error_findings)
    else (report, none)

module _ (i : BindingInspector) (available : List GroupVersionKind) where
  inspect_found : InferenceIdentityBinding → BindingInspectionReport → Prog Inspected
  inspect_found b r =
      let c = resolve_identity_config i.identity_config b in
      let started = report_identity_config b c (record r {
        capabilities = record r.capabilities {
          binding = Capability.full;
          peer_bindings = Capability.partial;
        };
        binding_ref = binding_inspection_binding_ref b;
      }) in
      bind (inspect_rendered_identity i b c available started)
        λ rendered. bind (inspect_matched_pods b rendered) λ report. done (finish_report report)

  after_binding :
      Text → Text → BindingInspectionReport → Result InferenceIdentityBinding → Prog Inspected
  unfolding inspect_found
  after_binding namespace name r (ok b) = inspect_found b r
  after_binding namespace name r (err e) =
      if is_not_found_error e
      then done (
        normalize_binding_inspection_report (
            add_finding (binding_not_found_finding namespace name)
              (record r { capabilities = record r.capabilities { binding = Capability.full } })),
        some InspectionError.binding_not_found,
      )
      else done (r, some (InspectionError.failure (read_binding_failure namespace name e)))

  inspect_served : Text → Text → BindingInspectionReport → Prog Inspected
  unfolding after_binding
  inspect_served namespace name r =
      call (get_binding (record { namespace = namespace; name = name })) (
        after_binding namespace name
          (record r { resolved = record r.resolved { served_gvks = available } }))

-- The discovery of the pool kinds comes first.
after_discovery :
    BindingInspector
    → Text
    → Text
    → BindingInspectionReport
    → Result (List GroupVersionKind)
    → Prog Inspected
unfolding inspect_served
after_discovery i namespace name r (ok available) = inspect_served i available namespace name r
after_discovery i namespace name r (err e) =
    done
      (r, some (InspectionError.failure (Error.wrapped (codes "discover served GAIE resources") e)))

abbrev first_report : BindingInspector → Text → Text → BindingInspectionReport
first_report i namespace name = record new_binding_inspection_report {
  generated_at = i.now;
  binding_ref = record {
    namespace = namespace;
    name = name;
    generation = 0;
    pool_ref = none;
    conditions = [];
  };
  capabilities = record new_binding_inspection_report.capabilities { pods = Capability.skipped };
}

unfoldable pub inspect_binding : BindingInspector → Text → Text → Prog Inspected
unfolding after_discovery
inspect_binding i namespace name =
    bind (filter_available_inspection_gvks i.gvk_text inference_pool_gvks)
      (after_discovery i namespace name (first_report i namespace name))
