-- ===== src/Examples/Inspection.antt =====
-- The theorems of the inspection applied to small inputs.
use mathlib.Core.List.{mem-cons_self}
use kleym.Prelude.{◌≡◌, ◌↔◌, refl, false, none, List, [], ◌∷◌, Mem, keep}
use kleym.Prelude.Text.{codes, text_eq, trim_space, has_prefix, trim_prefix, contains, cut}
use kleym.Prelude.Order.{list_compare, nat_compare}
use kleym.Prelude.Sort.{sort}
use kleym.Errors.{ok}
use kleym.Identity.Planning.Outcome.{plan_of}
use kleym.Api.{Condition, condition_true, InferenceIdentityBinding}
use kleym.Gaie.{GroupVersionKind, inference_pool_gvks}
use kleym.Cluster.{Call, Reply, run, bind, get_binding, list_all_bindings}
use kleym.Controller.Render.{render_identity_for_binding}
use kleym.Controller.Config.Accepted.{IsAccepted}
use kleym.Controller.Status.Conditions.{conflict, name_of}
use kleym.Inspection.{
  BindingInspectionMatchedPod, BindingInspectionReport, new_binding_inspection_report,
}
use kleym.Inspection.Config.{Config, normalized_inspection_identity_config, resolve_identity_config}
use kleym.Inspection.Config.Settings.{
  as_operator_config, chosen, normalized_inspection_identity_config_iff,
}
use kleym.Inspection.Selection.{workload_selection_from_selectors, matched_pods_from_pods}
use kleym.Inspection.Selection.Scope.{Owned, plan_identity-matched_pods}
use kleym.Inspection.Binding.{BindingInspector}
use kleym.Inspection.Binding.Run.{filter_available_inspection_gvks, inspect_binding}
use kleym.Inspection.Binding.Render.{inspect_rendered_identity}
use kleym.Inspection.Binding.Render.Agreement.{
  reconciler_for, Agrees, inspect_rendered_identity-Agrees,
}
use kleym.Inspection.Binding.Run.Clean.{Faithful, inspect_binding-Faithful}
use kleym.Inspection.Status.{StatusResult, StatusReport, new_status_report}
use kleym.Inspection.Status.Bindings.{inspect_bindings}
use kleym.Inspection.Status.Bindings.Counts.{Counts, inspect_bindings-Counts}
use kleym.Inspection.Status.Run.{StatusInspector, status}
use kleym.Inspection.Status.Run.Health.{IsHealthy, status-IsHealthy}
use kleym.Inspection.Print.{text_condition_needs_detail}
use kleym.Inspection.Print.Details.{swap_conflict, is_trouble, text_condition_needs_detail-eq}
use kleym.Value.{lookup_field}
use kleym.Identity.Boundary.{validate_variant}
use kleym.Identity.Selectors.{unique_and_sorted}
use kleym.Identity.Planning.{
  plan_identity, render_safety_selectors, validate_identity_anchor,
  validate_rendered_safety_selectors, render_inference_target_spiffe_id,
}
use kleym.Gaie.{
  binding_pool_ref, is_supported_inference_pool_group, supported_pool_gvks_for_group,
  resolve_pool_gvks, candidate_pool_gvks,
}
use kleym.Gaie.Resolver.{resolve_by_candidates, resolve_inference_pool}
use kleym.Gaie.Selector.{derive_selectors_from_pool, resolve_inference_target}
use kleym.Spirecm.{insert_text, lookup_text}
use kleym.Cluster.{try_bind}
use kleym.Inspection.{
  has_error_severity_finding, has_warning_severity_finding, normalize_binding_inspection_report,
}
use kleym.Inspection.Binding.Pods.{inspect_matched_pods, list_matching_pods}
use kleym.Inspection.Binding.Run.{finish_report, report_identity_config}
use kleym.Inspection.Binding.Render.{report_plan}
use kleym.Inspection.Selection.{
  select_all, select, labels_match, pod_matches_selection, matching_pod_containers,
  pod_selector_match_labels, add_labels,
}
use kleym.Inspection.Status.{normalize_status_report, ◌>>◌}
use kleym.Inspection.Status.Dependencies.{inspect_crds, crd_available, available_versions}
use kleym.Inspection.Status.Operator.{
  inspect_operator, operator_status_from_deployment, operator_container,
  fill_config_from_deployment, fill_config_from_args,
}
use kleym.Inspection.Status.Bindings.{
  inspect_each, inspect_one, add_binding, count_result, binding_result,
  fill_config_from_binding_observations, observed_config_value,
}
use kleym.Inspection.Status.Run.{finish_status_report, conclude}
use kleym.Examples.{rejecting, input_x, planned_x}
use kleym.Examples.Controller.{find_condition, full_platform, binding, pods, served}

abbrev config : Config
config = record {
  trust_domain = codes "";
  trust_domain_override = false;
  cluster_spiffe_id_class_name = codes "";
  cluster_spiffe_id_class_name_override = false;
}

normalized_inspection_identity_config_iff_example :
    (normalized_inspection_identity_config config
      ≡ ok (record config { trust_domain = chosen config }))
    ↔ (IsAccepted (as_operator_config (chosen config) (codes ""))
        × (◌≡◌ {A = Config}
            (record config { trust_domain = chosen config })
            (record config { trust_domain = chosen config })))
normalized_inspection_identity_config_iff_example =
    normalized_inspection_identity_config_iff config
      (record config { trust_domain = chosen config })

abbrev pub inspector : BindingInspector
inspector = record {
  platform = full_platform;
  now = codes "now";
  identity_config = config;
  gvk_text = λ gvk. gvk.kind;
}

abbrev pub answer : (c : Call) → Reply c
answer = served (binding ∷ [])

inspect_rendered_identity-Agrees_example :
    Agrees inspector binding
      (resolve_identity_config config binding)
      new_binding_inspection_report
      (run answer (
        render_identity_for_binding
          (reconciler_for inspector binding
            (resolve_identity_config config binding)
            inference_pool_gvks)
          binding)).0
      (run answer (
        inspect_rendered_identity inspector binding
          (resolve_identity_config config binding)
          inference_pool_gvks
          new_binding_inspection_report))
inspect_rendered_identity-Agrees_example =
    inspect_rendered_identity-Agrees inspector binding (resolve_identity_config config binding)
      answer inference_pool_gvks new_binding_inspection_report

abbrev report : BindingInspectionReport
report = (run answer (inspect_binding inspector (codes "ns") (codes "a"))).0

clean : run answer (inspect_binding inspector (codes "ns") (codes "a")) ≡ (report, none)
unfolding run bind try_bind inspect_binding served codes filter_available_inspection_gvks
    inspect_rendered_identity inspect_matched_pods list_matching_pods finish_report report_plan
    report_identity_config resolve_identity_config binding_pool_ref
    is_supported_inference_pool_group supported_pool_gvks_for_group resolve_pool_gvks
    candidate_pool_gvks keep resolve_by_candidates resolve_inference_pool derive_selectors_from_pool
    resolve_inference_target lookup_field plan_identity validate_variant render_safety_selectors
    validate_identity_anchor validate_rendered_safety_selectors render_inference_target_spiffe_id
    unique_and_sorted text_eq trim_space has_prefix trim_prefix contains
    workload_selection_from_selectors select_all select cut insert_text labels_match
    pod_matches_selection matching_pod_containers matched_pods_from_pods pod_selector_match_labels
    add_labels lookup_text sort has_error_severity_finding normalize_binding_inspection_report
    new_binding_inspection_report
clean = refl

inspect_binding-Faithful_example :
    (b : InferenceIdentityBinding) × (available : List GroupVersionKind) × (answer
        (get_binding (record { namespace = codes "ns"; name = codes "a" }))
      ≡ ok b)
    × (run answer (filter_available_inspection_gvks inspector.gvk_text inference_pool_gvks)
        ≡ ok available)
    × Faithful inspector b (resolve_identity_config config b) answer available report
inspect_binding-Faithful_example =
    inspect_binding-Faithful inspector (codes "ns") (codes "a") answer report clean

abbrev matched : BindingInspectionMatchedPod
matched = record { namespace = codes "ns"; pod = codes "pod-1"; container = codes "" }

abbrev matches : List BindingInspectionMatchedPod
matches =
    matched_pods_from_pods pods (workload_selection_from_selectors (plan_of input_x).selectors)

matched-mem : Mem matched matches
unfolding codes matched_pods_from_pods workload_selection_from_selectors select_all select cut
    insert_text labels_match pod_matches_selection matching_pod_containers has_prefix trim_prefix
    text_eq lookup_text unique_and_sorted sort trim_space
matched-mem = mem-cons_self

plan_identity-matched_pods_example : ∥ Owned (codes "ns") (codes "sa") pods matched ∥₁
unfolding codes
plan_identity-matched_pods_example =
    plan_identity-matched_pods rejecting input_x (plan_of input_x) pods matched planned_x refl refl
      matched-mem

inspect_bindings-Counts_example :
    Counts find_condition
      (binding ∷ binding ∷ [])
      new_status_report.summary
      (inspect_bindings find_condition (binding ∷ binding ∷ []) new_status_report).summary
inspect_bindings-Counts_example =
    inspect_bindings-Counts find_condition (binding ∷ binding ∷ []) new_status_report

abbrev status_inspector : StatusInspector
status_inspector = record {
  platform = full_platform;
  now = codes "now";
  gvk_text = λ gvk. gvk.kind;
}

abbrev status_report : StatusReport
status_report = (run answer (status status_inspector)).0

healthy :
    (run answer (status status_inspector) ≡ (status_report, none))
    × (status_report.status ≡ StatusResult.okay)
unfolding run bind try_bind served codes status inspect_crds crd_available available_versions
    inspect_operator operator_status_from_deployment operator_container fill_config_from_deployment
    ◌>>◌ new_status_report fill_config_from_args has_prefix trim_prefix normalize_status_report
    finish_status_report conclude inspect_bindings inspect_each inspect_one add_binding count_result
    binding_result find_condition fill_config_from_binding_observations has_error_severity_finding
    has_warning_severity_finding text_eq observed_config_value
healthy = (refl, refl)

status-IsHealthy_example :
    (bs : List InferenceIdentityBinding) × (answer list_all_bindings ≡ ok bs)
    × IsHealthy find_condition answer bs status_report
status-IsHealthy_example =
    status-IsHealthy status_inspector answer status_report healthy.0 healthy.1

abbrev exclusive : Condition
exclusive = record {
  condition_type = name_of conflict;
  status = condition_true;
  observed_generation = 1;
  reason = codes "VariantConflict";
  message = codes "m";
}

text_condition_needs_detail-eq_example :
    text_condition_needs_detail exclusive
    ≡ swap_conflict conflict condition_true (is_trouble conflict condition_true)
text_condition_needs_detail-eq_example = text_condition_needs_detail-eq conflict exclusive refl
