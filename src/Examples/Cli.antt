-- ===== src/Examples/Cli.antt =====
-- The theorems of the command line and of the names applied to small inputs.
use kleym.Prelude.{◌≡◌, refl, none, keep}
use kleym.Prelude.Text.{codes, text_eq, trim_space, has_prefix, trim_prefix, contains, cut}
use kleym.Prelude.Order.{list_compare, nat_compare}
use kleym.Prelude.Sort.{sort}
use kleym.Errors.{ok}
use kleym.Cluster.{run, bind}
use kleym.Inspection.{BindingInspectionReport, new_binding_inspection_report}
use kleym.Inspection.Config.{resolve_identity_config}
use kleym.Inspection.Selection.{workload_selection_from_selectors, matched_pods_from_pods}
use kleym.Inspection.Binding.{BindingInspector}
use kleym.Inspection.Binding.Run.{filter_available_inspection_gvks, inspect_binding}
use kleym.Inspection.Binding.Render.{inspect_rendered_identity}
use kleym.Value.{lookup_field}
use kleym.Identity.Boundary.{validate_variant}
use kleym.Identity.Selectors.{unique_and_sorted}
use kleym.Identity.Planning.{
  plan_identity, render_safety_selectors, validate_identity_anchor,
  validate_rendered_safety_selectors, render_inference_target_spiffe_id,
}
use kleym.Gaie.{
  binding_pool_ref, is_supported_inference_pool_group, supported_pool_gvks_for_group,
  resolve_pool_gvks, candidate_pool_gvks,
}
use kleym.Gaie.Resolver.{resolve_by_candidates, resolve_inference_pool}
use kleym.Gaie.Selector.{derive_selectors_from_pool, resolve_inference_target}
use kleym.Spirecm.{insert_text, lookup_text}
use kleym.Cluster.{try_bind}
use kleym.Inspection.{
  has_error_severity_finding, has_warning_severity_finding, normalize_binding_inspection_report,
}
use kleym.Inspection.Binding.Pods.{inspect_matched_pods, list_matching_pods}
use kleym.Inspection.Binding.Run.{finish_report, report_identity_config}
use kleym.Inspection.Binding.Render.{report_plan}
use kleym.Inspection.Selection.{
  select_all, select, labels_match, pod_matches_selection, matching_pod_containers,
  pod_selector_match_labels, add_labels,
}
use kleym.Examples.Controller.{served}
use kleym.Errors.{Error, Result}
use kleym.Prelude.Text.{Text}
use kleym.Examples.Inspection.{inspector, answer}
use kleym.Inspection.Config.{validate_operator_identity_config}
use kleym.Prelude.{ℕ, true, Option, ◌≤◌, length, any, arith}
use kleym.Cli.{
  Options, inspect_binding_command, validate_runnable_options, validate_status_options,
  is_valid_output_format, should_write_binding_inspection_report, inspection_exit_code,
}
use kleym.Cli.Exit.{Inspects, inspect_binding_command-Inspects}
use kleym.Spirecm.{
  sanitize_dns_label, trim_hyphens, trim_hyphens_left, trim_hyphens_right, write_label,
  is_alpha_num, to_lower, build_cluster_spiffe_id_name, max_dns_label_length,
}
use kleym.Spirecm.Naming.{length-build_cluster_spiffe_id_name}

abbrev options : Options
options = record {
  namespace = codes "ns";
  output = codes "text";
  strict = true;
  timeout = 30;
  trust_domain = codes "td";
  cluster_spiffe_id_class_name = codes "";
}

abbrev duration_text : ℕ → Text
duration_text n = codes "30s"

abbrev written : BindingInspectionReport → Option Error
written r = none

exits :
    run answer (inspect_binding_command duration_text written options (codes "a") (ok inspector))
    ≡ 0
unfolding run bind try_bind inspect_binding served codes filter_available_inspection_gvks
    inspect_rendered_identity inspect_matched_pods list_matching_pods finish_report report_plan
    report_identity_config resolve_identity_config binding_pool_ref
    is_supported_inference_pool_group supported_pool_gvks_for_group resolve_pool_gvks
    candidate_pool_gvks keep resolve_by_candidates resolve_inference_pool derive_selectors_from_pool
    resolve_inference_target lookup_field plan_identity validate_variant render_safety_selectors
    validate_identity_anchor validate_rendered_safety_selectors render_inference_target_spiffe_id
    unique_and_sorted text_eq trim_space has_prefix trim_prefix contains
    workload_selection_from_selectors select_all select cut insert_text labels_match
    pod_matches_selection matching_pod_containers matched_pods_from_pods pod_selector_match_labels
    add_labels lookup_text sort has_error_severity_finding normalize_binding_inspection_report
    new_binding_inspection_report inspect_binding_command validate_runnable_options
    validate_status_options is_valid_output_format any should_write_binding_inspection_report
    inspection_exit_code validate_operator_identity_config has_warning_severity_finding
exits = refl

inspect_binding_command-Inspects_example :
    (i : BindingInspector) × (◌≡◌ {A = Result BindingInspector} (ok inspector) (ok i))
    × Inspects duration_text written answer options (codes "a") i
inspect_binding_command-Inspects_example =
    inspect_binding_command-Inspects duration_text written answer options (codes "a") (ok inspector)
      exits

short_kind : length (sanitize_dns_label (codes "pool")) ≤ 48
unfolding codes sanitize_dns_label trim_hyphens trim_hyphens_left trim_hyphens_right write_label
    is_alpha_num to_lower trim_space
short_kind = omega arith

length-build_cluster_spiffe_id_name_example :
    length (
      build_cluster_spiffe_id_name
        (λ bytes. bytes)
        (codes "ns")
        (codes "a")
        (codes "pool")
        (codes "spiffe://td/x"))
    ≤ max_dns_label_length
length-build_cluster_spiffe_id_name_example =
    length-build_cluster_spiffe_id_name (λ bytes. bytes) (codes "ns") (codes "a") (codes "pool")
      (codes "spiffe://td/x") short_kind
