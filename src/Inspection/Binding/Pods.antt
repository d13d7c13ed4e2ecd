-- ===== src/Inspection/Binding/Pods.antt =====
-- `inspectMatchedPods` of internal/inspection/inspection.go.
use kleym.Prelude.{not, none, some, List, [], ◌∷◌, ◌++◌, is_nil, ◌≡◌, if◌then◌else◌}
use kleym.Prelude.Text.{Text, codes}
use kleym.Prelude.Order.{Compare, list_compare, nat_compare, by_key}
use kleym.Prelude.Sort.{sort}
use kleym.Errors.{Error, Result, ok, err, error_text, is_forbidden_error}
use kleym.Identity.{Plan}
use kleym.Api.{InferenceIdentityBinding}
use kleym.Cluster.{Prog, done, call, bind, list_pods, Pod}
use kleym.Inspection.{Severity, Capability, BindingInspectionMatchedPod, BindingInspectionReport}
use kleym.Inspection.Findings.{
  new_finding, finding_rbac_limited, reason_rbac_limited, finding_dependency_missing,
  zero_matched_pods_finding, unsupported_selector_finding, pod_resource_target_ref,
}
use kleym.Inspection.Selection.{
  WorkloadSelection, workload_selection_from_selectors, matched_pods_from_pods,
  pod_selector_match_labels,
}
use kleym.Inspection.Binding.{Rendered, add_finding, with_pods}

-- The order of `matchedPodSortKey`. Keys that are equal leave the order open: it is that of the fields here.
abbrev pod_key : BindingInspectionMatchedPod → List Text
pod_key p =
    (p.namespace ++ codes "/" ++ p.pod ++ codes "/" ++ p.container)
    ∷ p.namespace
    ∷ p.pod
    ∷ p.container
    ∷ []

pod_key-apart : (p q : BindingInspectionMatchedPod) → pod_key p ≡ pod_key q → p ≡ q
pod_key-apart p q h = cc

instance abbrev matched_pod_compare : Compare BindingInspectionMatchedPod
matched_pod_compare = by_key pod_key pod_key-apart

module _ (b : InferenceIdentityBinding) where
  -- A failure to list the pods is a warning, and what could be read decides the capability.
  unfoldable pub unreadable_pods : Error → BindingInspectionReport → BindingInspectionReport
  unreadable_pods e r =
      if is_forbidden_error e
      then add_finding
          (new_finding finding_rbac_limited Severity.warning reason_rbac_limited
            (codes "pods are not readable") (pod_resource_target_ref b.namespace))
          (with_pods Capability.partial r)
      else add_finding
          (new_finding finding_dependency_missing Severity.warning (codes "PodListFailed")
            (error_text e) (pod_resource_target_ref b.namespace))
          (with_pods Capability.unknown r)

  unfoldable pub report_pods :
      List BindingInspectionMatchedPod → BindingInspectionReport → BindingInspectionReport
  report_pods matched r =
      let reported = with_pods Capability.full (record r { matched_pods = sort matched }) in
      if is_nil matched then add_finding (zero_matched_pods_finding b) reported else reported

  unfoldable pub after_pods :
      WorkloadSelection → BindingInspectionReport → Result (List Pod) → BindingInspectionReport
  unfolding unreadable_pods report_pods
  after_pods selection r (ok pods) = report_pods (matched_pods_from_pods pods selection) r
  after_pods selection r (err e) = unreadable_pods e r

  unfoldable pub list_matching_pods : Plan → Prog (Result (List Pod))
  list_matching_pods plan = elim (pod_selector_match_labels plan.pod_selector) [
    | err e ↦ done (err e)
    | ok labels ↦ call (list_pods b.namespace labels) done
  ]

  unfoldable pub inspect_matched_pods : Rendered → Prog BindingInspectionReport
  unfolding after_pods
  inspect_matched_pods (none, r) = done r
  inspect_matched_pods (some plan, r) =
      let selection = workload_selection_from_selectors plan.selectors in
      if not (is_nil selection.unsupported_selectors)
      then done (
          add_finding (unsupported_selector_finding b selection.unsupported_selectors)
            (with_pods Capability.partial r))
      else bind (list_matching_pods plan) λ pods. done (after_pods selection r pods)
