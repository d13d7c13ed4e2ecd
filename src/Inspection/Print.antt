-- ===== src/Inspection/Print.antt =====
-- The text output of internal/inspection/report.go: the lines of a binding's report, without their line ends. The
-- JSON output is encoding/json's.
pub mod Details
use kleym.Prelude.{
  ℕ, zero, suc, ◌+◌, Bool, true, false, not, ◌&&◌, ◌||◌, Option, none, some, List, [], ◌∷◌, ◌++◌,
  is_nil, map, length, ◌==◌, if◌then◌else◌,
}
use kleym.Prelude.Text.{Text, codes, text_eq, join, trim_space}
use kleym.Prelude.Order.{list_compare, nat_compare}
use kleym.Prelude.Sort.{sort}
use kleym.Spirecm.{lookup_text}
use kleym.Api.{ConditionStatus, condition_true, condition_false, condition_unknown, Condition}
use kleym.Inspection.{
  Severity, Capability, BindingInspectionTargetRef, BindingInspectionFinding,
  BindingInspectionMatchedPod, BindingInspectionRenderedIdentity,
  BindingInspectionRenderedClusterSpiffeId, BindingInspectionReport, has_error_severity_finding,
  normalize_binding_inspection_report,
}
use kleym.Inspection.Selection.{WorkloadSelection, workload_selection_from_selectors}

unfoldable pub text_string : Text → Text
text_string [] = codes "(none)"
text_string value = value

unfoldable pub text_namespaced_name : Text → Text → Text
text_namespaced_name namespace name =
    if is_nil namespace
    then text_string name
    else if is_nil name
    then namespace ++ codes "/(none)"
    else namespace ++ codes "/" ++ name

abbrev or_kind : Text → Text → Text
or_kind [] fallback_kind = fallback_kind
or_kind kind fallback_kind = kind

unfoldable pub text_short_target_ref : Option BindingInspectionTargetRef → Text → Text
text_short_target_ref none fallback_kind = codes "(missing)"
text_short_target_ref (some ref) fallback_kind =
    trim_space
      (or_kind ref.kind fallback_kind ++ codes " " ++ text_namespaced_name ref.namespace ref.name)

unfoldable pub first_target_ref :
    Option BindingInspectionTargetRef
    → Option BindingInspectionTargetRef
    → Option BindingInspectionTargetRef
first_target_ref (some ref) other = some ref
first_target_ref none other = other

unfoldable pub text_finding_severity : Severity → Text
text_finding_severity Severity.error = codes "Error"
text_finding_severity Severity.warning = codes "Warning"
text_finding_severity Severity.info = codes "Info"

abbrev is_true : ConditionStatus → Bool
is_true condition_true = true
is_true _ = false

abbrev is_unknown : ConditionStatus → Bool
is_unknown condition_unknown = true
is_unknown _ = false

abbrev status_text : ConditionStatus → Text
status_text condition_true = codes "True"
status_text condition_false = codes "False"
status_text condition_unknown = codes "Unknown"

unfoldable pub text_condition_needs_detail : Condition → Bool
text_condition_needs_detail c =
    let t = c.condition_type in
    if is_unknown c.status
    then true
    else if text_eq t (codes "Ready")
        || text_eq t (codes "Resolved")
        || text_eq t (codes "Rendered")
    then not (is_true c.status)
    else if text_eq t (codes "InvalidRef")
        || text_eq t (codes "UnsafeSelector")
        || text_eq t (codes "RenderFailure")
    then is_true c.status
    else not (is_true c.status)

unfoldable pub text_condition_list : Text → List Condition → List Text
text_condition_list indent [] = (indent ++ codes "none") ∷ []
text_condition_list indent (c ∷ cs) = lines (c ∷ cs)
  where
    detail : Condition → List Text
    detail c =
        if not (text_condition_needs_detail c)
        then []
        else (indent ++ codes "    Reason: " ++ text_string c.reason)
          ∷ (indent ++ codes "    Message: " ++ text_string c.message)
          ∷ []

    lines : List Condition → List Text
    lines [] = []
    lines (c ∷ cs) =
        (indent ++ c.condition_type ++ codes "=" ++ status_text c.status) ∷ detail c ++ lines cs

unfoldable pub leading_spaces : Text → ℕ
leading_spaces [] = 0
leading_spaces (c ∷ s) = let rest = leading_spaces s in if not (c == b' ') then 0 else suc rest

spaces : ℕ → Text
spaces zero = []
spaces (suc n) = b' ' ∷ spaces n

list_items : Text → List Text → List Text
list_items indent [] = (indent ++ codes "none") ∷ []
list_items indent values = map (λ value. indent ++ codes "- " ++ value) values

unfoldable pub text_string_list : Text → List Text → List Text
unfolding spaces list_items
text_string_list label values =
    (label ++ codes ":") ∷ list_items (spaces (leading_spaces label + 2)) values

-- A line for a value that is not empty.
abbrev labelled : Text → Text → List Text
labelled label [] = []
labelled label value = (label ++ value) ∷ []

abbrev keys : List (Text × Text) → List Text
keys labels = map (λ label. label.0) labels

label_lines : List (Text × Text) → List Text
label_lines [] = []
label_lines labels =
    (codes "    podLabels: "
      ++ join (map (λ key. key ++ codes "=" ++ lookup_text key labels) (sort (keys labels)))
          (codes ", "))
    ∷ []

container_lines : Option Text → List Text
container_lines none = []
container_lines (some name) = (codes "    container: " ++ name) ∷ []

unsupported_lines : List Text → List Text
unsupported_lines [] = []
unsupported_lines selectors = text_string_list (codes "    unsupported") selectors

unfoldable pub text_selector_summary : List Text → List Text
unfolding label_lines container_lines unsupported_lines
text_selector_summary selectors =
    let w = workload_selection_from_selectors selectors in
    codes "  Selectors:" ∷ labelled (codes "    namespace: ") w.namespace
    ++ labelled (codes "    serviceAccount: ") w.service_account
    ++ label_lines w.pod_labels
    ++ container_lines w.container_name
    ++ unsupported_lines w.unsupported_selectors

unfoldable pub text_identity : BindingInspectionRenderedIdentity → List Text
text_identity identity =
    if is_nil identity.spiffe_id
    then codes "  not rendered" ∷ []
    else (codes "  SPIFFE ID: " ++ identity.spiffe_id)
      ∷ text_selector_summary identity.workload_selectors

abbrev fallback_lines : Option Bool → List Text
fallback_lines (some true) = codes "  Fallback: true" ∷ []
fallback_lines (some false) = []
fallback_lines none = []

unfoldable pub text_cluster_spiffe_id : BindingInspectionRenderedClusterSpiffeId → List Text
text_cluster_spiffe_id o =
    if is_nil o.name
    then codes "  not rendered" ∷ []
    else (codes "  Name: " ++ o.name)
      ∷ (codes "  ClassName: " ++ text_string o.class_name)
      ∷ (codes "  Hint: " ++ text_string o.hint)
      ∷ fallback_lines o.fallback

abbrev container_suffix : Text → Text
container_suffix [] = []
container_suffix container = codes " container=" ++ container

pod_lines : List BindingInspectionMatchedPod → List Text
pod_lines [] = codes "  none" ∷ []
pod_lines pods =
    map (λ p. codes "  " ++ text_namespaced_name p.namespace p.pod ++ container_suffix p.container)
      pods

pods_by_capability : Capability → List BindingInspectionMatchedPod → List Text
unfolding pod_lines
pods_by_capability Capability.partial pods = codes "  unknown" ∷ []
pods_by_capability Capability.unknown pods = codes "  unknown" ∷ []
pods_by_capability Capability.skipped pods = codes "  skipped" ∷ []
pods_by_capability _ pods = pod_lines pods

unfoldable pub text_matched_pods : BindingInspectionReport → List Text
unfolding pods_by_capability
text_matched_pods r =
    if is_nil r.rendered_identity.spiffe_id
    then codes "  skipped" ∷ []
    else pods_by_capability r.capabilities.pods r.matched_pods

finding_lines : List BindingInspectionFinding → List Text
finding_lines [] = []
finding_lines (f ∷ fs) =
    (codes "  " ++ text_finding_severity f.severity ++ codes " " ++ text_string f.reason)
      ∷ labelled (codes "    ") f.message
    ++ finding_lines fs

unfoldable pub text_findings : List BindingInspectionFinding → List Text
unfolding finding_lines
text_findings [] = codes "Findings: none" ∷ []
text_findings findings = codes "Findings:" ∷ finding_lines findings

unfoldable pub text_exit_code : BindingInspectionReport → ℕ
text_exit_code r = elim r.exit_code [
  | some code ↦ code
  | none ↦ if has_error_severity_finding r.findings then 2 else 0
]

-- `writeBindingInspectionReportText`; `decimal` prints a number.
unfoldable pub binding_inspection_report_lines : (ℕ → Text) → BindingInspectionReport → List Text
binding_inspection_report_lines decimal report =
    let r = normalize_binding_inspection_report report in
    (codes "Binding: " ++ text_namespaced_name r.binding_ref.namespace r.binding_ref.name)
      ∷ (codes "Source: "
          ++ text_short_target_ref (first_target_ref r.resolved.pool_ref r.binding_ref.pool_ref)
              (codes "InferencePool"))
      ∷ []
      ∷ codes "Identity:"
      ∷ text_identity r.rendered_identity
    ++ [] ∷ codes "ClusterSPIFFEID:" ∷ text_cluster_spiffe_id r.rendered_cluster_spiffe_id
    ++ [] ∷ codes "Conditions:" ∷ text_condition_list (codes "  ") r.binding_ref.conditions
    ++ [] ∷ codes "Matched pods:" ∷ text_matched_pods r
    ++ [] ∷ text_findings r.findings
    ++ (codes "Exit code: " ++ decimal (text_exit_code r)) ∷ []
