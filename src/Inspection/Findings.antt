-- ===== src/Inspection/Findings.antt =====
-- The findings of internal/inspection/inspection.go and the references that they name.
use kleym.Prelude.{Bool, true, false, none, some, List, [], ◌∷◌, ◌++◌, is_nil, if◌then◌else◌}
use kleym.Prelude.Text.{Text, codes, text_eq, has_suffix, join, quote}
use kleym.Errors.{
  StateError, Error, error_text, as_identity_error, as_gaie_error, is_forbidden_error,
}
use kleym.Identity.{condition_type_unsafe_selector, condition_type_render_failure}
use kleym.Api.{InferenceIdentityBinding}
use kleym.Gaie.{GroupVersionKind, PoolRef, condition_type_invalid_ref}
use kleym.Inspection.{
  Severity, BindingInspectionTargetRef, BindingInspectionFinding, BindingInspectionBindingRef,
}
use kleym.Inspection.Config.{ResolvedIdentityConfig, source_flag}

abbrev pub finding_binding_not_found : Text
finding_binding_not_found = codes "binding-not-found"

abbrev pub finding_invalid_ref : Text
finding_invalid_ref = codes "invalid-ref"

abbrev pub finding_dependency_missing : Text
finding_dependency_missing = codes "dependency-missing"

abbrev pub finding_unsafe_selector : Text
finding_unsafe_selector = codes "unsafe-selector"

abbrev pub finding_render_failure : Text
finding_render_failure = codes "render-failure"

abbrev pub finding_rbac_limited : Text
finding_rbac_limited = codes "rbac-limited"

abbrev pub reason_rbac_limited : Text
reason_rbac_limited = codes "Forbidden"

-- `firstNonEmpty` of two.
unfoldable pub first_non_empty : Text → Text → Text
first_non_empty [] t = t
first_non_empty s t = s

or_dependency_missing : Text → Text
or_dependency_missing fallback_id =
    if is_nil fallback_id then finding_dependency_missing else fallback_id

unfoldable pub finding_id_for_state_error : StateError → Text → Text
unfolding or_dependency_missing
finding_id_for_state_error e fallback_id =
    if has_suffix e.reason (codes "CRDMissing")
    then finding_dependency_missing
    else if text_eq e.condition_type condition_type_unsafe_selector
    then finding_unsafe_selector
    else if text_eq e.condition_type condition_type_render_failure
    then finding_render_failure
    else or_dependency_missing fallback_id

unfoldable pub finding_id_for_gaie_state_error : StateError → Text → Text
unfolding or_dependency_missing
finding_id_for_gaie_state_error e fallback_id =
    if has_suffix e.reason (codes "CRDMissing")
    then finding_dependency_missing
    else if text_eq e.condition_type condition_type_invalid_ref
    then finding_invalid_ref
    else or_dependency_missing fallback_id

abbrev pub new_finding :
    Text → Severity → Text → Text → BindingInspectionTargetRef → BindingInspectionFinding
new_finding id severity reason message ref = record {
  id = id;
  severity = severity;
  reason = reason;
  message = message;
  affected_refs = ref ∷ [];
}

-- An error without a state error in its chain.
unfoldable pub other_finding : Error → BindingInspectionTargetRef → Text → BindingInspectionFinding
unfolding or_dependency_missing
other_finding e ref fallback_id =
    if is_forbidden_error e
    then new_finding finding_rbac_limited Severity.error reason_rbac_limited (error_text e) ref
    else new_finding (or_dependency_missing fallback_id) Severity.error (codes "InspectionFailed")
        (error_text e) ref

unfoldable pub finding_for_error :
    Error → BindingInspectionTargetRef → Text → BindingInspectionFinding
unfolding other_finding
finding_for_error e ref fallback_id = elim (as_identity_error e) [
  | some s ↦
      new_finding (finding_id_for_state_error s fallback_id) Severity.error s.reason s.message ref
  | none ↦ elim (as_gaie_error e) [
    | some s ↦
        new_finding (finding_id_for_gaie_state_error s fallback_id) Severity.error s.reason
          s.message ref
    | none ↦ other_finding e ref fallback_id
  ]
]

-- `kleymv1alpha1.GroupVersion` and the kind of a binding.
abbrev binding_target_ref_of : Text → Text → BindingInspectionTargetRef
binding_target_ref_of namespace name = record {
  name = name;
  namespace = namespace;
  group = codes "kleym.sonda.red";
  version = codes "v1alpha1";
  kind = codes "InferenceIdentityBinding";
}

unfoldable pub binding_inspection_binding_target_ref :
    InferenceIdentityBinding → BindingInspectionTargetRef
binding_inspection_binding_target_ref b = binding_target_ref_of b.namespace b.name

-- `identity.NamespacedBindingKey` in quotes.
abbrev quoted_key : Text → Text → Text
quoted_key namespace name = quote (namespace ++ codes "/" ++ name)

unfoldable pub binding_not_found_finding : Text → Text → BindingInspectionFinding
binding_not_found_finding namespace name =
    new_finding finding_binding_not_found Severity.error (codes "NotFound")
      (codes "InferenceIdentityBinding " ++ quoted_key namespace name ++ codes " was not found")
      (binding_target_ref_of namespace name)

unfoldable pub read_binding_failure : Text → Text → Error → Error
read_binding_failure namespace name e =
    Error.wrapped (codes "read InferenceIdentityBinding " ++ quoted_key namespace name) e

unfoldable pub zero_matched_pods_finding : InferenceIdentityBinding → BindingInspectionFinding
zero_matched_pods_finding b =
    new_finding (codes "zero-matched-pods") Severity.info (codes "ZeroMatchedPods")
      (codes "no currently readable pods match the rendered identity selectors")
      (binding_inspection_binding_target_ref b)

unfoldable pub unsupported_selector_finding :
    InferenceIdentityBinding → List Text → BindingInspectionFinding
unsupported_selector_finding b selectors =
    new_finding (codes "unsupported-selector") Severity.warning (codes "UnsupportedSelector")
      (codes
          "matched pods cannot be fully evaluated because rendered selectors are unsupported by CLI pod inspection: "
        ++ join selectors (codes ", "))
      (binding_inspection_binding_target_ref b)

source_summary : Bool → Bool → Text
source_summary true true = codes "CLI flags"
source_summary true false = codes "CLI flags and defaults"
source_summary false true = codes "CLI flags and defaults"
source_summary false false = codes "CLI defaults"

unfoldable pub identity_config_undiscovered_finding :
    InferenceIdentityBinding → ResolvedIdentityConfig → BindingInspectionFinding
unfolding source_summary
identity_config_undiscovered_finding b c =
    new_finding (codes "identity-config-undiscovered") Severity.warning
      (codes "IdentityConfigUndiscovered")
      (codes "operator config was not discovered from InferenceIdentityBinding status; using "
        ++ source_summary (text_eq c.trust_domain_source source_flag)
            (text_eq c.cluster_spiffe_id_class_name_source source_flag))
      (binding_inspection_binding_target_ref b)

unfoldable pub pod_resource_target_ref : Text → BindingInspectionTargetRef
pod_resource_target_ref namespace = record {
  name = codes "pods";
  namespace = namespace;
  group = [];
  version = codes "v1";
  kind = codes "Pod";
}

unfoldable pub binding_inspection_binding_ref :
    InferenceIdentityBinding → BindingInspectionBindingRef
binding_inspection_binding_ref b = record {
  namespace = b.namespace;
  name = b.name;
  generation = b.generation;
  pool_ref = some (record {
    name = b.spec.pool_ref.name;
    namespace = b.namespace;
    group = b.spec.pool_ref.group;
    version = [];
    kind = codes "InferencePool";
  });
  conditions = b.status.conditions;
}

unfoldable pub pool_ref_to_report_ref : PoolRef → GroupVersionKind → BindingInspectionTargetRef
pool_ref_to_report_ref ref gvk = record {
  name = ref.name;
  namespace = ref.namespace;
  group = first_non_empty gvk.group ref.group;
  version = gvk.version;
  kind = first_non_empty gvk.kind (codes "InferencePool");
}
