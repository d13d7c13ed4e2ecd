-- ===== src/Inspection.antt =====
-- internal/inspection/report.go and status_report.go: the reports of the command line, as data. A list of the model
-- does not tell nil from empty, so of the normalisation the defaults are left.
pub mod Findings
pub mod Config
pub mod Selection
pub mod Binding
pub mod Status
pub mod Print
use kleym.Prelude.{
  ℕ, Bool, true, false, ◌||◌, Option, none, some, List, [], ◌∷◌, is_nil, if◌then◌else◌,
}
use kleym.Prelude.Text.{Text, codes}
use kleym.Value.{Value}
use kleym.Api.{Condition}
use kleym.Gaie.{GroupVersionKind}

pub data Severity : Type 0 where
  info warning error : Severity

-- `unset` is the empty text.
pub data Capability : Type 0 where
  unset full partial skipped unknown : Capability

pub record BindingInspectionTargetRef : Type 0 where
  pub name : Text
  pub namespace : Text
  pub group : Text
  pub version : Text
  pub kind : Text

pub record BindingInspectionFinding : Type 0 where
  pub id : Text
  pub severity : Severity
  pub reason : Text
  pub message : Text
  pub affected_refs : List BindingInspectionTargetRef

pub record BindingInspectionIdentityConfig : Type 0 where
  pub trust_domain : Text
  pub trust_domain_source : Text
  pub cluster_spiffe_id_class_name : Text
  pub cluster_spiffe_id_class_name_source : Text

pub record BindingInspectionBindingRef : Type 0 where
  pub namespace : Text
  pub name : Text
  pub generation : ℕ
  pub pool_ref : Option BindingInspectionTargetRef
  pub conditions : List Condition

pub record BindingInspectionSelectorProvenance : Type 0 where
  pub pool_derived_selectors : List Text
  pub safety_selectors : List Text

-- The served kinds are the ones of `BindingInspectionGVK`, which has the fields of a `GroupVersionKind`.
pub record BindingInspectionResolvedInput : Type 0 where
  pub pool_ref : Option BindingInspectionTargetRef
  pub served_gvks : List GroupVersionKind
  pub pool_selector : Option Value
  pub selector_provenance : Option BindingInspectionSelectorProvenance

pub record BindingInspectionRenderedIdentity : Type 0 where
  pub spiffe_id : Text
  pub pod_selector : Option Value
  pub workload_selectors : List Text
  pub selector_provenance : Option BindingInspectionSelectorProvenance

pub record BindingInspectionRenderedClusterSpiffeId : Type 0 where
  pub name : Text
  pub spiffe_id : Text
  pub pod_selector : Option Value
  pub workload_selectors : List Text
  pub hint : Text
  pub class_name : Text
  pub fallback : Option Bool

pub record BindingInspectionMatchedPod : Type 0 where
  pub namespace : Text
  pub pod : Text
  pub container : Text

pub record BindingInspectionCapabilities : Type 0 where
  pub binding : Capability
  pub gaie_resources : Capability
  pub cluster_spiffe_ids : Capability
  pub peer_bindings : Capability
  pub pods : Capability

pub record BindingInspectionReport : Type 0 where
  pub schema_version : Text
  pub kind : Text
  pub generated_at : Text
  pub identity_config : BindingInspectionIdentityConfig
  pub binding_ref : BindingInspectionBindingRef
  pub resolved : BindingInspectionResolvedInput
  pub rendered_identity : BindingInspectionRenderedIdentity
  pub rendered_cluster_spiffe_id : BindingInspectionRenderedClusterSpiffeId
  pub matched_pods : List BindingInspectionMatchedPod
  pub findings : List BindingInspectionFinding
  pub capabilities : BindingInspectionCapabilities
  pub exit_code : Option ℕ

abbrev or_default : Text → Text → Text
or_default [] default = default
or_default s default = s

unfoldable pub normalize_binding_inspection_report :
    BindingInspectionReport → BindingInspectionReport
normalize_binding_inspection_report r = record r {
  schema_version = or_default r.schema_version (codes "v1alpha1");
  kind = or_default r.kind (codes "BindingInspectionReport");
}

-- The zero value of the struct.
abbrev empty_report : BindingInspectionReport
empty_report = record {
  schema_version = [];
  kind = [];
  generated_at = [];
  identity_config = record {
    trust_domain = [];
    trust_domain_source = [];
    cluster_spiffe_id_class_name = [];
    cluster_spiffe_id_class_name_source = [];
  };
  binding_ref = record {
    namespace = [];
    name = [];
    generation = 0;
    pool_ref = none;
    conditions = [];
  };
  resolved = record {
    pool_ref = none;
    served_gvks = [];
    pool_selector = none;
    selector_provenance = none;
  };
  rendered_identity = record {
    spiffe_id = [];
    pod_selector = none;
    workload_selectors = [];
    selector_provenance = none;
  };
  rendered_cluster_spiffe_id = record {
    name = [];
    spiffe_id = [];
    pod_selector = none;
    workload_selectors = [];
    hint = [];
    class_name = [];
    fallback = none;
  };
  matched_pods = [];
  findings = [];
  capabilities = record {
    binding = unset;
    gaie_resources = unset;
    cluster_spiffe_ids = unset;
    peer_bindings = unset;
    pods = unset;
  };
  exit_code = none;
}

unfoldable pub new_binding_inspection_report : BindingInspectionReport
new_binding_inspection_report = normalize_binding_inspection_report empty_report

abbrev is_error : Severity → Bool
is_error error = true
is_error _ = false

abbrev is_warning : Severity → Bool
is_warning warning = true
is_warning _ = false

unfoldable pub has_error_severity_finding : List BindingInspectionFinding → Bool
has_error_severity_finding [] = false
has_error_severity_finding (f ∷ fs) = is_error f.severity || has_error_severity_finding fs

unfoldable pub has_warning_severity_finding : List BindingInspectionFinding → Bool
has_warning_severity_finding [] = false
has_warning_severity_finding (f ∷ fs) = is_warning f.severity || has_warning_severity_finding fs
