-- ===== src/Inspection/Status/Print.antt =====
-- The text output of internal/inspection/status_report.go: the lines of the status report, without their line ends.
use kleym.Prelude.{ℕ, Bool, true, false, List, [], ◌∷◌, ◌++◌}
use kleym.Prelude.Text.{Text, codes}
use kleym.Inspection.{BindingInspectionFinding}
use kleym.Inspection.Print.{text_string, text_findings}
use kleym.Inspection.Status.{StatusResult, StatusReport, normalize_status_report}

unfoldable pub availability_status : StatusResult → Text
availability_status StatusResult.unset = codes "unknown"
availability_status StatusResult.okay = codes "Available"
availability_status StatusResult.warning = codes "Warning"
availability_status StatusResult.error = codes "Unavailable"
availability_status StatusResult.unknown = codes "unknown"

unfoldable pub text_config_value : Text → Text
text_config_value [] = codes "unknown"
text_config_value value = value

unfoldable pub text_class_name : Text → Bool → Text
text_class_name class_name false = codes "unknown"
text_class_name [] true = codes "classless"
text_class_name class_name true = class_name

findings_lines : List BindingInspectionFinding → List Text
findings_lines [] = []
findings_lines findings = [] ∷ text_findings findings

-- `writeStatusReportText`; `decimal` prints a number, and `cli_version` is the version that the command sets.
unfoldable pub status_report_lines : (ℕ → Text) → Text → StatusReport → List Text
unfolding findings_lines
status_report_lines decimal cli_version report =
    let r = normalize_status_report report in
    let operator = r.components.operator in
    let conditions = r.summary.conditions in
    codes "Kleym"
    ∷ (codes "  CLI: " ++ text_string cli_version)
    ∷ (codes "  Operator: " ++ availability_status operator.status)
    ∷ (codes "    Deployment: " ++ text_string operator.deployment)
    ∷ (codes "    Ready: "
        ++ decimal operator.ready_replicas
        ++ codes "/"
        ++ decimal operator.replicas)
    ∷ (codes "    Version: " ++ text_string operator.version)
    ∷ codes "  Config:"
    ∷ (codes "    trustDomain: " ++ text_config_value r.config.trust_domain)
    ∷ (codes "    clusterSPIFFEIDClass: "
        ++ text_class_name r.config.cluster_spiffe_id_class_name
            r.config.cluster_spiffe_id_class_name_known)
    ∷ codes "  API:"
    ∷ (codes "    InferenceIdentityBinding: " ++ text_string r.components.kleym_crds.served)
    ∷ []
    ∷ codes "Bindings"
    ∷ (codes "  Total: " ++ decimal r.summary.total)
    ∷ codes "  Conditions:"
    ∷ (codes "    Ready: " ++ decimal conditions.ready)
    ∷ (codes "    InvalidRef: " ++ decimal conditions.invalid_ref)
    ∷ (codes "    UnsafeSelector: " ++ decimal conditions.unsafe_selector)
    ∷ (codes "    RenderFailure: " ++ decimal conditions.render_failure)
    ∷ []
    ∷ codes "Dependencies"
    ∷ (codes "  GAIE: " ++ availability_status r.components.gaie_crds.status)
    ∷ (codes "    InferencePool: " ++ text_string r.components.gaie_crds.served)
    ∷ (codes "  SPIRE: " ++ availability_status r.components.spire_crds.status)
    ∷ (codes "    ClusterSPIFFEID: " ++ text_string r.components.spire_crds.served)
    ∷ findings_lines r.findings
