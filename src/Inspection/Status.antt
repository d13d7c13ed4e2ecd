-- ===== src/Inspection/Status.antt =====
-- internal/inspection/status_report.go: the report of the status command, as data. Replica counts of the API are
-- never negative, and are natural numbers here.
pub mod Dependencies
pub mod Operator
pub mod Bindings
pub mod Run
pub mod Sound
pub mod Print
use kleym.Prelude.{ℕ, Bool, true, false, Option, none, some, List, [], ◌∷◌, ◌++◌}
use kleym.Prelude.Text.{Text, codes}
use kleym.Errors.{Error}
use kleym.Cluster.{Prog, done, bind}
use kleym.Inspection.{Severity, BindingInspectionFinding}

-- `unset` is the empty text.
pub data StatusResult : Type 0 where
  unset okay warning error unknown : StatusResult

pub record ComponentStatus : Type 0 where
  pub status : StatusResult
  pub message : Text

pub record OperatorStatus : Type 0 where
  pub status : StatusResult
  pub message : Text
  pub deployment : Text
  pub ready_replicas : ℕ
  pub replicas : ℕ
  pub version : Text

-- `KleymAPIStatus`, `SPIRECRDStatus` and `GAIEStatus`: `served` is what each says of its kind.
pub record CrdStatus : Type 0 where
  pub status : StatusResult
  pub message : Text
  pub served : Text

pub record StatusComponents : Type 0 where
  pub kleym : ComponentStatus
  pub operator : OperatorStatus
  pub kleym_crds : CrdStatus
  pub spire_crds : CrdStatus
  pub gaie_crds : CrdStatus

pub record StatusConfig : Type 0 where
  pub trust_domain : Text
  pub cluster_spiffe_id_class_name : Text
  pub cluster_spiffe_id_class_name_known : Bool

pub record BindingConditionSummary : Type 0 where
  pub ready : ℕ
  pub invalid_ref : ℕ
  pub unsafe_selector : ℕ
  pub render_failure : ℕ

-- `ok_count` and the like are `OK`, `Warning` and `Error`.
pub record BindingStatusSummary : Type 0 where
  pub ok_count : ℕ
  pub warning_count : ℕ
  pub error_count : ℕ
  pub total : ℕ
  pub conditions : BindingConditionSummary

-- Without the version and the exit code that the command line sets.
pub record StatusReport : Type 0 where
  pub schema_version : Text
  pub kind : Text
  pub generated_at : Text
  pub status : StatusResult
  pub components : StatusComponents
  pub config : StatusConfig
  pub summary : BindingStatusSummary
  pub findings : List BindingInspectionFinding

abbrev or_default : Text → Text → Text
or_default [] default = default
or_default s default = s

abbrev or_unknown : StatusResult → StatusResult
or_unknown unset = unknown
or_unknown s = s

unfoldable pub normalize_status_report : StatusReport → StatusReport
normalize_status_report r = record r {
  schema_version = or_default r.schema_version (codes "v1alpha1");
  kind = or_default r.kind (codes "KleymStatusReport");
  status = or_unknown r.status;
}

abbrev no_crds : CrdStatus
no_crds = record { status = unset; message = []; served = [] }

-- The zero value of the struct.
abbrev empty_report : StatusReport
empty_report = record {
  schema_version = [];
  kind = [];
  generated_at = [];
  status = unset;
  components = record {
    kleym = record { status = unset; message = [] };
    operator = record {
      status = unset;
      message = [];
      deployment = [];
      ready_replicas = 0;
      replicas = 0;
      version = [];
    };
    kleym_crds = no_crds;
    spire_crds = no_crds;
    gaie_crds = no_crds;
  };
  config = record {
    trust_domain = [];
    cluster_spiffe_id_class_name = [];
    cluster_spiffe_id_class_name_known = false;
  };
  summary = record {
    ok_count = 0;
    warning_count = 0;
    error_count = 0;
    total = 0;
    conditions = record { ready = 0; invalid_ref = 0; unsafe_selector = 0; render_failure = 0 };
  };
  findings = [];
}

unfoldable pub new_status_report : StatusReport
new_status_report = normalize_status_report empty_report

abbrev pub add_finding : BindingInspectionFinding → StatusReport → StatusReport
add_finding f r = record r { findings = r.findings ++ f ∷ [] }

-- A step on the report: the error that ends it, if any, and the report.
abbrev pub Step : Type 0
Step = StatusReport → Prog (Option Error × StatusReport)

abbrev continue : Step → Option Error × StatusReport → Prog (Option Error × StatusReport)
continue k (none, r) = k r
continue k (some e, r) = done (some e, r)

infixl 5 ◌>>◌
unfoldable pub ◌>>◌ : Step → Step → Step
◌>>◌ m k r = bind (m r) (continue k)
