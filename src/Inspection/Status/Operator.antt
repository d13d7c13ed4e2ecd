-- ===== src/Inspection/Status/Operator.antt =====
-- `inspectOperator` of internal/inspection/status.go and what it reads off a Deployment.
pub mod Ready
use kleym.Prelude.{
  ℕ, zero, suc, ◌+◌, Bool, true, false, not, ◌&&◌, ◌||◌, Option, none, some, List, [], ◌∷◌, ◌++◌,
  is_nil, ltb, ◌==◌, if◌then◌else◌,
}
use kleym.Prelude.Text.{Text, codes, text_eq, has_prefix, trim_prefix}
use kleym.Errors.{Error, Result, ok, err}
use kleym.Cluster.{Prog, done, bind, perform, list_deployments, Container, Deployment}
use kleym.Inspection.{Severity, BindingInspectionFinding}
use kleym.Inspection.Status.{
  StatusResult, OperatorStatus, StatusConfig, StatusReport, add_finding, Step,
}

abbrev pub operator_label_component : Text
operator_label_component = codes "operator"

abbrev pub operator_labels : List (Text × Text)
operator_labels =
    (codes "app.kubernetes.io/name", codes "kleym")
    ∷ (codes "app.kubernetes.io/component", operator_label_component)
    ∷ []

-- One more than `strings.LastIndex` of one code point, which is -1 where it does not occur.
unfoldable pub past_last : Text → ℕ → ℕ
past_last [] c = 0
past_last (x ∷ s) c =
    let rest = past_last s c in if ltb 0 rest then suc rest else if x == c then 1 else 0

unfoldable pub skip : ℕ → Text → Text
skip (suc n) (x ∷ s) = skip n s
skip _ s = s

unfoldable pub image_tag : Text → Text
image_tag image =
    let past_digest = past_last image b'@' in
    let past_slash = past_last image b'/' in
    let past_colon = past_last image b':' in
    if is_nil image
    then []
    else if ltb 0 past_digest
    then skip past_digest image
    else if ltb past_slash past_colon
    then skip past_colon image
    else []

-- The container of the operator, or the first one.
named_operator : List Container → Option Container
named_operator [] = none
named_operator (c ∷ cs) =
    let rest = named_operator cs in
    if not (text_eq c.name operator_label_component) then rest else some c

abbrev first : List Container → Option Container
first [] = none
first (c ∷ cs) = some c

unfoldable pub operator_container : List Container → Option Container
unfolding named_operator
operator_container cs = elim (named_operator cs) [ some c ↦ some c | none ↦ first cs ]

unfoldable pub operator_version : Deployment → Text
operator_version d = elim (operator_container d.containers) [
  | none ↦ []
  | some c ↦ image_tag c.image
]

abbrev or_one : Option ℕ → ℕ
or_one none = 1
or_one (some n) = n

abbrev at_least : ℕ → ℕ → ℕ
at_least ready replicas = if ltb replicas ready then ready else replicas

unfoldable pub operator_status_from_deployment : Deployment → StatusResult → Text → OperatorStatus
operator_status_from_deployment d status message = record {
  status = status;
  message = message;
  deployment = d.namespace ++ codes "/" ++ d.name;
  ready_replicas = d.ready_replicas;
  replicas = at_least d.ready_replicas (or_one d.replicas);
  version = operator_version d;
}

-- The variables of the loop of `fillConfigFromArgs`, with the trust domain of the report.
record Args : Type 0 where
  trust_domain : Text
  trust_domain_found : Bool
  class_name : Text
  class_name_found : Bool

abbrev trust_domain_flag : Text
trust_domain_flag = codes "--trust-domain="

abbrev class_name_flag : Text
class_name_flag = codes "--clusterspiffeid-class-name="

-- One round of the loop.
read_arg : Text → Args → Args
read_arg arg a =
    if has_prefix arg trust_domain_flag && is_nil a.trust_domain
    then record a { trust_domain = trim_prefix arg trust_domain_flag; trust_domain_found = true }
    else if has_prefix arg class_name_flag
    then record a { class_name = trim_prefix arg class_name_flag; class_name_found = true }
    else a

read_args : List Text → Args → Args
unfolding read_arg
read_args [] a = a
read_args (arg ∷ args) a = read_args args (read_arg arg a)

config_of : Args → StatusConfig → StatusConfig
config_of a c =
    if not c.cluster_spiffe_id_class_name_known && (a.trust_domain_found || a.class_name_found)
    then record {
      trust_domain = a.trust_domain;
      cluster_spiffe_id_class_name = a.class_name;
      cluster_spiffe_id_class_name_known = true;
    }
    else record c { trust_domain = a.trust_domain }

unfoldable pub fill_config_from_args : List Text → StatusConfig → StatusConfig
unfolding read_args config_of
fill_config_from_args args c =
    config_of
      (read_args args (record {
        trust_domain = c.trust_domain;
        trust_domain_found = false;
        class_name = [];
        class_name_found = false;
      }))
      c

unfoldable pub fill_config_from_deployment : Deployment → StatusReport → StatusReport
fill_config_from_deployment d r = elim (operator_container d.containers) [
  | none ↦ r
  | some c ↦ record r { config = fill_config_from_args c.args r.config }
]

abbrev with_operator : OperatorStatus → StatusReport → StatusReport
with_operator s r = record r { components = record r.components { operator = s } }

operator_finding : Text → Text → BindingInspectionFinding
operator_finding reason message = record {
  id = codes "operator-unavailable";
  severity = Severity.error;
  reason = reason;
  message = message;
  affected_refs = [];
}

ready_deployment : List Deployment → Option Deployment
ready_deployment [] = none
ready_deployment (d ∷ ds) =
    let rest = ready_deployment ds in if ltb 0 d.ready_replicas then some d else rest

abbrev not_found : OperatorStatus
not_found = record {
  status = StatusResult.error;
  message = codes "not found";
  deployment = [];
  ready_replicas = 0;
  replicas = 0;
  version = [];
}

-- The first Deployment with a ready replica, or else the first one.
report_ready : Deployment → Option Deployment → StatusReport → StatusReport
unfolding operator_finding
report_ready first (some ready) r =
    fill_config_from_deployment ready
      (with_operator (operator_status_from_deployment ready StatusResult.okay []) r)
report_ready first none r =
    add_finding
      (operator_finding (codes "OperatorUnavailable")
        (codes "Kleym operator Deployment has no ready replicas"))
      (with_operator
        (operator_status_from_deployment first StatusResult.error (codes "no ready replicas")) r)

report_deployments : List Deployment → StatusReport → StatusReport
unfolding operator_finding ready_deployment report_ready
report_deployments [] r =
    add_finding
      (operator_finding (codes "OperatorNotFound")
        (codes "Kleym operator Deployment was not found"))
      (with_operator not_found r)
report_deployments (d ∷ ds) r = report_ready d (ready_deployment (d ∷ ds)) r

after_list : Result (List Deployment) → StatusReport → Option Error × StatusReport
unfolding report_deployments
after_list (ok deployments) r = (none, report_deployments deployments r)
after_list (err e) r = (some (Error.wrapped (codes "list Kleym operator deployments") e), r)

unfoldable pub inspect_operator : Step
unfolding after_list
inspect_operator r =
    bind (perform (list_deployments operator_labels)) λ reply. done (after_list reply r)
