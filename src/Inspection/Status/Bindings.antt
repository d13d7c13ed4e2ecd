-- ===== src/Inspection/Status/Bindings.antt =====
-- `inspectBindings` of internal/inspection/status.go: the counts over all bindings, and the configuration that
-- their statuses tell.
pub mod Counts
pub mod Ready
use kleym.Prelude.{
  ℕ, zero, suc, ◌+◌, Bool, true, false, not, Option, none, some, List, [], ◌∷◌, ◌++◌, is_nil,
  if◌then◌else◌,
}
use kleym.Prelude.Text.{Text, codes}
use kleym.Identity.Selectors.{occurs}
use kleym.Api.{
  ConditionStatus, condition_true, condition_unknown, condition_false, Condition,
  InferenceIdentityBinding,
}
use kleym.Inspection.{Severity, BindingInspectionFinding}
use kleym.Inspection.Findings.{new_finding, binding_inspection_binding_target_ref}
use kleym.Inspection.Status.{
  StatusResult, StatusConfig, BindingConditionSummary, BindingStatusSummary, StatusReport,
  add_finding,
}

abbrev pub condition_type_ready : Text
condition_type_ready = codes "Ready"

-- The texts that the bindings show: sets, as lists.
pub record StatusConfigObservations : Type 0 where
  pub trust_domains : List Text
  pub class_names : List Text

abbrev observe : Text → List Text → List Text
observe s set = if occurs s set then set else s ∷ set

unfoldable pub add_binding :
    InferenceIdentityBinding → StatusConfigObservations → StatusConfigObservations
add_binding b o = if is_nil b.status.trust_domain then o else record {
  trust_domains = observe b.status.trust_domain o.trust_domains;
  class_names = observe b.status.cluster_spiffe_id_class_name o.class_names;
}

unfoldable pub observed_config_value : List Text → Option Text
observed_config_value [] = none
observed_config_value (value ∷ []) = some value
observed_config_value (value ∷ other ∷ rest) = some (codes "mixed")

abbrev with_trust_domain : Option Text → StatusConfig → StatusConfig
with_trust_domain none c = c
with_trust_domain (some value) c = record c { trust_domain = value }

abbrev with_class_name : Option Text → StatusConfig → StatusConfig
with_class_name none c = c
with_class_name (some value) c = record c {
  cluster_spiffe_id_class_name = value;
  cluster_spiffe_id_class_name_known = true;
}

fill_trust_domain : StatusConfigObservations → StatusConfig → StatusConfig
fill_trust_domain o c =
    if is_nil c.trust_domain then with_trust_domain (observed_config_value o.trust_domains) c else c

fill_class_name : StatusConfigObservations → StatusConfig → StatusConfig
fill_class_name o c =
    if not c.cluster_spiffe_id_class_name_known
    then with_class_name (observed_config_value o.class_names) c
    else c

unfoldable pub fill_config_from_binding_observations :
    StatusConfigObservations → StatusReport → StatusReport
unfolding fill_trust_domain fill_class_name
fill_config_from_binding_observations o r = record r {
  config = fill_class_name o (fill_trust_domain o r.config);
}

abbrev is_true : Option Condition → Bool
is_true none = false
is_true (some c) = status_is_true c.status
  where
    status_is_true : ConditionStatus → Bool
    status_is_true condition_true = true
    status_is_true _ = false

abbrev pub result_of_status : ConditionStatus → StatusResult
result_of_status condition_true = StatusResult.okay
result_of_status condition_false = StatusResult.error
result_of_status condition_unknown = StatusResult.warning

abbrev pub result_of : Option Condition → StatusResult
result_of none = StatusResult.warning
result_of (some ready) = result_of_status ready.status

unhealthy_reason : Option Condition → Text
unhealthy_reason none = codes "BindingNotReady"
unhealthy_reason (some c) = c.reason

unhealthy_message : Option Condition → Text
unhealthy_message none = codes "binding is not ready"
unhealthy_message (some c) = c.message

abbrev bump : Bool → ℕ → ℕ
bump true n = suc n
bump false n = n

-- `find` is `meta.FindStatusCondition`.
module _ (find : List Condition → Text → Option Condition) where
  unfoldable pub condition_is_true : InferenceIdentityBinding → Text → Bool
  condition_is_true b condition_type = is_true (find b.status.conditions condition_type)

  unfoldable pub add_binding_condition_counts :
      InferenceIdentityBinding → BindingConditionSummary → BindingConditionSummary
  add_binding_condition_counts b s = record {
    ready = bump (condition_is_true b condition_type_ready) s.ready;
    invalid_ref = bump (condition_is_true b (codes "InvalidRef")) s.invalid_ref;
    unsafe_selector = bump (condition_is_true b (codes "UnsafeSelector")) s.unsafe_selector;
    render_failure = bump (condition_is_true b (codes "RenderFailure")) s.render_failure;
  }

  unfoldable pub binding_result : InferenceIdentityBinding → StatusResult
  binding_result b = result_of (find b.status.conditions condition_type_ready)

  unfoldable pub binding_unhealthy_finding : InferenceIdentityBinding → BindingInspectionFinding
  unfolding unhealthy_reason unhealthy_message
  binding_unhealthy_finding b =
      let ready = find b.status.conditions condition_type_ready in
      new_finding (codes "binding-unhealthy") Severity.error (unhealthy_reason ready)
        (unhealthy_message ready) (binding_inspection_binding_target_ref b)

  -- The counter of a result; a default branch counts errors, with a finding.
  unfoldable pub count_result :
      StatusResult → InferenceIdentityBinding → StatusReport → StatusReport
  count_result StatusResult.okay b r = record r {
    summary = record r.summary { ok_count = suc r.summary.ok_count };
  }
  count_result StatusResult.warning b r = record r {
    summary = record r.summary { warning_count = suc r.summary.warning_count };
  }
  count_result _ b r =
      add_finding (binding_unhealthy_finding b)
        (record r { summary = record r.summary { error_count = suc r.summary.error_count } })

  -- One round of the loop.
  unfoldable pub inspect_one : InferenceIdentityBinding → StatusReport → StatusReport
  inspect_one b r = count_result (binding_result b) b (record r {
    summary = record r.summary {
      total = suc r.summary.total;
      conditions = add_binding_condition_counts b r.summary.conditions;
    };
  })

  unfoldable pub inspect_each :
      List InferenceIdentityBinding
      → StatusConfigObservations
      → StatusReport
      → StatusConfigObservations × StatusReport
  inspect_each [] o r = (o, r)
  inspect_each (b ∷ bs) o r = inspect_each bs (add_binding b o) (inspect_one b r)

  unfoldable pub inspect_bindings : List InferenceIdentityBinding → StatusReport → StatusReport
  inspect_bindings bindings r =
      let (o, counted) =
        inspect_each bindings (record { trust_domains = []; class_names = [] }) r in
      fill_config_from_binding_observations o counted
