-- ===== src/Inspection/Status/Run.antt =====
-- `Status` of internal/inspection/status.go: the whole status inspection.
pub mod Health
use kleym.Prelude.{Bool, true, false, not, ◌||◌, Option, none, some, List, [], ltb, if◌then◌else◌}
use kleym.Prelude.Text.{Text, codes}
use kleym.Errors.{Error, Result, ok, err}
use kleym.Platform.{Platform}
use kleym.Api.{InferenceIdentityBinding}
use kleym.Gaie.{GroupVersionKind}
use kleym.Cluster.{Prog, done, call, bind, list_all_bindings}
use kleym.Inspection.{has_error_severity_finding, has_warning_severity_finding}
use kleym.Inspection.Status.{StatusResult, StatusReport, new_status_report, Step, ◌>>◌}
use kleym.Inspection.Status.Dependencies.{inspect_crds}
use kleym.Inspection.Status.Operator.{inspect_operator}
use kleym.Inspection.Status.Bindings.{inspect_bindings}

-- `statusInspector`: `now` is the text of its clock, and `gvk_text` is `GroupVersionKind.String`.
pub record StatusInspector : Type 0 where
  pub platform : Platform
  pub now : Text
  pub gvk_text : GroupVersionKind → Text

-- `ErrStatusReportErrorFindings`, and any other error.
pub data StatusError : Type 0 where
  error_findings : StatusError
  failure : Error → StatusError

abbrev with_status : StatusResult → StatusReport → StatusReport
with_status s r = record r {
  status = s;
  components = record r.components { kleym = record { status = s; message = [] } };
}

unfoldable pub finish_status_report : StatusReport → StatusReport
finish_status_report r =
    if has_error_severity_finding r.findings
    then with_status StatusResult.error r
    else if has_warning_severity_finding r.findings || ltb 0 r.summary.warning_count
    then with_status StatusResult.warning r
    else with_status StatusResult.okay r

abbrev pub Outcome : Type 0
Outcome = StatusReport × Option StatusError

abbrev is_error_result : StatusResult → Bool
is_error_result StatusResult.error = true
is_error_result _ = false

-- The end of an inspection that has listed the bindings.
unfoldable pub conclude : StatusReport → Outcome
conclude counted =
    let r = finish_status_report counted in
    if has_error_severity_finding r.findings then (r, some error_findings) else (r, none)

module _ (i : StatusInspector) where
  after_bindings : StatusReport → Result (List InferenceIdentityBinding) → Outcome
  after_bindings r (ok bindings) =
      conclude (inspect_bindings i.platform.find_status_condition bindings r)
  after_bindings r (err e) =
      (r, some (failure (Error.wrapped (codes "list InferenceIdentityBindings") e)))

  after_cluster : Option Error × StatusReport → Prog Outcome
  unfolding after_bindings
  after_cluster (some e, r) = done (r, some (failure e))
  after_cluster (none, r) =
      if is_error_result r.components.kleym_crds.status
      then done (finish_status_report r, some error_findings)
      else call list_all_bindings λ reply. done (after_bindings r reply)

  unfoldable pub status : Prog Outcome
  unfolding after_cluster
  status =
      bind
        ((inspect_crds i.gvk_text >> inspect_operator)
          (record new_status_report { generated_at = i.now }))
        after_cluster
