-- ===== src/Cli.antt =====
-- internal/cli: the options, the exit codes, and the runs of the two commands. The parsing of arguments is cobra's.
pub mod Exit
use kleym.Prelude.{
  ℕ, Bool, true, false, not, ◌&&◌, ◌||◌, Option, none, some, List, [], ◌∷◌, ◌++◌, is_nil, any, ◌==◌,
  if◌then◌else◌,
}
use kleym.Prelude.Text.{Text, codes, text_eq, join, quote}
use kleym.Errors.{Error, plain, Result, ok, err}
use kleym.Cluster.{Prog, done, bind}
use kleym.Inspection.{
  BindingInspectionReport, has_error_severity_finding, has_warning_severity_finding,
}
use kleym.Inspection.Config.{validate_operator_identity_config}
use kleym.Inspection.Binding.{BindingInspector, InspectionError, Inspected}
use kleym.Inspection.Binding.Run.{inspect_binding}
use kleym.Inspection.Status.{StatusReport}
use kleym.Inspection.Status.Run.{StatusInspector, StatusError, Outcome, status}

abbrev pub exit_ok : ℕ
exit_ok = 0

abbrev pub exit_inspection_issue : ℕ
exit_inspection_issue = 2

abbrev pub exit_binding_not_found : ℕ
exit_binding_not_found = 3

abbrev pub exit_usage : ℕ
exit_usage = 4

abbrev pub exit_internal : ℕ
exit_internal = 5

-- `Options`, without the access settings of the Kubernetes client. A negative timeout is 0 here: both are refused.
pub record Options : Type 0 where
  pub namespace : Text
  pub output : Text
  pub strict : Bool
  pub timeout : ℕ
  pub trust_domain : Text
  pub cluster_spiffe_id_class_name : Text

-- `exitError`.
pub record ExitError : Type 0 where
  pub code : ℕ
  pub cause : Error

abbrev pub with_exit_code : ℕ → Error → ExitError
with_exit_code code cause = record { code = code; cause = cause }

abbrev valid_output_formats : List Text
valid_output_formats = codes "text" ∷ codes "json" ∷ []

unfoldable pub is_valid_output_format : Text → Bool
is_valid_output_format output = any (text_eq output) valid_output_formats

invalid_output : Text → Error
invalid_output output = plain (
    codes "invalid --output "
    ++ quote output
    ++ codes ": must be one of "
    ++ join valid_output_formats (codes "|"))

after_identity_config : Result (Unit {0}) → Option ExitError
after_identity_config (ok _) = none
after_identity_config (err e) = some (with_exit_code exit_usage e)

-- `duration_text` is `Duration.String`.
module _ (duration_text : ℕ → Text) where
  unfoldable pub validate_status_options : Options → Option ExitError
  unfolding invalid_output
  validate_status_options opts =
      if not (is_valid_output_format opts.output)
      then some (with_exit_code exit_usage (invalid_output opts.output))
      else if opts.timeout == 0
      then some (
          with_exit_code exit_usage (
            plain (
              codes "invalid --timeout "
              ++ duration_text opts.timeout
              ++ codes ": must be greater than 0")))
      else none

  unfoldable pub validate_runnable_options : Options → Option ExitError
  unfolding after_identity_config
  validate_runnable_options opts = elim (validate_status_options opts) [
    | some e ↦ some e
    | none ↦
        after_identity_config
          (validate_operator_identity_config opts.trust_domain opts.cluster_spiffe_id_class_name)
  ]

unfoldable pub should_write_binding_inspection_report : Option InspectionError → Bool
should_write_binding_inspection_report none = true
should_write_binding_inspection_report (some InspectionError.binding_not_found) = true
should_write_binding_inspection_report (some InspectionError.error_findings) = true
should_write_binding_inspection_report (some (InspectionError.failure e)) = false

-- The error of a command: that of its inspection, or its findings.
pub data CommandError : Type 0 where
  inspection : InspectionError → CommandError
  status_failure : Error → CommandError
  has_error_findings has_warning_findings : CommandError

by_findings : Bool → Bool → Bool → ℕ × Option CommandError
by_findings true strict warnings = (exit_inspection_issue, some has_error_findings)
by_findings false true true = (exit_inspection_issue, some has_warning_findings)
by_findings false true false = (exit_ok, none)
by_findings false false warnings = (exit_ok, none)

unfoldable pub inspection_exit_code :
    BindingInspectionReport → Option InspectionError → Bool → ℕ × Option CommandError
unfolding by_findings
inspection_exit_code report none strict =
    by_findings (has_error_severity_finding report.findings) strict
      (has_warning_severity_finding report.findings)
inspection_exit_code report (some InspectionError.binding_not_found) strict =
    (exit_binding_not_found, some (inspection InspectionError.binding_not_found))
inspection_exit_code report (some InspectionError.error_findings) strict =
    (exit_inspection_issue, some has_error_findings)
inspection_exit_code report (some (InspectionError.failure e)) strict =
    (exit_usage, some (inspection (InspectionError.failure e)))

-- The exit code of a command that returns nil, or an error with a code.
exit_of : ℕ → Option CommandError → ℕ
exit_of code none = exit_ok
exit_of code (some e) = code

-- The end of a command: its report is written or not, and a failure to write takes the place of its error.
finish : Bool → Option Error → ℕ × Option CommandError → ℕ
unfolding exit_of
finish true (some e) (code, failure) = exit_internal
finish true none (code, failure) = exit_of code failure
finish false written (code, failure) = exit_of code failure

-- The run of `kleym inspect binding`, from the checks of its options to its exit code: the inspector may
-- fail to be made, and `write` gives the error of writing a report.
module _ (duration_text : ℕ → Text) (write : BindingInspectionReport → Option Error) where
  conclude : Bool → Inspected → ℕ
  unfolding finish
  conclude strict (report, e) =
      let coded = inspection_exit_code report e strict in
      finish (should_write_binding_inspection_report e)
        (write (record report { exit_code = some coded.0 })) coded

  inspect_with : Options → Text → Result BindingInspector → Prog ℕ
  unfolding conclude
  inspect_with opts name (err e) = done exit_usage
  inspect_with opts name (ok i) =
      bind (inspect_binding i opts.namespace name)
        λ inspected. done (conclude opts.strict inspected)

  after_options : Options → Text → Result BindingInspector → Option ExitError → Prog ℕ
  unfolding inspect_with
  after_options opts name made (some e) = done e.code
  after_options opts name made none = inspect_with opts name made

  unfoldable pub inspect_binding_command : Options → Text → Result BindingInspector → Prog ℕ
  unfolding after_options
  inspect_binding_command opts name made =
      after_options opts name made (validate_runnable_options duration_text opts)

unfoldable pub should_write_status_report : Option StatusError → Bool
should_write_status_report none = true
should_write_status_report (some StatusError.error_findings) = true
should_write_status_report (some (StatusError.failure e)) = false

unfoldable pub status_exit_code : Option StatusError → ℕ × Option CommandError
status_exit_code none = (exit_ok, none)
status_exit_code (some StatusError.error_findings) =
    (exit_inspection_issue, some has_error_findings)
status_exit_code (some (StatusError.failure e)) = (exit_usage, some (status_failure e))

-- The run of `kleym status`.
module _ (duration_text : ℕ → Text) (write : StatusReport → Option Error) where
  conclude_status : Outcome → ℕ
  unfolding finish
  conclude_status (report, e) =
      finish (should_write_status_report e) (write report) (status_exit_code e)

  status_with : Result StatusInspector → Option ExitError → Prog ℕ
  unfolding conclude_status
  status_with made (some e) = done e.code
  status_with (err e) none = done exit_usage
  status_with (ok i) none = bind (status i) λ outcome. done (conclude_status outcome)

  unfoldable pub status_command : Options → Result StatusInspector → Prog ℕ
  unfolding status_with
  status_command opts made = status_with made (validate_status_options duration_text opts)
