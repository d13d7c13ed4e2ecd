-- ===== src/Cli/Exit.antt =====
-- What the exit code 0 tells.
use kleym.Prelude.{◌≡◌, refl, sym, ap, ◌∙◌, ℕ, Bool, true, false, Option, none, some, arith}
use kleym.Prelude.Text.{Text}
use kleym.Errors.{Error, Result, ok, err}
use kleym.Cluster.{Call, Reply, run, run-bind}
use kleym.Inspection.{
  BindingInspectionReport, has_error_severity_finding, has_warning_severity_finding,
}
use kleym.Inspection.Config.{validate_operator_identity_config}
use kleym.Inspection.Binding.{BindingInspector, Inspected, InspectionError}
use kleym.Inspection.Binding.Run.{inspect_binding}
use kleym.Cli.{
  exit_ok, exit_inspection_issue, exit_binding_not_found, exit_usage, Options, ExitError,
  CommandError, after_identity_config, validate_status_options, validate_runnable_options,
  should_write_binding_inspection_report, by_findings, inspection_exit_code, exit_of, finish,
  conclude, inspect_with, after_options, inspect_binding_command,
}

-- What an inspection that is worth the exit code 0 has.
pub record IsClean (strict : Bool) (inspected : Inspected) : Type 0 where
  pub no_failure : inspected.1 ≡ none
  pub no_error : has_error_severity_finding inspected.0.findings ≡ false
  pub no_warning : strict ≡ true → has_warning_severity_finding inspected.0.findings ≡ false

by_findings-eq :
    (errors strict warnings : Bool)
    → (by_findings errors strict warnings).0 ≡ 0
    → (errors ≡ false) × (strict ≡ true → warnings ≡ false)
unfolding by_findings
by_findings-eq true strict warnings h = ground arith
by_findings-eq false true true h = ground arith
by_findings-eq false true false h = (refl, λ e. refl)
by_findings-eq false false warnings h = (refl, λ e. ground arith)

module _ (write : BindingInspectionReport → Option Error) where
  finished :
      (written : Option Error) (coded : ℕ × Option CommandError)
      → finish true written coded ≡ 0
      → exit_of coded.0 coded.1 ≡ 0
  unfolding finish
  finished (some e) coded h = ground arith
  finished none coded h = h

  exit_of-by_findings :
      (errors strict warnings : Bool)
      → exit_of (by_findings errors strict warnings).0 (by_findings errors strict warnings).1 ≡ 0
      → (by_findings errors strict warnings).0 ≡ 0
  unfolding exit_of by_findings
  exit_of-by_findings true strict warnings h = h
  exit_of-by_findings false true true h = h
  exit_of-by_findings false true false h = h
  exit_of-by_findings false false warnings h = h

  conclude-IsClean :
      (duration_text : ℕ → Text) (strict : Bool) (inspected : Inspected)
      → conclude duration_text write strict inspected ≡ 0
      → IsClean strict inspected
  unfolding conclude inspection_exit_code finish exit_of should_write_binding_inspection_report
  conclude-IsClean duration_text strict (report, none) h =
      let (clean, quiet) =
        by_findings-eq _ strict _ (exit_of-by_findings _ strict _ (finished (write _) _ h)) in
      record { no_failure = refl; no_error = clean; no_warning = quiet }
  conclude-IsClean duration_text strict (report, some InspectionError.binding_not_found) h =
      absurd (not_zero (finished (write _) _ h))
    where
      not_zero : exit_binding_not_found ≡ exit_ok → ⊥
      not_zero h = ground arith
  conclude-IsClean duration_text strict (report, some InspectionError.error_findings) h =
      absurd (not_zero (finished (write _) _ h))
    where
      not_zero : exit_inspection_issue ≡ exit_ok → ⊥
      not_zero h = ground arith
  conclude-IsClean duration_text strict (report, some (InspectionError.failure e)) h = ground arith

module _ (duration_text : ℕ → Text) (write : BindingInspectionReport → Option Error)
    (answer : (c : Call) → Reply c) where
  -- A command that ran an inspection with the options that it has.
  pub record Inspects (opts : Options) (name : Text) (i : BindingInspector) : Type 0 where
    pub report : BindingInspectionReport
    pub inspected : run answer (inspect_binding i opts.namespace name) ≡ (report, none)
    pub clean : IsClean opts.strict (report, none)
    pub valid :
        validate_operator_identity_config opts.trust_domain opts.cluster_spiffe_id_class_name
        ≡ ok tt

  inspect_with-Inspects :
      (opts : Options) (name : Text) (made : Result BindingInspector)
      → validate_operator_identity_config opts.trust_domain opts.cluster_spiffe_id_class_name
        ≡ ok tt
      → run answer (inspect_with duration_text write opts name made) ≡ 0
      → (i : BindingInspector) × (made ≡ ok i) × Inspects opts name i
  unfolding inspect_with run
  inspect_with-Inspects opts name (err e) valid h = ground arith
  inspect_with-Inspects opts name (ok i) valid h =
      let outcome = run answer (inspect_binding i opts.namespace name) in
      let clean =
        conclude-IsClean write duration_text opts.strict outcome
          (sym (run-bind answer (inspect_binding i opts.namespace name) _) ∙ h) in
      (
        i,
        refl,
        record {
          report = outcome.0;
          inspected = ap (λ e. (outcome.0, e)) clean.no_failure;
          clean = record {
            no_failure = refl;
            no_error = clean.no_error;
            no_warning = clean.no_warning;
          };
          valid = valid;
        },
      )

  -- Options that are refused end the command with the exit code of a wrong usage.
  refused_options :
      (opts : Options) (name : Text) (made : Result BindingInspector) (refused : Option ExitError)
      → ((e : ExitError) → refused ≡ some e → e.code ≡ exit_usage)
      → (refused ≡ none
          → validate_operator_identity_config opts.trust_domain opts.cluster_spiffe_id_class_name
            ≡ ok tt)
      → run answer (after_options duration_text write opts name made refused) ≡ 0
      → (i : BindingInspector) × (made ≡ ok i) × Inspects opts name i
  unfolding after_options run
  refused_options opts name made (some e) usage valid h =
      absurd (usage_ne_ok (sym (usage e refl) ∙ h))
    where
      usage_ne_ok : exit_usage ≡ exit_ok → ⊥
      usage_ne_ok h = ground arith
  refused_options opts name made none usage valid h =
      inspect_with-Inspects opts name made (valid refl) h

  refusal_code :
      (opts : Options) (e : ExitError)
      → validate_runnable_options duration_text opts ≡ some e
      → e.code ≡ exit_usage
  unfolding validate_runnable_options validate_status_options after_identity_config
  refusal_code opts e h = ground arith

  accepted_options :
      (opts : Options)
      → validate_runnable_options duration_text opts ≡ none
      → validate_operator_identity_config opts.trust_domain opts.cluster_spiffe_id_class_name
        ≡ ok tt
  unfolding validate_runnable_options validate_status_options after_identity_config
  accepted_options opts h = ground arith

  -- When `kleym inspect binding` ends with the exit code 0, its settings are ones that an operator could start with,
  -- the inspector was made, its inspection returned no error, and the report has no finding that is an error and,
  -- in strict mode, none that is a warning.
  pub inspect_binding_command-Inspects :
      (opts : Options) (name : Text) (made : Result BindingInspector)
      → run answer (inspect_binding_command duration_text write opts name made) ≡ 0
      → (i : BindingInspector) × (made ≡ ok i) × Inspects opts name i
  unfolding inspect_binding_command
  inspect_binding_command-Inspects opts name made h =
      refused_options opts name made (validate_runnable_options duration_text opts)
        (refusal_code opts) (accepted_options opts) h
