-- ===== src/Inspection/Status/Bindings/Counts.antt =====
-- What the counts of the status report count.
use kleym.Prelude.{
  ◌≡◌, refl, ℕ, ◌+◌, Bool, true, false, ◌||◌, Option, none, some, List, [], ◌∷◌, length, any,
  if◌then◌else◌, All, arith,
}
use kleym.Prelude.Text.{Text, codes}
use kleym.Api.{
  ConditionStatus, condition_true, condition_false, condition_unknown, Condition,
  InferenceIdentityBinding,
}
use kleym.Inspection.{has_error_severity_finding}
use kleym.Inspection.Binding.Run.Clean.{has_error-append}
use kleym.Inspection.Status.{StatusResult, BindingStatusSummary, StatusReport}
use kleym.Inspection.Status.Bindings.{
  StatusConfigObservations, result_of, result_of_status, condition_type_ready, condition_is_true,
  add_binding, add_binding_condition_counts, binding_result, binding_unhealthy_finding,
  count_result, inspect_one, inspect_each, inspect_bindings, fill_config_from_binding_observations,
}

abbrev same_result : StatusResult → StatusResult → Bool
same_result StatusResult.okay StatusResult.okay = true
same_result StatusResult.warning StatusResult.warning = true
same_result StatusResult.error StatusResult.error = true
same_result _ _ = false

module _ (find : List Condition → Text → Option Condition) where
  -- How many bindings have a result.
  unfoldable pub with_result : StatusResult → List InferenceIdentityBinding → ℕ
  with_result s [] = 0
  with_result s (b ∷ bs) =
      (if same_result (binding_result find b) s then 1 else 0) + with_result s bs

  -- How many bindings have a condition that is true.
  unfoldable pub with_condition : Text → List InferenceIdentityBinding → ℕ
  with_condition t [] = 0
  with_condition t (b ∷ bs) = (if condition_is_true find b t then 1 else 0) + with_condition t bs

  -- The counts of a report are those of another and of some bindings.
  pub record Counts (bs : List InferenceIdentityBinding) (s t : BindingStatusSummary) : Type 0 where
    pub ok_count : t.ok_count ≡ with_result StatusResult.okay bs + s.ok_count
    pub warning_count : t.warning_count ≡ with_result StatusResult.warning bs + s.warning_count
    pub error_count : t.error_count ≡ with_result StatusResult.error bs + s.error_count
    pub total : t.total ≡ length bs + s.total
    pub ready_count : t.conditions.ready ≡ with_condition (codes "Ready") bs + s.conditions.ready
    pub invalid_ref_count :
        t.conditions.invalid_ref ≡ with_condition (codes "InvalidRef") bs + s.conditions.invalid_ref
    pub unsafe_selector_count :
        t.conditions.unsafe_selector
        ≡ with_condition (codes "UnsafeSelector") bs + s.conditions.unsafe_selector
    pub render_failure_count :
        t.conditions.render_failure
        ≡ with_condition (codes "RenderFailure") bs + s.conditions.render_failure
    pub balanced :
        t.ok_count + t.warning_count + t.error_count + s.total
        ≡ s.ok_count + s.warning_count + s.error_count + t.total

  inspect_one-Counts :
      (b : InferenceIdentityBinding) (r : StatusReport)
      → Counts (b ∷ []) r.summary (inspect_one find b r).summary
  unfolding inspect_one count_result binding_result with_result with_condition
      add_binding_condition_counts
  inspect_one-Counts b r = record {
    ok_count = ground arith;
    warning_count = ground arith;
    error_count = ground arith;
    total = ground arith;
    ready_count = ground arith;
    invalid_ref_count = ground arith;
    unsafe_selector_count = ground arith;
    render_failure_count = ground arith;
    balanced = ground arith;
  }

  pub inspect_each-Counts :
      (bs : List InferenceIdentityBinding) (o : StatusConfigObservations) (r : StatusReport)
      → Counts bs r.summary (inspect_each find bs o r).1.summary
  unfolding inspect_each with_result with_condition
  inspect_each-Counts [] o r = record {
    ok_count = omega arith;
    warning_count = omega arith;
    error_count = omega arith;
    total = omega arith;
    ready_count = omega arith;
    invalid_ref_count = omega arith;
    unsafe_selector_count = omega arith;
    render_failure_count = omega arith;
    balanced = omega arith;
  }
  inspect_each-Counts (b ∷ bs) o r =
      let first = inspect_one-Counts b r in
      let rest = inspect_each-Counts bs (add_binding b o) (inspect_one find b r) in
      record {
        ok_count = omega (arith, first.ok_count, rest.ok_count);
        warning_count = omega (arith, first.warning_count, rest.warning_count);
        error_count = omega (arith, first.error_count, rest.error_count);
        total = omega (arith, first.total, rest.total);
        ready_count = omega (arith, first.ready_count, rest.ready_count);
        invalid_ref_count = omega (arith, first.invalid_ref_count, rest.invalid_ref_count);
        unsafe_selector_count =
            omega (arith, first.unsafe_selector_count, rest.unsafe_selector_count);
        render_failure_count = omega (arith, first.render_failure_count, rest.render_failure_count);
        balanced = omega (arith, first.balanced, rest.balanced);
      }

  -- The bindings' part of the status report: each of the three result counters grows by the number of bindings with
  -- that result, the total by the number of bindings, each condition counter by the number of bindings for which the
  -- condition is true, and the three result counters together grow by as much as the total.
  pub inspect_bindings-Counts :
      (bs : List InferenceIdentityBinding) (r : StatusReport)
      → Counts bs r.summary (inspect_bindings find bs r).summary
  unfolding inspect_bindings fill_config_from_binding_observations
  inspect_bindings-Counts bs r = inspect_each-Counts bs _ r

  keeps_errors : (x : Bool) → x ≡ (x || false)
  keeps_errors true = refl
  keeps_errors false = refl

  count_status-has_error :
      (s : ConditionStatus) (b : InferenceIdentityBinding) (r : StatusReport)
      → has_error_severity_finding (count_result find (result_of_status s) b r).findings ≡ (
          has_error_severity_finding r.findings
          || same_result (result_of_status s) StatusResult.error)
  unfolding count_result binding_unhealthy_finding has_error_severity_finding
  count_status-has_error condition_true b r = keeps_errors (has_error_severity_finding r.findings)
  count_status-has_error condition_unknown b r =
      keeps_errors (has_error_severity_finding r.findings)
  count_status-has_error condition_false b r = has_error-append r.findings _

  count_result-has_error :
      (ready : Option Condition) (b : InferenceIdentityBinding) (r : StatusReport)
      → has_error_severity_finding (count_result find (result_of ready) b r).findings ≡ (
          has_error_severity_finding r.findings || same_result (result_of ready) StatusResult.error)
  unfolding count_result
  count_result-has_error none b r = keeps_errors (has_error_severity_finding r.findings)
  count_result-has_error (some ready) b r = count_status-has_error ready.status b r

  -- A binding whose result is not an error adds no finding, and any other adds an error.
  inspect_one-has_error :
      (b : InferenceIdentityBinding) (r : StatusReport)
      → has_error_severity_finding (inspect_one find b r).findings ≡ (
          has_error_severity_finding r.findings
          || same_result (binding_result find b) StatusResult.error)
  unfolding inspect_one binding_result
  inspect_one-has_error b r =
      count_result-has_error (find b.status.conditions condition_type_ready) b _

  -- The findings of the bindings have an error exactly when a result is one.
  pub inspect_each-has_error :
      (bs : List InferenceIdentityBinding) (o : StatusConfigObservations) (r : StatusReport)
      → has_error_severity_finding (inspect_each find bs o r).1.findings ≡ (
          has_error_severity_finding r.findings
          || any (λ b. same_result (binding_result find b) StatusResult.error) bs)
  unfolding inspect_each any
  inspect_each-has_error [] o r = ground arith
  inspect_each-has_error (b ∷ bs) o r = ground (
    arith,
    inspect_one-has_error b r,
    inspect_each-has_error bs (add_binding b o) (inspect_one find b r),
  )

  result_is_okay :
      (ready : Option Condition)
      → same_result (result_of ready) StatusResult.error ≡ false
      → same_result (result_of ready) StatusResult.warning ≡ false
      → result_of ready ≡ StatusResult.okay
  result_is_okay none h k = cc
  result_is_okay (some ready) h k = status_is_okay ready.status h k
    where
      status_is_okay :
          (s : ConditionStatus)
          → same_result (result_of_status s) StatusResult.error ≡ false
          → same_result (result_of_status s) StatusResult.warning ≡ false
          → result_of_status s ≡ StatusResult.okay
      status_is_okay condition_true h k = refl
      status_is_okay condition_unknown h k = cc
      status_is_okay condition_false h k = cc

  -- No error and no warning leaves one result.
  pub All-okay :
      (bs : List InferenceIdentityBinding)
      → any (λ b. same_result (binding_result find b) StatusResult.error) bs ≡ false
      → with_result StatusResult.warning bs ≡ 0
      → All (λ b. binding_result find b ≡ StatusResult.okay) bs
  unfolding any with_result binding_result
  All-okay [] h k = tt
  All-okay (b ∷ bs) h k =
      let rest = All-okay bs (ground arith) (ground arith) in
      (
        result_is_okay (find b.status.conditions condition_type_ready) (ground arith)
            (ground arith),
        rest,
      )
