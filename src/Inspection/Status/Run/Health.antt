-- ===== src/Inspection/Status/Run/Health.antt =====
-- What the status OK tells of the cluster.
use kleym.Prelude.{
  ◌≡◌, refl, sym, ap, subst, ◌∙◌, Bool, true, false, ◌||◌, Option, none, some, List, [], ◌∷◌, All,
  if◌then◌else◌, arith,
}
use kleym.Errors.{Error, Result, ok, err}
use kleym.Api.{Condition, InferenceIdentityBinding}
use kleym.Cluster.{Call, Reply, done, call, run, run-bind, list_all_bindings}
use kleym.Prelude.Text.{Text}
use kleym.Inspection.{has_error_severity_finding}
use kleym.Inspection.Status.{StatusResult, StatusReport, new_status_report, ◌>>◌}
use kleym.Inspection.Status.Sound.{Sound, Keeps, Keeps->>}
use kleym.Inspection.Status.Dependencies.{inspect_crds}
use kleym.Inspection.Status.Dependencies.Served.{InCrds, inspect_crds-Keeps}
use kleym.Inspection.Status.Operator.{inspect_operator}
use kleym.Inspection.Status.Operator.Ready.{InOperator, HasOperator, inspect_operator-Keeps}
use kleym.Inspection.Status.Bindings.{
  StatusConfigObservations, add_binding, binding_result, count_result, inspect_one, inspect_each,
  inspect_bindings, fill_config_from_binding_observations,
}
use kleym.Inspection.Status.Bindings.Counts.{
  inspect_bindings-Counts, inspect_each-has_error, All-okay,
}
use kleym.Inspection.Status.Bindings.Ready.{IsReady, All-IsReady}
use kleym.Inspection.Status.Run.{
  StatusInspector, StatusError, with_status, is_error_result, Outcome, finish_status_report,
  conclude, after_bindings, after_cluster, status,
}

module _ (find : List Condition → Text → Option Condition) where
  count_result-components :
      (s : StatusResult) (b : InferenceIdentityBinding) (r : StatusReport)
      → (count_result find s b r).components ≡ r.components
  unfolding count_result
  count_result-components StatusResult.okay b r = refl
  count_result-components StatusResult.warning b r = refl
  count_result-components StatusResult.unset b r = refl
  count_result-components StatusResult.error b r = refl
  count_result-components StatusResult.unknown b r = refl

  inspect_each-components :
      (bs : List InferenceIdentityBinding) (o : StatusConfigObservations) (r : StatusReport)
      → (inspect_each find bs o r).1.components ≡ r.components
  unfolding inspect_each inspect_one
  inspect_each-components [] o r = refl
  inspect_each-components (b ∷ bs) o r =
      inspect_each-components bs (add_binding b o) (inspect_one find b r)
      ∙ count_result-components (binding_result find b) b _

or_false : (a b : Bool) → (a || b) ≡ false → (a ≡ false) × (b ≡ false)
or_false a b h = (ground arith, ground arith)

-- What is true of a report that says OK, of the bindings, and of the answers of the cluster.
pub record IsHealthy (find : List Condition → Text → Option Condition)
    (answer : (c : Call) → Reply c) (bindings : List InferenceIdentityBinding) (r : StatusReport)
    : Type 0 where
  pub ready : All (IsReady find) bindings
  pub components : InOperator answer r.components

no_error :
    (flag : Bool) (x r : StatusReport)
    → ◌≡◌ {A = Outcome} (if flag then (x, some StatusError.error_findings) else (x, none)) (r, none)
    → (flag ≡ false) × (x ≡ r)
no_error true x r h = cc
no_error false x r h = (refl, ap (λ y. y.0) h)

-- The two tests of `finishStatusReport`.
branch :
    (e w : Bool) (counted r : StatusReport)
    → has_error_severity_finding counted.findings ≡ e
    → ◌≡◌ {A = Outcome}
        (let finished =
            if e
            then with_status StatusResult.error counted
            else if w
            then with_status StatusResult.warning counted
            else with_status StatusResult.okay counted in
          if has_error_severity_finding finished.findings
          then (finished, some StatusError.error_findings)
          else (finished, none))
        (r, none)
    → r.status ≡ StatusResult.okay
    → (e ≡ false)
      × (w ≡ false)
      × ((answer : (c : Call) → Reply c)
          → InOperator answer counted.components
          → InOperator answer r.components)
branch true w counted r t h k =
    let (clean, _) = no_error _ (with_status StatusResult.error counted) r h in
    absurd (ground (arith, t, clean))
branch false true counted r t h k =
    let (_, same) = no_error _ (with_status StatusResult.warning counted) r h in
    absurd (warning_ne_okay (ap (λ x. x.status) same ∙ k))
  where
    warning_ne_okay : StatusResult.warning ≡ StatusResult.okay → ⊥
    warning_ne_okay h = cc
branch false false counted r t h k =
    let (_, same) = no_error _ (with_status StatusResult.okay counted) r h in
    (refl, refl, λ answer sound. subst (λ x. InOperator answer x.components) same sound)

conclude-okay :
    (counted r : StatusReport)
    → conclude counted ≡ (r, none)
    → r.status ≡ StatusResult.okay
    → (has_error_severity_finding counted.findings ≡ false)
      × (counted.summary.warning_count ≡ 0)
      × ((answer : (c : Call) → Reply c)
          → InOperator answer counted.components
          → InOperator answer r.components)
unfolding conclude finish_status_report
conclude-okay counted r h k =
    let (e, w, keeps) = branch _ _ counted r refl h k in (e, ground (arith, w), keeps)

module _ (i : StatusInspector) (answer : (c : Call) → Reply c) where
  after_bindings-IsHealthy :
      (before r : StatusReport) (bs : List InferenceIdentityBinding)
      → Sound (HasOperator answer) before
      → after_bindings i before (ok bs) ≡ (r, none)
      → r.status ≡ StatusResult.okay
      → IsHealthy i.platform.find_status_condition answer bs r
  unfolding after_bindings inspect_bindings fill_config_from_binding_observations
  after_bindings-IsHealthy before r bs sound h k =
      let find = i.platform.find_status_condition in
      let (clean, no_warning, keeps) = conclude-okay _ r h k in
      let counts = inspect_bindings-Counts find bs before in
      let errors =
        inspect_each-has_error find bs (record { trust_domains = []; class_names = [] }) before in
      let same_components =
        inspect_each-components find bs (record { trust_domains = []; class_names = [] }) before in
      let (sound_before, no_failure) = or_false _ _ (sym errors ∙ clean) in
      record {
        ready =
            All-IsReady find bs
              (All-okay find bs no_failure (omega (arith, no_warning, counts.warning_count)));
        components =
            keeps answer (subst (InOperator answer) (sym same_components) (sound sound_before));
      }

  list_all-IsHealthy :
      (before r : StatusReport) (reply : Result (List InferenceIdentityBinding))
      → Sound (HasOperator answer) before
      → after_bindings i before reply ≡ (r, none)
      → r.status ≡ StatusResult.okay
      → (bs : List InferenceIdentityBinding) × (reply ≡ ok bs)
        × IsHealthy i.platform.find_status_condition answer bs r
  unfolding after_bindings
  list_all-IsHealthy before r (ok bs) sound h k =
      (bs, refl, after_bindings-IsHealthy before r bs sound h k)
  list_all-IsHealthy before r (err e) sound h k = cc

  after_crds-IsHealthy :
      (flag : Bool) (before stopped r : StatusReport)
      → Sound (HasOperator answer) before
      → ◌≡◌ {A = Outcome}
          (run answer (
            if flag
            then done (stopped, some StatusError.error_findings)
            else call list_all_bindings λ reply. done (after_bindings i before reply)))
          (r, none)
      → r.status ≡ StatusResult.okay
      → (bs : List InferenceIdentityBinding) × (answer list_all_bindings ≡ ok bs)
        × IsHealthy i.platform.find_status_condition answer bs r
  unfolding run
  after_crds-IsHealthy true before stopped r sound h k = cc
  after_crds-IsHealthy false before stopped r sound h k =
      list_all-IsHealthy before r (answer list_all_bindings) sound h k

  after_cluster-IsHealthy :
      (first : Option Error × StatusReport) (r : StatusReport)
      → ((mid : StatusReport) → first ≡ (none, mid) → Sound (HasOperator answer) mid)
      → run answer (after_cluster i first) ≡ (r, none)
      → r.status ≡ StatusResult.okay
      → (bs : List InferenceIdentityBinding) × (answer list_all_bindings ≡ ok bs)
        × IsHealthy i.platform.find_status_condition answer bs r
  unfolding run after_cluster
  after_cluster-IsHealthy (some e, before) r sound h k = cc
  after_cluster-IsHealthy (none, before) r sound h k =
      after_crds-IsHealthy (is_error_result before.components.kleym_crds.status) before _ r
        (sound before refl) h k

  -- When the status inspection returns no error and the status OK, then: the list of all bindings was read, and
  -- every one of them has the condition Ready with the status True; the cluster's answers to the lookups are that it
  -- serves the kind of the bindings, the kind ClusterSPIFFEID and a kind of pool; the Deployments of the operator
  -- were listed, one of them has a ready replica, and the report shows that one and its number of ready replicas.
  pub status-IsHealthy :
      (r : StatusReport)
      → run answer (status i) ≡ (r, none)
      → r.status ≡ StatusResult.okay
      → (bs : List InferenceIdentityBinding) × (answer list_all_bindings ≡ ok bs)
        × IsHealthy i.platform.find_status_condition answer bs r
  unfolding status
  status-IsHealthy r h k =
      after_cluster-IsHealthy (run answer ((inspect_crds i.gvk_text >> inspect_operator) start)) r
        (λ mid e. cluster-Keeps start mid (λ _. tt) e)
        (sym (
            run-bind answer ((inspect_crds i.gvk_text >> inspect_operator) start) (after_cluster i))
          ∙ h)
        k
    where
      start : StatusReport
      start = record new_status_report { generated_at = i.now }

      cluster-Keeps :
          Keeps answer
            (λ r. Unit {0})
            (HasOperator answer)
            (inspect_crds i.gvk_text >> inspect_operator)
      cluster-Keeps =
          Keeps->> answer (λ r. Unit {0}) (λ r. InCrds answer r.components) (HasOperator answer)
            (inspect_crds i.gvk_text) inspect_operator (inspect_crds-Keeps i.gvk_text answer)
            (inspect_operator-Keeps answer)
