-- ===== src/Inspection/Binding/Run/Clean.antt =====
-- What an inspection without an error tells.
use kleym.Prelude.{
  ◌≡◌, refl, sym, ap, subst, ◌∙◌, Bool, true, false, ◌||◌, Option, none, some, List, [], ◌∷◌, ◌++◌,
  if◌then◌else◌, arith,
}
use kleym.Prelude.Text.{Text}
use kleym.Errors.{Error, Result, ok, err, is_not_found_error}
use kleym.Identity.{Plan}
use kleym.Api.{InferenceIdentityBinding}
use kleym.Gaie.{GroupVersionKind, inference_pool_gvks}
use kleym.Spirecm.{desired_cluster_spiffe_id}
use kleym.Cluster.{Call, Reply, done, run, run-bind, get_binding}
use kleym.Controller.Render.{render_identity_for_binding}
use kleym.Inspection.{
  BindingInspectionTargetRef, BindingInspectionFinding, BindingInspectionReport,
  has_error_severity_finding, is_error, normalize_binding_inspection_report,
}
use kleym.Inspection.Config.{ResolvedIdentityConfig, resolve_identity_config}
use kleym.Inspection.Findings.{finding_for_error, other_finding}
use kleym.Inspection.Binding.{BindingInspector, InspectionError, Inspected, Rendered}
use kleym.Inspection.Binding.Render.{inspect_rendered_identity}
use kleym.Inspection.Binding.Pods.{inspect_matched_pods}
use kleym.Inspection.Binding.Run.{
  filter_available_inspection_gvks, finish_report, inspect_found, after_binding, inspect_served,
  after_discovery, inspect_binding,
}
use kleym.Inspection.Binding.Render.Agreement.{
  reconciler_for, Shows, Agrees, inspect_rendered_identity-Agrees,
}
use kleym.Inspection.Binding.Run.Kept.{
  shown, reported_config, Reported, reported_config-Reported, inspect_matched_pods-keeps,
  report_identity_config-reports,
}
use kleym.Inspection.Binding.Render.Kept.{inspect_rendered_identity-keeps}
use kleym.Inspection.Binding.Run.Shown.{reported_reconciler, IsShown, Shows-IsShown}

pub has_error-append :
    (fs gs : List BindingInspectionFinding)
    → has_error_severity_finding (fs ++ gs)
      ≡ (has_error_severity_finding fs || has_error_severity_finding gs)
unfolding has_error_severity_finding
has_error-append [] gs = refl
has_error-append (f ∷ fs) gs = ground (arith, has_error-append fs gs)

finding_for_error-error :
    (e : Error) (ref : BindingInspectionTargetRef) (id : Text)
    → is_error (finding_for_error e ref id).severity ≡ true
unfolding finding_for_error other_finding
finding_for_error-error e ref id = ground arith

no_error :
    (flag : Bool) (r report : BindingInspectionReport)
    → ◌≡◌ {A = Inspected}
        (if flag then (r, some InspectionError.error_findings) else (r, none))
        (report, none)
    → (flag ≡ false) × (report ≡ r)
no_error true r report h = cc
no_error false r report h = (refl, sym (ap (λ x. x.0) h))

finish_report-clean :
    (r report : BindingInspectionReport)
    → finish_report r ≡ (report, none)
    → (has_error_severity_finding r.findings ≡ false)
      × (report ≡ normalize_binding_inspection_report r)
unfolding finish_report normalize_binding_inspection_report
finish_report-clean r report h = no_error (has_error_severity_finding r.findings) _ report h

module _ (i : BindingInspector) (b : InferenceIdentityBinding) (c : ResolvedIdentityConfig) where
  -- The report of a failed rendering has an error.
  failed-has_error :
      (before r : BindingInspectionReport) (e : Error) (p : Option Plan)
      → Agrees i b c before (err e) (p, r)
      → has_error_severity_finding r.findings ≡ true
  unfolding Agrees has_error_severity_finding
  failed-has_error before r e p (_, (ref, id, h)) =
      rw (h, has_error-append) (ground (arith, finding_for_error-error e ref id))

  -- An inspection without an error of a binding that was read, for the configuration that was resolved.
  pub record Faithful (answer : (c : Call) → Reply c) (available : List GroupVersionKind)
      (report : BindingInspectionReport) : Type 0 where
    pub identity : Reported c report.identity_config
    pub plan : Plan
    pub rendered :
        (run answer (
          render_identity_for_binding (reported_reconciler i report.identity_config available) b)).0
        ≡ ok plan
    pub spiffe_id : report.rendered_cluster_spiffe_id.spiffe_id ≡ plan.spiffe_id
    pub workload_selectors : report.rendered_cluster_spiffe_id.workload_selectors ≡ plan.selectors
    pub object : IsShown report.rendered_cluster_spiffe_id (
        desired_cluster_spiffe_id i.platform.sha1 b plan
          report.identity_config.cluster_spiffe_id_class_name)

  -- The fields of the report that are left as the rendering made them.
  after_plan-Faithful :
      (answer : (c : Call) → Reply c) (available : List GroupVersionKind)
      → (r report : BindingInspectionReport) (plan : Plan)
      → (run answer (render_identity_for_binding (reconciler_for i b c available) b)).0 ≡ ok plan
      → Shows i b c plan r
      → r.identity_config ≡ reported_config c
      → shown report ≡ shown r
      → Faithful answer available report
  unfolding reconciler_for
  after_plan-Faithful answer available r report plan rendered shows identity kept =
      let reported : report.identity_config ≡ reported_config c = ap (λ x. x.0) kept ∙ identity in
      let same : report.rendered_cluster_spiffe_id ≡ r.rendered_cluster_spiffe_id =
        ap (λ x. x.1) kept in
      record {
        identity = subst (Reported c) (sym reported) (reported_config-Reported c);
        plan = plan;
        rendered =
            subst
              (λ x.
                (run answer (render_identity_for_binding (reported_reconciler i x available) b)).0
                ≡ ok plan)
              (sym reported) rendered;
        spiffe_id = ap (λ x. x.spiffe_id) same ∙ shows.spiffe_id;
        workload_selectors = ap (λ x. x.workload_selectors) same ∙ shows.workload_selectors;
        object =
            subst
              (λ x.
                IsShown x.1 (
                  desired_cluster_spiffe_id i.platform.sha1 b plan
                    x.0.cluster_spiffe_id_class_name))
              (sym kept)
              (subst
                (λ x.
                  IsShown r.rendered_cluster_spiffe_id (
                    desired_cluster_spiffe_id i.platform.sha1 b plan
                      x.cluster_spiffe_id_class_name))
                (sym identity) (Shows-IsShown i b c plan r shows));
      }

  pods_of_plan-Faithful :
      (answer : (c : Call) → Reply c) (available : List GroupVersionKind)
      → (before report : BindingInspectionReport) (rendered : Rendered) (planned : Result Plan)
      → planned ≡ (run answer (render_identity_for_binding (reconciler_for i b c available) b)).0
      → Agrees i b c before planned rendered
      → rendered.1.identity_config ≡ reported_config c
      → finish_report (run answer (inspect_matched_pods b rendered)) ≡ (report, none)
      → Faithful answer available report
  unfolding Agrees normalize_binding_inspection_report inspect_matched_pods run
  pods_of_plan-Faithful answer available before report (p, r) (ok plan) e (q, shows, _) identity h =
      let (_, same) = finish_report-clean _ report h in
      after_plan-Faithful answer available r report plan (sym e) shows identity (
        ap shown same
        ∙ (ap (λ x. shown (run answer (inspect_matched_pods b (x, r)))) q
            ∙ inspect_matched_pods-keeps b answer plan r))
  pods_of_plan-Faithful answer available before report (p, r) (err e) _ (q, failed) identity h =
      let unrendered =
        subst (λ x. finish_report (run answer (inspect_matched_pods b (x, r))) ≡ (report, none)) q
          h in
      let clean = (finish_report-clean r report unrendered).0 in
      ground (arith, clean, failed-has_error before r e p (q, failed))

never_clean :
    (answer : (c : Call) → Reply c) (flag : Bool) (r s report : BindingInspectionReport)
    → (e f : InspectionError)
    → ◌≡◌ {A = Inspected}
        (run answer (if flag then done (r, some e) else done (s, some f)))
        (report, none)
    → ⊥
unfolding run
never_clean answer true r s report e f h = cc
never_clean answer false r s report e f h = cc

module _ (i : BindingInspector) (available : List GroupVersionKind)
    (answer : (c : Call) → Reply c) where
  inspect_found-Faithful :
      (b : InferenceIdentityBinding) (r report : BindingInspectionReport)
      → run answer (inspect_found i available b r) ≡ (report, none)
      → Faithful i b (resolve_identity_config i.identity_config b) answer available report
  unfolding inspect_found run
  inspect_found-Faithful b r report h =
      let c = resolve_identity_config i.identity_config b in
      pods_of_plan-Faithful i b c answer available _ report _ _ refl
        (inspect_rendered_identity-Agrees i b c answer available _)
        (inspect_rendered_identity-keeps i b c answer available _
          ∙ report_identity_config-reports b c _)
        (sym (run-bind answer (inspect_matched_pods b _) _)
          ∙ (sym (run-bind answer (inspect_rendered_identity i b c available _) _) ∙ h))

  after_binding-Faithful :
      (namespace name : Text) (r report : BindingInspectionReport)
      → (read : Result InferenceIdentityBinding)
      → run answer (after_binding i available namespace name r read) ≡ (report, none)
      → (b : InferenceIdentityBinding) × (read ≡ ok b)
        × Faithful i b (resolve_identity_config i.identity_config b) answer available report
  unfolding after_binding run
  after_binding-Faithful namespace name r report (ok b) h =
      (b, refl, inspect_found-Faithful b r report h)
  after_binding-Faithful namespace name r report (err e) h =
      absurd (never_clean answer (is_not_found_error e) _ _ report _ _ h)

after_discovery-Faithful :
    (i : BindingInspector) (namespace name : Text) (answer : (c : Call) → Reply c)
    → (r report : BindingInspectionReport) (discovered : Result (List GroupVersionKind))
    → run answer (after_discovery i namespace name r discovered) ≡ (report, none)
    → (b : InferenceIdentityBinding) × (available : List GroupVersionKind) × (answer
          (get_binding (record { namespace = namespace; name = name }))
        ≡ ok b)
      × (discovered ≡ ok available)
      × Faithful i b (resolve_identity_config i.identity_config b) answer available report
unfolding after_discovery inspect_served run
after_discovery-Faithful i namespace name answer r report (ok available) h =
    let (b, read, faithful) =
      after_binding-Faithful i available answer namespace name _ report _ h in
    (b, available, read, refl, faithful)
after_discovery-Faithful i namespace name answer r report (err e) h = cc

-- An inspection that returns no error has read the binding. Its report names the trust domain and the class name of
-- the configuration resolved for that binding, with their sources. The controller that runs with the reported trust
-- domain and class name and the kinds of pool that the inspection discovered renders a plan for the binding under the
-- same answers, and the object that it wants for this plan has the reported name and, in its spec, the reported SPIFFE
-- ID, pod selector, workload selectors, fallback and hint, and the reported class name if there is one. The reported
-- SPIFFE ID and workload selectors are those of the plan.
pub inspect_binding-Faithful :
    (i : BindingInspector) (namespace name : Text) (answer : (c : Call) → Reply c)
    → (report : BindingInspectionReport)
    → run answer (inspect_binding i namespace name) ≡ (report, none)
    → (b : InferenceIdentityBinding) × (available : List GroupVersionKind) × (answer
          (get_binding (record { namespace = namespace; name = name }))
        ≡ ok b)
      × (run answer (filter_available_inspection_gvks i.gvk_text inference_pool_gvks)
          ≡ ok available)
      × Faithful i b (resolve_identity_config i.identity_config b) answer available report
unfolding inspect_binding
inspect_binding-Faithful i namespace name answer report h =
    after_discovery-Faithful i namespace name answer _ report _ (
      sym (run-bind answer (filter_available_inspection_gvks i.gvk_text inference_pool_gvks) _) ∙ h)
