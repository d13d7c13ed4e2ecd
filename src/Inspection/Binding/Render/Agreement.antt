-- ===== src/Inspection/Binding/Render/Agreement.antt =====
-- What the report of a binding has in common with what the controller renders.
use kleym.Prelude.{◌≡◌, refl, sym, ap, subst, ◌∙◌, inl, inr, true, none, some, List, [], ◌∷◌, ◌++◌}
use kleym.Prelude.Text.{Text}
use kleym.Errors.{Error, Result, ok, err, Result-cases}
use kleym.Identity.{Plan, ResolvedInferenceTarget}
use kleym.Identity.Planning.{plan_identity}
use kleym.Api.{InferenceIdentityBinding}
use kleym.Gaie.{GroupVersionKind, PoolRef, binding_pool_ref}
use kleym.Gaie.Selector.{InferencePool, resolve_inference_target}
use kleym.Gaie.Resolver.{resolve_inference_pool as resolve_pool}
use kleym.Spirecm.{desired_cluster_spiffe_id, build_cluster_spiffe_id_hint, render_fallback}
use kleym.Cluster.{Call, Reply, done, run, bind, run-bind}
use kleym.Controller.{Reconciler, Action, continue, lift, lift_prog, ◌>>=◌}
use kleym.Controller.Render.{
  as_invalid_selector, render_identity, resolve_inference_pool, render_identity_for_binding,
}
use kleym.Inspection.{Capability, BindingInspectionTargetRef, BindingInspectionReport}
use kleym.Inspection.Config.{ResolvedIdentityConfig}
use kleym.Inspection.Findings.{finding_for_error, pool_ref_to_report_ref}
use kleym.Inspection.Binding.{
  BindingInspector, Rendered, with_pool_ref, with_gaie_resources, add_finding,
}
use kleym.Inspection.Binding.Render.{
  report_plan, after_plan, after_target, after_pool, after_pool_ref, inspect_rendered_identity,
}

module _ (i : BindingInspector) (b : InferenceIdentityBinding) (c : ResolvedIdentityConfig) where
  -- The controller that would run with the configuration of the report.
  unfoldable pub reconciler_for : List GroupVersionKind → Reconciler
  reconciler_for available = record {
    platform = i.platform;
    config = record {
      trust_domain = c.trust_domain;
      cluster_spiffe_id_class_name = c.cluster_spiffe_id_class_name;
    };
    has_recorder = true;
    has_metrics_recorder = true;
    available_pool_gvks = available;
  }

  -- A report shows the object that the controller wants.
  pub record Shows (plan : Plan) (r : BindingInspectionReport) : Type 0 where
    pub name :
        r.rendered_cluster_spiffe_id.name
        ≡ (desired_cluster_spiffe_id i.platform.sha1 b plan c.cluster_spiffe_id_class_name).name
    pub spiffe_id : r.rendered_cluster_spiffe_id.spiffe_id ≡ plan.spiffe_id
    pub pod_selector : r.rendered_cluster_spiffe_id.pod_selector ≡ some plan.pod_selector
    pub workload_selectors : r.rendered_cluster_spiffe_id.workload_selectors ≡ plan.selectors
    pub hint : r.rendered_cluster_spiffe_id.hint ≡ build_cluster_spiffe_id_hint b
    pub class_name : r.rendered_cluster_spiffe_id.class_name ≡ c.cluster_spiffe_id_class_name
    pub fallback : r.rendered_cluster_spiffe_id.fallback ≡ some render_fallback

  -- A report ends with the finding of an error.
  abbrev pub Reports : BindingInspectionReport → Error → BindingInspectionReport → Type 0
  Reports before e r =
      (ref : BindingInspectionTargetRef) × (id : Text) × (r.findings
        ≡ before.findings ++ finding_for_error e ref id ∷ [])

  -- The inspection has the plan of the controller, or reports its error.
  unfoldable pub Agrees : BindingInspectionReport → Result Plan → Rendered → Type 0
  Agrees before (ok plan) (p, r) = (p ≡ some plan) × Shows plan r × (r.findings ≡ before.findings)
  Agrees before (err e) (p, r) = (p ≡ none) × Reports before e r

  Shows-report_plan :
      (plan : Plan) (target : ResolvedInferenceTarget) (r : BindingInspectionReport)
      → Shows plan (report_plan i b c plan target r)
  unfolding report_plan desired_cluster_spiffe_id
  Shows-report_plan plan target r = record {
    name = refl;
    spiffe_id = refl;
    pod_selector = refl;
    workload_selectors = refl;
    hint = refl;
    class_name = refl;
    fallback = refl;
  }

  after_plan-Agrees :
      (target : ResolvedInferenceTarget) (r : BindingInspectionReport) (planned : Result Plan)
      → Agrees r planned (after_plan i b c target r planned)
  unfolding Agrees after_plan report_plan
  after_plan-Agrees target r (ok plan) = (refl, Shows-report_plan plan target r, refl)
  after_plan-Agrees target r (err e) = (refl, (_, _, refl))

  -- The controller's plan for a target that was resolved, or not.
  planned_for : List GroupVersionKind → Result ResolvedInferenceTarget → Result Plan
  planned_for available target = elim (as_invalid_selector target) [
    | err e ↦ err e
    | ok t ↦ plan_identity (reconciler_for available).platform.validation (record {
      namespace = b.namespace;
      service_account_name = b.spec.service_account_name;
      trust_domain = (reconciler_for available).config.trust_domain;
      variant = b.spec.identity_boundary.variant;
      target = t;
    })
  ]

  after_target-Agrees :
      (ref : BindingInspectionTargetRef) (available : List GroupVersionKind)
      → (r : BindingInspectionReport) (target : Result ResolvedInferenceTarget)
      → Agrees r (planned_for available target) (after_target i b c ref r target)
  unfolding Agrees after_target planned_for reconciler_for
  after_target-Agrees ref available r (ok target) = after_plan-Agrees target r _
  after_target-Agrees ref available r (err e) = (refl, (_, _, refl))

  -- The controller's plan for a pool that was found, or not.
  render_found : List GroupVersionKind → Result InferencePool → Result Plan
  render_found available (ok pool) = render_identity (reconciler_for available) b pool
  render_found available (err e) = err e

  Agrees-with_pool_ref :
      (ref : BindingInspectionTargetRef) (r : BindingInspectionReport) (planned : Result Plan)
      → (rendered : Rendered) → Agrees (with_pool_ref ref r) planned rendered
      → Agrees r planned rendered
  unfolding Agrees
  Agrees-with_pool_ref ref r (ok plan) rendered h = h
  Agrees-with_pool_ref ref r (err e) rendered h = h

  after_pool-Agrees :
      (ref : PoolRef) (available : List GroupVersionKind)
      → (r : BindingInspectionReport) (found : Result InferencePool)
      → Agrees r (render_found available found) (after_pool i b c ref r found)
  unfolding Agrees after_pool render_found render_identity planned_for reconciler_for
  after_pool-Agrees ref available r (err e) = (refl, (_, _, refl))
  after_pool-Agrees ref available r (ok pool) =
      Agrees-with_pool_ref (pool_ref_to_report_ref ref pool.gvk) r _ _ (
        after_target-Agrees (pool_ref_to_report_ref ref pool.gvk) available _
          (resolve_inference_target i.platform pool))

  Agrees-err :
      (r : BindingInspectionReport) (e : Error) (ref : BindingInspectionTargetRef)
      → (id : Text)
      → Agrees r (err e) (
        none,
        add_finding (finding_for_error e ref id) (with_gaie_resources Capability.partial r),
      )
  unfolding Agrees
  Agrees-err r e ref id = (refl, (ref, id, refl))

  abbrev render_pool : List GroupVersionKind → InferencePool → Action Plan
  render_pool available pool b' = lift (render_identity (reconciler_for available) b' pool) b'

  run-render_pool :
      (answer : (c : Call) → Reply c) (available : List GroupVersionKind)
      → (found : Result InferencePool)
      → (run answer (continue (render_pool available) (found, b))).0 ≡ render_found available found
  unfolding run lift render_found
  run-render_pool answer available (ok pool) = refl
  run-render_pool answer available (err e) = refl

  run-resolve :
      (answer : (c : Call) → Reply c) (available : List GroupVersionKind) (ref : PoolRef)
      → (run answer
          ((resolve_inference_pool (reconciler_for available) ref >>= render_pool available) b)).0
        ≡ render_found available (run answer (resolve_pool available ref))
  unfolding ◌>>=◌ resolve_inference_pool lift_prog reconciler_for run
  run-resolve answer available ref =
      ap (λ x. x.0)
        (run-bind answer (bind (resolve_pool available ref) λ found. done (found, b))
          (continue (render_pool available)))
      ∙ (ap (λ x. (run answer (continue (render_pool available) x)).0)
            (run-bind answer (resolve_pool available ref) λ found. done (found, b))
          ∙ run-render_pool answer available (run answer (resolve_pool available ref)))

  run-inspect_found :
      (answer : (c : Call) → Reply c) (available : List GroupVersionKind) (ref : PoolRef)
      → (r : BindingInspectionReport) → binding_pool_ref b ≡ ok ref
      → run answer (inspect_rendered_identity i b c available r)
        ≡ after_pool i b c ref r (run answer (resolve_pool available ref))
  unfolding inspect_rendered_identity run after_pool_ref
  run-inspect_found answer available ref r h =
      ap (λ x. run answer (after_pool_ref i b c available r x)) h
      ∙ run-bind answer (resolve_pool available ref) _

  invalid_ref-Agrees :
      (answer : (c : Call) → Reply c) (available : List GroupVersionKind) (e : Error)
      → (r : BindingInspectionReport) → binding_pool_ref b ≡ err e
      → Agrees r (err e) (run answer (inspect_rendered_identity i b c available r))
  unfolding inspect_rendered_identity run after_pool_ref
  invalid_ref-Agrees answer available e r h =
      subst (λ x. Agrees r (err e) (run answer (after_pool_ref i b c available r x))) (sym h)
        (Agrees-err r e _ _)

  -- The inspection of a binding and the controller with the configuration of the report, under the same answers of
  -- the cluster, agree: if the controller renders a plan, the inspection has that plan, adds no finding, and the
  -- report shows the name, the SPIFFE ID, the selectors, the hint, the class and the fallback of the object that the
  -- controller wants; if the controller fails, the inspection has no plan and adds one finding, which is the finding of the
  -- controller's error.
  pub inspect_rendered_identity-Agrees :
      (answer : (c : Call) → Reply c) (available : List GroupVersionKind)
      → (r : BindingInspectionReport)
      → Agrees r
          (run answer (render_identity_for_binding (reconciler_for available) b)).0
          (run answer (inspect_rendered_identity i b c available r))
  unfolding render_identity_for_binding run ◌>>=◌ lift bind
  inspect_rendered_identity-Agrees answer available r = elim (Result-cases (binding_pool_ref b)) [
    | inr (e, h) ↦ rw h (invalid_ref-Agrees answer available e r h)
    | inl (ref, h) ↦
        rw (run-inspect_found answer available ref r h, h, run-resolve answer available ref)
          (after_pool-Agrees ref available r _)
  ]
