-- ===== src/Inspection/Binding/Run/Kept.antt =====
-- What the later steps of a binding's inspection keep of the report: the configuration, and the rendered object.
use kleym.Prelude.{
  ◌≡◌, refl, ap, ◌∙◌, Bool, true, false, not, some, List, is_nil, if◌then◌else◌, arith,
}
use kleym.Errors.{Result, ok, err}
use kleym.Identity.{Plan}
use kleym.Api.{InferenceIdentityBinding}
use kleym.Cluster.{Call, Reply, Pod, done, run, bind, run-bind}
use kleym.Inspection.{
  BindingInspectionIdentityConfig, BindingInspectionRenderedClusterSpiffeId,
  BindingInspectionReport,
}
use kleym.Inspection.Config.{ResolvedIdentityConfig}
use kleym.Inspection.Selection.{WorkloadSelection, workload_selection_from_selectors}
use kleym.Inspection.Binding.Pods.{
  after_pods, report_pods, unreadable_pods, list_matching_pods, inspect_matched_pods,
}
use kleym.Inspection.Binding.Run.{report_identity_config}

-- What a report says of the configuration and of the object.
abbrev pub shown :
    BindingInspectionReport
    → BindingInspectionIdentityConfig × BindingInspectionRenderedClusterSpiffeId
shown r = (r.identity_config, r.rendered_cluster_spiffe_id)

abbrev pub reported_config : ResolvedIdentityConfig → BindingInspectionIdentityConfig
reported_config c = record {
  trust_domain = c.trust_domain;
  trust_domain_source = c.trust_domain_source;
  cluster_spiffe_id_class_name = c.cluster_spiffe_id_class_name;
  cluster_spiffe_id_class_name_source = c.cluster_spiffe_id_class_name_source;
}

-- A report names a configuration, with the sources of its values.
pub record Reported (c : ResolvedIdentityConfig) (r : BindingInspectionIdentityConfig)
    : Type 0 where
  pub trust_domain : r.trust_domain ≡ c.trust_domain
  pub trust_domain_source : r.trust_domain_source ≡ c.trust_domain_source
  pub class_name : r.cluster_spiffe_id_class_name ≡ c.cluster_spiffe_id_class_name
  pub class_name_source :
      r.cluster_spiffe_id_class_name_source ≡ c.cluster_spiffe_id_class_name_source

pub reported_config-Reported : (c : ResolvedIdentityConfig) → Reported c (reported_config c)
reported_config-Reported c = record {
  trust_domain = refl;
  trust_domain_source = refl;
  class_name = refl;
  class_name_source = refl;
}

pub report_identity_config-reports :
    (b : InferenceIdentityBinding) (c : ResolvedIdentityConfig) (r : BindingInspectionReport)
    → (report_identity_config b c r).identity_config ≡ reported_config c
unfolding report_identity_config
report_identity_config-reports b c r = ground arith

module _ (b : InferenceIdentityBinding) where
  after_pods-keeps :
      (selection : WorkloadSelection) (r : BindingInspectionReport) (pods : Result (List Pod))
      → shown (after_pods b selection r pods) ≡ shown r
  unfolding after_pods report_pods unreadable_pods
  after_pods-keeps selection r (ok pods) = ground arith
  after_pods-keeps selection r (err e) = ground arith

  pub inspect_matched_pods-keeps :
      (answer : (c : Call) → Reply c) (plan : Plan) (r : BindingInspectionReport)
      → shown (run answer (inspect_matched_pods b (some plan, r))) ≡ shown r
  unfolding inspect_matched_pods run
  inspect_matched_pods-keeps answer plan r =
      go (not (is_nil (workload_selection_from_selectors plan.selectors).unsupported_selectors)) _
        refl
    where
      go :
          (flag : Bool) (reported : BindingInspectionReport)
          → shown reported ≡ shown r
          → shown (
              run answer (
                if flag
                then done reported
                else bind (list_matching_pods b plan) λ pods.
                  done (after_pods b (workload_selection_from_selectors plan.selectors) r pods)))
            ≡ shown r
      go true reported h = h
      go false reported h =
          ap shown (
            run-bind answer (list_matching_pods b plan)
              λ pods. done (after_pods b (workload_selection_from_selectors plan.selectors) r pods))
          ∙ after_pods-keeps _ r _
