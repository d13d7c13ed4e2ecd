-- ===== src/Inspection/Binding/Run/Shown.antt =====
-- The ClusterSPIFFEID that a report shows, against the object that the controller writes.
use mathlib.Core.Option
use kleym.Prelude.{◌≡◌, sym, ap, ◌∙◌, true, none, some, List, is_nil, if◌then◌else◌}
use kleym.Prelude.Text.{codes, text_eq}
use kleym.Value.{text, boolean, array, lookup_field}
use kleym.Identity.{Plan}
use kleym.Api.{InferenceIdentityBinding}
use kleym.Gaie.{GroupVersionKind}
use kleym.Cluster.{ClusterSpiffeId}
use kleym.Spirecm.{desired_cluster_spiffe_id}
use kleym.Spirecm.Desired.{spec_field, texts, desired-selectors, desired-class}
use kleym.Controller.{Reconciler}
use kleym.Inspection.{
  BindingInspectionIdentityConfig, BindingInspectionRenderedClusterSpiffeId,
  BindingInspectionReport,
}
use kleym.Inspection.Config.{ResolvedIdentityConfig}
use kleym.Inspection.Binding.{BindingInspector}
use kleym.Inspection.Binding.Render.Agreement.{Shows}

-- The controller that runs with the configuration that a report names.
abbrev pub reported_reconciler :
    BindingInspector → BindingInspectionIdentityConfig → List GroupVersionKind → Reconciler
reported_reconciler i identity available = record {
  platform = i.platform;
  config = record {
    trust_domain = identity.trust_domain;
    cluster_spiffe_id_class_name = identity.cluster_spiffe_id_class_name;
  };
  has_recorder = true;
  has_metrics_recorder = true;
  available_pool_gvks = available;
}

-- An object is the one that a report shows: its name, and every field of its spec.
pub record IsShown (shown : BindingInspectionRenderedClusterSpiffeId) (o : ClusterSpiffeId)
    : Type 0 where
  pub name : o.name ≡ shown.name
  pub spiffe_id : spec_field (codes "spiffeIDTemplate") o.spec ≡ some (text shown.spiffe_id)
  pub pod_selector : spec_field (codes "podSelector") o.spec ≡ shown.pod_selector
  pub workload_selectors :
      spec_field (codes "workloadSelectorTemplates") o.spec
      ≡ some (array (texts shown.workload_selectors))
  pub fallback : spec_field (codes "fallback") o.spec ≡ Option.map boolean shown.fallback
  pub hint : spec_field (codes "hint") o.spec ≡ some (text shown.hint)
  pub class_name :
      spec_field (codes "className") o.spec
      ≡ (if is_nil shown.class_name then none else some (text shown.class_name))

module _ (i : BindingInspector) (b : InferenceIdentityBinding) (c : ResolvedIdentityConfig) where
  pub Shows-IsShown :
      (plan : Plan) (r : BindingInspectionReport)
      → Shows i b c plan r
      → IsShown r.rendered_cluster_spiffe_id
          (desired_cluster_spiffe_id i.platform.sha1 b plan c.cluster_spiffe_id_class_name)
  unfolding desired_cluster_spiffe_id lookup_field text_eq codes
  Shows-IsShown plan r shows = record {
    name = sym shows.name;
    spiffe_id = ap (λ x. some (text x)) (sym shows.spiffe_id);
    pod_selector = sym shows.pod_selector;
    workload_selectors =
        desired-selectors i.platform.sha1 b plan c.cluster_spiffe_id_class_name
        ∙ ap (λ x. some (array (texts x))) (sym shows.workload_selectors);
    fallback = ap (Option.map boolean) (sym shows.fallback);
    hint = ap (λ x. some (text x)) (sym shows.hint);
    class_name =
        desired-class i.platform.sha1 b plan c.cluster_spiffe_id_class_name
        ∙ ap (λ x. if is_nil x then none else some (text x)) (sym shows.class_name);
  }
