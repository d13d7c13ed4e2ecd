-- ===== src/Examples.antt =====
-- Concrete runs: the theorems applied to small inputs.
pub mod Controller
pub mod Inspection
pub mod Cli
use mathlib.Core.List.Perm
use kleym.Prelude.{
  ◌≡◌, ◌↔◌, refl, true, some, none, List, [], ◌∷◌, ◌++◌, Mem, is_nil, not, Nodup, if◌then◌else◌,
  Bool-cases, inl, inr, arith,
}
use kleym.Prelude.Text.{Text, codes, contains, text_eq, trim_space, has_prefix, trim_prefix}
use kleym.Prelude.Order.{list_compare, nat_compare}
use kleym.Prelude.Sort.{IsSorted}
use kleym.Errors.{ok}
use kleym.Value.{object, end}
use kleym.Identity.{Validation, PlanInput, NamespacedName}
use kleym.Identity.Selectors.{unique_and_sorted}
use kleym.Identity.Boundary.{
  VariantRecord, VariantConflict, variant_conflict, variant_reuse, evaluate_variant_pair,
}
use kleym.Identity.Conflicts.{evaluate_variant_conflicts, conflict_compare}
use kleym.Identity.Conflicts.Exact.{
  NonExclusive, Arises, evaluate_variant_pair_iff, mem-evaluate_variant_conflicts,
}
use kleym.Identity.Conflicts.Invariance.{evaluate_variant_conflicts-perm}
use kleym.Identity.Selectors.Canonical.{
  trimmed, unique_and_sorted-eq_iff, unique_and_sorted_ascending, unique_and_sorted_idem,
}
use kleym.Spirecm.{cluster_spiffe_id_ownership_claim, set_cluster_spiffe_id_ownership_claim}
use kleym.Spirecm.Claims.{claim-set_claim}
use kleym.Identity.Boundary.{validate_variant}
use kleym.Identity.Planning.{
  plan_identity, render_safety_selectors, validate_identity_anchor,
  validate_rendered_safety_selectors, render_inference_target_spiffe_id,
}
use kleym.Identity.Planning.Outcome.{plan_of}
use kleym.Identity.Planning.Safety.{IsSafe, plan_identity-IsSafe}
use kleym.Identity.Planning.Injective.{
  HasNoSlash, RejectsSlash, plan_identity-injective, template_of,
}
use kleym.Platform.{Platform}
use kleym.Cluster.{ClusterSpiffeId}
use kleym.Controller.{Reconciler}
use kleym.Controller.Evidence.{Runs}
use kleym.Controller.Reconcile.{reconcile}
use kleym.Controller.Reconcile.Safety.{reconcile-Permitted}

abbrev rejecting : Validation
rejecting = record {
  is_valid_label_value = λ s. [];
  is_dns1123_subdomain = λ s. if contains s b'/' then codes "slash" ∷ [] else [];
  is_qualified_name = λ s. [];
}

rejecting-RejectsSlash : RejectsSlash rejecting
rejecting-RejectsSlash = record {
  subdomain = λ s h. (elim (Bool-cases (contains s b'/')) [ inl t ↦ ground arith | inr f ↦ f ]);
}

abbrev input_of : Text → Text → PlanInput
input_of variant app = record {
  namespace = codes "ns";
  service_account_name = codes "sa";
  trust_domain = codes "td";
  variant = variant;
  target = record {
    identity_anchor = record { kind = codes "pool"; name = codes "p" };
    pod_selector = object end;
    derived_selectors = (codes "k8s:pod-label:app:" ++ app) ∷ [];
  };
}

abbrev input_x : PlanInput
input_x = input_of (codes "a") (codes "x")

abbrev input_y : PlanInput
input_y = input_of (codes "a") (codes "y")

planned_x : plan_identity rejecting input_x ≡ ok (plan_of input_x)
unfolding plan_identity validate_variant render_safety_selectors validate_identity_anchor
    validate_rendered_safety_selectors render_inference_target_spiffe_id unique_and_sorted codes
    text_eq trim_space has_prefix trim_prefix contains
planned_x = refl

planned_y : plan_identity rejecting input_y ≡ ok (plan_of input_y)
unfolding plan_identity validate_variant render_safety_selectors validate_identity_anchor
    validate_rendered_safety_selectors render_inference_target_spiffe_id unique_and_sorted codes
    text_eq trim_space has_prefix trim_prefix contains
planned_y = refl

plan_identity-IsSafe_example :
    IsSafe (codes "ns") (codes "sa") (codes "a") ((plan_of input_x).selectors)
plan_identity-IsSafe_example = plan_identity-IsSafe rejecting input_x (plan_of input_x) planned_x

no_slash_td : HasNoSlash (codes "td")
unfolding codes contains
no_slash_td = refl

no_slash_ns : HasNoSlash (codes "ns")
unfolding codes contains
no_slash_ns = refl

-- Two pools of one name, with different labels: one SPIFFE ID, one template.
plan_identity-injective_example :
    (codes "td" ≡ codes "td") × (template_of input_x ≡ template_of input_y)
plan_identity-injective_example =
    plan_identity-injective rejecting input_x input_y (plan_of input_x) (plan_of input_y)
      rejecting-RejectsSlash no_slash_td no_slash_td no_slash_ns no_slash_ns planned_x planned_y
      refl

abbrev record_of : Text → Text → VariantRecord
record_of name id = record {
  binding_ref = record { namespace = codes "ns"; name = name };
  service_account_name = codes "sa";
  variant = codes "v";
  spiffe_id = id;
}

abbrev record_a : VariantRecord
record_a = record_of (codes "a") (codes "spiffe://td/1")

abbrev record_b : VariantRecord
record_b = record_of (codes "b") (codes "spiffe://td/2")

abbrev conflict_ab : VariantConflict
conflict_ab = variant_conflict record_a.binding_ref record_b variant_reuse

mem-evaluate_variant_conflicts_example :
    Mem conflict_ab (evaluate_variant_conflicts (record_a ∷ record_b ∷ []))
    ↔ ∥ Arises (record_a ∷ record_b ∷ []) conflict_ab ∥₁
mem-evaluate_variant_conflicts_example =
    mem-evaluate_variant_conflicts (record_a ∷ record_b ∷ []) conflict_ab

evaluate_variant_conflicts-perm_example :
    evaluate_variant_conflicts (record_a ∷ record_b ∷ [])
    ≡ evaluate_variant_conflicts (record_b ∷ record_a ∷ [])
evaluate_variant_conflicts-perm_example =
    evaluate_variant_conflicts-perm (Perm.swap record_b record_a [])

evaluate_variant_pair_iff_example :
    (evaluate_variant_pair record_a record_b ≡ some variant_reuse)
    ↔ NonExclusive record_a record_b variant_reuse
evaluate_variant_pair_iff_example = evaluate_variant_pair_iff record_a record_b variant_reuse

abbrev values : List Text
values = codes " b" ∷ codes "a" ∷ codes "" ∷ codes "b" ∷ []

abbrev others : List Text
others = codes "a" ∷ codes "b " ∷ []

unique_and_sorted-eq_iff_example :
    (unique_and_sorted values ≡ unique_and_sorted others)
    ↔ ((s : Text) → Mem s (trimmed values) ↔ Mem s (trimmed others))
unique_and_sorted-eq_iff_example = unique_and_sorted-eq_iff values others

unique_and_sorted_ascending_example :
    IsSorted (unique_and_sorted values) × Nodup (unique_and_sorted values)
unique_and_sorted_ascending_example = unique_and_sorted_ascending values

unique_and_sorted_idem_example :
    unique_and_sorted (unique_and_sorted values) ≡ unique_and_sorted values
unique_and_sorted_idem_example = unique_and_sorted_idem values

abbrev output : ClusterSpiffeId
output = record {
  name = codes "kleym-ns-a";
  uid = codes "u1";
  generation = 1;
  labels = [];
  annotations = (codes "note", codes "n") ∷ [];
  spec = object end;
}

claim-set_claim_example :
    cluster_spiffe_id_ownership_claim (set_cluster_spiffe_id_ownership_claim output (codes "c1"))
    ≡ codes "c1"
claim-set_claim_example = claim-set_claim output (codes "c1")

abbrev platform : Platform
platform = record {
  validation = rejecting;
  nested_map = λ fields path. ok none;
  find_status_condition = λ conditions condition_type. none;
  set_status_condition = λ conditions condition. condition ∷ conditions;
  contains_finalizer = λ finalizers finalizer. not (is_nil finalizers);
  add_finalizer = λ finalizers finalizer. finalizer ∷ finalizers;
  remove_finalizer = λ finalizers finalizer. [];
  retries = 4;
  sha1 = λ bytes. bytes;
  sha256 = λ bytes. bytes;
}

abbrev reconciler : Reconciler
reconciler = record {
  platform = platform;
  config = record { trust_domain = codes "td"; cluster_spiffe_id_class_name = codes "" };
  has_recorder = true;
  has_metrics_recorder = true;
  available_pool_gvks = [];
}

abbrev key : NamespacedName
key = record { namespace = codes "ns"; name = codes "a" }

reconcile-Permitted_example : Runs (λ h result. Unit) [] (reconcile reconciler key)
reconcile-Permitted_example = reconcile-Permitted reconciler key []
