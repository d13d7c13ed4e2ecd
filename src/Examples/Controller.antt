-- ===== src/Examples/Controller.antt =====
-- The theorems of the controller applied to small inputs.
use kleym.Prelude.{
  ◌≡◌, ◌↔◌, refl, true, false, ◌&&◌, Option, none, some, List, [], ◌∷◌, Mem, keep, if◌then◌else◌,
}
use kleym.Prelude.Text.{Text, codes, text_eq, text_eq_self, trim_space, has_prefix, contains}
use kleym.Errors.{ok, err, plain}
use kleym.Value.{text, object, field, end}
use kleym.Platform.{Platform}
use kleym.Identity.Selectors.{occurs}
use kleym.Identity.Selectors.Canonical.{trimmed}
use kleym.Identity.Planning.Outcome.{plan_of}
use kleym.Identity.Planning.Injective.{template_of}
use kleym.Api.{condition_true, Condition, InferenceIdentityBinding}
use kleym.Gaie.Selector.{InferencePool}
use kleym.Cluster.{
  Call, Reply, run, get_binding, list_bindings, list_bindings_by_pool, list_bindings_by_output,
  list_all_bindings, list_pods, list_deployments, rest_mapping, update_binding, patch_status,
  get_pool, get_output, create_output, update_output, delete_output, new_uuid, record_outcome,
  record_event, Pod, Deployment,
}
use kleym.Controller.{OperatorConfig, reason_reconciled}
use kleym.Controller.Config.{validate}
use kleym.Controller.Config.Accepted.{IsAccepted, validate_iff, validate-injective}
use kleym.Controller.Status.{apply_failure_status, apply_success_status}
use kleym.Prelude.{suc, ◌*◌}
use kleym.Controller.Status.{patch_binding_status}
use kleym.Controller.Status.Bounded.{AtMost, patch_binding_status-AtMost}
use kleym.Controller.Status.Conditions.{
  ConditionLaws, conflict, ready, name_of, state_error, condition_of, after_failure, after_success,
  apply_failure_status-conditions, apply_success_status-conditions,
}
use kleym.Controller.Metrics.{BindingOutcomeLabels, derive_binding_outcome_labels, collect}
use kleym.Controller.Metrics.Outcomes.{derive-apply_failure_status, derive-apply_success_status}
use kleym.Controller.Metrics.Gauge.{value_of, bindings_with, value_of-collect}
use kleym.Controller.Watch.{
  compact_index_values, binding_pool_ref_name_index_value,
  binding_cluster_spiffe_id_name_index_values, map_binding_to_peers,
  map_cluster_spiffe_id_to_bindings, map_pool_to_bindings,
}
use kleym.Controller.Watch.Requeue.{
  Serves, Stored, mem-compact_index_values, mem-map_binding_to_peers,
}
use kleym.Controller.Watch.Recorded.{Recording, mem-map_cluster_spiffe_id_to_bindings}
use kleym.Controller.Watch.Anchored.{Anchored, Peer, mem-map_pool_to_bindings}
use kleym.Examples.{
  rejecting, rejecting-RejectsSlash, input_x, input_y, planned_x, planned_y, no_slash_ns, platform,
  key,
}

abbrev operator_config : OperatorConfig
operator_config = record { trust_domain = codes "td"; cluster_spiffe_id_class_name = codes "" }

operator_config-valid : validate operator_config ≡ ok tt
unfolding validate codes trim_space text_eq has_prefix contains
operator_config-valid = refl

validate_iff_example : (validate operator_config ≡ ok tt) ↔ IsAccepted operator_config
validate_iff_example = validate_iff operator_config

validate-injective_example : template_of input_x ≡ template_of input_y
validate-injective_example =
    validate-injective rejecting operator_config input_x input_y (plan_of input_x) (plan_of input_y)
      rejecting-RejectsSlash operator_config-valid refl refl no_slash_ns no_slash_ns planned_x
      planned_y refl

-- Conditions as a list that is searched from its front.
unfoldable pub find_condition : List Condition → Text → Option Condition
find_condition [] t = none
find_condition (c ∷ cs) t =
    let later = find_condition cs t in if text_eq c.condition_type t then some c else later

abbrev pub full_platform : Platform
full_platform = record platform {
  nested_map = λ fields path. ok (some fields);
  find_status_condition = find_condition;
}

full_platform-ConditionLaws : ConditionLaws full_platform
unfolding find_condition
full_platform-ConditionLaws = record {
  find_set_same = λ cs c. rw (text_eq_self c.condition_type) refl;
  find_set_other = λ cs c t h. rw h refl;
}

abbrev pub binding : InferenceIdentityBinding
binding = record {
  namespace = codes "ns";
  name = codes "a";
  generation = 1;
  resource_version = codes "1";
  deleting = false;
  finalizers = [];
  spec = record {
    pool_ref = record { name = codes "p"; group = codes "" };
    service_account_name = codes "sa";
    identity_boundary = record { variant = codes "a" };
  };
  status = record {
    conditions =
        record {
          condition_type = codes "Ready";
          status = condition_true;
          observed_generation = 1;
          reason = codes "Reconciled";
          message = codes "Binding reconciled";
        }
        ∷ [];
    trust_domain = codes "td";
    cluster_spiffe_id_class_name = codes "";
    conflicts = [];
    computed_spiffe_ids = [];
    rendered_selectors = [];
    pending_cluster_spiffe_id = none;
    owned_cluster_spiffe_id = some (record { name = codes "kleym-a"; uid = codes "u1" });
    rendered_cluster_spiffe_id = none;
  };
}

apply_failure_status-conditions_example :
    condition_of full_platform full_platform-ConditionLaws
      (apply_failure_status full_platform 2
        (state_error conflict (codes "VariantConflict") (codes "m"))
        binding.status)
      conflict
    ≡ some (
        after_failure full_platform full_platform-ConditionLaws 2 conflict
          (codes "VariantConflict")
          (codes "m")
          conflict)
apply_failure_status-conditions_example =
    apply_failure_status-conditions full_platform full_platform-ConditionLaws 2 conflict conflict
      (codes "VariantConflict") (codes "m") binding.status refl

apply_success_status-conditions_example :
    condition_of full_platform full_platform-ConditionLaws
      (apply_success_status full_platform 2 (plan_of input_x ∷ []) [] binding.status)
      ready
    ≡ some (after_success full_platform full_platform-ConditionLaws 2 ready)
apply_success_status-conditions_example =
    apply_success_status-conditions full_platform full_platform-ConditionLaws 2 ready
      (plan_of input_x ∷ []) [] binding.status

derive-apply_failure_status_example :
    derive_binding_outcome_labels full_platform
      (record binding {
        status =
            apply_failure_status full_platform 2
              (state_error conflict (codes "VariantConflict") (codes "m"))
              binding.status;
      })
      true
    ≡ some (record { condition = name_of conflict; reason = codes "VariantConflict" })
derive-apply_failure_status_example =
    derive-apply_failure_status full_platform full_platform-ConditionLaws 2 conflict
      (codes "VariantConflict") (codes "m") true binding refl

derive-apply_success_status_example :
    derive_binding_outcome_labels full_platform
      (record binding {
        status = apply_success_status full_platform 2 (plan_of input_x ∷ []) [] binding.status;
      })
      true
    ≡ some (record { condition = name_of ready; reason = reason_reconciled })
derive-apply_success_status_example =
    derive-apply_success_status full_platform full_platform-ConditionLaws 2 (plan_of input_x ∷ [])
      [] true binding

abbrev reconciled : BindingOutcomeLabels
reconciled = record { condition = codes "Ready"; reason = codes "Reconciled" }

value_of-collect_example :
    value_of reconciled (collect full_platform (some (ok (binding ∷ binding ∷ []))))
    ≡ bindings_with full_platform reconciled (binding ∷ binding ∷ [])
value_of-collect_example = value_of-collect full_platform reconciled (binding ∷ binding ∷ [])

abbrev pub pool : InferencePool
pool = record {
  name = codes "p";
  namespace = codes "ns";
  gvk = record {
    group = codes "inference.networking.k8s.io";
    version = codes "v1";
    kind = codes "InferencePool";
  };
  content = field (codes "matchLabels") (object (field (codes "app") (text (codes "x")) end)) end;
}

abbrev pub pods : List Pod
pods =
    record {
      name = codes "pod-1";
      namespace = codes "ns";
      service_account_name = codes "sa";
      labels =
          (codes "app", codes "x") ∷ (codes "identity.kleym.sonda.red/variant", codes "a") ∷ [];
      containers = codes "main" ∷ [];
    }
    ∷ []

abbrev pub deployments : List Deployment
deployments =
    record {
      name = codes "kleym-operator";
      namespace = codes "kleym";
      replicas = none;
      ready_replicas = 1;
      containers =
          record {
            name = codes "operator";
            image = codes "kleym:v1";
            args = codes "--trust-domain=td" ∷ [];
          }
          ∷ [];
    }
    ∷ []

-- A cluster that holds a store of bindings, one pool and the pods.
unfoldable pub served : List InferenceIdentityBinding → (c : Call) → Reply c
served store (get_binding ref) = ok binding
served store (list_bindings namespace) = ok (keep (λ b. text_eq b.namespace namespace) store)
served store (list_bindings_by_pool namespace name) = ok (
    keep (λ b. text_eq b.namespace namespace && occurs name (binding_pool_ref_name_index_value b))
      store)
served store (list_bindings_by_output name) =
    ok (keep (λ b. occurs name (binding_cluster_spiffe_id_name_index_values b)) store)
served store list_all_bindings = ok store
served store (list_pods namespace labels) = ok pods
served store (list_deployments labels) = ok deployments
served store (rest_mapping gvk) = ok tt
served store (update_binding b) = ok b
served store (patch_status base target) = ok target
served store (get_pool gvk ref) = ok pool
served store (get_output name) = err (plain (codes "no output"))
served store (create_output o) = ok o
served store (update_output o) = ok o
served store (delete_output name uid) = ok tt
served store new_uuid = codes "id"
served store (record_outcome b) = tt
served store (record_event b kind reason message) = tt

served-Serves : Serves (binding ∷ []) (served (binding ∷ []))
unfolding served
served-Serves = record {
  in_namespace = λ namespace. refl;
  by_pool = λ namespace name. refl;
  by_output = λ name. refl;
}

abbrev names : List Text
names = codes " a" ∷ codes "" ∷ codes "a" ∷ []

mem-compact_index_values_example :
    Mem (codes "a") (compact_index_values names) ↔ Mem (codes "a") (trimmed names)
mem-compact_index_values_example = mem-compact_index_values names (codes "a")

mem-map_cluster_spiffe_id_to_bindings_example :
    Mem key (run (served (binding ∷ [])) (map_cluster_spiffe_id_to_bindings (codes "kleym-a")))
    ↔ ∥ Recording (binding ∷ []) (codes "kleym-a") key ∥₁
mem-map_cluster_spiffe_id_to_bindings_example =
    mem-map_cluster_spiffe_id_to_bindings (binding ∷ []) (served (binding ∷ [])) (codes "kleym-a")
      key served-Serves

mem-map_binding_to_peers_example :
    Mem key (run (served (binding ∷ [])) (map_binding_to_peers (codes "ns")))
    ↔ ∥ Stored (binding ∷ []) (λ b. text_eq b.namespace (codes "ns")) key ∥₁
mem-map_binding_to_peers_example =
    mem-map_binding_to_peers (binding ∷ []) (served (binding ∷ [])) (codes "ns") key served-Serves

mem-map_pool_to_bindings_example :
    Mem key (run (served (binding ∷ [])) (map_pool_to_bindings pool))
    ↔ (∥ Anchored (binding ∷ []) pool ∥₁ × ∥ Peer (binding ∷ []) pool.namespace key ∥₁)
mem-map_pool_to_bindings_example =
    mem-map_pool_to_bindings (binding ∷ []) (served (binding ∷ [])) pool key served-Serves

patch_binding_status-AtMost_example :
    AtMost (2 * suc full_platform.retries) (patch_binding_status full_platform binding)
patch_binding_status-AtMost_example = patch_binding_status-AtMost full_platform binding
