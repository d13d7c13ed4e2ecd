-- ===== src/Controller/Status.antt =====
-- inferenceidentitybinding_status.go: the conditions and the rendered output of a binding's status.
pub mod Bounded
pub mod Keeps
pub mod Conditions
pub mod Safety
use mathlib.Core.Bool.{decide}
use native.Mathlib.Decide.{ℕ_discrete}
use kleym.Prelude.{
  ℕ, Bool, true, false, not, Option, none, some, List, [], ◌∷◌, is_nil, map, if◌then◌else◌,
}
use kleym.Prelude.Text.{Text, codes, text_eq, trim_space}
use kleym.Errors.{StateError, Error, Result, ok, err}
use kleym.Api.{
  ConditionStatus, condition_true, condition_false, condition_unknown, Condition,
  InferenceIdentityBindingStatus, InferenceIdentityBinding, ComputedSpiffeIdStatus,
  RenderedSelectorStatus, RenderedClusterSpiffeIdStatus, VariantConflictStatus,
}
use kleym.Identity.{Plan}
use kleym.Identity.Boundary.{
  ConflictCause, variant_reuse, duplicate_spiffe_id, cause_text, VariantConflict,
}
use kleym.Platform.{Platform}
use kleym.Cluster.{Prog, done, call, get_binding, patch_status, Reply}
use kleym.Controller.{
  OperatorConfig, Action, pure, raise, ◌>>=◌, ◌>>◌, retry_on_conflict, condition_type_ready,
  condition_type_invalid_ref, condition_type_unsafe_selector, condition_type_conflict,
  condition_type_render_failure, reason_reconciled, reason_resolved, reason_initializing,
  reason_variant_conflict, reason_duplicate_spiffe_id,
}

abbrev Status : Type 0
Status = InferenceIdentityBindingStatus

module _ (platform : Platform) where
  unfoldable pub set_condition : ℕ → Text → ConditionStatus → Text → Text → Status → Status
  set_condition generation condition_type condition_status reason message status = record status {
    conditions = platform.set_status_condition status.conditions (record {
      condition_type = condition_type;
      status = condition_status;
      observed_generation = generation;
      reason = reason;
      message = message;
    });
  }

  -- `existing` gives its own text, if it has one.
  or_existing : Text → Text → Text
  or_existing existing default = if not (is_nil (trim_space existing)) then existing else default

  -- One round of the loop over the canonical conditions.
  initialize_condition : ℕ → Text → Text → Status → Status
  unfolding or_existing
  initialize_condition generation condition_type message status =
      elim (platform.find_status_condition status.conditions condition_type) [
        | none ↦
            set_condition generation condition_type condition_unknown reason_initializing message
              status
        | some existing ↦
            set_condition generation condition_type existing.status
              (or_existing existing.reason reason_initializing)
              (or_existing existing.message message) status
      ]

  unfoldable pub initialize_conditions : ℕ → Status → Status
  unfolding initialize_condition
  initialize_conditions g s =
      let s1 =
        initialize_condition g condition_type_ready (codes "Readiness has not been evaluated yet")
          s in
      let s2 =
        initialize_condition g condition_type_invalid_ref
          (codes "Reference validity has not been evaluated yet") s1 in
      let s3 =
        initialize_condition g condition_type_unsafe_selector
          (codes "Selector safety has not been evaluated yet") s2 in
      let s4 =
        initialize_condition g condition_type_conflict
          (codes "Variant conflicts have not been evaluated yet") s3 in
      initialize_condition g condition_type_render_failure
        (codes "Render health has not been evaluated yet") s4

  abbrev pub references_valid : ℕ → Status → Status
  references_valid g =
      set_condition g condition_type_invalid_ref condition_false reason_resolved
        (codes "References are valid")

  abbrev pub selectors_safe : ℕ → Status → Status
  selectors_safe g =
      set_condition g condition_type_unsafe_selector condition_false reason_resolved
        (codes "Selectors are safe")

  abbrev pub variant_exclusive : ℕ → Status → Status
  variant_exclusive g =
      set_condition g condition_type_conflict condition_false reason_resolved
        (codes "Variant is exclusive")

  abbrev pub rendering_healthy : ℕ → Status → Status
  rendering_healthy g =
      set_condition g condition_type_render_failure condition_false reason_resolved
        (codes "Rendering is healthy")

  -- The four fields that every status but a successful one clears.
  abbrev clear_output : Status → Status
  clear_output s = record s {
    computed_spiffe_ids = [];
    rendered_selectors = [];
    rendered_cluster_spiffe_id = none;
    conflicts = [];
  }

  abbrev first {ℓ} : {A : Type ℓ} → List A → Option A
  first [] = none
  first (x ∷ xs) = some x

  unfoldable pub apply_success_status :
      ℕ → List Plan → List RenderedClusterSpiffeIdStatus → Status → Status
  apply_success_status g identities managed s =
      let cleared = record s {
        computed_spiffe_ids = map (λ (p : Plan). record { spiffe_id = p.spiffe_id }) identities;
        rendered_selectors =
            map (λ (p : Plan). record { spiffe_id = p.spiffe_id; selectors = p.selectors })
              identities;
        rendered_cluster_spiffe_id = first managed;
        conflicts = [];
      } in
      rendering_healthy g (
        variant_exclusive g (
          selectors_safe g (
            references_valid g (
              set_condition g condition_type_ready condition_true reason_reconciled
                (codes "Binding reconciled") cleared))))

  -- One duplicate among the conflicts decides the reason.
  unfoldable pub conflict_reason : List VariantConflict → Text → Text
  conflict_reason [] reason = reason
  conflict_reason (c ∷ cs) reason =
      conflict_reason cs
        (elim c.cause [ duplicate_spiffe_id ↦ reason_duplicate_spiffe_id | variant_reuse ↦ reason ])

  abbrev pub conflict_status : VariantConflict → VariantConflictStatus
  conflict_status c = record {
    binding_name = c.peer_binding_ref.name;
    cause = cause_text c.cause;
    spiffe_id = c.peer_spiffe_id;
    variant = c.peer_variant;
  }

  unfoldable pub apply_conflict_status : ℕ → List VariantConflict → Status → Status
  apply_conflict_status g conflicts s =
      let cleared = record (clear_output s) { conflicts = map conflict_status conflicts } in
      let reason = conflict_reason conflicts reason_variant_conflict in
      let message = codes "Variant conflicts with one or more peer bindings" in
      rendering_healthy g (
        set_condition g condition_type_conflict condition_true reason message (
          selectors_safe g (
            references_valid g
              (set_condition g condition_type_ready condition_false reason message cleared))))

  unfoldable pub apply_pending_managed_output_status : ℕ → Status → Status
  apply_pending_managed_output_status g s = rendering_healthy g (
      variant_exclusive g (
        selectors_safe g (
          references_valid g (
            set_condition g condition_type_ready condition_unknown reason_initializing
              (codes "Waiting to confirm managed output creation") (clear_output s)))))

  unfoldable pub apply_pending_conflict_status : ℕ → Status → Status
  apply_pending_conflict_status g s = rendering_healthy g (
      set_condition g condition_type_conflict condition_unknown reason_initializing
        (codes "Waiting for managed output absence")
        (selectors_safe g (
          references_valid g (
            set_condition g condition_type_ready condition_unknown reason_initializing
              (codes "Waiting for managed output absence") (clear_output s)))))

  unfoldable pub apply_pending_managed_output_replacement_status : ℕ → Status → Status
  apply_pending_managed_output_replacement_status g s = rendering_healthy g (
      variant_exclusive g (
        selectors_safe g (
          references_valid g (
            set_condition g condition_type_ready condition_unknown reason_initializing
              (codes "Waiting for previous managed output absence before creating its replacement")
              (clear_output s)))))

  -- A condition other than the failing one is set false.
  unless_failing : Text → Text → (Status → Status) → Status → Status
  unless_failing failing condition_type set s =
      if not (text_eq failing condition_type) then set s else s

  unfoldable pub apply_failure_status : ℕ → StateError → Status → Status
  unfolding unless_failing
  apply_failure_status g e s =
      let s1 =
        set_condition g condition_type_ready condition_false e.reason e.message (clear_output s) in
      let s2 = set_condition g e.condition_type condition_true e.reason e.message s1 in
      let s3 = unless_failing e.condition_type condition_type_invalid_ref (references_valid g) s2 in
      let s4 =
        unless_failing e.condition_type condition_type_unsafe_selector (selectors_safe g) s3 in
      let s5 = unless_failing e.condition_type condition_type_conflict (variant_exclusive g) s4 in
      unless_failing e.condition_type condition_type_render_failure (rendering_healthy g) s5

-- `applyOperatorConfig`.
unfoldable pub apply_operator_config : OperatorConfig → Status → Status
apply_operator_config config s = record s {
  trust_domain = config.trust_domain;
  cluster_spiffe_id_class_name = config.cluster_spiffe_id_class_name;
}

-- `reflect.DeepEqual` on two statuses. A list of the model does not tell nil from empty.
pub Status-discrete : Discrete Status
Status-discrete = hlevel ℕ_discrete

-- What `patchStatus` wants to store: the status computed, with the ownership last stored.
abbrev pub rebase : Status → InferenceIdentityBinding → InferenceIdentityBinding
rebase desired latest = record latest {
  status = record desired {
    pending_cluster_spiffe_id = latest.status.pending_cluster_spiffe_id;
    owned_cluster_spiffe_id = latest.status.owned_cluster_spiffe_id;
  };
}

-- The end of a round: the binding takes the stored status and its resource version.
abbrev pub adopt : InferenceIdentityBinding → InferenceIdentityBinding → InferenceIdentityBinding
adopt b target = record b { status = target.status; resource_version = target.resource_version }

after_status_patch :
    InferenceIdentityBinding
    → Result InferenceIdentityBinding
    → Prog (Result (Unit {0}) × InferenceIdentityBinding)
after_status_patch b (ok target) = done (ok tt, adopt b target)
after_status_patch b (err e) = done (err e, b)

store_status : Bool → InferenceIdentityBinding → InferenceIdentityBinding → Action (Unit {0})
unfolding after_status_patch
store_status true latest target b = done (ok tt, adopt b target)
store_status false latest target b = call (patch_status latest target) (after_status_patch b)

fetched :
    Status
    → InferenceIdentityBinding
    → Result InferenceIdentityBinding
    → Prog (Result (Unit {0}) × InferenceIdentityBinding)
unfolding store_status
fetched desired b (err e) = done (err e, b)
fetched desired b (ok latest) =
    store_status (decide (Status-discrete latest.status (rebase desired latest).status)) latest
      (rebase desired latest) b

-- One round of the function that `patchStatus` hands to `RetryOnConflict`.
patch_status_once : Status → Action (Unit {0})
unfolding fetched
patch_status_once desired b =
    call (get_binding (record { namespace = b.namespace; name = b.name })) (fetched desired b)

unfoldable pub patch_binding_status : Platform → Action (Unit {0})
unfolding patch_status_once
patch_binding_status platform b = retry_on_conflict platform.retries (patch_status_once b.status) b
