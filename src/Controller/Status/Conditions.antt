-- ===== src/Controller/Status/Conditions.antt =====
-- What the conditions of a binding say after each update of inferenceidentitybinding_status.go, when
-- `meta.SetStatusCondition` sets the condition of a type and `meta.FindStatusCondition` finds it.
use kleym.Prelude.{
  ◌≡◌, refl, ◌∙◌, subst, ℕ, Bool, true, false, Option, some, List, [], if◌then◌else◌, Bool-cases,
  inl, inr, arith,
}
use kleym.Prelude.Text.{Text, codes, text_eq}
use kleym.Errors.{StateError}
use kleym.Identity.{Plan}
use kleym.Api.{
  ConditionStatus, condition_true, condition_false, Condition, InferenceIdentityBindingStatus,
  RenderedClusterSpiffeIdStatus,
}
use kleym.Platform.{Platform}
use kleym.Controller.{
  condition_type_ready, condition_type_invalid_ref, condition_type_unsafe_selector,
  condition_type_conflict, condition_type_render_failure, reason_reconciled, reason_resolved,
}
use kleym.Controller.Status.{
  set_condition, apply_success_status, apply_failure_status, unless_failing,
}

-- The documented behaviour of the two functions of apimachinery.
pub record ConditionLaws (p : Platform) : Type 0 where
  pub find_set_same :
      (cs : List Condition) (c : Condition)
      → p.find_status_condition (p.set_status_condition cs c) c.condition_type ≡ some c
  pub find_set_other :
      (cs : List Condition) (c : Condition) (condition_type : Text)
      → text_eq c.condition_type condition_type ≡ false
      → p.find_status_condition (p.set_status_condition cs c) condition_type
        ≡ p.find_status_condition cs condition_type

-- The canonical condition types.
pub data Kind : Type 0 where
  ready invalid_ref unsafe_selector conflict render_failure : Kind

abbrev pub name_of : Kind → Text
name_of ready = condition_type_ready
name_of invalid_ref = condition_type_invalid_ref
name_of unsafe_selector = condition_type_unsafe_selector
name_of conflict = condition_type_conflict
name_of render_failure = condition_type_render_failure

abbrev pub same_kind : Kind → Kind → Bool
same_kind ready ready = true
same_kind invalid_ref invalid_ref = true
same_kind unsafe_selector unsafe_selector = true
same_kind conflict conflict = true
same_kind render_failure render_failure = true
same_kind _ _ = false

text_eq-name_of : (k l : Kind) → text_eq (name_of k) (name_of l) ≡ same_kind k l
unfolding codes text_eq
text_eq-name_of ready ready = refl
text_eq-name_of ready invalid_ref = refl
text_eq-name_of ready unsafe_selector = refl
text_eq-name_of ready conflict = refl
text_eq-name_of ready render_failure = refl
text_eq-name_of invalid_ref ready = refl
text_eq-name_of invalid_ref invalid_ref = refl
text_eq-name_of invalid_ref unsafe_selector = refl
text_eq-name_of invalid_ref conflict = refl
text_eq-name_of invalid_ref render_failure = refl
text_eq-name_of unsafe_selector ready = refl
text_eq-name_of unsafe_selector invalid_ref = refl
text_eq-name_of unsafe_selector unsafe_selector = refl
text_eq-name_of unsafe_selector conflict = refl
text_eq-name_of unsafe_selector render_failure = refl
text_eq-name_of conflict ready = refl
text_eq-name_of conflict invalid_ref = refl
text_eq-name_of conflict unsafe_selector = refl
text_eq-name_of conflict conflict = refl
text_eq-name_of conflict render_failure = refl
text_eq-name_of render_failure ready = refl
text_eq-name_of render_failure invalid_ref = refl
text_eq-name_of render_failure unsafe_selector = refl
text_eq-name_of render_failure conflict = refl
text_eq-name_of render_failure render_failure = refl

same_kind_sound : (k l : Kind) → same_kind k l ≡ true → k ≡ l
same_kind_sound ready ready h = refl
same_kind_sound ready invalid_ref h = ground arith
same_kind_sound ready unsafe_selector h = ground arith
same_kind_sound ready conflict h = ground arith
same_kind_sound ready render_failure h = ground arith
same_kind_sound invalid_ref ready h = ground arith
same_kind_sound invalid_ref invalid_ref h = refl
same_kind_sound invalid_ref unsafe_selector h = ground arith
same_kind_sound invalid_ref conflict h = ground arith
same_kind_sound invalid_ref render_failure h = ground arith
same_kind_sound unsafe_selector ready h = ground arith
same_kind_sound unsafe_selector invalid_ref h = ground arith
same_kind_sound unsafe_selector unsafe_selector h = refl
same_kind_sound unsafe_selector conflict h = ground arith
same_kind_sound unsafe_selector render_failure h = ground arith
same_kind_sound conflict ready h = ground arith
same_kind_sound conflict invalid_ref h = ground arith
same_kind_sound conflict unsafe_selector h = ground arith
same_kind_sound conflict conflict h = refl
same_kind_sound conflict render_failure h = ground arith
same_kind_sound render_failure ready h = ground arith
same_kind_sound render_failure invalid_ref h = ground arith
same_kind_sound render_failure unsafe_selector h = ground arith
same_kind_sound render_failure conflict h = ground arith
same_kind_sound render_failure render_failure h = refl

-- A state error of a canonical condition.
abbrev pub state_error : Kind → Text → Text → StateError
state_error failing reason message = record {
  condition_type = name_of failing;
  reason = reason;
  message = message;
}

module _ (p : Platform) (laws : ConditionLaws p) where
  -- The condition of a kind that a status has.
  abbrev pub condition_of : InferenceIdentityBindingStatus → Kind → Option Condition
  condition_of s k = p.find_status_condition s.conditions (name_of k)

  -- A condition as an update sets it.
  abbrev pub condition : ℕ → Kind → ConditionStatus → Text → Text → Condition
  condition g k status reason message = record {
    condition_type = name_of k;
    status = status;
    observed_generation = g;
    reason = reason;
    message = message;
  }

  condition_of-set_condition :
      (g : ℕ) (k l : Kind) (status : ConditionStatus) (reason message : Text)
      → (s : InferenceIdentityBindingStatus)
      → condition_of (set_condition p g (name_of k) status reason message s) l
        ≡ (if same_kind k l then some (condition g k status reason message) else condition_of s l)
  unfolding set_condition
  condition_of-set_condition g k l status reason message s = elim (Bool-cases (same_kind k l)) [
    | inl same ↦ rw same (
        subst
          (λ m.
            condition_of (set_condition p g (name_of k) status reason message s) m
            ≡ some (condition g k status reason message))
          (same_kind_sound k l same) (laws.find_set_same s.conditions _))
    | inr apart ↦
        rw apart (laws.find_set_other s.conditions _ (name_of l) (text_eq-name_of k l ∙ apart))
  ]

  -- A condition other than the failing one is set, the failing one is passed over.
  condition_of-unless_failing :
      (g : ℕ) (failing k l : Kind) (message : Text) (s : InferenceIdentityBindingStatus)
      → condition_of
          (unless_failing p
            (name_of failing)
            (name_of k)
            (set_condition p g (name_of k) condition_false reason_resolved message)
            s)
          l
        ≡ (if same_kind failing k
            then condition_of s l
            else if same_kind k l
            then some (condition g k condition_false reason_resolved message)
            else condition_of s l)
  unfolding unless_failing
  condition_of-unless_failing g failing k l message s = elim (Bool-cases (same_kind failing k)) [
    | inl same ↦ rw (text_eq-name_of failing k, same) refl
    | inr apart ↦
        rw (text_eq-name_of failing k, apart)
          (condition_of-set_condition g k l condition_false reason_resolved message s)
  ]

  -- The messages of the conditions that are false.
  abbrev healthy_message : Kind → Text
  healthy_message ready = []
  healthy_message invalid_ref = codes "References are valid"
  healthy_message unsafe_selector = codes "Selectors are safe"
  healthy_message conflict = codes "Variant is exclusive"
  healthy_message render_failure = codes "Rendering is healthy"

  -- After a failure: `Ready` is false and the failing condition true, for the reason of the error; every other
  -- condition is false. All are of the generation.
  abbrev pub after_failure : ℕ → Kind → Text → Text → Kind → Condition
  after_failure g failing reason message ready = condition g ready condition_false reason message
  after_failure g failing reason message k =
      if same_kind failing k
      then condition g k condition_true reason message
      else condition g k condition_false reason_resolved (healthy_message k)

  -- One of the healthy conditions over what was there before.
  abbrev healthy_unless : ℕ → Kind → Kind → Kind → Option Condition → Option Condition
  healthy_unless g failing k l before =
      if same_kind failing k
      then before
      else if same_kind k l
      then some (condition g k condition_false reason_resolved (healthy_message k))
      else before

  failure_conditions :
      (g : ℕ) (failing l : Kind) (reason message : Text) (s : InferenceIdentityBindingStatus)
      → condition_of (apply_failure_status p g (state_error failing reason message) s) l
        ≡ healthy_unless g failing render_failure l (
            healthy_unless g failing conflict l (
              healthy_unless g failing unsafe_selector l (
                healthy_unless g failing invalid_ref l (
                  if same_kind failing l
                  then some (condition g failing condition_true reason message)
                  else if same_kind ready l
                  then some (condition g ready condition_false reason message)
                  else condition_of s l))))
  unfolding apply_failure_status
  failure_conditions g failing l reason message s = simp (
    condition_of-unless_failing g failing render_failure l (codes "Rendering is healthy"),
    condition_of-unless_failing g failing conflict l (codes "Variant is exclusive"),
    condition_of-unless_failing g failing unsafe_selector l (codes "Selectors are safe"),
    condition_of-unless_failing g failing invalid_ref l (codes "References are valid"),
    condition_of-set_condition g failing l condition_true reason message,
    condition_of-set_condition g ready l condition_false reason message,
  )

  -- After a failure, `Ready` is false and the failing condition true, both for the reason of the error; the
  -- other three conditions are false; and all five carry the generation.
  pub apply_failure_status-conditions :
      (g : ℕ) (failing k : Kind) (reason message : Text) (s : InferenceIdentityBindingStatus)
      → same_kind ready failing ≡ false
      → condition_of (apply_failure_status p g (state_error failing reason message) s) k
        ≡ some (after_failure g failing reason message k)
  apply_failure_status-conditions g ready ready reason message s h = ground arith
  apply_failure_status-conditions g ready invalid_ref reason message s h = ground arith
  apply_failure_status-conditions g ready unsafe_selector reason message s h = ground arith
  apply_failure_status-conditions g ready conflict reason message s h = ground arith
  apply_failure_status-conditions g ready render_failure reason message s h = ground arith
  apply_failure_status-conditions g invalid_ref ready reason message s h =
      failure_conditions g invalid_ref ready reason message s
  apply_failure_status-conditions g invalid_ref invalid_ref reason message s h =
      failure_conditions g invalid_ref invalid_ref reason message s
  apply_failure_status-conditions g invalid_ref unsafe_selector reason message s h =
      failure_conditions g invalid_ref unsafe_selector reason message s
  apply_failure_status-conditions g invalid_ref conflict reason message s h =
      failure_conditions g invalid_ref conflict reason message s
  apply_failure_status-conditions g invalid_ref render_failure reason message s h =
      failure_conditions g invalid_ref render_failure reason message s
  apply_failure_status-conditions g unsafe_selector ready reason message s h =
      failure_conditions g unsafe_selector ready reason message s
  apply_failure_status-conditions g unsafe_selector invalid_ref reason message s h =
      failure_conditions g unsafe_selector invalid_ref reason message s
  apply_failure_status-conditions g unsafe_selector unsafe_selector reason message s h =
      failure_conditions g unsafe_selector unsafe_selector reason message s
  apply_failure_status-conditions g unsafe_selector conflict reason message s h =
      failure_conditions g unsafe_selector conflict reason message s
  apply_failure_status-conditions g unsafe_selector render_failure reason message s h =
      failure_conditions g unsafe_selector render_failure reason message s
  apply_failure_status-conditions g conflict ready reason message s h =
      failure_conditions g conflict ready reason message s
  apply_failure_status-conditions g conflict invalid_ref reason message s h =
      failure_conditions g conflict invalid_ref reason message s
  apply_failure_status-conditions g conflict unsafe_selector reason message s h =
      failure_conditions g conflict unsafe_selector reason message s
  apply_failure_status-conditions g conflict conflict reason message s h =
      failure_conditions g conflict conflict reason message s
  apply_failure_status-conditions g conflict render_failure reason message s h =
      failure_conditions g conflict render_failure reason message s
  apply_failure_status-conditions g render_failure ready reason message s h =
      failure_conditions g render_failure ready reason message s
  apply_failure_status-conditions g render_failure invalid_ref reason message s h =
      failure_conditions g render_failure invalid_ref reason message s
  apply_failure_status-conditions g render_failure unsafe_selector reason message s h =
      failure_conditions g render_failure unsafe_selector reason message s
  apply_failure_status-conditions g render_failure conflict reason message s h =
      failure_conditions g render_failure conflict reason message s
  apply_failure_status-conditions g render_failure render_failure reason message s h =
      failure_conditions g render_failure render_failure reason message s

  -- After a success or a conflict: `Ready`, the `Conflict` condition, and the other three healthy.
  abbrev after_evaluation : ℕ → Condition → Condition → Kind → Condition
  after_evaluation g on_ready on_conflict ready = on_ready
  after_evaluation g on_ready on_conflict conflict = on_conflict
  after_evaluation g on_ready on_conflict k =
      condition g k condition_false reason_resolved (healthy_message k)

  abbrev pub after_success : ℕ → Kind → Condition
  after_success g =
      after_evaluation g
        (condition g ready condition_true reason_reconciled (codes "Binding reconciled"))
        (condition g conflict condition_false reason_resolved (healthy_message conflict))

  healthy_step :
      (g : ℕ) (k l : Kind) (s : InferenceIdentityBindingStatus)
      → condition_of
          (set_condition p g (name_of k) condition_false reason_resolved (healthy_message k) s)
          l
        ≡ (if same_kind k l
            then some (condition g k condition_false reason_resolved (healthy_message k))
            else condition_of s l)
  healthy_step g k l s =
      condition_of-set_condition g k l condition_false reason_resolved (healthy_message k) s

  success_conditions :
      (g : ℕ) (l : Kind) (identities : List Plan) (managed : List RenderedClusterSpiffeIdStatus)
      → (s : InferenceIdentityBindingStatus)
      → condition_of (apply_success_status p g identities managed s) l
        ≡ healthy_unless g ready render_failure l (
            healthy_unless g ready conflict l (
              healthy_unless g ready unsafe_selector l (
                healthy_unless g ready invalid_ref l (
                  if same_kind ready l
                  then some (
                      condition g ready condition_true reason_reconciled
                        (codes "Binding reconciled"))
                  else condition_of s l))))
  unfolding apply_success_status
  success_conditions g l identities managed s = simp (
    healthy_step g render_failure l,
    healthy_step g conflict l,
    healthy_step g unsafe_selector l,
    healthy_step g invalid_ref l,
    condition_of-set_condition g ready l condition_true reason_reconciled
        (codes "Binding reconciled"),
  )

  -- After a success `Ready` is true, the other four conditions are false, and all five carry the generation.
  pub apply_success_status-conditions :
      (g : ℕ) (k : Kind) (identities : List Plan) (managed : List RenderedClusterSpiffeIdStatus)
      → (s : InferenceIdentityBindingStatus)
      → condition_of (apply_success_status p g identities managed s) k ≡ some (after_success g k)
  apply_success_status-conditions g ready identities managed s =
      success_conditions g ready identities managed s
  apply_success_status-conditions g invalid_ref identities managed s =
      success_conditions g invalid_ref identities managed s
  apply_success_status-conditions g unsafe_selector identities managed s =
      success_conditions g unsafe_selector identities managed s
  apply_success_status-conditions g conflict identities managed s =
      success_conditions g conflict identities managed s
  apply_success_status-conditions g render_failure identities managed s =
      success_conditions g render_failure identities managed s
