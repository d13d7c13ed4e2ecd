-- ===== src/Controller/Failure/Safety.antt =====
-- The failure paths under every answer of the cluster.
use kleym.Prelude.{Bool, true, false, is_nil, Bool-cases, inl, inr}
use kleym.Prelude.Text.{Text}
use kleym.Errors.{StateError, Error, Result, ok, err}
use kleym.Controller.Evidence.{History, Permitted, Runs}
use kleym.Controller.Evidence.Rules.{
  Backed-Stable, OnOk, Ends, Triple, True, Any, pure-Triple, raise-Triple, attempt-Triple,
  bind-Triple, modify-Triple,
}
use kleym.Controller.{Reconciler, Action, pure}
use kleym.Controller.Status.Keeps.{SameOwnership, apply_failure_status-KeepsOwnership}
use kleym.Controller.Status.Safety.{patch_status-Triple}
use kleym.Controller.Ownership.Safety.{clear-Triple}
use kleym.Controller.Output.Safety.{cleanup-Triple, list_any-Triple}
use kleym.Controller.Failure.{
  record_terminal_outcome, record_eventf, settle_failure, fail_status,
  patch_managed_output_apply_failure_status, after_attempt, with_failure_status, clear_if_absent,
  withdraw_output, apply_state_error,
}

pub outcome-Triple : (r : Reconciler) → Triple True (record_terminal_outcome r) Any
unfolding Triple record_terminal_outcome pure Runs Ends OnOk Permitted
outcome-Triple r h b t backed = elim (Bool-cases r.has_metrics_recorder) [
  | inl on ↦ rw on (tt, λ reply. (tt, Backed-Stable b _ h backed))
  | inr off ↦ rw off (tt, backed)
]

pub event-Triple :
    (r : Reconciler) (event_type reason message : Text)
    → Triple True (record_eventf r event_type reason message) Any
unfolding Triple record_eventf pure Runs Ends OnOk Permitted
event-Triple r event_type reason message h b t backed = elim (Bool-cases r.has_recorder) [
  | inl on ↦ rw on (tt, λ reply. (tt, Backed-Stable b _ h backed))
  | inr off ↦ rw off (tt, backed)
]

pub settle_failure-Triple : (r : Reconciler) (e : StateError) → Triple True (settle_failure r e) Any
unfolding settle_failure
settle_failure-Triple r e =
    bind-Triple Any Any _ True _ (patch_status-Triple r.platform)
      λ _. bind-Triple Any Any _ True _ (outcome-Triple r) λ _. event-Triple r _ e.reason e.message

fail_status-Triple : (r : Reconciler) (e : StateError) → Triple True (fail_status r e) Any
unfolding SameOwnership
fail_status-Triple r e =
    modify-Triple True _ λ b. apply_failure_status-KeepsOwnership r.platform b.generation e b.status

failure-Triple :
    (r : Reconciler) (e : Error) → Triple True (patch_managed_output_apply_failure_status r e) Any
unfolding patch_managed_output_apply_failure_status
failure-Triple r e =
    bind-Triple Any Any _ True _ (fail_status-Triple r _) λ _. settle_failure-Triple r _

after_attempt-Triple :
    {A : Type 0}
    → (Q : A → History → Type 0) → (r : Reconciler) → (result : Result A)
    → Triple (OnOk Q result) (after_attempt r result) Q
unfolding after_attempt OnOk
after_attempt-Triple Q r (ok a) = pure-Triple (Q a) Q a (λ h q. q)
after_attempt-Triple Q r (err e) =
    bind-Triple Any Q _ True _ (failure-Triple r e) λ _. raise-Triple True Q e

pub with_failure_status-Triple :
    {A : Type 0}
    → (Q : A → History → Type 0) → (P : History → Type 0) → (r : Reconciler) → (m : Action A)
    → Triple P m Q
    → Triple P (with_failure_status r m) Q
unfolding with_failure_status
with_failure_status-Triple Q P r m t =
    bind-Triple (OnOk Q) Q _ P _ (attempt-Triple P Q m t) (after_attempt-Triple Q r)

clear_if_absent-Triple : (absent : Bool) → Triple True (clear_if_absent absent) Any
unfolding clear_if_absent
clear_if_absent-Triple true = clear-Triple
clear_if_absent-Triple false = pure-Triple True Any tt (λ h p. tt)

withdraw_output-Triple : (withdraw : Bool) → Triple True (withdraw_output withdraw) Any
unfolding withdraw_output
withdraw_output-Triple false = pure-Triple True Any tt (λ h p. tt)
withdraw_output-Triple true = bind-Triple Any Any _ True _ cleanup-Triple λ _.
    bind-Triple Any Any _ True _ list_any-Triple
      λ remaining. clear_if_absent-Triple (is_nil remaining)

pub apply_state_error-Triple :
    (r : Reconciler) (e : StateError) → Triple True (apply_state_error r e) Any
unfolding apply_state_error
apply_state_error-Triple r e =
    bind-Triple Any Any _ True _ (withdraw_output-Triple _) λ _. fail_status-Triple r e
