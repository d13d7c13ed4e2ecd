-- ===== src/Controller/Failure.antt =====
-- The failure paths of inferenceidentitybinding_controller.go: cleanup after a state error, the status of a
-- failed apply, and the outcome and the event that follow a terminal status.
pub mod Safety
use kleym.Prelude.{Bool, true, false, List, is_nil, if◌then◌else◌}
use kleym.Prelude.Text.{Text, codes}
use kleym.Errors.{StateError, Error, Result, ok, err}
use kleym.Api.{InferenceIdentityBinding}
use kleym.Cluster.{call, record_outcome, record_event}
use kleym.Controller.{Reconciler, Action, pure, raise, perform, modify, attempt, ◌>>=◌, ◌>>◌}
use kleym.Controller.Status.{apply_failure_status, patch_binding_status}
use kleym.Controller.Ownership.{clear_cluster_spiffe_id_ownership}
use kleym.Controller.Output.{cleanup_managed_cluster_spiffe_ids, list_managed_cluster_spiffe_ids}
use kleym.Controller.Render.{
  should_cleanup_managed_cluster_spiffe_ids, new_managed_output_apply_failed_state_error,
}

abbrev pub event_type_normal : Text
event_type_normal = codes "Normal"

abbrev pub event_type_warning : Text
event_type_warning = codes "Warning"

unfoldable pub record_terminal_outcome : Reconciler → Action (Unit {0})
record_terminal_outcome r b =
    if r.has_metrics_recorder then call (record_outcome b) (λ _. pure tt b) else pure tt b

unfoldable pub record_eventf : Reconciler → Text → Text → Text → Action (Unit {0})
record_eventf r event_type reason message b =
    if r.has_recorder
    then call (record_event b event_type reason message) (λ _. pure tt b)
    else pure tt b

-- The status of a failed method: conditions, one terminal status patch, its outcome and its event.
unfoldable pub settle_failure : Reconciler → StateError → Action (Unit {0})
settle_failure r e = do
  patch_binding_status r.platform
  record_terminal_outcome r
  record_eventf r event_type_warning e.reason e.message

abbrev pub fail_status : Reconciler → StateError → Action (Unit {0})
fail_status r e =
    modify λ b. record b { status = apply_failure_status r.platform b.generation e b.status }

unfoldable pub patch_managed_output_apply_failure_status : Reconciler → Error → Action (Unit {0})
patch_managed_output_apply_failure_status r e = do
  fail_status r (new_managed_output_apply_failed_state_error e)
  settle_failure r (new_managed_output_apply_failed_state_error e)

-- `if err := m; err != nil { … }` of every managed-output step: an error is reported in the status first,
-- and an error of that report takes its place.
after_attempt : {A : Type 0} → Reconciler → Result A → Action A
after_attempt r (ok a) = pure a
after_attempt r (err e) = do patch_managed_output_apply_failure_status r e; raise e

unfoldable pub with_failure_status : {A : Type 0} → Reconciler → Action A → Action A
unfolding after_attempt
with_failure_status r m = do result ← attempt m; after_attempt r result

clear_if_absent : Bool → Action (Unit {0})
clear_if_absent true = clear_cluster_spiffe_id_ownership
clear_if_absent false = pure tt

withdraw_output : Bool → Action (Unit {0})
unfolding clear_if_absent
withdraw_output false = pure tt
withdraw_output true = do
  cleanup_managed_cluster_spiffe_ids
  remaining ← list_managed_cluster_spiffe_ids
  clear_if_absent (is_nil remaining)

unfoldable pub apply_state_error : Reconciler → StateError → Action (Unit {0})
unfolding withdraw_output
apply_state_error r e = do
  withdraw_output (should_cleanup_managed_cluster_spiffe_ids e.condition_type)
  fail_status r e
