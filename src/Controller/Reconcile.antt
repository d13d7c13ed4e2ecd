-- ===== src/Controller/Reconcile.antt =====
-- `Reconcile`, `reconcileDelete` and `computeDesiredState` of inferenceidentitybinding_controller.go.
pub mod Safety
use kleym.Prelude.{
  ℕ, Bool, true, false, not, Option, none, some, List, [], ◌∷◌, ◌++◌, is_nil, if◌then◌else◌,
}
use kleym.Prelude.Text.{Text, codes, quote}
use kleym.Errors.{
  StateError, Error, plain, reconcile_state, Result, ok, err, error_text, errors_as_state_error,
  is_no_match_error, is_not_found_error,
}
use kleym.Identity.{Plan, NamespacedName}
use kleym.Api.{InferenceIdentityBinding, RenderedClusterSpiffeIdStatus}
use kleym.Gaie.{binding_pool_ref, PoolRef}
use kleym.Cluster.{Prog, done, bind, call, get_binding, update_binding, ClusterSpiffeId}
use kleym.Controller.{
  Reconciler, Action, pure, raise, lift, perform, gets, modify, attempt, ◌>>=◌, ◌>>◌, finalizer,
  new_state_error, condition_type_invalid_ref, reason_invalid_pool_ref, reason_reconciled,
  infra_not_ready_requeue_after, delete_verification_requeue_after,
}
use kleym.Controller.Status.{
  initialize_conditions, apply_operator_config, apply_success_status,
  apply_pending_managed_output_replacement_status, patch_binding_status,
}
use kleym.Controller.Ownership.{clear_cluster_spiffe_id_ownership, recorded_cluster_spiffe_id_name}
use kleym.Controller.Output.{
  desired_for, reconcile_cluster_spiffe_ids, cleanup_managed_cluster_spiffe_ids,
  list_managed_cluster_spiffe_ids, cleanup_changed_cluster_spiffe_id_name,
}
use kleym.Controller.Render.{
  render_identity, binding_identity_variant, resolve_inference_pool,
  is_infrastructure_not_ready_reason, new_cluster_spiffe_id_crd_missing_state_error,
}
use kleym.Controller.Failure.{
  event_type_normal, record_terminal_outcome, record_eventf, settle_failure, with_failure_status,
  apply_state_error,
}
use kleym.Controller.Conflict.{ReconcileResult, reconcile_conflict_state}

abbrev pub no_requeue : ReconcileResult
no_requeue = record { requeue_after = 0 }

abbrev pub requeue : ℕ → ReconcileResult
requeue seconds = record { requeue_after = seconds }

-- `r.Update(ctx, binding)`: the object that the server stores replaces the binding.
after_update :
    InferenceIdentityBinding
    → Result InferenceIdentityBinding
    → Prog (Result (Unit {0}) × InferenceIdentityBinding)
after_update b (ok stored) = done (ok tt, stored)
after_update b (err e) = done (err e, b)

update_stored : Action (Unit {0})
unfolding after_update
update_stored b = call (update_binding b) (after_update b)

clear_recorded : Bool → Action (Unit {0})
clear_recorded true = pure tt
clear_recorded false = clear_cluster_spiffe_id_ownership

unfoldable pub remove_binding_finalizer : Reconciler → Action ReconcileResult
unfolding update_stored clear_recorded
remove_binding_finalizer r = do
  recorded ← gets recorded_cluster_spiffe_id_name
  clear_recorded (is_nil recorded)
  modify λ b. record b { finalizers = r.platform.remove_finalizer b.finalizers finalizer }
  update_stored
  pure no_requeue

unfoldable pub reconcile_delete : Reconciler → Action ReconcileResult
reconcile_delete r = do
  finalizers ← gets (λ b. b.finalizers)
  if not (r.platform.contains_finalizer finalizers finalizer) then pure no_requeue else (do
    with_failure_status r cleanup_managed_cluster_spiffe_ids
    remaining ← with_failure_status r list_managed_cluster_spiffe_ids
    if not (is_nil remaining)
        then pure (requeue delete_verification_requeue_after)
        else remove_binding_finalizer r)

abbrev as_invalid_pool_ref : Result PoolRef → Result PoolRef
as_invalid_pool_ref (ok ref) = ok ref
as_invalid_pool_ref (err e) = err (
    reconcile_state
      (new_state_error condition_type_invalid_ref reason_invalid_pool_ref (error_text e)))

-- `desiredBindingState` is its one list of identities.
unfoldable pub compute_desired_state : Reconciler → Action (List Plan)
compute_desired_state r = do
  ref ← λ b. lift (as_invalid_pool_ref (binding_pool_ref b)) b
  pool ← resolve_inference_pool r ref
  identity ← λ b. lift (render_identity r b pool) b
  pure (identity ∷ [])

ensure_finalizer : Reconciler → Action (Unit {0})
unfolding update_stored
ensure_finalizer r b =
    if not (r.platform.contains_finalizer b.finalizers finalizer)
    then update_stored (record b { finalizers = r.platform.add_finalizer b.finalizers finalizer })
    else pure tt b

-- A state error ends the reconciliation in a failure status; of a missing CRD it is tried again.
unfoldable pub settle_state_error : Reconciler → StateError → Action ReconcileResult
settle_state_error r e = do
  with_failure_status r (apply_state_error r e)
  settle_failure r e
  pure (
      if is_infrastructure_not_ready_reason e.reason
      then requeue infra_not_ready_requeue_after
      else no_requeue)

settle_error : Reconciler → Error → Option StateError → Action ReconcileResult
settle_error r e none = raise e
settle_error r e (some state_error) = settle_state_error r state_error

settle_compute_error : Reconciler → Error → Action ReconcileResult
unfolding settle_error
settle_compute_error r e = settle_error r e (errors_as_state_error e)

-- An error of the apply: a missing CRD is a state error, any other is reported and returned.
settle_apply_error : Reconciler → Error → Action ReconcileResult
settle_apply_error r e =
    if is_no_match_error e
    then (do
      with_failure_status r (apply_state_error r new_cluster_spiffe_id_crd_missing_state_error)
      settle_failure r new_cluster_spiffe_id_crd_missing_state_error
      pure (requeue infra_not_ready_requeue_after))
    else with_failure_status r (raise e)

settle_success :
    Reconciler → List Plan → Text → List RenderedClusterSpiffeIdStatus → Action ReconcileResult
settle_success r identities primary_name managed = do
  modify λ b. record b {
    status = apply_success_status r.platform b.generation identities managed b.status;
  }
  patch_binding_status r.platform
  record_terminal_outcome r
  record_eventf r event_type_normal reason_reconciled
      (codes "reconciled ClusterSPIFFEID " ++ quote primary_name)
  pure no_requeue

settle_apply :
    Reconciler
    → List Plan
    → Text
    → Result (List RenderedClusterSpiffeIdStatus)
    → Action ReconcileResult
unfolding settle_apply_error settle_success
settle_apply r identities primary_name (ok managed) =
    settle_success r identities primary_name managed
settle_apply r identities primary_name (err e) = settle_apply_error r e

settle_replacement : Reconciler → Action ReconcileResult
settle_replacement r = do
  modify λ b. record b {
    status = apply_pending_managed_output_replacement_status r.platform b.generation b.status;
  }
  patch_binding_status r.platform
  pure (requeue delete_verification_requeue_after)

-- Phase 5, once no conflict is left to handle.
unfoldable pub apply_desired_state : Reconciler → Plan → Action ReconcileResult
unfolding settle_replacement settle_apply
apply_desired_state r primary = do
  desired ← gets (desired_for r primary)
  pending ← with_failure_status r (cleanup_changed_cluster_spiffe_id_name desired.name)
  if pending then settle_replacement r else (do
    managed ← attempt (reconcile_cluster_spiffe_ids r (primary ∷ []))
    settle_apply r (primary ∷ []) desired.name managed)

-- `if handled || err != nil { return … }`.
continue_unhandled : Reconciler → Plan → Option ReconcileResult → Action ReconcileResult
continue_unhandled r primary (some result) = pure result
continue_unhandled r primary none = apply_desired_state r primary

-- `desiredState.identities[0]`: Go would panic on an empty list.
reconcile_desired : Reconciler → Result (List Plan) → Action ReconcileResult
unfolding settle_compute_error continue_unhandled
reconcile_desired r (err e) = settle_compute_error r e
reconcile_desired r (ok []) = raise (plain (codes "index out of range"))
reconcile_desired r (ok (primary ∷ rest)) = do
  handled ← reconcile_conflict_state r primary
  continue_unhandled r primary handled

desired_state : Reconciler → Action (List Plan)
desired_state r = do λ b. lift (binding_identity_variant r b) b; compute_desired_state r

unfoldable pub reconcile_present : Reconciler → Action ReconcileResult
unfolding ensure_finalizer desired_state reconcile_desired
reconcile_present r = do
  ensure_finalizer r
  modify λ b. record b {
    status =
        apply_operator_config r.config (initialize_conditions r.platform b.generation b.status);
  }
  desired ← attempt (desired_state r)
  reconcile_desired r desired

unfoldable pub reconcile_binding : Reconciler → Action ReconcileResult
reconcile_binding r b = if b.deleting then reconcile_delete r b else reconcile_present r b

abbrev finish :
    Result ReconcileResult × InferenceIdentityBinding
    → Prog (Result ReconcileResult × Option InferenceIdentityBinding)
finish (result, changed) = done (result, some changed)

fetched :
    Reconciler
    → Result InferenceIdentityBinding
    → Prog (Result ReconcileResult × Option InferenceIdentityBinding)
fetched r (err e) = done ((if is_not_found_error e then ok no_requeue else err e), none)
fetched r (ok b) = bind (reconcile_binding r b) finish

-- The result, and the binding as the reconciliation left it, if there was one.
unfoldable pub reconcile :
    Reconciler → NamespacedName → Prog (Result ReconcileResult × Option InferenceIdentityBinding)
unfolding fetched
reconcile r key = call (get_binding key) (fetched r)
