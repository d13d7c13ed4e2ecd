-- ===== src/Controller/Reconcile/Safety.antt =====
-- The whole reconciliation under every answer of the cluster.
use kleym.Prelude.{refl, Bool, true, false, Option, some, none, List, [], ◌∷◌}
use kleym.Prelude.Text.{Text}
use kleym.Errors.{StateError, Error, Result, ok, err, errors_as_state_error}
use kleym.Identity.{Plan, NamespacedName}
use kleym.Api.{InferenceIdentityBinding, RenderedClusterSpiffeIdStatus}
use kleym.Cluster.{get_binding, update_binding}
use kleym.Controller.Evidence.{event, History, Shows, Permitted, Runs, Backed}
use kleym.Controller.Evidence.Rules.{
  Backed-Stable, Shows-Backed, Backed-same, OnOk, Ends, Triple, True, Any, pure-Triple,
  raise-Triple, gets-Triple, reads-Triple, attempt-Triple, weaken-Triple, bind-Triple,
  modify-Triple, if-Triple, Runs-bind, Runs-if,
}
use kleym.Controller.{Reconciler, Action, pure, lift, attempt, ◌>>=◌}
use kleym.Controller.Status.Keeps.{
  SameOwnership, apply_success_status-KeepsOwnership, apply_replacement_status-KeepsOwnership,
  configured-KeepsOwnership,
}
use kleym.Controller.Status.Safety.{patch_status-Triple}
use kleym.Controller.Ownership.Safety.{clear-Triple, any_ok}
use kleym.Controller.Output.Safety.{
  cleanup-Triple, list_any-Triple, cleanup_changed-Triple, reconcile_outputs-Triple,
}
use kleym.Controller.Render.Safety.{resolve-Triple}
use kleym.Controller.Failure.Safety.{
  outcome-Triple, event-Triple, settle_failure-Triple, with_failure_status-Triple,
  apply_state_error-Triple,
}
use kleym.Controller.Failure.{with_failure_status}
use kleym.Controller.Conflict.{ReconcileResult}
use kleym.Controller.Conflict.Safety.{conflict-Triple}
use kleym.Controller.Reconcile.{
  after_update, update_stored, clear_recorded, remove_binding_finalizer, reconcile_delete,
  compute_desired_state, ensure_finalizer, settle_state_error, settle_error, settle_compute_error,
  settle_apply_error, settle_success, settle_apply, settle_replacement, apply_desired_state,
  continue_unhandled, reconcile_desired, desired_state, reconcile_present, reconcile_binding,
  fetched, reconcile, finish,
}

-- A step of which nothing is asked but that it is safe.
next :
    {A B : Type 0} (m : Action A) (f : A → Action B)
    → Triple True m Any
    → ((a : A) → Triple True (f a) Any)
    → Triple True (m >>= f) Any
next m f t u = bind-Triple Any Any f True m t u

end : {A : Type 0} (a : A) → Triple True (pure a) Any
end a = pure-Triple True Any a (λ h p. tt)

reported :
    {A : Type 0} (m : Action A) (r : Reconciler)
    → Triple True m Any
    → Triple True (with_failure_status r m) Any
reported m r t = with_failure_status-Triple Any True r m t

tried : {A : Type 0} (m : Action A) → Triple True m Any → Triple True (attempt m) Any
tried m t =
    weaken-Triple True True (OnOk Any) Any _ (λ h p. tt) (λ a h q. tt) (attempt-Triple True Any m t)

after_update-Ends :
    (h : History) (b : InferenceIdentityBinding) (reply : Result InferenceIdentityBinding)
    → Backed h b
    → Runs (Ends Any) (event (update_binding b) reply ∷ h) (after_update b reply)
unfolding after_update Runs Ends OnOk Shows
after_update-Ends h b (ok stored) backed = (tt, Shows-Backed _ h stored refl)
after_update-Ends h b (err e) backed = (tt, Backed-Stable b _ h backed)

update-Triple : Triple True update_stored Any
unfolding Triple update_stored Runs Permitted
update-Triple h b t backed = (tt, λ reply. after_update-Ends h b reply backed)

clear_recorded-Triple : (absent : Bool) → Triple True (clear_recorded absent) Any
unfolding clear_recorded
clear_recorded-Triple true = end tt
clear_recorded-Triple false = clear-Triple

remove_finalizer-Triple : (r : Reconciler) → Triple True (remove_binding_finalizer r) Any
unfolding remove_binding_finalizer
remove_finalizer-Triple r = next _ _ (gets-Triple True _) λ recorded.
    next _ _ (clear_recorded-Triple _) λ _.
      next _ _ (modify-Triple True _ (λ b. (refl, refl))) λ _. next _ _ update-Triple λ _. end _

delete-Triple : (r : Reconciler) → Triple True (reconcile_delete r) Any
unfolding reconcile_delete
delete-Triple r = next _ _ (gets-Triple True _) λ finalizers. if-Triple True Any _ _ _ (end _) (
    next _ _ (reported _ r cleanup-Triple) λ _.
      next _ _ (reported _ r list_any-Triple)
        λ remaining. if-Triple True Any _ _ _ (end _) (remove_finalizer-Triple r))

state_error-Triple : (r : Reconciler) (e : StateError) → Triple True (settle_state_error r e) Any
unfolding settle_state_error
state_error-Triple r e =
    next _ _ (reported _ r (apply_state_error-Triple r e))
      λ _. next _ _ (settle_failure-Triple r e) λ _. end _

settle_error-Triple :
    (r : Reconciler) (e : Error) (s : Option StateError) → Triple True (settle_error r e s) Any
unfolding settle_error
settle_error-Triple r e none = raise-Triple True Any e
settle_error-Triple r e (some s) = state_error-Triple r s

settle_apply-Triple :
    (r : Reconciler) (identities : List Plan) (name : Text)
    → (result : Result (List RenderedClusterSpiffeIdStatus))
    → Triple True (settle_apply r identities name result) Any
unfolding settle_apply settle_success settle_apply_error SameOwnership
settle_apply-Triple r identities name (ok managed) =
    next _ _
      (modify-Triple True _ λ b.
        apply_success_status-KeepsOwnership r.platform b.generation identities managed b.status)
      λ _.
        next _ _ (patch_status-Triple r.platform)
          λ _. next _ _ (outcome-Triple r) λ _. next _ _ (event-Triple r _ _ _) λ _. end _
settle_apply-Triple r identities name (err e) =
    if-Triple True Any _ _ _
      (next _ _ (reported _ r (apply_state_error-Triple r _))
        λ _. next _ _ (settle_failure-Triple r _) λ _. end _)
      (reported _ r (raise-Triple True Any e))

replacement-Triple : (r : Reconciler) → Triple True (settle_replacement r) Any
unfolding settle_replacement SameOwnership
replacement-Triple r =
    next _ _
      (modify-Triple True _
        λ b. apply_replacement_status-KeepsOwnership r.platform b.generation b.status)
      λ _. next _ _ (patch_status-Triple r.platform) λ _. end _

apply-Triple : (r : Reconciler) (primary : Plan) → Triple True (apply_desired_state r primary) Any
unfolding apply_desired_state
apply-Triple r primary = next _ _ (gets-Triple True _) λ desired.
    next _ _ (reported _ r (cleanup_changed-Triple desired.name)) λ pending.
      if-Triple True Any _ _ _ (replacement-Triple r) (
        next _ _ (tried _ (reconcile_outputs-Triple r (primary ∷ [])))
          (settle_apply-Triple r (primary ∷ []) desired.name))

unhandled-Triple :
    (r : Reconciler) (primary : Plan) (handled : Option ReconcileResult)
    → Triple True (continue_unhandled r primary handled) Any
unfolding continue_unhandled
unhandled-Triple r primary none = apply-Triple r primary
unhandled-Triple r primary (some result) = end result

desired-Triple :
    (r : Reconciler) (desired : Result (List Plan)) → Triple True (reconcile_desired r desired) Any
unfolding reconcile_desired settle_compute_error
desired-Triple r (err e) = settle_error-Triple r e (errors_as_state_error e)
desired-Triple r (ok []) = raise-Triple True Any _
desired-Triple r (ok (primary ∷ rest)) =
    next _ _ (conflict-Triple r primary) (unhandled-Triple r primary)

reads-any :
    {A : Type 0} (f : InferenceIdentityBinding → Result A) → Triple True (λ b. lift (f b) b) Any
reads-any f = reads-Triple True Any f (λ h b t k. any_ok (f b) h)

desired_state-Triple : (r : Reconciler) → Triple True (desired_state r) Any
unfolding desired_state compute_desired_state
desired_state-Triple r = next _ _ (reads-any _) λ _.
    next _ _ (reads-any _)
      λ ref. next _ _ (resolve-Triple r ref) λ pool. next _ _ (reads-any _) λ identity. end _

finalizer-Triple : (r : Reconciler) → Triple True (ensure_finalizer r) Any
unfolding Triple ensure_finalizer
finalizer-Triple r h b t backed =
    Runs-if (Ends Any) h _ _ _ (update-Triple h _ tt (Backed-same h b _ refl refl backed))
      (end tt h b tt backed)

present-Triple : (r : Reconciler) → Triple True (reconcile_present r) Any
unfolding reconcile_present SameOwnership
present-Triple r = next _ _ (finalizer-Triple r) λ _.
    next _ _
      (modify-Triple True _
        λ b. configured-KeepsOwnership r.platform b.generation r.config b.status)
      λ _. next _ _ (tried _ (desired_state-Triple r)) (desired-Triple r)

binding-Triple : (r : Reconciler) → Triple True (reconcile_binding r) Any
unfolding Triple reconcile_binding
binding-Triple r h b t backed =
    Runs-if (Ends Any) h _ _ _ (delete-Triple r h b tt backed) (present-Triple r h b tt backed)

fetched-Runs :
    (r : Reconciler) (key : NamespacedName) (h : History) (reply : Result InferenceIdentityBinding)
    → Runs (λ h result. Unit) (event (get_binding key) reply ∷ h) (fetched r reply)
unfolding fetched Runs Triple Shows
fetched-Runs r key h (err e) = tt
fetched-Runs r key h (ok b) =
    Runs-bind (Ends Any) (λ h result. Unit) _ (reconcile_binding r b) finish
      (binding-Triple r _ b tt (Shows-Backed _ h b refl)) (λ h' a q. tt)

-- Whatever the cluster answers to each call of a reconciliation, whatever else changes it in between, and
-- from any earlier history: a ClusterSPIFFEID is deleted or updated only by a name and a non-empty UID that a
-- binding's durable status owned in an answer of the history, and created only under an ownership claim that a
-- durable status had recorded as pending.
pub reconcile-Permitted :
    (r : Reconciler) (key : NamespacedName) (h : History)
    → Runs (λ h result. Unit) h (reconcile r key)
unfolding reconcile Runs Permitted
reconcile-Permitted r key h = (tt, λ reply. fetched-Runs r key h reply)
