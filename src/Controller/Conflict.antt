-- ===== src/Controller/Conflict.antt =====
-- inferenceidentitybinding_conflict.go: the bindings of a namespace are compared before one of them may
-- write output, and the output of a conflict's members is withdrawn.
pub mod Safety
use kleym.Prelude.{
  ℕ, Bool, true, false, not, ◌&&◌, ◌||◌, Option, none, some, List, [], ◌∷◌, ◌++◌, is_nil, any, keep,
  if◌then◌else◌,
}
use kleym.Prelude.Text.{Text, text_eq}
use kleym.Errors.{StateError, Error, Result, ok, err, errors_as_state_error}
use kleym.Identity.{Plan, NamespacedName}
use kleym.Identity.Boundary.{VariantRecord, VariantConflict}
use kleym.Identity.Conflicts.{evaluate_variant_conflicts}
use kleym.Api.{InferenceIdentityBinding}
use kleym.Cluster.{list_bindings}
use kleym.Controller.{
  Reconciler, Action, pure, raise, lift, perform, gets, modify, attempt, on_copy, ◌>>=◌, ◌>>◌,
  delete_verification_requeue_after,
}
use kleym.Controller.Status.{
  apply_conflict_status, apply_pending_conflict_status, patch_binding_status,
}
use kleym.Controller.Output.{cleanup_managed_cluster_spiffe_ids, list_managed_cluster_spiffe_ids}
use kleym.Controller.Render.{render_identity_for_binding}
use kleym.Controller.Failure.{with_failure_status, record_terminal_outcome}

-- A pointer of `members`: the binding being reconciled itself, or a deep copy of a listed binding.
pub data Member : Type 0 where
  current : Member
  copy : InferenceIdentityBinding → Member

pub record BindingConflictState : Type 0 where
  pub conflicts : List VariantConflict
  pub members : List Member
  pub blocked : Bool

abbrev pub ref_of : InferenceIdentityBinding → NamespacedName
ref_of b = record { namespace = b.namespace; name = b.name }

abbrev pub same_ref : NamespacedName → NamespacedName → Bool
same_ref a b = text_eq a.namespace b.namespace && text_eq a.name b.name

abbrev member_binding : InferenceIdentityBinding → Member → InferenceIdentityBinding
member_binding b current = b
member_binding b (copy c) = c

unfoldable pub variant_record : InferenceIdentityBinding → Plan → VariantRecord
variant_record b plan = record {
  binding_ref = ref_of b;
  service_account_name = b.spec.service_account_name;
  variant = plan.variant;
  spiffe_id = plan.spiffe_id;
}

-- `member`, of the binding `b` that is reconciled, joins the list unless one of its name is there.
unfoldable pub append_conflict_member :
    InferenceIdentityBinding → List Member → Member → List Member
append_conflict_member b members member =
    if any (λ m. same_ref (ref_of (member_binding b m)) (ref_of (member_binding b member))) members
    then members
    else members ++ member ∷ []

-- The results of `identityForConflictEvaluation`: a plan if relevant, nothing, or a block.
pub data PeerEvaluation : Type 0 where
  relevant : Plan → PeerEvaluation
  irrelevant blocks_recovery : PeerEvaluation

-- A peer whose state error is caught blocks while its output remains.
evaluate_error : Error → Option StateError → Action PeerEvaluation
evaluate_error e none = raise e
evaluate_error e (some s) = do
  remaining ← list_managed_cluster_spiffe_ids
  pure (if is_nil remaining then irrelevant else blocks_recovery)

evaluate_failed : Result Plan → Action PeerEvaluation
unfolding evaluate_error
evaluate_failed (ok plan) = pure (relevant plan)
evaluate_failed (err e) = evaluate_error e (errors_as_state_error e)

evaluate_present : Reconciler → InferenceIdentityBinding → Plan → Action PeerEvaluation
unfolding evaluate_failed
evaluate_present r reconciled current_identity peer =
    if same_ref (ref_of peer) (ref_of reconciled)
    then pure (relevant current_identity) peer
    else (do plan ← attempt (render_identity_for_binding r); evaluate_failed plan) peer

-- An action on the peer. A peer that is deleted counts only while its output remains.
unfoldable pub identity_for_conflict_evaluation :
    Reconciler → InferenceIdentityBinding → Plan → Action PeerEvaluation
unfolding evaluate_present
identity_for_conflict_evaluation r reconciled current_identity peer =
    if peer.deleting
    then (do
      remaining ← list_managed_cluster_spiffe_ids
      if is_nil remaining then pure irrelevant else evaluate_present r reconciled current_identity)
        peer
    else evaluate_present r reconciled current_identity peer

-- What the loop of `evaluateBindingConflicts` collects.
pub record Evaluated : Type 0 where
  pub records : List VariantRecord
  pub bindings_by_ref : List (NamespacedName × InferenceIdentityBinding)
  pub blocked_members : List InferenceIdentityBinding

abbrev collect : PeerEvaluation → InferenceIdentityBinding → Evaluated → Evaluated
collect (relevant plan) peer e = record e {
  records = variant_record peer plan ∷ e.records;
  bindings_by_ref = e.bindings_by_ref ++ (ref_of peer, peer) ∷ [];
}
collect irrelevant peer e = e
collect blocks_recovery peer e = record e { blocked_members = peer ∷ e.blocked_members }

evaluate_peers : Reconciler → Plan → List InferenceIdentityBinding → Action Evaluated
evaluate_peers r current_identity [] =
    pure (record { records = []; bindings_by_ref = []; blocked_members = [] })
evaluate_peers r current_identity (item ∷ rest) = do
  reconciled ← gets (λ b. b)
  (evaluation, peer) ← on_copy item (identity_for_conflict_evaluation r reconciled current_identity)
  evaluated ← evaluate_peers r current_identity rest
  pure (collect evaluation peer evaluated)

-- The map of the bindings: of several of one name the one entered last, the first of the list here.
lookup_binding : NamespacedName → List (NamespacedName × InferenceIdentityBinding) → List Member
lookup_binding ref [] = []
lookup_binding ref ((key, peer) ∷ rest) =
    if same_ref key ref then copy peer ∷ [] else lookup_binding ref rest

append_members : InferenceIdentityBinding → List Member → List Member → List Member
append_members b members [] = members
append_members b members (m ∷ ms) = append_members b (append_conflict_member b members m) ms

append_peers :
    InferenceIdentityBinding
    → List (NamespacedName × InferenceIdentityBinding)
    → List Member
    → List VariantConflict
    → List Member
unfolding lookup_binding append_members
append_peers b by_ref members [] = members
append_peers b by_ref members (c ∷ cs) =
    append_peers b by_ref (append_members b members (lookup_binding c.peer_binding_ref by_ref)) cs

state_of_conflicts :
    InferenceIdentityBinding → Evaluated → List VariantConflict → BindingConflictState
unfolding append_peers
state_of_conflicts b e conflicts =
    if is_nil conflicts then record { conflicts = []; members = []; blocked = false } else record {
      conflicts = conflicts;
      members =
          append_peers b e.bindings_by_ref
            (append_members b [] (lookup_binding (ref_of b) e.bindings_by_ref)) conflicts;
      blocked = false;
    }

-- The conflicts that are the binding's own.
abbrev pub own_conflicts : InferenceIdentityBinding → Evaluated → List VariantConflict
own_conflicts b e =
    keep (λ (c : VariantConflict). same_ref c.binding_ref (ref_of b))
      (evaluate_variant_conflicts e.records)

unfoldable pub current_binding_conflict_state :
    InferenceIdentityBinding → Evaluated → BindingConflictState
unfolding state_of_conflicts
current_binding_conflict_state b e = state_of_conflicts b e (own_conflicts b e)

abbrev copies : List InferenceIdentityBinding → List Member
copies [] = []
copies (b ∷ bs) = copy b ∷ copies bs

-- A peer that blocks recovery joins the members, after the binding itself.
unfoldable pub block_recovery :
    InferenceIdentityBinding
    → List InferenceIdentityBinding
    → BindingConflictState
    → BindingConflictState
unfolding append_members
block_recovery b blocked_members state = if is_nil blocked_members then state else record state {
  blocked = true;
  members =
      append_members b (append_conflict_member b state.members current) (copies blocked_members);
}

unfoldable pub evaluate_binding_conflicts : Reconciler → Plan → Action BindingConflictState
unfolding evaluate_peers
evaluate_binding_conflicts r current_identity = do
  namespace ← gets (λ b. b.namespace)
  reply ← perform (list_bindings namespace)
  items ← lift reply
  evaluated ← evaluate_peers r current_identity items
  gets
      (λ b. block_recovery b evaluated.blocked_members (current_binding_conflict_state b evaluated))

-- An action on the binding that a member points to; the member comes back as the action left it.
on_member : {A : Type 0} → Member → Action A → Action (A × Member)
on_member current m = do a ← m; pure (a, current)
on_member (copy c) m = do (a, changed) ← on_copy c m; pure (a, copy changed)

cleanup_members : List Member → Action (List Member)
unfolding on_member
cleanup_members [] = pure []
cleanup_members (member ∷ rest) = do
  (_, cleaned) ← on_member member cleanup_managed_cluster_spiffe_ids
  others ← cleanup_members rest
  pure (cleaned ∷ others)

confirm_absent : List Member → Action Bool
unfolding on_member
confirm_absent [] = pure true
confirm_absent (member ∷ rest) = do
  (remaining, _) ← on_member member list_managed_cluster_spiffe_ids
  if not (is_nil remaining) then pure false else confirm_absent rest

unfoldable pub withdraw_conflict_outputs : List Member → Action Bool
unfolding cleanup_members confirm_absent
withdraw_conflict_outputs members = do cleaned ← cleanup_members members; confirm_absent cleaned

-- `ctrl.Result`: the seconds after which the binding is reconciled again, if not zero.
pub record ReconcileResult : Type 0 where
  pub requeue_after : ℕ

settle_conflict : Reconciler → BindingConflictState → Bool → Action (Option ReconcileResult)
settle_conflict r state outputs_absent =
    if not outputs_absent || state.blocked
    then (do
      modify
          λ b. record b { status = apply_pending_conflict_status r.platform b.generation b.status }
      patch_binding_status r.platform
      pure (some (record { requeue_after = delete_verification_requeue_after })))
    else (do
      modify λ b. record b {
        status = apply_conflict_status r.platform b.generation state.conflicts b.status;
      }
      patch_binding_status r.platform
      record_terminal_outcome r
      pure (some (record { requeue_after = 0 })))

-- `none` when nothing was to handle, so that the reconciliation goes on.
unfoldable pub reconcile_conflict_state : Reconciler → Plan → Action (Option ReconcileResult)
unfolding settle_conflict
reconcile_conflict_state r current_identity = do
  state ← with_failure_status r (evaluate_binding_conflicts r current_identity)
  if is_nil state.conflicts && not state.blocked then pure none else (do
    outputs_absent ← with_failure_status r (withdraw_conflict_outputs state.members)
    settle_conflict r state outputs_absent)
