-- ===== src/Controller/Output.antt =====
-- inferenceidentitybinding_spiffe.go: the managed ClusterSPIFFEID is created, updated and removed.
pub mod Safety
use kleym.Prelude.{
  ℕ, zero, suc, Bool, true, false, not, ◌||◌, Option, none, some, List, [], ◌∷◌, ◌++◌, is_nil,
  if◌then◌else◌,
}
use kleym.Prelude.Text.{Text, codes, text_eq, quote}
use kleym.Errors.{
  Error, plain, wrapped, Result, ok, err, is_not_found_error, is_already_exists_error,
}
use kleym.Identity.{Plan}
use kleym.Identity.Selectors.{selector_fingerprint}
use kleym.Api.{InferenceIdentityBinding, RenderedClusterSpiffeIdStatus}
use kleym.Platform.{Platform}
use kleym.Cluster.{ClusterSpiffeId, create_output, update_output, delete_output}
use kleym.Spirecm.{
  desired_cluster_spiffe_id, set_cluster_spiffe_id_ownership_claim, cluster_spiffe_id_in_sync,
  merge_desired_cluster_spiffe_id,
}
use kleym.Controller.{Reconciler, Action, pure, raise, lift, perform, gets, ◌>>=◌, ◌>>◌}
use kleym.Controller.Ownership.{
  ManagedOutputObservationKind, unclaimed_output_absent, unclaimed_output_foreign,
  pending_output_absent, pending_output_matched, pending_output_foreign, confirmed_output_absent,
  confirmed_output_matched, confirmed_output_foreign, ManagedOutputObservation,
  observe_managed_cluster_spiffe_id, reserve_cluster_spiffe_id_claim,
  confirm_cluster_spiffe_id_ownership, clear_cluster_spiffe_id_ownership,
  recorded_cluster_spiffe_id_name,
}

observed_generation_status : ClusterSpiffeId → Option ℕ
observed_generation_status o = generation o.generation
  where
    generation : ℕ → Option ℕ
    generation zero = none
    generation (suc n) = some (suc n)

unfoldable pub rendered_cluster_spiffe_id_status :
    Platform → Plan → ClusterSpiffeId → RenderedClusterSpiffeIdStatus
unfolding observed_generation_status
rendered_cluster_spiffe_id_status platform identity o = record {
  name = o.name;
  spiffe_id = identity.spiffe_id;
  selector_fingerprint = selector_fingerprint platform.sha256 identity.selectors;
  observed_generation = observed_generation_status o;
}

-- The live object of an observation that has one. Go would panic on a nil pointer.
live_object : ManagedOutputObservation → Action ClusterSpiffeId
live_object o = elim o.live [
  | none ↦ raise (plain (codes "nil pointer dereference"))
  | some live ↦ pure live
]

live_uid : Option ClusterSpiffeId → Text
live_uid none = []
live_uid (some o) = o.uid

unfoldable pub foreign_managed_output_error : Text → ManagedOutputObservation → Error
unfolding live_uid
foreign_managed_output_error name o = elim o.kind [
  | pending_output_foreign ↦ plain (
      codes "refusing same-name ClusterSPIFFEID "
      ++ quote name
      ++ codes ": live ownership claim does not match the durable pending claim")
  | confirmed_output_foreign ↦ plain (
      codes "refusing same-name ClusterSPIFFEID "
      ++ quote name
      ++ codes ": live UID "
      ++ quote (live_uid o.live)
      ++ codes " does not match confirmed UID "
      ++ quote o.output_record.uid)
  | _ ↦ plain (
      codes "refusing pre-existing ClusterSPIFFEID "
      ++ quote name
      ++ codes " without durable ownership status")
]

-- The `switch` of `authorizeManagedOutputApply`: an exact live object, or an absent slot.
authorize_kind :
    ManagedOutputObservationKind → Text → ManagedOutputObservation → Action (Option ClusterSpiffeId)
unfolding live_object
authorize_kind unclaimed_output_absent desired_name o = pure none
authorize_kind pending_output_absent desired_name o = pure none
authorize_kind pending_output_matched desired_name o = do
  live ← live_object o
  confirm_cluster_spiffe_id_ownership live.name live.uid
  pure (some live)
authorize_kind confirmed_output_matched desired_name o = do live ← live_object o; pure (some live)
authorize_kind confirmed_output_absent desired_name o = do
  clear_cluster_spiffe_id_ownership
  pure none
authorize_kind unclaimed_output_foreign desired_name o =
    raise (foreign_managed_output_error desired_name o)
authorize_kind pending_output_foreign desired_name o = do
  clear_cluster_spiffe_id_ownership
  raise (foreign_managed_output_error desired_name o)
authorize_kind confirmed_output_foreign desired_name o = do
  clear_cluster_spiffe_id_ownership
  raise (foreign_managed_output_error desired_name o)

unfoldable pub authorize_managed_output_apply :
    Text → ManagedOutputObservation → Action (Option ClusterSpiffeId)
unfolding authorize_kind
authorize_managed_output_apply desired_name o = authorize_kind o.kind desired_name o

is_pending_absent : ManagedOutputObservationKind → Bool
is_pending_absent pending_output_absent = true
is_pending_absent _ = false

create_failure : Text → Error → Error
create_failure name e =
    if is_already_exists_error e
    then wrapped
        (codes "refusing same-name ClusterSPIFFEID " ++ quote name ++ codes " after create race") e
    else e

create_object : Text → Result ClusterSpiffeId → Action ClusterSpiffeId
create_object name (ok o) = pure o
create_object name (err e) = raise (create_failure name e)

-- The claim of an earlier create that was never confirmed is used again.
claim_for_create : Platform → ManagedOutputObservation → Text → Action Text
unfolding is_pending_absent
claim_for_create platform o desired_name =
    if is_pending_absent o.kind
    then pure o.output_record.claim_id
    else reserve_cluster_spiffe_id_claim platform desired_name

unfoldable pub create_managed_cluster_spiffe_id :
    Platform
    → Plan
    → ClusterSpiffeId
    → ManagedOutputObservation
    → Action RenderedClusterSpiffeIdStatus
unfolding claim_for_create create_object create_failure
create_managed_cluster_spiffe_id platform identity desired o = do
  claim_id ← claim_for_create platform o desired.name
  reply ← perform (create_output (set_cluster_spiffe_id_ownership_claim desired claim_id))
  created ← create_object desired.name reply
  if is_nil created.uid
      then raise (
          plain (
            codes "created ClusterSPIFFEID "
            ++ quote created.name
            ++ codes " has no Kubernetes UID"))
      else (do
        confirm_cluster_spiffe_id_ownership created.name created.uid
        pure (rendered_cluster_spiffe_id_status platform identity created))

unfoldable pub update_managed_cluster_spiffe_id :
    Platform → Plan → ClusterSpiffeId → ClusterSpiffeId → Action RenderedClusterSpiffeIdStatus
update_managed_cluster_spiffe_id platform identity current desired =
    if not (cluster_spiffe_id_in_sync current desired)
    then (do
      reply ← perform (update_output (merge_desired_cluster_spiffe_id current desired))
      stored ← lift reply
      pure (rendered_cluster_spiffe_id_status platform identity stored))
    else pure (rendered_cluster_spiffe_id_status platform identity current)

apply_authorized :
    Platform
    → Plan
    → ClusterSpiffeId
    → ManagedOutputObservation
    → Option ClusterSpiffeId
    → Action RenderedClusterSpiffeIdStatus
apply_authorized platform identity desired o none =
    create_managed_cluster_spiffe_id platform identity desired o
apply_authorized platform identity desired o (some current) =
    update_managed_cluster_spiffe_id platform identity current desired

unfoldable pub reconcile_cluster_spiffe_id :
    Platform → Plan → ClusterSpiffeId → Action RenderedClusterSpiffeIdStatus
unfolding apply_authorized
reconcile_cluster_spiffe_id platform identity desired = do
  o ← observe_managed_cluster_spiffe_id desired.name
  current ← authorize_managed_output_apply desired.name o
  apply_authorized platform identity desired o current

abbrev pub desired_for : Reconciler → Plan → InferenceIdentityBinding → ClusterSpiffeId
desired_for r identity b =
    desired_cluster_spiffe_id r.platform.sha1 b identity r.config.cluster_spiffe_id_class_name

unfoldable pub reconcile_cluster_spiffe_ids :
    Reconciler → List Plan → Action (List RenderedClusterSpiffeIdStatus)
reconcile_cluster_spiffe_ids r [] = pure []
reconcile_cluster_spiffe_ids r (identity ∷ rest) = do
  desired ← gets (desired_for r identity)
  status ← reconcile_cluster_spiffe_id r.platform identity desired
  statuses ← reconcile_cluster_spiffe_ids r rest
  pure (status ∷ statuses)

-- The `switch` of `listManagedClusterSPIFFEIDs`.
list_kind : ManagedOutputObservationKind → ManagedOutputObservation → Action (List ClusterSpiffeId)
unfolding live_object
list_kind pending_output_matched o = do
  live ← live_object o
  confirm_cluster_spiffe_id_ownership live.name live.uid
  pure (live ∷ [])
list_kind confirmed_output_matched o = do live ← live_object o; pure (live ∷ [])
list_kind unclaimed_output_absent o = pure []
list_kind unclaimed_output_foreign o = pure []
list_kind _ o = do clear_cluster_spiffe_id_ownership; pure []

unfoldable pub list_managed_cluster_spiffe_ids : Action (List ClusterSpiffeId)
unfolding list_kind
list_managed_cluster_spiffe_ids = do o ← observe_managed_cluster_spiffe_id []; list_kind o.kind o

delete_reply : Result (Unit {0}) → Action (Unit {0})
delete_reply (ok u) = pure tt
delete_reply (err e) = if is_not_found_error e then pure tt else raise e

unfoldable pub delete_outputs : List ClusterSpiffeId → Action (Unit {0})
unfolding delete_reply
delete_outputs [] = pure tt
delete_outputs (o ∷ rest) = do
  reply ← perform (delete_output o.name o.uid)
  delete_reply reply
  delete_outputs rest

unfoldable pub cleanup_managed_cluster_spiffe_ids : Action (Unit {0})
cleanup_managed_cluster_spiffe_ids = do
  objects ← list_managed_cluster_spiffe_ids
  delete_outputs objects

-- The ownership is cleared once nothing is left of the old output; `true` while something is.
settle_old_output : List ClusterSpiffeId → Action Bool
settle_old_output [] = do
  recorded ← gets recorded_cluster_spiffe_id_name
  if is_nil recorded then pure false else (do clear_cluster_spiffe_id_ownership; pure false)
settle_old_output (o ∷ rest) = pure true

unfoldable pub cleanup_changed_cluster_spiffe_id_name : Text → Action Bool
unfolding settle_old_output
cleanup_changed_cluster_spiffe_id_name desired_name = do
  recorded ← gets recorded_cluster_spiffe_id_name
  if is_nil recorded || text_eq recorded desired_name then pure false else (do
    cleanup_managed_cluster_spiffe_ids
    remaining ← list_managed_cluster_spiffe_ids
    settle_old_output remaining)
