-- ===== src/Controller/Ownership.antt =====
-- inferenceidentitybinding_ownership.go: the durable record that authorises access to a ClusterSPIFFEID.
pub mod Safety
use kleym.Prelude.{
  Bool, true, false, not, ◌||◌, ◌&&◌, Option, none, some, List, [], ◌∷◌, ◌++◌, is_nil,
  if◌then◌else◌,
}
use kleym.Prelude.Text.{Text, codes, text_eq, trim_space, quote}
use kleym.Errors.{Error, plain, Result, ok, err, fail_if, is_not_found_error, ◌>>=◌ as ◌>>=ᴿ◌}
use kleym.Api.{
  InferenceIdentityBinding, InferenceIdentityBindingStatus, PendingClusterSpiffeIdStatus,
  OwnedClusterSpiffeIdStatus,
}
use kleym.Platform.{Platform}
use kleym.Cluster.{Prog, done, call, ClusterSpiffeId, get_output, patch_status, new_uuid}
use kleym.Spirecm.{cluster_spiffe_id_ownership_claim}
use kleym.Controller.{Action, pure, raise, lift, perform, gets, modify, ◌>>=◌, ◌>>◌}
use kleym.Controller.Status.{apply_pending_managed_output_status}

pub data ManagedOutputRecordKind : Type 0 where
  managed_output_unclaimed managed_output_pending managed_output_confirmed : ManagedOutputRecordKind

pub data ManagedOutputObservationKind : Type 0 where
  unclaimed_output_absent unclaimed_output_foreign : ManagedOutputObservationKind
  pending_output_absent pending_output_matched pending_output_foreign : ManagedOutputObservationKind
  confirmed_output_absent confirmed_output_matched confirmed_output_foreign :
      ManagedOutputObservationKind

pub record ManagedOutputRecord : Type 0 where
  pub kind : ManagedOutputRecordKind
  pub name : Text
  pub claim_id : Text
  pub uid : Text

pub record ManagedOutputObservation : Type 0 where
  pub kind : ManagedOutputObservationKind
  pub output_record : ManagedOutputRecord
  pub live : Option ClusterSpiffeId

-- The record by the two fields of the status.
record_of_fields :
    Option PendingClusterSpiffeIdStatus
    → Option OwnedClusterSpiffeIdStatus
    → Result ManagedOutputRecord
record_of_fields (some pending) (some owned) =
    err
      (plain (codes "binding status records both pending and confirmed ClusterSPIFFEID ownership"))
record_of_fields (some pending) none =
    if is_nil (trim_space pending.name) || is_nil (trim_space pending.claim_id)
    then err
        (plain (codes "binding status has an incomplete pending ClusterSPIFFEID ownership record"))
    else ok (record {
      kind = managed_output_pending;
      name = pending.name;
      claim_id = pending.claim_id;
      uid = [];
    })
record_of_fields none (some owned) =
    if is_nil (trim_space owned.name) || is_nil owned.uid
    then err (
        plain (codes "binding status has an incomplete confirmed ClusterSPIFFEID ownership record"))
    else ok (record {
      kind = managed_output_confirmed;
      name = owned.name;
      claim_id = [];
      uid = owned.uid;
    })
record_of_fields none none =
    ok (record { kind = managed_output_unclaimed; name = []; claim_id = []; uid = [] })

unfoldable pub managed_output_record_from_status :
    InferenceIdentityBinding → Result ManagedOutputRecord
unfolding record_of_fields
managed_output_record_from_status b =
    record_of_fields b.status.pending_cluster_spiffe_id b.status.owned_cluster_spiffe_id

unfoldable pub classify_pending_output :
    ManagedOutputRecord → Option ClusterSpiffeId → ManagedOutputObservationKind
classify_pending_output r none = pending_output_absent
classify_pending_output r (some o) =
    if text_eq o.name r.name && text_eq (cluster_spiffe_id_ownership_claim o) r.claim_id
    then pending_output_matched
    else pending_output_foreign

unfoldable pub classify_confirmed_output :
    ManagedOutputRecord → Option ClusterSpiffeId → ManagedOutputObservationKind
classify_confirmed_output r none = confirmed_output_absent
classify_confirmed_output r (some o) =
    if text_eq o.name r.name && text_eq o.uid r.uid
    then confirmed_output_matched
    else confirmed_output_foreign

classify_unclaimed_output : Option ClusterSpiffeId → ManagedOutputObservationKind
classify_unclaimed_output none = unclaimed_output_absent
classify_unclaimed_output (some o) = unclaimed_output_foreign

classify_kind :
    ManagedOutputRecordKind
    → ManagedOutputRecord
    → Option ClusterSpiffeId
    → ManagedOutputObservationKind
unfolding classify_unclaimed_output
classify_kind managed_output_pending r live = classify_pending_output r live
classify_kind managed_output_confirmed r live = classify_confirmed_output r live
classify_kind managed_output_unclaimed r live = classify_unclaimed_output live

unfoldable pub classify_managed_cluster_spiffe_id :
    ManagedOutputRecord → Option ClusterSpiffeId → ManagedOutputObservation
unfolding classify_kind
classify_managed_cluster_spiffe_id r live = record {
  kind = classify_kind r.kind r live;
  output_record = r;
  live = live;
}

lookup_name : ManagedOutputRecordKind → Text → Text → Text
lookup_name managed_output_unclaimed recorded unclaimed = unclaimed
lookup_name _ recorded unclaimed = recorded

observe_reply : ManagedOutputRecord → Result ClusterSpiffeId → Result ManagedOutputObservation
observe_reply r (ok o) = ok (classify_managed_cluster_spiffe_id r (some o))
observe_reply r (err e) =
    if is_not_found_error e then ok (classify_managed_cluster_spiffe_id r none) else err e

observe_live : ManagedOutputRecord → Text → Action ManagedOutputObservation
unfolding observe_reply
observe_live r name b = call (get_output name) λ reply. done (observe_reply r reply, b)

observe_record : Text → ManagedOutputRecord → Action ManagedOutputObservation
unfolding lookup_name observe_live
observe_record unclaimed_name r =
    let name = lookup_name r.kind r.name unclaimed_name in
    if is_nil name then pure (classify_managed_cluster_spiffe_id r none) else observe_live r name

unfoldable pub observe_managed_cluster_spiffe_id : Text → Action ManagedOutputObservation
unfolding observe_record
observe_managed_cluster_spiffe_id unclaimed_name = do
  r ← λ b. lift (managed_output_record_from_status b) b
  observe_record unclaimed_name r

-- The binding after a patch of its ownership: the fields that were set stay only if it is accepted.
after_ownership_patch :
    InferenceIdentityBinding
    → InferenceIdentityBinding
    → Result InferenceIdentityBinding
    → Prog (Result (Unit {0}) × InferenceIdentityBinding)
after_ownership_patch base b (ok target) =
    done (ok tt, record b { resource_version = target.resource_version })
after_ownership_patch base b (err e) = done (err e, record b { status = base.status })

-- `base` is what the patch is computed from; the binding carries the new status.
unfoldable pub patch_ownership_status : InferenceIdentityBinding → Action (Unit {0})
unfolding after_ownership_patch
patch_ownership_status base b =
    call (patch_status base (record base { status = b.status })) (after_ownership_patch base b)

abbrev pub with_ownership :
    Option PendingClusterSpiffeIdStatus
    → Option OwnedClusterSpiffeIdStatus
    → InferenceIdentityBindingStatus
    → InferenceIdentityBindingStatus
with_ownership pending owned s = record s {
  pending_cluster_spiffe_id = pending;
  owned_cluster_spiffe_id = owned;
}

is_unclaimed : ManagedOutputRecordKind → Bool
is_unclaimed managed_output_unclaimed = true
is_unclaimed _ = false

-- Set the ownership fields, and store them.
store_ownership :
    Option PendingClusterSpiffeIdStatus → Option OwnedClusterSpiffeIdStatus → Action (Unit {0})
store_ownership pending owned b =
    patch_ownership_status b (record b { status = with_ownership pending owned b.status })

claim_output : Platform → Text → Text → Action (Unit {0})
claim_output platform desired_name claim_id b = patch_ownership_status b (record b {
  status =
      with_ownership (some (record { name = desired_name; claim_id = claim_id })) none
        (apply_pending_managed_output_status platform b.generation b.status);
})

unfoldable pub reserve_cluster_spiffe_id_claim : Platform → Text → Action Text
unfolding is_unclaimed claim_output
reserve_cluster_spiffe_id_claim platform desired_name = do
  r ← λ b. lift (managed_output_record_from_status b) b
  if not (is_unclaimed r.kind)
      then raise (
          plain (
            codes "cannot reserve ClusterSPIFFEID "
            ++ quote desired_name
            ++ codes " while "
            ++ quote r.name
            ++ codes " is recorded"))
      else (do
        claim_id ← perform new_uuid
        claim_output platform desired_name claim_id
        pure claim_id)

unfoldable pub confirm_cluster_spiffe_id_ownership : Text → Text → Action (Unit {0})
unfolding store_ownership
confirm_cluster_spiffe_id_ownership name uid =
    if is_nil uid
    then raise (
        plain (
          codes "cannot confirm ClusterSPIFFEID "
          ++ quote name
          ++ codes " ownership without a Kubernetes UID"))
    else store_ownership none (some (record { name = name; uid = uid }))

has_ownership : InferenceIdentityBinding → Bool
has_ownership b =
    is_some b.status.pending_cluster_spiffe_id || is_some b.status.owned_cluster_spiffe_id
  where
    is_some : {A : Type 0} → Option A → Bool
    is_some none = false
    is_some (some a) = true

unfoldable pub clear_cluster_spiffe_id_ownership : Action (Unit {0})
unfolding has_ownership store_ownership
clear_cluster_spiffe_id_ownership b =
    if not (has_ownership b) then done (ok tt, b) else store_ownership none none b

recorded_name : Option PendingClusterSpiffeIdStatus → Option OwnedClusterSpiffeIdStatus → Text
recorded_name pending (some owned) = owned.name
recorded_name (some pending) none = pending.name
recorded_name none none = []

unfoldable pub recorded_cluster_spiffe_id_name : InferenceIdentityBinding → Text
unfolding recorded_name
recorded_cluster_spiffe_id_name b =
    recorded_name b.status.pending_cluster_spiffe_id b.status.owned_cluster_spiffe_id
