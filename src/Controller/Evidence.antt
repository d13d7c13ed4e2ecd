-- ===== src/Controller/Evidence.antt =====
-- What the controller may know of the bindings' durable status: a history of calls and answers, the bindings
-- that it shows, and the calls on outputs that it permits.
pub mod Rules
use kleym.Prelude.{◌≡◌, ◌≢◌, refl, ◌⊎◌, inl, inr, Option, some, none, List, [], ◌∷◌}
use mathlib.Core.List.{Memᴰ}
use kleym.Prelude.Text.{Text}
use kleym.Errors.{Result, ok, err}
use kleym.Api.{InferenceIdentityBinding, PendingClusterSpiffeIdStatus, OwnedClusterSpiffeIdStatus}
use kleym.Cluster.{
  Call, Reply, Prog, done, call, ClusterSpiffeId, get_binding, list_bindings, list_bindings_by_pool,
  list_bindings_by_output, list_all_bindings, list_pods, list_deployments, rest_mapping,
  update_binding, patch_status, get_pool, get_output, create_output, update_output, delete_output,
  new_uuid, record_outcome, record_event,
}
use kleym.Spirecm.{cluster_spiffe_id_ownership_claim}

pub data Event : Type 0 where
  event : (c : Call) → Reply c → Event

-- The newest event comes first.
abbrev pub History : Type 0
History = List Event

-- The bindings that one answer shows to be stored: the ones that were read, and the target of a status
-- patch that the server accepted, as it was sent and as it came back.
unfoldable pub Shows : Event → InferenceIdentityBinding → Type 0
Shows (event (get_binding key) (ok stored)) b = stored ≡ b
Shows (event (get_binding key) (err e)) b = ⊥
Shows (event (list_bindings namespace) (ok stored)) b = Memᴰ b stored
Shows (event (list_bindings namespace) (err e)) b = ⊥
Shows (event (list_bindings_by_pool namespace pool_name) (ok stored)) b = Memᴰ b stored
Shows (event (list_bindings_by_pool namespace pool_name) (err e)) b = ⊥
Shows (event (list_bindings_by_output name) (ok stored)) b = Memᴰ b stored
Shows (event (list_bindings_by_output name) (err e)) b = ⊥
Shows (event list_all_bindings (ok stored)) b = Memᴰ b stored
Shows (event list_all_bindings (err e)) b = ⊥
Shows (event (list_pods namespace labels) reply) b = ⊥
Shows (event (list_deployments labels) reply) b = ⊥
Shows (event (rest_mapping gvk) reply) b = ⊥
Shows (event (update_binding sent) (ok stored)) b = stored ≡ b
Shows (event (update_binding sent) (err e)) b = ⊥
Shows (event (patch_status base target) (ok stored)) b = (stored ≡ b) ⊎ (target ≡ b)
Shows (event (patch_status base target) (err e)) b = ⊥
Shows (event (get_pool gvk key) reply) b = ⊥
Shows (event (get_output name) reply) b = ⊥
Shows (event (create_output object) reply) b = ⊥
Shows (event (update_output object) reply) b = ⊥
Shows (event (delete_output name uid) reply) b = ⊥
Shows (event new_uuid reply) b = ⊥
Shows (event (record_outcome binding) reply) b = ⊥
Shows (event (record_event binding kind reason message) reply) b = ⊥

unfoldable pub Shown : History → InferenceIdentityBinding → Type 0
Shown [] b = ⊥
Shown (e ∷ h) b = Shows e b ⊎ Shown h b

-- A binding whose durable status records the name and the UID as owned.
unfoldable pub Owned : History → Text → Text → Type 0
Owned h name uid =
    (b : InferenceIdentityBinding) × Shown h b
    × (b.status.owned_cluster_spiffe_id ≡ some (record { name = name; uid = uid }))

-- A binding whose durable status records the claim as pending.
unfoldable pub Claimed : History → Text → Text → Type 0
Claimed h name claim_id =
    (b : InferenceIdentityBinding) × Shown h b
    × (b.status.pending_cluster_spiffe_id ≡ some (record { name = name; claim_id = claim_id }))

-- An output may be deleted or updated by the UID that a durable status owns, and created under a claim that
-- a durable status has recorded.
unfoldable pub Permitted : History → Call → Type 0
Permitted h (delete_output name uid) = Owned h name uid × (uid ≢ [])
Permitted h (update_output object) = Owned h object.name object.uid × (object.uid ≢ [])
Permitted h (create_output object) =
    (name : Text) × Claimed h name (cluster_spiffe_id_ownership_claim object)
Permitted h _ = Unit

-- Every path of the program, whatever the answers are, makes permitted calls only, and ends as `Q` says.
unfoldable pub Runs : {A : Type 0} → (History → A → Type 0) → History → Prog A → Type 0
Runs Q h (done a) = Q h a
Runs Q h (call c k) = Permitted h c × ((r : Reply c) → Runs Q (event c r ∷ h) (k r))

-- What a binding in memory says of its output is what some durable status says.
unfoldable pub Backed : History → InferenceIdentityBinding → Type 0
Backed h b =
    ((o : OwnedClusterSpiffeIdStatus)
      → b.status.owned_cluster_spiffe_id ≡ some o
      → Owned h o.name o.uid)
    × ((p : PendingClusterSpiffeIdStatus)
        → b.status.pending_cluster_spiffe_id ≡ some p
        → Claimed h p.name p.claim_id)
