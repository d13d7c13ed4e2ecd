-- ===== src/Controller/Output/Safety.antt =====
-- The managed output under every answer of the cluster: it is created under a stored claim, and updated and
-- deleted by a stored UID.
use kleym.Prelude.{
  ◌≡◌, refl, subst, inl, inr, true, false, Option, some, none, List, [], ◌∷◌, Bool-cases, arith,
}
use kleym.Prelude.Text.{Text}
use kleym.Errors.{Error, Result, ok, err}
use kleym.Identity.{Plan}
use kleym.Platform.{Platform}
use kleym.Cluster.{ClusterSpiffeId, create_output, update_output, delete_output}
use kleym.Spirecm.{set_cluster_spiffe_id_ownership_claim, merge_desired_cluster_spiffe_id}
use kleym.Spirecm.Claims.{claim-set_claim}
use kleym.Controller.{Reconciler, Action, pure, raise, ◌>>=◌, ◌>>◌}
use kleym.Controller.Evidence.{History, Claimed, Permitted}
use kleym.Controller.Evidence.Rules.{
  Stable, Triple, True, Any, pure-Triple, raise-Triple, gets-Triple, lift-Triple, weaken-Triple,
  frame-Triple, bind-Triple, perform-Triple, if-Triple,
}
use kleym.Controller.Ownership.{
  ManagedOutputObservationKind, unclaimed_output_absent, unclaimed_output_foreign,
  pending_output_absent, pending_output_matched, pending_output_foreign, confirmed_output_absent,
  confirmed_output_matched, confirmed_output_foreign, ManagedOutputObservation,
  confirm_cluster_spiffe_id_ownership, clear_cluster_spiffe_id_ownership,
  recorded_cluster_spiffe_id_name,
}
use kleym.Controller.Ownership.Safety.{
  OwnedObject, OwnedObject-Stable, ObservedAs, ObservedAs-Stable, Observed, observe-Triple,
  reserve-Triple, confirm-Triple, clear-Triple, any_ok,
}
use kleym.Controller.Output.{
  live_object, authorize_kind, authorize_managed_output_apply, is_pending_absent, create_object,
  claim_for_create, create_managed_cluster_spiffe_id, update_managed_cluster_spiffe_id,
  apply_authorized, reconcile_cluster_spiffe_id, reconcile_cluster_spiffe_ids, list_kind,
  list_managed_cluster_spiffe_ids, delete_reply, delete_outputs, cleanup_managed_cluster_spiffe_ids,
  settle_old_output, cleanup_changed_cluster_spiffe_id_name, desired_for,
}

-- Every object of the list is owned.
unfoldable pub OwnedObjects : List ClusterSpiffeId → History → Type 0
OwnedObjects [] h = Unit
OwnedObjects (o ∷ rest) h = OwnedObject (some o) h × OwnedObjects rest h

OwnedObjects-Stable : (os : List ClusterSpiffeId) → Stable (OwnedObjects os)
unfolding OwnedObjects
OwnedObjects-Stable [] e h p = tt
OwnedObjects-Stable (o ∷ rest) e h (p, q) =
    (OwnedObject-Stable (some o) e h p, OwnedObjects-Stable rest e h q)

weaken_any :
    {A : Type 0} → (P : History → Type 0) → (m : Action A) → Triple True m Any → Triple P m Any
weaken_any P m t = weaken-Triple True P Any Any m (λ h p. tt) (λ a h q. q) t

live_object-Triple :
    (P : History → Type 0)
    → (Q : ClusterSpiffeId → History → Type 0) → (o : ManagedOutputObservation)
    → (live : Option ClusterSpiffeId) → o.live ≡ live
    → ((c : ClusterSpiffeId) (h : History) → live ≡ some c → P h → Q c h)
    → Triple P (live_object o) Q
unfolding live_object
live_object-Triple P Q o none eq q = rw eq (raise-Triple P Q _)
live_object-Triple P Q o (some c) eq q = rw eq (pure-Triple P Q c (λ h p. q c h refl p))

-- The live object of an observation of any kind, when nothing is asked of it.
any_live-Triple :
    (P : History → Type 0) (o : ManagedOutputObservation) → Triple P (live_object o) Any
any_live-Triple P o = live_object-Triple P Any o o.live refl (λ c h e p. tt)

-- The live object is confirmed: its UID is then a stored one.
confirm_live-Triple :
    {A : Type 0}
    → (o : ManagedOutputObservation) → (f : ClusterSpiffeId → A) → (Q : A → History → Type 0)
    → ((c : ClusterSpiffeId) (h : History) → OwnedObject (some c) h → Q (f c) h)
    → Triple True
        (live_object o >>= λ live.
          confirm_cluster_spiffe_id_ownership live.name live.uid >> pure (f live))
        Q
unfolding OwnedObject
confirm_live-Triple o f Q q = bind-Triple Any Q _ True _ (any_live-Triple True o) λ live.
    bind-Triple (λ _. OwnedObject (some live)) Q _ True _ (confirm-Triple live.name live.uid)
      λ _. pure-Triple (OwnedObject (some live)) Q (f live) (q live)

-- The live object that a confirmed observation has is owned.
owned_live-Triple :
    {A : Type 0}
    → (o : ManagedOutputObservation) → (f : ClusterSpiffeId → A) → (Q : A → History → Type 0)
    → ((c : ClusterSpiffeId) (h : History) → OwnedObject (some c) h → Q (f c) h)
    → Triple (OwnedObject o.live) (live_object o >>= λ live. pure (f live)) Q
owned_live-Triple o f Q q =
    bind-Triple (λ c. OwnedObject (some c)) Q _ (OwnedObject o.live) _
      (live_object-Triple (OwnedObject o.live) (λ c. OwnedObject (some c)) o o.live refl
        (λ c h eq p. subst (λ x. OwnedObject x h) eq p))
      λ live. pure-Triple (OwnedObject (some live)) Q (f live) (q live)

clear_then_raise :
    {A : Type 0} (P : History → Type 0) (Q : A → History → Type 0) (e : Error)
    → Triple P (clear_cluster_spiffe_id_ownership >> raise e) Q
clear_then_raise P Q e =
    bind-Triple Any Q _ P _ (weaken_any P _ clear-Triple) λ _. raise-Triple True Q e

authorize_kind-Triple :
    (k : ManagedOutputObservationKind) (desired_name : Text) (o : ManagedOutputObservation)
    → Triple (ObservedAs k o) (authorize_kind k desired_name o) OwnedObject
unfolding authorize_kind ObservedAs OwnedObject
authorize_kind-Triple unclaimed_output_absent n o = pure-Triple True OwnedObject none (λ h p. tt)
authorize_kind-Triple pending_output_absent n o = pure-Triple _ OwnedObject none (λ h p. tt)
authorize_kind-Triple pending_output_matched n o =
    confirm_live-Triple o some OwnedObject (λ c h p. p)
authorize_kind-Triple confirmed_output_matched n o =
    owned_live-Triple o some OwnedObject (λ c h p. p)
authorize_kind-Triple confirmed_output_absent n o =
    bind-Triple Any OwnedObject _ True _ clear-Triple
      λ _. pure-Triple True OwnedObject none (λ h p. tt)
authorize_kind-Triple unclaimed_output_foreign n o = raise-Triple True OwnedObject _
authorize_kind-Triple pending_output_foreign n o = clear_then_raise True OwnedObject _
authorize_kind-Triple confirmed_output_foreign n o = clear_then_raise True OwnedObject _

-- The claim is one that a durable status has recorded.
unfoldable pub ClaimedAs : Text → History → Type 0
ClaimedAs claim_id h = (name : Text) × Claimed h name claim_id

pending_absent-Claimed :
    (k : ManagedOutputObservationKind) (o : ManagedOutputObservation) (h : History)
    → is_pending_absent k ≡ true
    → ObservedAs k o h
    → ClaimedAs o.output_record.claim_id h
unfolding is_pending_absent ObservedAs ClaimedAs
pending_absent-Claimed pending_output_absent o h e p = (o.output_record.name, p)
pending_absent-Claimed unclaimed_output_absent o h e p = ground arith
pending_absent-Claimed unclaimed_output_foreign o h e p = ground arith
pending_absent-Claimed pending_output_matched o h e p = ground arith
pending_absent-Claimed pending_output_foreign o h e p = ground arith
pending_absent-Claimed confirmed_output_absent o h e p = ground arith
pending_absent-Claimed confirmed_output_matched o h e p = ground arith
pending_absent-Claimed confirmed_output_foreign o h e p = ground arith

claim_for_create-Triple :
    (platform : Platform) (o : ManagedOutputObservation) (desired_name : Text)
    → Triple (Observed o) (claim_for_create platform o desired_name) ClaimedAs
unfolding claim_for_create ClaimedAs
claim_for_create-Triple platform o desired_name = elim (Bool-cases (is_pending_absent o.kind)) [
  | inl t ↦
      rw t (pure-Triple (Observed o) ClaimedAs _ (λ h p. pending_absent-Claimed o.kind o h t p))
  | inr f ↦ rw f (
      weaken-Triple True (Observed o) _ ClaimedAs _ (λ h p. tt) (λ c h q. (desired_name, q))
        (reserve-Triple platform desired_name))
]

create_object-Triple :
    (name : Text) (reply : Result ClusterSpiffeId) → Triple True (create_object name reply) Any
unfolding create_object
create_object-Triple name (ok o) = pure-Triple True Any o (λ h p. tt)
create_object-Triple name (err e) = raise-Triple True Any _

create-Triple :
    (platform : Platform) (identity : Plan) (desired : ClusterSpiffeId)
    (o : ManagedOutputObservation)
    → Triple (Observed o) (create_managed_cluster_spiffe_id platform identity desired o) Any
unfolding create_managed_cluster_spiffe_id Permitted ClaimedAs
create-Triple platform identity desired o =
    bind-Triple ClaimedAs Any _ (Observed o) _ (claim_for_create-Triple platform o desired.name)
      λ claim_id.
        bind-Triple Any Any _ (ClaimedAs claim_id) _
          (perform-Triple (ClaimedAs claim_id)
            (create_output (set_cluster_spiffe_id_ownership_claim desired claim_id)) Any
            (λ h p. rw (claim-set_claim desired claim_id) p) (λ h r p. tt))
          λ reply. bind-Triple Any Any _ True _ (create_object-Triple desired.name reply) λ created.
            if-Triple True Any _ _ _ (raise-Triple True Any _) (
              bind-Triple Any Any _ True _
                (weaken-Triple True True _ Any _ (λ h p. tt) (λ a h q. tt)
                  (confirm-Triple created.name created.uid))
                λ _. pure-Triple True Any _ (λ h p. tt))

update-Triple :
    (platform : Platform) (identity : Plan) (current desired : ClusterSpiffeId)
    → Triple
        (OwnedObject (some current))
        (update_managed_cluster_spiffe_id platform identity current desired)
        Any
unfolding update_managed_cluster_spiffe_id Permitted OwnedObject merge_desired_cluster_spiffe_id
update-Triple platform identity current desired =
    if-Triple _ Any _ _ _
      (bind-Triple Any Any _ _ _
        (perform-Triple _ (update_output (merge_desired_cluster_spiffe_id current desired)) Any
          (λ h p. p) (λ h r p. tt))
        λ reply.
          bind-Triple Any Any _ True _ (lift-Triple True Any reply (λ h p. any_ok reply h))
            λ stored. pure-Triple True Any _ (λ h p. tt))
      (pure-Triple _ Any _ (λ h p. tt))

apply_authorized-Triple :
    (platform : Platform) (identity : Plan) (desired : ClusterSpiffeId)
    (o : ManagedOutputObservation)
    → (current : Option ClusterSpiffeId)
    → Triple
        (λ h. OwnedObject current h × Observed o h)
        (apply_authorized platform identity desired o current)
        Any
unfolding apply_authorized
apply_authorized-Triple platform identity desired o none =
    weaken-Triple (Observed o) _ Any Any _ (λ h (p, q). q) (λ a h q. q)
      (create-Triple platform identity desired o)
apply_authorized-Triple platform identity desired o (some current) =
    weaken-Triple (OwnedObject (some current)) _ Any Any _ (λ h (p, q). p) (λ a h q. q)
      (update-Triple platform identity current desired)

pub reconcile_output-Triple :
    (platform : Platform) (identity : Plan) (desired : ClusterSpiffeId)
    → Triple True (reconcile_cluster_spiffe_id platform identity desired) Any
unfolding reconcile_cluster_spiffe_id authorize_managed_output_apply
reconcile_output-Triple platform identity desired =
    bind-Triple Observed Any _ True _ (observe-Triple desired.name) λ o.
      bind-Triple (λ c h. OwnedObject c h × Observed o h) Any _ (Observed o) _
        (frame-Triple (Observed o) OwnedObject _ (ObservedAs-Stable o.kind o)
          (authorize_kind-Triple o.kind desired.name o))
        (apply_authorized-Triple platform identity desired o)

pub reconcile_outputs-Triple :
    (r : Reconciler) (identities : List Plan)
    → Triple True (reconcile_cluster_spiffe_ids r identities) Any
unfolding reconcile_cluster_spiffe_ids
reconcile_outputs-Triple r [] = pure-Triple True Any [] (λ h p. tt)
reconcile_outputs-Triple r (identity ∷ rest) =
    bind-Triple Any Any _ True _ (gets-Triple True (desired_for r identity)) λ desired.
      bind-Triple Any Any _ True _ (reconcile_output-Triple r.platform identity desired) λ status.
        bind-Triple Any Any _ True _ (reconcile_outputs-Triple r rest)
          λ statuses. pure-Triple True Any (status ∷ statuses) (λ h p. tt)

clear_then_nothing :
    Triple True
      (clear_cluster_spiffe_id_ownership >> pure {A = List ClusterSpiffeId} [])
      OwnedObjects
unfolding OwnedObjects
clear_then_nothing =
    bind-Triple Any OwnedObjects _ True _ clear-Triple
      λ _. pure-Triple True OwnedObjects [] (λ h p. tt)

list_kind-Triple :
    (k : ManagedOutputObservationKind) (o : ManagedOutputObservation)
    → Triple (ObservedAs k o) (list_kind k o) OwnedObjects
unfolding list_kind ObservedAs OwnedObjects
list_kind-Triple pending_output_matched o =
    confirm_live-Triple o (λ c. c ∷ []) OwnedObjects (λ c h p. (p, tt))
list_kind-Triple confirmed_output_matched o =
    owned_live-Triple o (λ c. c ∷ []) OwnedObjects (λ c h p. (p, tt))
list_kind-Triple unclaimed_output_absent o = pure-Triple True OwnedObjects [] (λ h p. tt)
list_kind-Triple unclaimed_output_foreign o = pure-Triple True OwnedObjects [] (λ h p. tt)
list_kind-Triple pending_output_absent o =
    weaken-Triple True _ OwnedObjects OwnedObjects _ (λ h p. tt) (λ a h q. q) clear_then_nothing
list_kind-Triple pending_output_foreign o = clear_then_nothing
list_kind-Triple confirmed_output_absent o = clear_then_nothing
list_kind-Triple confirmed_output_foreign o = clear_then_nothing

-- Every object that is listed is owned.
pub list-Triple : Triple True list_managed_cluster_spiffe_ids OwnedObjects
unfolding list_managed_cluster_spiffe_ids
list-Triple =
    bind-Triple Observed OwnedObjects _ True _ (observe-Triple []) λ o. list_kind-Triple o.kind o

delete_reply-Triple :
    (P : History → Type 0) (reply : Result (Unit {0})) → Triple P (delete_reply reply) (λ _. P)
unfolding delete_reply
delete_reply-Triple P (ok u) = pure-Triple P _ tt (λ h p. p)
delete_reply-Triple P (err e) =
    if-Triple P _ _ _ _ (pure-Triple P _ tt (λ h p. p)) (raise-Triple P _ e)

delete_outputs-Triple :
    (os : List ClusterSpiffeId) → Triple (OwnedObjects os) (delete_outputs os) Any
unfolding delete_outputs OwnedObjects OwnedObject Permitted
delete_outputs-Triple [] = pure-Triple _ Any tt (λ h p. tt)
delete_outputs-Triple (o ∷ rest) =
    bind-Triple (λ _. OwnedObjects rest) Any _ _ _
      (perform-Triple _ (delete_output o.name o.uid) (λ _. OwnedObjects rest) (λ h p. p.0)
        (λ h r p. OwnedObjects-Stable rest _ h (p.1)))
      λ reply.
        bind-Triple (λ _. OwnedObjects rest) Any _ _ _
          (delete_reply-Triple (OwnedObjects rest) reply) λ _. delete_outputs-Triple rest

pub cleanup-Triple : Triple True cleanup_managed_cluster_spiffe_ids Any
unfolding cleanup_managed_cluster_spiffe_ids
cleanup-Triple = bind-Triple OwnedObjects Any _ True _ list-Triple delete_outputs-Triple

pub list_any-Triple : Triple True list_managed_cluster_spiffe_ids Any
list_any-Triple = weaken-Triple True True OwnedObjects Any _ (λ h p. tt) (λ a h q. tt) list-Triple

settle_old_output-Triple :
    (remaining : List ClusterSpiffeId) → Triple True (settle_old_output remaining) Any
unfolding settle_old_output
settle_old_output-Triple [] =
    bind-Triple Any Any _ True _ (gets-Triple True recorded_cluster_spiffe_id_name) λ recorded.
      if-Triple True Any _ _ _ (pure-Triple True Any false (λ h p. tt))
        (bind-Triple Any Any _ True _ clear-Triple λ _. pure-Triple True Any false (λ h p. tt))
settle_old_output-Triple (o ∷ rest) = pure-Triple True Any true (λ h p. tt)

pub cleanup_changed-Triple :
    (desired_name : Text) → Triple True (cleanup_changed_cluster_spiffe_id_name desired_name) Any
unfolding cleanup_changed_cluster_spiffe_id_name
cleanup_changed-Triple desired_name =
    bind-Triple Any Any _ True _ (gets-Triple True recorded_cluster_spiffe_id_name) λ recorded.
      if-Triple True Any _ _ _ (pure-Triple True Any false (λ h p. tt)) (
        bind-Triple Any Any _ True _ cleanup-Triple
          λ _. bind-Triple Any Any _ True _ list_any-Triple settle_old_output-Triple)
