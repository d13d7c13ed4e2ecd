-- ===== src/Controller/Ownership/Safety.antt =====
-- The ownership operations under every answer of the cluster: what an observation, a stored claim and a
-- stored confirmation prove of the durable status.
use kleym.Prelude.{
  ◌≡◌, ◌≢◌, refl, inl, inr, true, false, ◌&&◌, ◌||◌, Option, some, none, [], ◌∷◌, is_nil,
  Bool-cases, and-true, arith,
}
use kleym.Prelude.Text.{Text, text_eq, text_eq_iff, trim_space}
use kleym.Errors.{Result, ok, err, is_not_found_error}
use kleym.Api.{InferenceIdentityBinding, PendingClusterSpiffeIdStatus, OwnedClusterSpiffeIdStatus}
use kleym.Platform.{Platform}
use kleym.Cluster.{ClusterSpiffeId, get_output, patch_status, new_uuid}
use kleym.Spirecm.{cluster_spiffe_id_ownership_claim}
use kleym.Controller.Evidence.{
  event, History, Shows, Shown, Owned, Claimed, Permitted, Runs, Backed,
}
use kleym.Controller.Evidence.Rules.{
  Stable, Backed-Stable, Shows-Backed, Backed-same, OnOk, Ends, Triple, True, Any, pure-Triple,
  raise-Triple, reads-Triple, weaken-Triple, bind-Triple, perform-Triple, if-Triple,
}
use kleym.Controller.Ownership.{
  ManagedOutputRecordKind, managed_output_unclaimed, managed_output_pending,
  managed_output_confirmed, ManagedOutputObservationKind, unclaimed_output_absent,
  unclaimed_output_foreign, pending_output_absent, pending_output_matched, pending_output_foreign,
  confirmed_output_absent, confirmed_output_matched, confirmed_output_foreign, ManagedOutputRecord,
  ManagedOutputObservation, record_of_fields, observe_reply, observe_live, observe_record,
  after_ownership_patch, classify_unclaimed_output, store_ownership, claim_output, has_ownership,
  classify_kind, managed_output_record_from_status, classify_pending_output,
  classify_confirmed_output, classify_managed_cluster_spiffe_id, observe_managed_cluster_spiffe_id,
  patch_ownership_status, reserve_cluster_spiffe_id_claim, confirm_cluster_spiffe_id_ownership,
  clear_cluster_spiffe_id_ownership,
}

-- What a record of each kind proves of the durable status.
unfoldable pub RecordedAs : ManagedOutputRecordKind → ManagedOutputRecord → History → Type 0
RecordedAs managed_output_unclaimed r h = Unit
RecordedAs managed_output_pending r h = Claimed h r.name r.claim_id
RecordedAs managed_output_confirmed r h = Owned h r.name r.uid × (r.uid ≢ [])

unfoldable pub OwnedObject : Option ClusterSpiffeId → History → Type 0
OwnedObject none h = Unit
OwnedObject (some o) h = Owned h o.name o.uid × (o.uid ≢ [])

-- What an observation of each kind proves.
unfoldable pub ObservedAs :
    ManagedOutputObservationKind → ManagedOutputObservation → History → Type 0
ObservedAs confirmed_output_matched o h = OwnedObject o.live h
ObservedAs pending_output_absent o h = Claimed h o.output_record.name o.output_record.claim_id
ObservedAs _ o h = Unit

abbrev pub Recorded : ManagedOutputRecord → History → Type 0
Recorded r h = RecordedAs r.kind r h

abbrev pub Observed : ManagedOutputObservation → History → Type 0
Observed o h = ObservedAs o.kind o h

Owned-Stable : (name uid : Text) → Stable (λ h. Owned h name uid)
unfolding Owned Shown
Owned-Stable name uid e h (b, s, p) = (b, inr s, p)

Claimed-Stable : (name claim_id : Text) → Stable (λ h. Claimed h name claim_id)
unfolding Claimed Shown
Claimed-Stable name claim_id e h (b, s, p) = (b, inr s, p)

RecordedAs-Stable :
    (k : ManagedOutputRecordKind) (r : ManagedOutputRecord) → Stable (RecordedAs k r)
unfolding RecordedAs
RecordedAs-Stable managed_output_unclaimed r e h p = tt
RecordedAs-Stable managed_output_pending r e h p = Claimed-Stable r.name r.claim_id e h p
RecordedAs-Stable managed_output_confirmed r e h (p, q) = (Owned-Stable r.name r.uid e h p, q)

pub OwnedObject-Stable : (o : Option ClusterSpiffeId) → Stable (OwnedObject o)
unfolding OwnedObject
OwnedObject-Stable none e h p = tt
OwnedObject-Stable (some o) e h (p, q) = (Owned-Stable o.name o.uid e h p, q)

pub ObservedAs-Stable :
    (k : ManagedOutputObservationKind) (o : ManagedOutputObservation) → Stable (ObservedAs k o)
unfolding ObservedAs
ObservedAs-Stable confirmed_output_matched o e h p = OwnedObject-Stable o.live e h p
ObservedAs-Stable pending_output_absent o e h p =
    Claimed-Stable o.output_record.name o.output_record.claim_id e h p
ObservedAs-Stable unclaimed_output_absent o e h p = tt
ObservedAs-Stable unclaimed_output_foreign o e h p = tt
ObservedAs-Stable pending_output_matched o e h p = tt
ObservedAs-Stable pending_output_foreign o e h p = tt
ObservedAs-Stable confirmed_output_absent o e h p = tt
ObservedAs-Stable confirmed_output_foreign o e h p = tt

or_nil :
    (o : OwnedClusterSpiffeIdStatus)
    → (is_nil (trim_space o.name) || is_nil o.uid) ≡ false
    → o.uid ≢ []
or_nil o f eq = ground arith

-- A record that is read from a backed status is one that a durable status has.
record_of_fields-Recorded :
    (pending : Option PendingClusterSpiffeIdStatus)
    → (owned : Option OwnedClusterSpiffeIdStatus) → (h : History)
    → ((o : OwnedClusterSpiffeIdStatus) → owned ≡ some o → Owned h o.name o.uid)
    → ((p : PendingClusterSpiffeIdStatus) → pending ≡ some p → Claimed h p.name p.claim_id)
    → OnOk Recorded (record_of_fields pending owned) h
unfolding record_of_fields OnOk RecordedAs
record_of_fields-Recorded (some p) (some o) h owns claims = tt
record_of_fields-Recorded (some p) none h owns claims =
    elim (Bool-cases (is_nil (trim_space p.name) || is_nil (trim_space p.claim_id))) [
      | inl t ↦ rw t tt
      | inr f ↦ rw f (claims p refl)
    ]
record_of_fields-Recorded none (some o) h owns claims =
    elim (Bool-cases (is_nil (trim_space o.name) || is_nil o.uid)) [
      | inl t ↦ rw t tt
      | inr f ↦ rw f (owns o refl, or_nil o f)
    ]
record_of_fields-Recorded none none h owns claims = tt

matched-OwnedObject :
    (o : ClusterSpiffeId) (r : ManagedOutputRecord) (h : History)
    → (text_eq o.name r.name && text_eq o.uid r.uid) ≡ true
    → Owned h r.name r.uid × (r.uid ≢ [])
    → Owned h o.name o.uid × (o.uid ≢ [])
matched-OwnedObject o r h t (p, q) =
    let (a, b) = and-true (text_eq o.name r.name) (text_eq o.uid r.uid) t in
    rw ((text_eq_iff o.name r.name).0 a, (text_eq_iff o.uid r.uid).0 b) (p, q)

classify_kind-Observed :
    (k : ManagedOutputRecordKind) (r : ManagedOutputRecord) (live : Option ClusterSpiffeId)
    → (h : History) → RecordedAs k r h
    → ObservedAs
        (classify_kind k r live)
        (record { kind = classify_kind k r live; output_record = r; live = live })
        h
unfolding classify_kind classify_pending_output classify_confirmed_output classify_unclaimed_output
    RecordedAs ObservedAs OwnedObject
classify_kind-Observed managed_output_unclaimed r none h p = tt
classify_kind-Observed managed_output_unclaimed r (some o) h p = tt
classify_kind-Observed managed_output_pending r none h p = p
classify_kind-Observed managed_output_pending r (some o) h p =
    elim (Bool-cases
      (text_eq o.name r.name && text_eq (cluster_spiffe_id_ownership_claim o) r.claim_id)) [
        | inl t ↦ rw t tt
        | inr f ↦ rw f tt
      ]
classify_kind-Observed managed_output_confirmed r none h p = tt
classify_kind-Observed managed_output_confirmed r (some o) h p =
    elim (Bool-cases (text_eq o.name r.name && text_eq o.uid r.uid)) [
      | inl t ↦ rw t (matched-OwnedObject o r h t p)
      | inr f ↦ rw f tt
    ]

classify-Observed :
    (r : ManagedOutputRecord) (live : Option ClusterSpiffeId) (h : History)
    → Recorded r h
    → Observed (classify_managed_cluster_spiffe_id r live) h
unfolding classify_managed_cluster_spiffe_id
classify-Observed r live h p = classify_kind-Observed r.kind r live h p

observe_reply-Observed :
    (r : ManagedOutputRecord) (reply : Result ClusterSpiffeId) (h : History)
    → Recorded r h
    → OnOk Observed (observe_reply r reply) h
unfolding observe_reply OnOk
observe_reply-Observed r (ok o) h p = classify-Observed r (some o) h p
observe_reply-Observed r (err e) h p = elim (Bool-cases (is_not_found_error e)) [
  | inl t ↦ rw t (classify-Observed r none h p)
  | inr f ↦ rw f tt
]

observe_live-Triple :
    (r : ManagedOutputRecord) (name : Text) → Triple (Recorded r) (observe_live r name) Observed
unfolding Triple observe_live Runs Ends Permitted
observe_live-Triple r name h b p backed = (
  tt,
  λ reply.
      let e = event (get_output name) reply in
      (
        observe_reply-Observed r reply (e ∷ h) (RecordedAs-Stable r.kind r e h p),
        Backed-Stable b e h backed,
      ),
)

observe_record-Triple :
    (unclaimed_name : Text) (r : ManagedOutputRecord)
    → Triple (Recorded r) (observe_record unclaimed_name r) Observed
unfolding observe_record
observe_record-Triple unclaimed_name r =
    if-Triple (Recorded r) Observed _ _ _
      (pure-Triple (Recorded r) Observed _ (classify-Observed r none)) (observe_live-Triple r _)

record-Recorded :
    (h : History) (b : InferenceIdentityBinding)
    → True h
    → Backed h b
    → OnOk Recorded (managed_output_record_from_status b) h
unfolding managed_output_record_from_status Backed
record-Recorded h b t (owned, claimed) =
    record_of_fields-Recorded b.status.pending_cluster_spiffe_id b.status.owned_cluster_spiffe_id h
      owned claimed

-- What an observation shows is backed by the durable status.
pub observe-Triple :
    (unclaimed_name : Text)
    → Triple True (observe_managed_cluster_spiffe_id unclaimed_name) Observed
unfolding observe_managed_cluster_spiffe_id
observe-Triple unclaimed_name =
    bind-Triple Recorded Observed (observe_record unclaimed_name) True _
      (reads-Triple True Recorded managed_output_record_from_status record-Recorded)
      (observe_record-Triple unclaimed_name)

-- A durable status has these ownership fields.
unfoldable pub Stored :
    Option PendingClusterSpiffeIdStatus → Option OwnedClusterSpiffeIdStatus → History → Type 0
Stored pending owned h =
    (b : InferenceIdentityBinding) × Shown h b
    × (b.status.pending_cluster_spiffe_id ≡ pending)
    × (b.status.owned_cluster_spiffe_id ≡ owned)

after_ownership_patch-Ends :
    (base b : InferenceIdentityBinding) (h : History) (reply : Result InferenceIdentityBinding)
    → Backed h base
    → Runs
        (Ends (λ (_ : Unit {0}).
          Stored b.status.pending_cluster_spiffe_id b.status.owned_cluster_spiffe_id))
        (event (patch_status base (record base { status = b.status })) reply ∷ h)
        (after_ownership_patch base b reply)
unfolding after_ownership_patch Runs Ends OnOk Stored Shown Shows
after_ownership_patch-Ends base b h (ok target) backed = (
  (record base { status = b.status }, inl (inr refl), refl, refl),
  Backed-same _ (record base { status = b.status }) _ refl refl (Shows-Backed _ h _ (inr refl)),
)
after_ownership_patch-Ends base b h (err e) backed =
    (tt, Backed-same _ base _ refl refl (Backed-Stable base _ h backed))

patch-Runs :
    (base b : InferenceIdentityBinding) (h : History)
    → Backed h base
    → Runs
        (Ends (λ (_ : Unit {0}).
          Stored b.status.pending_cluster_spiffe_id b.status.owned_cluster_spiffe_id))
        h
        (patch_ownership_status base b)
unfolding patch_ownership_status Runs Permitted
patch-Runs base b h backed = (tt, λ reply. after_ownership_patch-Ends base b h reply backed)

store-Triple :
    (pending : Option PendingClusterSpiffeIdStatus) (owned : Option OwnedClusterSpiffeIdStatus)
    → Triple True (store_ownership pending owned) (λ _. Stored pending owned)
unfolding Triple store_ownership
store-Triple pending owned h b t backed = patch-Runs b _ h backed

claim_output-Triple :
    (platform : Platform) (desired_name claim_id : Text)
    → Triple True
        (claim_output platform desired_name claim_id)
        (λ _. Stored (some (record { name = desired_name; claim_id = claim_id })) none)
unfolding Triple claim_output
claim_output-Triple platform desired_name claim_id h b t backed = patch-Runs b _ h backed

pub any_ok : {A : Type 0} → (r : Result A) (h : History) → OnOk Any r h
unfolding OnOk
any_ok (ok a) h = tt
any_ok (err e) h = tt

-- A claim that was reserved is recorded as pending.
pub reserve-Triple :
    (platform : Platform) (desired_name : Text)
    → Triple True
        (reserve_cluster_spiffe_id_claim platform desired_name)
        (λ claim_id h. Claimed h desired_name claim_id)
unfolding reserve_cluster_spiffe_id_claim Permitted Stored Claimed
reserve-Triple platform desired_name =
    bind-Triple Any Q _ True _
      (reads-Triple True Any managed_output_record_from_status
        (λ h b t k. any_ok (managed_output_record_from_status b) h))
      λ r. if-Triple True Q _ _ _ (raise-Triple True Q _) (
        bind-Triple Any Q _ True _ (perform-Triple True new_uuid Any (λ h t. tt) (λ h r t. tt))
          λ claim_id.
            bind-Triple
              (λ _. Stored (some (record { name = desired_name; claim_id = claim_id })) none) Q _
              True _ (claim_output-Triple platform desired_name claim_id)
              λ _. pure-Triple _ Q claim_id (λ h (b, s, p, o). (b, s, p)))
  where
    Q : Text → History → Type 0
    Q claim_id h = Claimed h desired_name claim_id

-- An ownership that was confirmed is recorded.
pub confirm-Triple :
    (name uid : Text)
    → Triple True
        (confirm_cluster_spiffe_id_ownership name uid)
        (λ _ h. Owned h name uid × (uid ≢ []))
unfolding confirm_cluster_spiffe_id_ownership Owned Stored
confirm-Triple name uid = elim (Bool-cases (is_nil uid)) [
  | inl t ↦ rw t (raise-Triple True _ _)
  | inr f ↦ rw f (
      weaken-Triple True True _ _ _ (λ h t. t) (λ _ h (b, s, p, o). ((b, s, o), λ e. ground arith))
        (store-Triple none (some (record { name = name; uid = uid }))))
]

pub clear-Triple : Triple True clear_cluster_spiffe_id_ownership Any
unfolding Triple clear_cluster_spiffe_id_ownership Ends OnOk Runs
clear-Triple h b t backed = elim (Bool-cases (has_ownership b)) [
  | inl owned ↦ rw owned (
      weaken-Triple True True _ Any _ (λ h t. t) (λ u h s. tt) (store-Triple none none) h b tt
        backed)
  | inr free ↦ rw free (tt, backed)
]
