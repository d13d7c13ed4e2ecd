-- ===== src/Spirecm/Claims.antt =====
-- The ownership claim of a ClusterSPIFFEID is an annotation: writing it and reading it back.
use kleym.Prelude.{◌≡◌, List, [], ◌∷◌, Bool-cases, inl, inr}
use kleym.Prelude.Text.{Text, text_eq, text_eq_self}
use kleym.Cluster.{ClusterSpiffeId}
use kleym.Spirecm.{
  lookup_text, insert_text, set_cluster_spiffe_id_ownership_claim,
  cluster_spiffe_id_ownership_claim, ownership_claim_id_annotation_key,
}

-- What was inserted under a key is found there.
pub lookup_text-insert_text :
    (k v : Text) (m : List (Text × Text)) → lookup_text k (insert_text k v m) ≡ v
unfolding lookup_text insert_text
lookup_text-insert_text k v [] = rw (text_eq_self k)
lookup_text-insert_text k v ((j, w) ∷ m) = elim (Bool-cases (text_eq j k)) [
  | inl h ↦ rw (h, text_eq_self k)
  | inr h ↦ rw (h, h, lookup_text-insert_text k v m)
]

-- The claim that an object was given is the claim that it is read to have.
pub claim-set_claim :
    (o : ClusterSpiffeId) (claim_id : Text)
    → cluster_spiffe_id_ownership_claim (set_cluster_spiffe_id_ownership_claim o claim_id)
      ≡ claim_id
unfolding cluster_spiffe_id_ownership_claim set_cluster_spiffe_id_ownership_claim
claim-set_claim o claim_id =
    lookup_text-insert_text ownership_claim_id_annotation_key claim_id o.annotations
