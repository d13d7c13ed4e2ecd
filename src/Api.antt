-- ===== src/Api.antt =====
-- api/v1alpha1/inferenceidentitybinding_types.go: the binding, its specification and its status.
use kleym.Prelude.{ℕ, Bool, Option, List}
use kleym.Prelude.Text.{Text}

pub record InferencePoolTargetRef : Type 0 where
  pub name : Text
  pub group : Text

pub record IdentityBoundary : Type 0 where
  pub variant : Text

pub record InferenceIdentityBindingSpec : Type 0 where
  pub pool_ref : InferencePoolTargetRef
  pub service_account_name : Text
  pub identity_boundary : IdentityBoundary

pub record ComputedSpiffeIdStatus : Type 0 where
  pub spiffe_id : Text

pub record RenderedSelectorStatus : Type 0 where
  pub spiffe_id : Text
  pub selectors : List Text

pub record RenderedClusterSpiffeIdStatus : Type 0 where
  pub name : Text
  pub spiffe_id : Text
  pub selector_fingerprint : Text
  pub observed_generation : Option ℕ

pub record PendingClusterSpiffeIdStatus : Type 0 where
  pub name : Text
  pub claim_id : Text

pub record OwnedClusterSpiffeIdStatus : Type 0 where
  pub name : Text
  pub uid : Text

pub record VariantConflictStatus : Type 0 where
  pub binding_name : Text
  pub cause : Text
  pub spiffe_id : Text
  pub variant : Text

-- `metav1.Condition`, without the time of its last transition, which the code never reads.
pub data ConditionStatus : Type 0 where
  condition_true condition_false condition_unknown : ConditionStatus

pub record Condition : Type 0 where
  pub condition_type : Text
  pub status : ConditionStatus
  pub observed_generation : ℕ
  pub reason : Text
  pub message : Text

pub record InferenceIdentityBindingStatus : Type 0 where
  pub conditions : List Condition
  pub trust_domain : Text
  pub cluster_spiffe_id_class_name : Text
  pub conflicts : List VariantConflictStatus
  pub computed_spiffe_ids : List ComputedSpiffeIdStatus
  pub rendered_selectors : List RenderedSelectorStatus
  pub pending_cluster_spiffe_id : Option PendingClusterSpiffeIdStatus
  pub owned_cluster_spiffe_id : Option OwnedClusterSpiffeIdStatus
  pub rendered_cluster_spiffe_id : Option RenderedClusterSpiffeIdStatus

-- Of the object's metadata the fields that the code reads or writes.
pub record InferenceIdentityBinding : Type 0 where
  pub namespace : Text
  pub name : Text
  pub generation : ℕ
  pub resource_version : Text
  pub deleting : Bool
  pub finalizers : List Text
  pub spec : InferenceIdentityBindingSpec
  pub status : InferenceIdentityBindingStatus
