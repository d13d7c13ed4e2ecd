-- ===== src/Controller.antt =====
-- internal/controller: the reconciler's settings, its constants, and the actions that its methods are.
pub mod Status
pub mod Evidence
pub mod Ownership
pub mod Output
pub mod Render
pub mod Failure
pub mod Conflict
pub mod Reconcile
pub mod Config
pub mod Watch
pub mod Metrics
use kleym.Prelude.{ℕ, zero, suc, Bool, true, false, List, if◌then◌else◌}
use kleym.Prelude.Text.{Text, codes}
use kleym.Errors.{
  StateError, Error, plain, reconcile_state, Result, ok, err, is_conflict_error, error_text,
}
use kleym.Api.{InferenceIdentityBinding}
use kleym.Gaie.{GroupVersionKind}
use kleym.Platform.{Platform}
use kleym.Cluster.{Prog, done, call, Call, Reply, bind}

-- `OperatorConfig`.
pub record OperatorConfig : Type 0 where
  pub trust_domain : Text
  pub cluster_spiffe_id_class_name : Text

-- `InferenceIdentityBindingReconciler`. The recorders may be absent.
pub record Reconciler : Type 0 where
  pub platform : Platform
  pub config : OperatorConfig
  pub has_recorder : Bool
  pub has_metrics_recorder : Bool
  pub available_pool_gvks : List GroupVersionKind

abbrev pub finalizer : Text
finalizer = codes "kleym.sonda.red/inferenceidentitybinding-finalizer"

abbrev pub condition_type_ready : Text
condition_type_ready = codes "Ready"

abbrev pub condition_type_invalid_ref : Text
condition_type_invalid_ref = codes "InvalidRef"

abbrev pub condition_type_unsafe_selector : Text
condition_type_unsafe_selector = codes "UnsafeSelector"

abbrev pub condition_type_conflict : Text
condition_type_conflict = codes "Conflict"

abbrev pub condition_type_render_failure : Text
condition_type_render_failure = codes "RenderFailure"

abbrev pub reason_reconciled : Text
reason_reconciled = codes "Reconciled"

abbrev pub reason_resolved : Text
reason_resolved = codes "Resolved"

abbrev pub reason_initializing : Text
reason_initializing = codes "Initializing"

abbrev pub reason_invalid_pool_ref : Text
reason_invalid_pool_ref = codes "InvalidPoolRef"

abbrev pub reason_cluster_spiffe_id_crd_missing : Text
reason_cluster_spiffe_id_crd_missing = codes "ClusterSPIFFEIDCRDMissing"

abbrev pub reason_managed_output_apply_failed : Text
reason_managed_output_apply_failed = codes "ManagedOutputApplyFailed"

abbrev pub reason_variant_conflict : Text
reason_variant_conflict = codes "VariantConflict"

abbrev pub reason_duplicate_spiffe_id : Text
reason_duplicate_spiffe_id = codes "DuplicateSPIFFEID"

-- In seconds.
abbrev pub infra_not_ready_requeue_after : ℕ
infra_not_ready_requeue_after = 30

abbrev pub delete_verification_requeue_after : ℕ
delete_verification_requeue_after = 2

-- `newStateError`.
abbrev pub new_state_error : Text → Text → Text → StateError
new_state_error condition_type reason message = record {
  condition_type = condition_type;
  reason = reason;
  message = message;
}

-- A method on the binding that it mutates. What was written before an error stays written, so the
-- binding comes back beside the error too.
abbrev pub Action : Type 0 → Type 0
Action A = InferenceIdentityBinding → Prog (Result A × InferenceIdentityBinding)

unfoldable pub pure : {A : Type 0} → A → Action A
pure a b = done (ok a, b)

unfoldable pub raise : {A : Type 0} → Error → Action A
raise e b = done (err e, b)

unfoldable pub lift : {A : Type 0} → Result A → Action A
lift r b = done (r, b)

-- A program that does not touch the binding.
unfoldable pub lift_prog : {A : Type 0} → Prog (Result A) → Action A
lift_prog p b = bind p (λ r. done (r, b))

unfoldable pub perform : (c : Call) → Action (Reply c)
perform c b = call c (λ r. done (ok r, b))

unfoldable pub gets : {A : Type 0} → (InferenceIdentityBinding → A) → Action A
gets f b = done (ok (f b), b)

unfoldable pub modify : (InferenceIdentityBinding → InferenceIdentityBinding) → Action (Unit {0})
modify f b = done (ok tt, f b)

abbrev pub continue :
    {A B : Type 0}
    → (A → Action B)
    → Result A × InferenceIdentityBinding
    → Prog (Result B × InferenceIdentityBinding)
continue f (ok a, b) = f a b
continue f (err e, b) = done (err e, b)

infixl 5 ◌>>=◌ ◌>>◌
unfoldable pub ◌>>=◌ : {A B : Type 0} → Action A → (A → Action B) → Action B
◌>>=◌ m f b = bind (m b) (continue f)

abbrev pub ◌>>◌ : {B : Type 0} → Action (Unit {0}) → Action B → Action B
m >> k = m >>= λ _. k

-- `if err := m; …`: the error becomes a value.
abbrev caught :
    {A : Type 0}
    → Result A × InferenceIdentityBinding
    → Prog (Result (Result A) × InferenceIdentityBinding)
caught (r, b) = done (ok r, b)

unfoldable pub attempt : {A : Type 0} → Action A → Action (Result A)
attempt m b = bind (m b) caught

-- The same method on a copy of another binding; the copy comes back changed.
abbrev pub beside :
    {A : Type 0}
    → InferenceIdentityBinding
    → Result A × InferenceIdentityBinding
    → Prog (Result (A × InferenceIdentityBinding) × InferenceIdentityBinding)
beside b (ok a, c) = done (ok (a, c), b)
beside b (err e, c) = done (err e, b)

unfoldable pub on_copy :
    {A : Type 0} → InferenceIdentityBinding → Action A → Action (A × InferenceIdentityBinding)
on_copy c m b = bind (m c) (beside b)

-- What follows one round: `again` after a conflict.
abbrev pub retried : {A : Type 0} → Action A → Result A → Action A
retried again (ok a) = pure a
retried again (err e) = if is_conflict_error e then again else raise e

-- `retry.RetryOnConflict`: the function runs again while it fails by a conflict and tries are left.
unfoldable pub retry_on_conflict : {A : Type 0} → ℕ → Action A → Action A
retry_on_conflict zero m = m
retry_on_conflict (suc n) m = do r ← attempt m; retried (retry_on_conflict n m) r
