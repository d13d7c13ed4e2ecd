-- ===== src/Platform.antt =====
-- What the program takes from its libraries: k8s.io/apimachinery, controller-runtime's controllerutil,
-- client-go's retry, and the two hash functions.
use kleym.Prelude.{ℕ, Bool, Option, List}
use kleym.Prelude.Text.{Text}
use kleym.Errors.{Result}
use kleym.Value.{Fields}
use kleym.Identity.{Validation}
use kleym.Api.{Condition}

pub record Platform : Type 0 where
  pub validation : Validation
  -- `unstructured.NestedMap`: the object at a path, if there is one.
  pub nested_map : Fields → List Text → Result (Option Fields)
  -- `meta.FindStatusCondition` and `meta.SetStatusCondition`.
  pub find_status_condition : List Condition → Text → Option Condition
  pub set_status_condition : List Condition → Condition → List Condition
  -- `controllerutil.ContainsFinalizer`, `AddFinalizer` and `RemoveFinalizer`.
  pub contains_finalizer : List Text → Text → Bool
  pub add_finalizer : List Text → Text → List Text
  pub remove_finalizer : List Text → Text → List Text
  -- How often `retry.RetryOnConflict` runs its function again, at most, after a first conflict: one less than
  -- the steps of `retry.DefaultRetry`.
  pub retries : ℕ
  -- crypto/sha1 and crypto/sha256: the digest of a list of bytes.
  pub sha1 : List ℕ → List ℕ
  pub sha256 : List ℕ → List ℕ
