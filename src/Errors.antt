-- ===== src/Errors.antt =====
-- Errors as values: the state errors of internal/identity/types.go, internal/gaie/types.go and
-- internal/controller/inferenceidentitybinding_types.go, and what the code asks of an API error.
use kleym.Prelude.{◌≡◌, refl, ◌⊎◌, inl, inr, Bool, true, false, Option, none, some, ◌++◌}
use kleym.Prelude.Text.{Text, codes}

-- `StateError` (identity, gaie) and `reconcileStateError` (controller).
pub record StateError : Type 0 where
  pub condition_type : Text
  pub reason : Text
  pub message : Text

-- What `apierrors.IsNotFound`, `IsConflict`, `IsAlreadyExists`, `IsForbidden` and
-- `meta.IsNoMatchError` tell apart.
pub data ApiErrorKind : Type 0 where
  not_found no_match conflict already_exists forbidden other : ApiErrorKind

-- `error`. A state error is known by its package's type, and `wrapped` is `fmt.Errorf("…%w", err)`.
pub data Error : Type 0 where
  plain : Text → Error
  reconcile_state : StateError → Error
  identity_state : StateError → Error
  gaie_state : StateError → Error
  api : ApiErrorKind → Text → Error
  wrapped : Text → Error → Error

pub data Result {ℓ} (A : Type ℓ) : Type ℓ where
  ok : A → Result A
  err : Error → Result A

-- A chain ends at its first error.
infixl 5 ◌>>=◌ ◌>>◌
abbrev pub ◌>>=◌ {ℓ κ} : {A : Type ℓ} {B : Type κ} → Result A → (A → Result B) → Result B
err failure >>= next = err failure
ok value >>= next = next value

abbrev pub ◌>>◌ {ℓ} : {B : Type ℓ} → Result (Unit {0}) → Result B → Result B
first >> second = first >>= λ _. second

-- An early return of an error when the test holds.
abbrev pub fail_if : Bool → Error → Result (Unit {0})
fail_if true e = err e
fail_if false e = ok tt

-- `Error()`.
unfoldable pub error_text : Error → Text
error_text (plain m) = m
error_text (reconcile_state s) = s.message
error_text (identity_state s) = s.message
error_text (gaie_state s) = s.message
error_text (api kind m) = m
error_text (wrapped m e) = m ++ codes ": " ++ error_text e

-- `errorsAsStateError`: the first state error of the chain, whichever package made it.
unfoldable pub errors_as_state_error : Error → Option StateError
errors_as_state_error (plain m) = none
errors_as_state_error (reconcile_state s) = some s
errors_as_state_error (identity_state s) = some s
errors_as_state_error (gaie_state s) = some s
errors_as_state_error (api kind m) = none
errors_as_state_error (wrapped m e) = errors_as_state_error e

-- `meta.IsNoMatchError`.
unfoldable pub is_no_match_error : Error → Bool
is_no_match_error (api no_match m) = true
is_no_match_error (wrapped m e) = is_no_match_error e
is_no_match_error _ = false

-- `apierrors.IsNotFound`, `IsAlreadyExists` and `IsConflict`.
unfoldable pub is_not_found_error : Error → Bool
is_not_found_error (api not_found m) = true
is_not_found_error (wrapped m e) = is_not_found_error e
is_not_found_error _ = false

unfoldable pub is_already_exists_error : Error → Bool
is_already_exists_error (api already_exists m) = true
is_already_exists_error (wrapped m e) = is_already_exists_error e
is_already_exists_error _ = false

unfoldable pub is_conflict_error : Error → Bool
is_conflict_error (api conflict m) = true
is_conflict_error (wrapped m e) = is_conflict_error e
is_conflict_error _ = false

unfoldable pub is_forbidden_error : Error → Bool
is_forbidden_error (api forbidden m) = true
is_forbidden_error (wrapped m e) = is_forbidden_error e
is_forbidden_error _ = false

-- `errors.As` for the state errors of the identity and the gaie packages.
unfoldable pub as_identity_error : Error → Option StateError
as_identity_error (identity_state s) = some s
as_identity_error (wrapped m e) = as_identity_error e
as_identity_error _ = none

unfoldable pub as_gaie_error : Error → Option StateError
as_gaie_error (gaie_state s) = some s
as_gaie_error (wrapped m e) = as_gaie_error e
as_gaie_error _ = none

-- Inversions of a run that returns a value.
pub >>=-eq-ok {ℓ κ} :
    {A : Type ℓ} {B : Type κ} (m : Result A) (f : A → Result B) (b : B)
    → (m >>= f) ≡ ok b
    → (a : A) × (m ≡ ok a) × (f a ≡ ok b)
>>=-eq-ok (ok a) f b h = (a, refl, h)
>>=-eq-ok (err e) f b h = cc

pub fail_if-eq-ok {ℓ} :
    {B : Type ℓ} (test : Bool) (e : Error) (k : Result B) (b : B)
    → (fail_if test e >> k) ≡ ok b
    → (test ≡ false) × (k ≡ ok b)
fail_if-eq-ok true e k b h = cc
fail_if-eq-ok false e k b h = (refl, h)

-- To split on a computed result and keep the equation.
pub Result-cases {ℓ} :
    {A : Type ℓ} (r : Result A) → ((a : A) × (r ≡ ok a)) ⊎ ((e : Error) × (r ≡ err e))
Result-cases (ok a) = inl (a, refl)
Result-cases (err e) = inr (e, refl)
