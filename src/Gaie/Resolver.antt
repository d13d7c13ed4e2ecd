-- ===== src/Gaie/Resolver.antt =====
-- `ResolveInferencePool` and `resolveByCandidates` of internal/gaie/resolver.go.
pub mod Reads
use kleym.Prelude.{Bool, true, false, Option, none, some, List, [], ◌∷◌, ◌++◌, if◌then◌else◌}
use kleym.Prelude.Text.{Text, codes, quote}
use kleym.Errors.{Error, Result, ok, err, is_not_found_error, is_no_match_error}
use kleym.Identity.{NamespacedName}
use kleym.Gaie.{
  GroupVersionKind, PoolRef, candidate_pool_gvks, resolve_pool_gvks, new_state_error,
  condition_type_invalid_ref, reason_inference_pool_crd_missing, reason_target_pool_not_found,
}
use kleym.Gaie.Selector.{InferencePool}
use kleym.Cluster.{Prog, done, call, get_pool, bind, try_bind}

-- What a failed read does to `crdMissing`: nothing if the loop stops there.
missing_after : Error → Bool → Option Bool
missing_after e crd_missing =
    if is_not_found_error e
    then some crd_missing
    else if is_no_match_error e
    then some true
    else none

abbrev Found : Type 0
Found = Prog (Result (Option InferencePool × Bool))

-- A failed read: the next candidate is tried, or the loop stops.
after_failure : Error → (Bool → Found) → Option Bool → Found
after_failure e next none = done (err e)
after_failure e next (some missing) = next missing

after_get : Bool → (Bool → Found) → Result InferencePool → Found
unfolding missing_after after_failure
after_get crd_missing next (ok pool) = done (ok (some pool, crd_missing))
after_get crd_missing next (err e) = after_failure e next (missing_after e crd_missing)

unfoldable pub resolve_by_candidates : NamespacedName → List GroupVersionKind → Bool → Found
unfolding after_get
resolve_by_candidates key [] crd_missing = done (ok (none, crd_missing))
resolve_by_candidates key (gvk ∷ rest) crd_missing =
    call (get_pool gvk key) (after_get crd_missing (resolve_by_candidates key rest))

pool_or_error : PoolRef → Option InferencePool × Bool → Prog (Result InferencePool)
pool_or_error ref (some pool, crd_missing) = done (ok pool)
pool_or_error ref (none, true) = done (
    err (
      new_state_error condition_type_invalid_ref reason_inference_pool_crd_missing
        (codes "InferencePool CRD is not installed")))
pool_or_error ref (none, false) = done (
    err (
      new_state_error condition_type_invalid_ref reason_target_pool_not_found
        (codes "poolRef " ++ quote ref.name ++ codes " was not found")))

unfoldable pub resolve_inference_pool :
    List GroupVersionKind → PoolRef → Prog (Result InferencePool)
unfolding pool_or_error
resolve_inference_pool available ref =
    try_bind
      (resolve_by_candidates (record { namespace = ref.namespace; name = ref.name })
        (candidate_pool_gvks (resolve_pool_gvks available) ref.group) false)
      (pool_or_error ref)
