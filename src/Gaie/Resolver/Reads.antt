-- ===== src/Gaie/Resolver/Reads.antt =====
-- Every call of the pool resolution reads a pool.
use kleym.Prelude.{Bool, true, false, Option, some, none, List, [], ◌∷◌}
use kleym.Errors.{Error, Result, ok, err}
use kleym.Identity.{NamespacedName}
use kleym.Gaie.{GroupVersionKind, PoolRef}
use kleym.Gaie.Selector.{InferencePool}
use kleym.Cluster.{Call, Reply, Prog, done, call, get_pool, try_bind}
use kleym.Gaie.Resolver.{
  missing_after, after_failure, after_get, resolve_by_candidates, pool_or_error,
  resolve_inference_pool,
}

-- `P` holds of every call that the program may make.
unfoldable pub Calls : {A : Type 0} → (Call → Type 0) → Prog A → Type 0
Calls P (done a) = Unit
Calls P (call c k) = P c × ((r : Reply c) → Calls P (k r))

pub Calls-try_bind :
    {A B : Type 0}
    → (P : Call → Type 0) → (p : Prog (Result A)) → (f : A → Prog (Result B)) → Calls P p
    → ((a : A) → Calls P (f a))
    → Calls P (try_bind p f)
unfolding Calls try_bind
Calls-try_bind P (done (ok a)) f run next = next a
Calls-try_bind P (done (err e)) f run next = tt
Calls-try_bind P (call c k) f (allowed, run) next =
    (allowed, λ r. Calls-try_bind P (k r) f (run r) next)

module _ (P : Call → Type 0)
    (allowed : (gvk : GroupVersionKind) (key : NamespacedName) → P (get_pool gvk key)) where
  after_get-Calls :
      (e : Error) (next : Bool → Prog (Result (Option InferencePool × Bool)))
      (missing : Option Bool)
      → ((m : Bool) → Calls P (next m))
      → Calls P (after_failure e next missing)
  unfolding Calls after_failure
  after_get-Calls e next none run = tt
  after_get-Calls e next (some m) run = run m

  reply-Calls :
      (missing : Bool) (next : Bool → Prog (Result (Option InferencePool × Bool)))
      → (reply : Result InferencePool) → ((m : Bool) → Calls P (next m))
      → Calls P (after_get missing next reply)
  unfolding Calls after_get
  reply-Calls missing next (ok pool) run = tt
  reply-Calls missing next (err e) run = after_get-Calls e next (missing_after e missing) run

  candidates-Calls :
      (key : NamespacedName) (gvks : List GroupVersionKind) (missing : Bool)
      → Calls P (resolve_by_candidates key gvks missing)
  unfolding Calls resolve_by_candidates
  candidates-Calls key [] missing = tt
  candidates-Calls key (gvk ∷ rest) missing =
      (allowed gvk key, λ reply. reply-Calls missing _ reply (candidates-Calls key rest))

  found-Calls :
      (ref : PoolRef) (found : Option InferencePool × Bool) → Calls P (pool_or_error ref found)
  unfolding Calls pool_or_error
  found-Calls ref (some pool, missing) = tt
  found-Calls ref (none, true) = tt
  found-Calls ref (none, false) = tt

  -- The resolution makes no call but reads of pools.
  pub resolve-Calls :
      (available : List GroupVersionKind) (ref : PoolRef)
      → Calls P (resolve_inference_pool available ref)
  unfolding resolve_inference_pool
  resolve-Calls available ref = Calls-try_bind P _ _ (candidates-Calls _ _ false) (found-Calls ref)
