-- ===== src/Controller/Status/Bounded.antt =====
-- How many calls a status patch takes.
use kleym.Prelude.{◌≡◌, refl, ℕ, zero, suc, ◌+◌, ◌*◌, ◌≤◌, Bool, true, false, if◌then◌else◌, arith}
use kleym.Errors.{Result, ok, err, is_conflict_error}
use kleym.Platform.{Platform}
use kleym.Api.{InferenceIdentityBinding, InferenceIdentityBindingStatus as Status}
use kleym.Cluster.{Prog, done, call, bind}
use kleym.Controller.{
  Action, pure, raise, attempt, caught, continue, retried, ◌>>=◌, retry_on_conflict,
}
use kleym.Controller.Status.{
  patch_binding_status, patch_status_once, fetched, store_status, after_status_patch,
}

-- On every path, whatever the answers, a program makes at most so many calls.
unfoldable pub AtMost : {A : Type 0} → ℕ → Prog A → Type 0
AtMost n (done a) = Unit
AtMost zero (call c k) = ⊥
AtMost (suc n) (call c k) = (r : _) → AtMost n (k r)

AtMost-weaken : {A : Type 0} (p : Prog A) (m n : ℕ) → m ≤ n → AtMost m p → AtMost n p
unfolding AtMost
AtMost-weaken (done a) m n h p = tt
AtMost-weaken (call c k) zero n h p = absurd p
AtMost-weaken (call c k) (suc m) zero h p = absurd (omega arith)
AtMost-weaken (call c k) (suc m) (suc n) h p = λ r. AtMost-weaken (k r) m n (omega arith) (p r)

AtMost-bind :
    {A B : Type 0} (p : Prog A) (f : A → Prog B) (n m t : ℕ)
    → n + m ≤ t
    → AtMost n p
    → ((a : A) → AtMost m (f a))
    → AtMost t (bind p f)
unfolding AtMost bind
AtMost-bind (done a) f n m t h p q = AtMost-weaken (f a) m t (omega arith) (q a)
AtMost-bind (call c k) f zero m t h p q = absurd p
AtMost-bind (call c k) f (suc n) m zero h p q = absurd (omega arith)
AtMost-bind (call c k) f (suc n) m (suc t) h p q =
    λ r. AtMost-bind (k r) f n m t (omega arith) (p r) q

-- A first round and as many more as there are tries left.
abbrev rounds : ℕ → ℕ → ℕ
rounds zero k = k
rounds (suc n) k = k + rounds n k

rounds_lem : (n : ℕ) → rounds n 2 ≡ 2 * suc n
rounds_lem zero = refl
rounds_lem (suc n) = omega (arith, rounds_lem n)

module _ {A : Type 0} where
  attempt-AtMost :
      (m : Action A) (k : ℕ) (b : InferenceIdentityBinding)
      → AtMost k (m b)
      → AtMost k (attempt m b)
  unfolding attempt AtMost
  attempt-AtMost m k b h = AtMost-bind (m b) caught k 0 k (omega arith) h λ r. tt

  if-AtMost :
      (flag : Bool) (k : ℕ) (again stop : Action A) (b : InferenceIdentityBinding)
      → AtMost k (again b)
      → AtMost k (stop b)
      → AtMost k ((if flag then again else stop) b)
  if-AtMost true k again stop b p q = p
  if-AtMost false k again stop b p q = q

  retried-AtMost :
      (again : Action A) (k : ℕ)
      → ((b : InferenceIdentityBinding) → AtMost k (again b))
      → (r : Result (Result A) × InferenceIdentityBinding) → AtMost k (continue (retried again) r)
  unfolding AtMost pure raise
  retried-AtMost again k h (ok (ok a), b) = tt
  retried-AtMost again k h (ok (err e), b) =
      if-AtMost (is_conflict_error e) k again (raise e) b (h b) tt
  retried-AtMost again k h (err e, b) = tt

  retry-AtMost :
      (n k : ℕ) (m : Action A)
      → ((b : InferenceIdentityBinding) → AtMost k (m b))
      → (b : InferenceIdentityBinding) → AtMost (rounds n k) (retry_on_conflict n m b)
  unfolding retry_on_conflict ◌>>=◌
  retry-AtMost zero k m h b = h b
  retry-AtMost (suc n) k m h b =
      AtMost-bind (attempt m b) (continue (retried (retry_on_conflict n m))) k (rounds n k)
        (k + rounds n k) (omega arith) (attempt-AtMost m k b (h b))
        (retried-AtMost (retry_on_conflict n m) (rounds n k) (retry-AtMost n k m h))

after_patch-AtMost :
    (b : InferenceIdentityBinding) (reply : Result InferenceIdentityBinding)
    → AtMost 0 (after_status_patch b reply)
unfolding after_status_patch AtMost
after_patch-AtMost b (ok target) = tt
after_patch-AtMost b (err e) = tt

store-AtMost :
    (same : Bool) (latest target b : InferenceIdentityBinding)
    → AtMost 1 (store_status same latest target b)
unfolding store_status AtMost
store-AtMost true latest target b = tt
store-AtMost false latest target b = λ reply. after_patch-AtMost b reply

fetched-AtMost :
    (desired : Status) (b : InferenceIdentityBinding) (found : Result InferenceIdentityBinding)
    → AtMost 1 (fetched desired b found)
unfolding fetched AtMost
fetched-AtMost desired b (ok latest) = store-AtMost _ latest _ b
fetched-AtMost desired b (err e) = tt

once-AtMost :
    (desired : Status) (b : InferenceIdentityBinding) → AtMost 2 (patch_status_once desired b)
unfolding patch_status_once AtMost
once-AtMost desired b = λ found. fetched-AtMost desired b found

-- Whatever the cluster answers, a status patch ends after at most two calls for each round: one round, and one
-- more for each retry that a conflict is allowed.
pub patch_binding_status-AtMost :
    (platform : Platform) (b : InferenceIdentityBinding)
    → AtMost (2 * suc platform.retries) (patch_binding_status platform b)
unfolding patch_binding_status
patch_binding_status-AtMost platform b =
    AtMost-weaken _ (rounds platform.retries 2) (2 * suc platform.retries)
      (omega (arith, rounds_lem platform.retries))
      (retry-AtMost platform.retries 2 (patch_status_once b.status) (once-AtMost b.status) b)
