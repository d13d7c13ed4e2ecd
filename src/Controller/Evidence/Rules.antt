-- ===== src/Controller/Evidence/Rules.antt =====
-- The rules by which a method of the controller is shown to make permitted calls only: one for each way in
-- which internal/controller composes its methods.
use kleym.Prelude.{◌≡◌, inl, inr, ℕ, zero, suc, Bool, true, false, if◌then◌else◌, ◌∷◌}
use kleym.Errors.{Error, Result, ok, err, is_conflict_error}
use kleym.Api.{InferenceIdentityBinding}
use kleym.Cluster.{Prog, done, call, Call, Reply, bind}
use kleym.Controller.{
  Action, pure, raise, lift, perform, gets, modify, ◌>>=◌, attempt, continue, beside, retried,
  on_copy, retry_on_conflict,
}
use kleym.Controller.Evidence.{
  Event, event, History, Shows, Shown, Owned, Claimed, Permitted, Runs, Backed,
}

abbrev pub Stable : (History → Type 0) → Type 0
Stable P = (e : Event) (h : History) → P h → P (e ∷ h)

pub Backed-Stable : (b : InferenceIdentityBinding) → Stable (λ h. Backed h b)
unfolding Backed Owned Claimed Shown
Backed-Stable b e h (owned, claimed) = (
  (λ o eq. let (c, s, p) = owned o eq in (c, inr s, p)),
  (λ o eq. let (c, s, p) = claimed o eq in (c, inr s, p)),
)

-- A binding that the history shows is backed.
pub Shown-Backed : (h : History) (b : InferenceIdentityBinding) → Shown h b → Backed h b
unfolding Backed Owned Claimed
Shown-Backed h b s = ((λ o eq. (b, s, eq)), (λ o eq. (b, s, eq)))

pub Shows-Backed :
    (e : Event) (h : History) (b : InferenceIdentityBinding) → Shows e b → Backed (e ∷ h) b
unfolding Shown
Shows-Backed e h b s = Shown-Backed (e ∷ h) b (inl s)

-- Only the ownership of a status is backed.
pub Backed-same :
    (h : History)
    → (b c : InferenceIdentityBinding)
    → c.status.owned_cluster_spiffe_id ≡ b.status.owned_cluster_spiffe_id
    → c.status.pending_cluster_spiffe_id ≡ b.status.pending_cluster_spiffe_id
    → Backed h b
    → Backed h c
unfolding Backed
Backed-same h b c o p (owned, claimed) = ((λ x eq. owned x (cc)), (λ x eq. claimed x (cc)))

pub Runs-bind :
    {A B : Type 0}
    → (Q : History → A → Type 0) → (R : History → B → Type 0) → (h : History) → (p : Prog A)
    → (f : A → Prog B) → Runs Q h p
    → ((h' : History) (a : A) → Q h' a → Runs R h' (f a))
    → Runs R h (bind p f)
unfolding Runs bind
Runs-bind Q R h (done a) f run next = next h a run
Runs-bind Q R h (call c k) f (allowed, run) next =
    (allowed, λ r. Runs-bind Q R (event c r ∷ h) (k r) f (run r) next)

pub Runs-frame :
    {A : Type 0}
    → (Q : History → A → Type 0) → (P : History → Type 0) → Stable P
    → (h : History) → (p : Prog A) → P h
    → Runs Q h p
    → Runs (λ h' a. Q h' a × P h') h p
unfolding Runs
Runs-frame Q P stable h (done a) holds run = (run, holds)
Runs-frame Q P stable h (call c k) holds (allowed, run) =
    (allowed, λ r. Runs-frame Q P stable (event c r ∷ h) (k r) (stable (event c r) h holds) (run r))

pub Runs-weaken :
    {A : Type 0}
    → (Q R : History → A → Type 0) → (h : History) → (p : Prog A)
    → ((h' : History) (a : A) → Q h' a → R h' a)
    → Runs Q h p
    → Runs R h p
unfolding Runs
Runs-weaken Q R h (done a) w run = w h a run
Runs-weaken Q R h (call c k) w (allowed, run) =
    (allowed, λ r. Runs-weaken Q R (event c r ∷ h) (k r) w (run r))

-- A result that is not an error is as `Q` says.
unfoldable pub OnOk : {A : Type 0} → (A → History → Type 0) → Result A → History → Type 0
OnOk Q (ok a) h = Q a h
OnOk Q (err e) h = Unit

unfoldable pub Ends :
    {A : Type 0} → (A → History → Type 0) → History → Result A × InferenceIdentityBinding → Type 0
Ends Q h (r, b) = OnOk Q r h × Backed h b

-- From a backed binding, when `P` holds: permitted calls only, a backed binding, and a result as `Q` says.
unfoldable pub Triple :
    {A : Type 0} → (History → Type 0) → Action A → (A → History → Type 0) → Type 0
Triple P m Q =
    (h : History) (b : InferenceIdentityBinding) → P h → Backed h b → Runs (Ends Q) h (m b)

module _ {A : Type 0} where
  weaken-Ends :
      (Q Q' : A → History → Type 0)
      → ((a : A) (h : History) → Q a h → Q' a h)
      → (h : History) (x : Result A × InferenceIdentityBinding) → Ends Q h x
      → Ends Q' h x
  unfolding Ends OnOk
  weaken-Ends Q Q' w h (ok a, b) (q, k) = (w a h q, k)
  weaken-Ends Q Q' w h (err e, b) (q, k) = (tt, k)

  frame-Ends :
      (P : History → Type 0) (Q : A → History → Type 0)
      → (h : History) (x : Result A × InferenceIdentityBinding) → Ends Q h x × P h
      → Ends (λ a h. Q a h × P h) h x
  unfolding Ends OnOk
  frame-Ends P Q h (ok a, b) ((q, k), p) = ((q, p), k)
  frame-Ends P Q h (err e, b) ((q, k), p) = (tt, k)

abbrev pub True : History → Type 0
True h = Unit

abbrev pub Any : {A : Type 0} → A → History → Type 0
Any a h = Unit

module _ {A : Type 0} where
  pub pure-Triple :
      (P : History → Type 0) (Q : A → History → Type 0) (a : A)
      → ((h : History) → P h → Q a h)
      → Triple P (pure a) Q
  unfolding Triple Runs Ends OnOk pure
  pure-Triple P Q a q h b p backed = (q h p, backed)

  pub raise-Triple :
      (P : History → Type 0) (Q : A → History → Type 0) (e : Error) → Triple P (raise e) Q
  unfolding Triple Runs Ends OnOk raise
  raise-Triple P Q e h b p backed = (tt, backed)

  pub gets-Triple :
      (P : History → Type 0) (f : InferenceIdentityBinding → A) → Triple P (gets f) Any
  unfolding Triple Runs Ends OnOk gets
  gets-Triple P f h b p backed = (tt, backed)

  pub lift-Triple :
      (P : History → Type 0) (Q : A → History → Type 0) (r : Result A)
      → ((h : History) → P h → OnOk Q r h)
      → Triple P (lift r) Q
  unfolding Triple Runs Ends lift
  lift-Triple P Q r q h b p backed = (q h p, backed)

  pub computes-Triple :
      (P : History → Type 0) (Q : A → History → Type 0) (f : InferenceIdentityBinding → A)
      → ((h : History) (b : InferenceIdentityBinding) → P h → Q (f b) h)
      → Triple P (gets f) Q
  unfolding Triple Runs Ends OnOk gets
  computes-Triple P Q f q h b p backed = (q h b p, backed)

  -- What is computed from the binding alone.
  pub reads-Triple :
      (P : History → Type 0) (Q : A → History → Type 0) (f : InferenceIdentityBinding → Result A)
      → ((h : History) (b : InferenceIdentityBinding) → P h → Backed h b → OnOk Q (f b) h)
      → Triple P (λ b. lift (f b) b) Q
  unfolding Triple Runs Ends lift
  reads-Triple P Q f q h b p backed = (q h b p backed, backed)

  pub attempt-Triple :
      (P : History → Type 0) (Q : A → History → Type 0) (m : Action A)
      → Triple P m Q
      → Triple P (attempt m) (OnOk Q)
  unfolding Triple attempt Ends OnOk Runs
  attempt-Triple P Q m t h b p backed =
      Runs-bind (Ends Q) (Ends (OnOk Q)) h (m b) _ (t h b p backed) λ h' (r, b') ends. ends

  pub weaken-Triple :
      (P P' : History → Type 0) (Q Q' : A → History → Type 0) (m : Action A)
      → ((h : History) → P' h → P h)
      → ((a : A) (h : History) → Q a h → Q' a h)
      → Triple P m Q
      → Triple P' m Q'
  unfolding Triple Ends OnOk
  weaken-Triple P P' Q Q' m wp wq t h b p backed =
      Runs-weaken (Ends Q) (Ends Q') h (m b) (weaken-Ends Q Q' wq) (t h b (wp h p) backed)

  pub frame-Triple :
      (P : History → Type 0) (Q : A → History → Type 0) (m : Action A)
      → Stable P
      → Triple P m Q
      → Triple P m (λ a h. Q a h × P h)
  unfolding Triple Ends OnOk
  frame-Triple P Q m stable t h b p backed =
      Runs-weaken (λ h' a. Ends Q h' a × P h') (Ends (λ a h. Q a h × P h)) h (m b) (frame-Ends P Q)
        (Runs-frame (Ends Q) P stable h (m b) p (t h b p backed))

-- What is stable is kept by a method that needs nothing.
pub keep-Triple :
    {A : Type 0} (P : History → Type 0) (m : Action A)
    → Stable P
    → Triple True m Any
    → Triple P m (λ _. P)
keep-Triple P m stable t =
    weaken-Triple P P (λ a h. Any a h × P h) (λ _. P) m (λ h p. p) (λ a h (u, p). p)
      (frame-Triple P Any m stable (weaken-Triple True P Any Any m (λ h p. tt) (λ a h q. q) t))

module _ {A B : Type 0} (Q : A → History → Type 0) (R : B → History → Type 0)
    (f : A → Action B) where
  continue-Runs :
      ((a : A) → Triple (Q a) (f a) R)
      → (h : History) (x : Result A × InferenceIdentityBinding) → Ends Q h x
      → Runs (Ends R) h (continue f x)
  unfolding Triple Ends OnOk Runs
  continue-Runs next h (ok a, b) (q, k) = next a h b q k
  continue-Runs next h (err e, b) (q, k) = (tt, k)

  pub bind-Triple :
      (P : History → Type 0) (m : Action A)
      → Triple P m Q
      → ((a : A) → Triple (Q a) (f a) R)
      → Triple P (m >>= f) R
  unfolding Triple ◌>>=◌
  bind-Triple P m t next h b p backed =
      Runs-bind (Ends Q) (Ends R) h (m b) (continue f) (t h b p backed) (continue-Runs next)

pub perform-Triple :
    (P : History → Type 0)
    → (c : Call) → (Q : Reply c → History → Type 0) → ((h : History) → P h → Permitted h c)
    → ((h : History) (r : Reply c) → P h → Q r (event c r ∷ h))
    → Triple P (perform c) Q
unfolding Triple perform Runs Ends OnOk
perform-Triple P c Q allowed after h b p backed =
    (allowed h p, λ r. (after h r p, Backed-Stable b (event c r) h backed))

pub modify-Triple :
    (P : History → Type 0)
    → (f : InferenceIdentityBinding → InferenceIdentityBinding)
    → ((b : InferenceIdentityBinding)
        → ((f b).status.owned_cluster_spiffe_id ≡ b.status.owned_cluster_spiffe_id)
          × ((f b).status.pending_cluster_spiffe_id ≡ b.status.pending_cluster_spiffe_id))
    → Triple P (modify f) Any
unfolding Triple modify Runs Ends OnOk
modify-Triple P f same h b p backed = let (o, q) = same b in (tt, Backed-same h b (f b) o q backed)

module _ {A : Type 0} (P : History → Type 0) (Q : A → History → Type 0) where
  beside-Runs :
      (b : InferenceIdentityBinding) (h : History) (x : Result A × InferenceIdentityBinding)
      → Ends Q h x × Backed h b
      → Runs
          (Ends (λ (r : A × InferenceIdentityBinding) h. Q (r.0) h × Backed h (r.1)))
          h
          (beside b x)
  unfolding Ends OnOk Runs
  beside-Runs b h (ok a, c) ((q, k), s) = ((q, k), s)
  beside-Runs b h (err e, c) ((q, k), s) = (tt, s)

  pub on_copy-Triple :
      (c : InferenceIdentityBinding) (m : Action A)
      → ((h : History) → P h → Backed h c)
      → Triple P m Q
      → Triple P (on_copy c m) (λ r h. Q (r.0) h × Backed h (r.1))
  unfolding Triple on_copy
  on_copy-Triple c m copied t h b p backed =
      Runs-bind (λ h' x. Ends Q h' x × Backed h' b) _ h (m c) (beside b)
        (Runs-frame (Ends Q) (λ h. Backed h b) (Backed-Stable b) h (m c) backed
          (t h c p (copied h p)))
        (beside-Runs b)

pub Runs-if :
    {A : Type 0}
    → (Q : History → A → Type 0) → (h : History) → (c : Bool) → (p q : Prog A) → Runs Q h p
    → Runs Q h q
    → Runs Q h (if c then p else q)
Runs-if Q h true p q t u = t
Runs-if Q h false p q t u = u

pub if-Triple :
    {A : Type 0}
    → (P : History → Type 0) → (Q : A → History → Type 0) → (c : Bool) → (m n : Action A)
    → Triple P m Q
    → Triple P n Q
    → Triple P (if c then m else n) Q
if-Triple P Q true m n t u = t
if-Triple P Q false m n t u = u

retried-Triple :
    {A : Type 0}
    → (Q : A → History → Type 0) → (again : Action A) → Triple True again Q
    → (r : Result A) → Triple (OnOk Q r) (retried again r) Q
unfolding OnOk
retried-Triple Q again t (ok a) = pure-Triple (Q a) Q a (λ h q. q)
retried-Triple Q again t (err e) =
    if-Triple True Q (is_conflict_error e) again (raise e) t (raise-Triple True Q e)

pub retry-Triple :
    {A : Type 0}
    → (Q : A → History → Type 0) → (n : ℕ) → (m : Action A) → Triple True m Q
    → Triple True (retry_on_conflict n m) Q
unfolding retry_on_conflict
retry-Triple Q zero m t = t
retry-Triple Q (suc n) m t =
    bind-Triple (OnOk Q) Q _ True (attempt m) (attempt-Triple True Q m t)
      (retried-Triple Q (retry_on_conflict n m) (retry-Triple Q n m t))
