-- ===== src/Controller/Render/Safety.antt =====
-- Rendering an identity only reads, so it keeps what is known of the durable status.
use kleym.Prelude.{◌∷◌}
use kleym.Gaie.{PoolRef, binding_pool_ref}
use kleym.Gaie.Resolver.Reads.{Calls, resolve-Calls}
use kleym.Cluster.{Prog, done, call}
use kleym.Controller.Evidence.{event, History, Permitted, Runs, Backed}
use kleym.Controller.Evidence.Rules.{
  Backed-Stable, Ends, Triple, True, Any, reads-Triple, bind-Triple, Runs-bind, Runs-frame,
}
use kleym.Controller.{Reconciler, lift_prog}
use kleym.Controller.Ownership.Safety.{any_ok}
use kleym.Controller.Render.{resolve_inference_pool, render_identity, render_identity_for_binding}

-- A program whose calls are permitted by any history.
Calls-Runs :
    {A : Type 0}
    → (h : History) → (p : Prog A) → Calls (λ c. (h' : History) → Permitted h' c) p
    → Runs (λ h a. Unit) h p
unfolding Calls Runs
Calls-Runs h (done a) run = tt
Calls-Runs h (call c k) (allowed, run) = (allowed h, λ r. Calls-Runs (event c r ∷ h) (k r) (run r))

pub resolve-Triple :
    (r : Reconciler) (ref : PoolRef) → Triple True (resolve_inference_pool r ref) Any
unfolding Triple resolve_inference_pool lift_prog Runs Ends Permitted
resolve-Triple r ref h b t backed =
    Runs-bind (λ h' a. Unit × Backed h' b) (Ends Any) h _ _
      (Runs-frame (λ h a. Unit) (λ h'. Backed h' b) (Backed-Stable b) h _ backed
        (Calls-Runs h _ (resolve-Calls _ (λ gvk key h'. tt) r.available_pool_gvks ref)))
      (λ h' a (u, k). (any_ok a h', k))

pub render-Triple : (r : Reconciler) → Triple True (render_identity_for_binding r) Any
unfolding render_identity_for_binding
render-Triple r =
    bind-Triple Any Any _ True _
      (reads-Triple True Any binding_pool_ref (λ h b t k. any_ok (binding_pool_ref b) h))
      λ ref.
        bind-Triple Any Any _ True _ (resolve-Triple r ref)
          λ pool. reads-Triple True Any _ (λ h b t k. any_ok (render_identity r b pool) h)
