-- ===== src/Controller/Status/Safety.antt =====
-- A status patch keeps the ownership that is stored, whatever the cluster answers.
use mathlib.Core.Bool.{decide}
use kleym.Prelude.{refl, Bool, true, false, ◌∷◌, inl}
use kleym.Errors.{Result, ok, err}
use kleym.Identity.{NamespacedName}
use kleym.Api.{InferenceIdentityBinding, InferenceIdentityBindingStatus}
use kleym.Platform.{Platform}
use kleym.Cluster.{get_binding, patch_status}
use kleym.Controller.Evidence.{event, History, Shows, Permitted, Runs, Backed}
use kleym.Controller.Evidence.Rules.{
  Backed-Stable, Shows-Backed, Backed-same, OnOk, Ends, Triple, True, Any, retry-Triple,
}
use kleym.Controller.Status.{
  Status-discrete, rebase, adopt, after_status_patch, store_status, fetched, patch_status_once,
  patch_binding_status,
}

after_status_patch-Ends :
    (b latest target : InferenceIdentityBinding) (h : History)
    (reply : Result InferenceIdentityBinding)
    → Backed h b
    → Runs (Ends Any) (event (patch_status latest target) reply ∷ h) (after_status_patch b reply)
unfolding after_status_patch Runs Ends OnOk Shows
after_status_patch-Ends b latest target h (ok stored) backed =
    (tt, Backed-same _ stored (adopt b stored) refl refl (Shows-Backed _ h stored (inl refl)))
after_status_patch-Ends b latest target h (err e) backed = (tt, Backed-Stable b _ h backed)

store_status-Runs :
    (same : Bool) (desired : InferenceIdentityBindingStatus) (latest b : InferenceIdentityBinding)
    → (h : History) → Backed h latest
    → Backed h b
    → Runs (Ends Any) h (store_status same latest (rebase desired latest) b)
unfolding store_status Runs Ends OnOk Permitted
store_status-Runs true desired latest b h stored backed =
    (tt, Backed-same h latest (adopt b (rebase desired latest)) refl refl stored)
store_status-Runs false desired latest b h stored backed =
    (tt, λ reply. after_status_patch-Ends b latest (rebase desired latest) h reply backed)

fetched-Runs :
    (desired : InferenceIdentityBindingStatus) (b : InferenceIdentityBinding) (key : NamespacedName)
    → (h : History) → (reply : Result InferenceIdentityBinding) → Backed h b
    → Runs (Ends Any) (event (get_binding key) reply ∷ h) (fetched desired b reply)
unfolding fetched Runs Ends OnOk Shows
fetched-Runs desired b key h (err e) backed = (tt, Backed-Stable b _ h backed)
fetched-Runs desired b key h (ok latest) backed =
    store_status-Runs (decide (Status-discrete latest.status (rebase desired latest).status))
      desired latest b _ (Shows-Backed _ h latest refl) (Backed-Stable b _ h backed)

once-Triple :
    (desired : InferenceIdentityBindingStatus) → Triple True (patch_status_once desired) Any
unfolding Triple patch_status_once Runs Permitted
once-Triple desired h b t backed = (tt, λ reply. fetched-Runs desired b _ h reply backed)

pub patch_status-Triple : (platform : Platform) → Triple True (patch_binding_status platform) Any
unfolding Triple patch_binding_status
patch_status-Triple platform h b t backed =
    retry-Triple Any platform.retries (patch_status_once b.status) (once-Triple b.status) h b t
      backed
