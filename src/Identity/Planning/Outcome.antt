-- ===== src/Identity/Planning/Outcome.antt =====
-- What holds of the input, and what the plan is, when `PlanIdentity` returns one.
use kleym.Prelude.{◌≡◌, inl, inr, true, false, List, [], ◌∷◌, ◌++◌, is_nil, arith}
use kleym.Prelude.Text.{Text, codes, trim_space}
use kleym.Errors.{Result, ok, err, Result-cases}
use kleym.Identity.{Validation, PlanInput, Plan}
use kleym.Identity.Boundary.{variant_label_key, validate_variant}
use kleym.Identity.Selectors.{unique_and_sorted}
use kleym.Identity.Planning.{
  render_safety_selectors, validate_identity_anchor, render_inference_target_spiffe_id,
  validate_rendered_safety_selectors, as_state_error, plan_identity,
}

as_state_error-eq-ok {ℓ} :
    {A : Type ℓ} (t r : Text) (m : Result A) (a : A) → as_state_error t r m ≡ ok a → m ≡ ok a
as_state_error-eq-ok t r (ok b) a h = h
as_state_error-eq-ok t r (err e) a h = cc

abbrev pub selectors_of : PlanInput → List Text
selectors_of input = unique_and_sorted (
    (((codes "k8s:ns:" ++ input.namespace) ∷ (codes "k8s:sa:" ++ input.service_account_name) ∷ [])
      ++ input.target.derived_selectors)
    ++ (codes "k8s:pod-label:" ++ variant_label_key ++ codes ":" ++ input.variant) ∷ [])

abbrev pub spiffe_id_of : PlanInput → Text
spiffe_id_of input = render_inference_target_spiffe_id input.trust_domain (record {
  namespace = input.namespace;
  service_account_name = input.service_account_name;
  identity_anchor = input.target.identity_anchor;
  variant = input.variant;
})

abbrev pub plan_of : PlanInput → Plan
plan_of input = record {
  spiffe_id = spiffe_id_of input;
  selectors = selectors_of input;
  pod_selector = input.target.pod_selector;
  identity_anchor = input.target.identity_anchor;
  variant = input.variant;
}

pub record Accepted (v : Validation) (input : PlanInput) : Type 0 where
  pub trust_domain_set : is_nil (trim_space input.trust_domain) ≡ false
  pub variant_valid : validate_variant v input.variant ≡ ok tt
  pub account_valid : is_nil (v.is_dns1123_subdomain input.service_account_name) ≡ true
  pub anchor_valid : validate_identity_anchor input.target.identity_anchor ≡ ok tt
  pub selectors_valid :
      validate_rendered_safety_selectors input.namespace input.service_account_name input.variant
        (selectors_of input)
      ≡ ok tt

module _ (v : Validation) where
  render_safety_selectors-eq-ok :
      (ns sa : Text) (rendered : List Text)
      → render_safety_selectors v ns sa ≡ ok rendered
      → (is_nil (v.is_dns1123_subdomain sa) ≡ true)
        × (rendered ≡ (codes "k8s:ns:" ++ ns) ∷ (codes "k8s:sa:" ++ sa) ∷ [])
  unfolding render_safety_selectors
  render_safety_selectors-eq-ok ns sa rendered h = ground arith

  -- A plan is returned only for an input that passes every check, and it is the one rendered from it.
  pub plan_identity-eq-ok :
      (input : PlanInput) (p : Plan)
      → plan_identity v input ≡ ok p
      → Accepted v input × (p ≡ plan_of input)
  unfolding plan_identity
  plan_identity-eq-ok input p h =
      let ns = input.namespace in
      let sa = input.service_account_name in
      elim (Result-cases (render_safety_selectors v ns sa)) [
        | inl (rendered, e) ↦ ground (arith, render_safety_selectors-eq-ok ns sa rendered e)
        | inr (e, failed) ↦ ground arith
      ]
