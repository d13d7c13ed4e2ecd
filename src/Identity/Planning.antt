-- ===== src/Identity/Planning.antt =====
-- `PlanIdentity` of internal/identity/render.go and the functions that it calls.
pub mod Outcome
pub mod Safety
pub mod Injective
use kleym.Prelude.{
  ℕ, ◌+◌, Bool, true, false, not, ◌&&◌, ◌||◌, List, [], ◌∷◌, ◌++◌, is_nil, if◌then◌else◌, ◌==◌,
}
use kleym.Prelude.Text.{
  Text, codes, text_eq, trim_space, has_prefix, trim_prefix, contains, join, quote,
}
use kleym.Errors.{Error, plain, Result, ok, err, fail_if, error_text, ◌>>=◌, ◌>>◌}
use kleym.Identity.{
  Validation, IdentityAnchor, PlanInput, Plan, RenderTemplateData, new_state_error,
  condition_type_unsafe_selector, condition_type_render_failure, reason_missing_trust_domain,
  reason_invalid_service_account_name, reason_unsafe_selector, reason_invalid_spiffe_id,
}
use kleym.Identity.Selectors.{unique_and_sorted}
use kleym.Identity.Boundary.{variant_label_key, validate_variant}

-- `renderSafetySelectors`.
module _ (v : Validation) where
  unfoldable pub render_safety_selectors : Text → Text → Result (List Text)
  render_safety_selectors namespace service_account_name = do
    fail_if (is_nil (trim_space service_account_name))
        (plain (codes "serviceAccountName must not be empty"))
    let errs = v.is_dns1123_subdomain service_account_name
    fail_if (not (is_nil errs)) (
        plain (
          codes "serviceAccountName "
          ++ quote service_account_name
          ++ codes " is invalid: "
          ++ join errs (codes "; ")))
    ok ((codes "k8s:ns:" ++ namespace) ∷ (codes "k8s:sa:" ++ service_account_name) ∷ [])

unfoldable pub validate_identity_anchor : IdentityAnchor → Result (Unit {0})
validate_identity_anchor anchor = do
  fail_if (is_nil (trim_space anchor.kind)) (plain (codes "identity anchor kind must not be empty"))
  fail_if (is_nil (trim_space anchor.name)) (plain (codes "identity anchor name must not be empty"))
  fail_if (contains anchor.kind b'/' || contains anchor.name b'/')
      (plain (codes "identity anchor segments must not contain /"))
  fail_if
      (not (text_eq anchor.kind (trim_space anchor.kind))
        || not (text_eq anchor.name (trim_space anchor.name)))
      (plain (codes "identity anchor segments must not include leading or trailing whitespace"))

unfoldable pub render_inference_target_spiffe_id : Text → RenderTemplateData → Text
render_inference_target_spiffe_id trust_domain template =
    codes "spiffe://"
    ++ (trust_domain
        ++ (codes "/ns/"
            ++ (template.namespace
                ++ (codes "/sa/"
                    ++ (template.service_account_name
                        ++ (codes "/inference/"
                            ++ (template.identity_anchor.kind
                                ++ (codes "/"
                                    ++ (template.identity_anchor.name
                                        ++ (codes "/variant/" ++ template.variant))))))))))

-- The variables of the loop of `validateRenderedSafetySelectors`.
pub record Seen : Type 0 where
  pub has_namespace_selector : Bool
  pub has_service_account_selector : Bool
  pub variant_selector_count : ℕ

abbrev pub variant_selector_prefix : Text
variant_selector_prefix = codes "k8s:pod-label:" ++ variant_label_key ++ codes ":"

module _ (namespace service_account_name variant : Text) where
  -- One round of the loop.
  check_selector : Text → Seen → Result Seen
  check_selector selector seen =
      if has_prefix selector (codes "k8s:ns:")
      then (do
        fail_if (not (text_eq (trim_prefix selector (codes "k8s:ns:")) namespace)) (
            plain (
              codes "selector "
              ++ quote selector
              ++ codes " escapes binding namespace "
              ++ quote namespace))
        ok (record seen { has_namespace_selector = true }))
      else if has_prefix selector (codes "k8s:sa:")
      then (do
        let service_account = trim_prefix selector (codes "k8s:sa:")
        fail_if (is_nil (trim_space service_account))
            (plain (codes "service account selector must not be empty"))
        fail_if (not (text_eq service_account service_account_name)) (
            plain (
              codes "selector "
              ++ quote selector
              ++ codes " escapes binding service account "
              ++ quote service_account_name))
        ok (record seen { has_service_account_selector = true }))
      else if has_prefix selector variant_selector_prefix
      then (do
        fail_if (not (text_eq selector (variant_selector_prefix ++ variant))) (
            plain (
              codes "selector "
              ++ quote selector
              ++ codes " conflicts with binding variant "
              ++ quote variant))
        ok (record seen { variant_selector_count = seen.variant_selector_count + 1 }))
      else ok seen

  check_selectors : List Text → Seen → Result Seen
  unfolding check_selector
  check_selectors [] seen = ok seen
  check_selectors (selector ∷ rest) seen = do
    seen' ← check_selector selector seen
    check_selectors rest seen'

  unfoldable pub validate_rendered_safety_selectors : List Text → Result (Unit {0})
  unfolding check_selectors
  validate_rendered_safety_selectors selectors = do
    seen ← check_selectors selectors (record {
      has_namespace_selector = false;
      has_service_account_selector = false;
      variant_selector_count = 0;
    })
    fail_if (not seen.has_namespace_selector)
        (plain (codes "selectors must include k8s:ns:" ++ namespace))
    fail_if (not seen.has_service_account_selector)
        (plain (codes "selectors must include a k8s:sa:<service-account> selector"))
    fail_if (not (seen.variant_selector_count == 1)) (
        plain (
          codes "selectors must include "
          ++ (variant_selector_prefix ++ variant)
          ++ codes " exactly once"))

-- `if err != nil { return newStateError(…, err.Error()) }`.
abbrev pub as_state_error {ℓ} : {A : Type ℓ} → Text → Text → Result A → Result A
as_state_error condition_type reason (ok a) = ok a
as_state_error condition_type reason (err e) =
    err (new_state_error condition_type reason (error_text e))

module _ (v : Validation) where
  unfoldable pub plan_identity : PlanInput → Result Plan
  plan_identity input = do
    fail_if (is_nil (trim_space input.trust_domain)) (
        new_state_error condition_type_render_failure reason_missing_trust_domain
          (codes "trustDomain must be configured before Kleym can render SPIFFE IDs"))
    validate_variant v input.variant
    rendered_selectors ←
        as_state_error condition_type_render_failure reason_invalid_service_account_name
          (render_safety_selectors v input.namespace input.service_account_name)
    as_state_error condition_type_render_failure reason_invalid_spiffe_id
        (validate_identity_anchor input.target.identity_anchor)
    let selectors = unique_and_sorted (
        (rendered_selectors ++ input.target.derived_selectors)
        ++ (codes "k8s:pod-label:" ++ variant_label_key ++ codes ":" ++ input.variant) ∷ [])
    as_state_error condition_type_unsafe_selector reason_unsafe_selector (
        validate_rendered_safety_selectors input.namespace input.service_account_name input.variant
          selectors)
    let spiffe_id = render_inference_target_spiffe_id input.trust_domain (record {
      namespace = input.namespace;
      service_account_name = input.service_account_name;
      identity_anchor = input.target.identity_anchor;
      variant = input.variant;
    })
    fail_if (not (has_prefix spiffe_id (codes "spiffe://"))) (
        new_state_error condition_type_render_failure reason_invalid_spiffe_id
          (codes "computed SPIFFE ID " ++ quote spiffe_id ++ codes " must start with spiffe://"))
    ok (record {
      spiffe_id = spiffe_id;
      selectors = selectors;
      pod_selector = input.target.pod_selector;
      identity_anchor = input.target.identity_anchor;
      variant = input.variant;
    })
