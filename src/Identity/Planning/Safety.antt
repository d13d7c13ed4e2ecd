-- ===== src/Identity/Planning/Safety.antt =====
-- The selectors of a plan: what `validateRenderedSafetySelectors` establishes.
use mathlib.Core.List.{Memᴰ}
use mathlib.Core.Logic.{∥∥₁_elim}
use kleym.Prelude.{
  ◌≡◌, refl, sym, ap, subst, ◌∙◌, ◌⊎◌, inl, inr, Bool, true, false, List, [], ◌∷◌, ◌++◌, Mem, All,
  arith,
}
use kleym.Prelude.Text.{Text, codes, text_eq, text_eq_iff, has_prefix, trim_prefix}
use kleym.Prelude.Prefix.{append-trim_prefix, has_prefix_apart}
use kleym.Errors.{ok, >>=-eq-ok, Result-cases}
use kleym.Identity.{Validation, PlanInput, Plan}
use kleym.Identity.Planning.{
  Seen, check_selector, check_selectors, validate_rendered_safety_selectors, plan_identity,
  variant_selector_prefix,
}
use kleym.Identity.Planning.Outcome.{plan_identity-eq-ok, selectors_of}

abbrev pub namespace_prefix : Text
namespace_prefix = codes "k8s:ns:"

abbrev pub account_prefix : Text
account_prefix = codes "k8s:sa:"

variant_not_namespace :
    (s : Text) → has_prefix s variant_selector_prefix ≡ true → has_prefix s namespace_prefix ≡ false
unfolding codes has_prefix
variant_not_namespace s h =
    has_prefix_apart s namespace_prefix variant_selector_prefix (omega arith) h refl

variant_not_account :
    (s : Text) → has_prefix s variant_selector_prefix ≡ true → has_prefix s account_prefix ≡ false
unfolding codes has_prefix
variant_not_account s h =
    has_prefix_apart s account_prefix variant_selector_prefix (omega arith) h refl

account_not_namespace :
    (s : Text) → has_prefix s account_prefix ≡ true → has_prefix s namespace_prefix ≡ false
unfolding codes has_prefix
account_not_namespace s h = has_prefix_apart s namespace_prefix account_prefix (omega arith) h refl

module _ (ns sa variant : Text) where
  -- A selector of one of the three reserved kinds is the binding's own.
  pub record Fits (s : Text) : Type 0 where
    pub own_namespace : has_prefix s namespace_prefix ≡ true → s ≡ namespace_prefix ++ ns
    pub own_account : has_prefix s account_prefix ≡ true → s ≡ account_prefix ++ sa
    pub own_variant :
        has_prefix s variant_selector_prefix ≡ true → s ≡ variant_selector_prefix ++ variant

  behind_prefix :
      (s p t : Text) → has_prefix s p ≡ true → text_eq (trim_prefix s p) t ≡ true → s ≡ p ++ t
  behind_prefix s p t h e =
      append-trim_prefix s p h ∙ ap (λ x. p ++ x) ((text_eq_iff (trim_prefix s p) t).0 e)

  check_selector-Fits :
      (s : Text) (seen seen' : Seen) → check_selector ns sa variant s seen ≡ ok seen' → Fits s
  unfolding check_selector
  check_selector-Fits s seen seen' h = record {
    own_namespace = λ p. behind_prefix s namespace_prefix ns p (ground arith);
    own_account =
        λ p. behind_prefix s account_prefix sa p (ground (arith, account_not_namespace s p));
    own_variant = λ p.
        (text_eq_iff s (variant_selector_prefix ++ variant)).0
          (ground (arith, variant_not_namespace s p, variant_not_account s p));
  }

  -- One round sets a flag, or counts, only for the selector that is meant.
  check_selector-flags :
      (s : Text) (seen seen' : Seen)
      → check_selector ns sa variant s seen ≡ ok seen'
      → ((seen'.has_namespace_selector ≡ seen.has_namespace_selector)
          ⊎ (has_prefix s namespace_prefix ≡ true))
        × ((seen'.has_service_account_selector ≡ seen.has_service_account_selector)
            ⊎ (has_prefix s account_prefix ≡ true))
        × ((seen'.variant_selector_count ≡ seen.variant_selector_count)
            ⊎ (has_prefix s variant_selector_prefix ≡ true))
  unfolding check_selector
  check_selector-flags s seen seen' h = ground arith

  -- What the whole loop has seen.
  pub record Loop (ss : List Text) (seen seen' : Seen) : Type 0 where
    pub all_fit : All Fits ss
    pub namespace_seen :
        (seen'.has_namespace_selector ≡ seen.has_namespace_selector)
        ⊎ Memᴰ (namespace_prefix ++ ns) ss
    pub account_seen :
        (seen'.has_service_account_selector ≡ seen.has_service_account_selector)
        ⊎ Memᴰ (account_prefix ++ sa) ss
    pub variant_seen :
        (seen'.variant_selector_count ≡ seen.variant_selector_count)
        ⊎ Memᴰ (variant_selector_prefix ++ variant) ss

  found_or_later {ℓ} :
      {A : Type ℓ} (a b c : A) (s t : Text) (ss : List Text) (flag : Bool)
      → (flag ≡ true → s ≡ t)
      → ((b ≡ a) ⊎ (flag ≡ true))
      → ((c ≡ b) ⊎ Memᴰ t ss)
      → (c ≡ a) ⊎ Memᴰ t (s ∷ ss)
  found_or_later a b c s t ss flag own (inr p) later = inr (Memᴰ.head (sym (own p)))
  found_or_later a b c s t ss flag own (inl e) (inl f) = inl (f ∙ e)
  found_or_later a b c s t ss flag own (inl e) (inr m) = inr (Memᴰ.tail m)

  check_selectors-Loop :
      (ss : List Text) (seen seen' : Seen)
      → check_selectors ns sa variant ss seen ≡ ok seen'
      → Loop ss seen seen'
  unfolding check_selectors
  check_selectors-Loop [] seen seen' h = record {
    all_fit = tt;
    namespace_seen = inl (ground arith);
    account_seen = inl (ground arith);
    variant_seen = inl (ground arith);
  }
  check_selectors-Loop (s ∷ ss) seen seen' h =
      let (mid, here, later) =
        >>=-eq-ok (check_selector ns sa variant s seen) (check_selectors ns sa variant ss) seen'
          h in
      let fits = check_selector-Fits s seen mid here in
      let (n, a, v) = check_selector-flags s seen mid here in
      let rest = check_selectors-Loop ss mid seen' later in
      record {
        all_fit = (fits, rest.all_fit);
        namespace_seen = found_or_later _ _ _ s _ ss _ fits.own_namespace n rest.namespace_seen;
        account_seen = found_or_later _ _ _ s _ ss _ fits.own_account a rest.account_seen;
        variant_seen = found_or_later _ _ _ s _ ss _ fits.own_variant v rest.variant_seen;
      }

  Fits-prop : (s : Text) → IsProp (Fits s)
  Fits-prop s = hlevel

  Fits-of_All : (s : Text) (ss : List Text) → All Fits ss → Memᴰ s ss → Fits s
  Fits-of_All s [] h m = elim m [ ]
  Fits-of_All s (x ∷ ss) h (Memᴰ.head e) = subst Fits (sym e) h.0
  Fits-of_All s (x ∷ ss) h (Memᴰ.tail m) = Fits-of_All s ss h.1 m

  -- The selectors hold the binding's namespace, service account and variant, and no other of these kinds.
  pub record IsSafe (ss : List Text) : Type 0 where
    pub fit : (s : Text) → Mem s ss → Fits s
    pub has_namespace : Mem (namespace_prefix ++ ns) ss
    pub has_account : Mem (account_prefix ++ sa) ss
    pub has_variant : Mem (variant_selector_prefix ++ variant) ss

  abbrev start : Seen
  start = record {
    has_namespace_selector = false;
    has_service_account_selector = false;
    variant_selector_count = 0;
  }

  IsSafe-of_Loop :
      (ss : List Text) (seen : Seen)
      → Loop ss start seen
      → seen.has_namespace_selector ≡ true
      → seen.has_service_account_selector ≡ true
      → seen.variant_selector_count ≡ 1
      → IsSafe ss
  IsSafe-of_Loop ss seen loop n a v = record {
    fit = λ s m. ∥∥₁_elim m (Fits-prop s) (Fits-of_All s ss loop.all_fit);
    has_namespace = elim loop.namespace_seen [ inl e ↦ cc | inr m ↦ ∣ m ∣₁ ];
    has_account = elim loop.account_seen [ inl e ↦ cc | inr m ↦ ∣ m ∣₁ ];
    has_variant = elim loop.variant_seen [ inl e ↦ absurd (omega arith) | inr m ↦ ∣ m ∣₁ ];
  }

  -- The check of the rendered selectors is sound.
  pub validate_rendered_safety_selectors-IsSafe :
      (ss : List Text) → validate_rendered_safety_selectors ns sa variant ss ≡ ok tt → IsSafe ss
  unfolding validate_rendered_safety_selectors
  validate_rendered_safety_selectors-IsSafe ss h =
      elim (Result-cases (check_selectors ns sa variant ss start)) [
        | inl (seen, e) ↦
            IsSafe-of_Loop ss seen (check_selectors-Loop ss start seen e) (ground arith)
              (ground arith) (ground arith)
        | inr (e, failed) ↦ absurd (ground arith)
      ]

-- Whatever selectors the pool contributes, a plan that is returned carries the selectors of its
-- binding's own namespace, service account and variant, and no selector of these kinds for another.
pub plan_identity-IsSafe :
    (v : Validation) (input : PlanInput) (p : Plan)
    → plan_identity v input ≡ ok p
    → IsSafe input.namespace input.service_account_name input.variant p.selectors
plan_identity-IsSafe v input p h =
    let (accepted, shape) = plan_identity-eq-ok v input p h in
    rw shape (
      validate_rendered_safety_selectors-IsSafe input.namespace input.service_account_name
        input.variant (selectors_of input) accepted.selectors_valid)
