-- ===== src/Identity/Planning/Injective.antt =====
-- A SPIFFE ID determines what it was rendered from.
use kleym.Prelude.{◌≡◌, sym, ap, ◌∙◌, true, false, [], ◌∷◌, ◌++◌, is_nil, arith}
use kleym.Prelude.Text.{Text, codes, contains}
use kleym.Prelude.Prefix.{split_at_separator}
use kleym.Errors.{ok}
use kleym.Identity.{Validation, IdentityAnchor, RenderTemplateData, PlanInput, Plan}
use kleym.Identity.Planning.{
  validate_identity_anchor, render_inference_target_spiffe_id, plan_identity,
}
use kleym.Identity.Planning.Outcome.{plan_identity-eq-ok}

abbrev pub HasNoSlash : Text → Type 0
HasNoSlash s = contains s b'/' ≡ false

-- Each part but the last is a single path segment.
pub record IsSegmented (trust_domain : Text) (d : RenderTemplateData) : Type 0 where
  pub trust_domain_plain : HasNoSlash trust_domain
  pub namespace_plain : HasNoSlash d.namespace
  pub account_plain : HasNoSlash d.service_account_name
  pub kind_plain : HasNoSlash d.identity_anchor.kind
  pub name_plain : HasNoSlash d.identity_anchor.name

append_cancel : (p r s : Text) → p ++ r ≡ p ++ s → r ≡ s
append_cancel [] r s h = h
append_cancel (c ∷ p) r s h = append_cancel p r s (cc)

cut :
    (a b r s : Text)
    → HasNoSlash a
    → HasNoSlash b
    → a ++ b'/' ∷ r ≡ b ++ b'/' ∷ s
    → (a ≡ b) × (r ≡ s)
cut = split_at_separator b'/'

render-injective :
    (t u : Text) (d e : RenderTemplateData)
    → IsSegmented t d
    → IsSegmented u e
    → render_inference_target_spiffe_id t d ≡ render_inference_target_spiffe_id u e
    → (t ≡ u) × (d ≡ e)
unfolding render_inference_target_spiffe_id codes
render-injective t u d e sd se h =
    let h0 = append_cancel (codes "spiffe://") _ _ h in
    let (same_t, h1) = cut t u _ _ sd.trust_domain_plain se.trust_domain_plain h0 in
    let h2 = append_cancel (codes "ns/") _ _ h1 in
    let (same_ns, h3) = cut d.namespace e.namespace _ _ sd.namespace_plain se.namespace_plain h2 in
    let h4 = append_cancel (codes "sa/") _ _ h3 in
    let (same_sa, h5) =
      cut d.service_account_name e.service_account_name _ _ sd.account_plain se.account_plain h4 in
    let h6 = append_cancel (codes "inference/") _ _ h5 in
    let (same_kind, h7) =
      cut d.identity_anchor.kind e.identity_anchor.kind _ _ sd.kind_plain se.kind_plain h6 in
    let (same_name, h8) =
      cut d.identity_anchor.name e.identity_anchor.name _ _ sd.name_plain se.name_plain h7 in
    let same_variant = append_cancel (codes "variant/") _ _ h8 in (same_t, ground arith)

-- What validation promises of the names that it accepts: a DNS-1123 subdomain holds no slash.
pub record RejectsSlash (v : Validation) : Type 0 where
  pub subdomain : (s : Text) → is_nil (v.is_dns1123_subdomain s) ≡ true → HasNoSlash s

anchor_plain :
    (a : IdentityAnchor)
    → validate_identity_anchor a ≡ ok tt
    → (HasNoSlash a.kind) × (HasNoSlash a.name)
unfolding validate_identity_anchor
anchor_plain a h = ground arith

abbrev pub template_of : PlanInput → RenderTemplateData
template_of input = record {
  namespace = input.namespace;
  service_account_name = input.service_account_name;
  identity_anchor = input.target.identity_anchor;
  variant = input.variant;
}

IsSegmented-of_plan :
    (v : Validation) (input : PlanInput) (p : Plan)
    → RejectsSlash v
    → HasNoSlash input.trust_domain
    → HasNoSlash input.namespace
    → plan_identity v input ≡ ok p
    → IsSegmented input.trust_domain (template_of input)
IsSegmented-of_plan v input p rejects trust ns h =
    let (accepted, _) = plan_identity-eq-ok v input p h in
    let (kind, name) = anchor_plain input.target.identity_anchor accepted.anchor_valid in
    record {
      trust_domain_plain = trust;
      namespace_plain = ns;
      account_plain = rejects.subdomain input.service_account_name accepted.account_valid;
      kind_plain = kind;
      name_plain = name;
    }

-- Two planned identities with one SPIFFE ID have the same trust domain, namespace, service account,
-- anchor and variant, when the trust domains and the namespaces hold no slash and validation rejects it.
pub plan_identity-injective :
    (v : Validation) (i j : PlanInput) (p q : Plan)
    → RejectsSlash v
    → HasNoSlash i.trust_domain
    → HasNoSlash j.trust_domain
    → HasNoSlash i.namespace
    → HasNoSlash j.namespace
    → plan_identity v i ≡ ok p
    → plan_identity v j ≡ ok q
    → p.spiffe_id ≡ q.spiffe_id
    → (i.trust_domain ≡ j.trust_domain) × (template_of i ≡ template_of j)
plan_identity-injective v i j p q rejects ti tj ni nj hp hq same =
    let (_, shape_p) = plan_identity-eq-ok v i p hp in
    let (_, shape_q) = plan_identity-eq-ok v j q hq in
    render-injective i.trust_domain j.trust_domain (template_of i) (template_of j)
      (IsSegmented-of_plan v i p rejects ti ni hp) (IsSegmented-of_plan v j q rejects tj nj hq)
      (sym (ap (λ (r : Plan). r.spiffe_id) shape_p) ∙ same ∙ ap (λ (r : Plan). r.spiffe_id) shape_q)
