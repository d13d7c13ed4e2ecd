-- ===== src/Controller/Config/Accepted.antt =====
-- What the operator's settings are once they are accepted, and what that gives the SPIFFE IDs.
use kleym.Prelude.{◌≡◌, ◌↔◌, sym, ap, ◌∙◌, false, is_nil, arith}
use kleym.Prelude.Text.{codes, text_eq_iff, trim_space, has_prefix}
use kleym.Errors.{ok}
use kleym.Identity.{Validation, PlanInput, Plan}
use kleym.Identity.Planning.{plan_identity}
use kleym.Identity.Planning.Injective.{
  HasNoSlash, RejectsSlash, template_of, plan_identity-injective,
}
use kleym.Controller.{OperatorConfig}
use kleym.Controller.Config.{validate}

-- A trust domain and a class name that the operator may start with.
pub record IsAccepted (c : OperatorConfig) : Type 0 where
  pub trust_domain_set : is_nil c.trust_domain ≡ false
  pub trust_domain_trimmed : trim_space c.trust_domain ≡ c.trust_domain
  pub trust_domain_bare : has_prefix c.trust_domain (codes "spiffe://") ≡ false
  pub trust_domain_plain : HasNoSlash c.trust_domain
  pub class_name_trimmed :
      trim_space c.cluster_spiffe_id_class_name ≡ c.cluster_spiffe_id_class_name

-- The operator starts with a configuration exactly when its trust domain is set, trimmed, without scheme and
-- without slash, and its class name is trimmed.
pub validate_iff : (c : OperatorConfig) → (validate c ≡ ok tt) ↔ IsAccepted c
unfolding validate
validate_iff c = (accepted, valid)
  where
    accepted : validate c ≡ ok tt → IsAccepted c
    accepted h =
        let (same, class) : (c.trust_domain ≡ trim_space c.trust_domain)
            × (c.cluster_spiffe_id_class_name ≡ trim_space c.cluster_spiffe_id_class_name) =
          ground (
            arith,
            text_eq_iff c.trust_domain (trim_space c.trust_domain),
            text_eq_iff c.cluster_spiffe_id_class_name (trim_space c.cluster_spiffe_id_class_name),
          ) in
        record {
          trust_domain_set = ap is_nil same ∙ ground arith;
          trust_domain_trimmed = sym same;
          trust_domain_bare = ground arith;
          trust_domain_plain = ground arith;
          class_name_trimmed = sym class;
        }

    valid : IsAccepted c → validate c ≡ ok tt
    valid a =
        let same =
          (text_eq_iff c.trust_domain (trim_space c.trust_domain)).1 (sym a.trust_domain_trimmed) in
        let class =
          (text_eq_iff c.cluster_spiffe_id_class_name (trim_space c.cluster_spiffe_id_class_name)).1
            (sym a.class_name_trimmed) in
        let set = ap is_nil a.trust_domain_trimmed ∙ a.trust_domain_set in
        rw (set, same, a.trust_domain_bare, a.trust_domain_plain, class)

-- Under an accepted configuration two bindings of namespaces without slash that are planned to one SPIFFE
-- ID have the same namespace, service account, anchor and variant, when validation rejects a slash.
pub validate-injective :
    (v : Validation) (c : OperatorConfig) (i j : PlanInput) (p q : Plan)
    → RejectsSlash v
    → validate c ≡ ok tt
    → i.trust_domain ≡ c.trust_domain
    → j.trust_domain ≡ c.trust_domain
    → HasNoSlash i.namespace
    → HasNoSlash j.namespace
    → plan_identity v i ≡ ok p
    → plan_identity v j ≡ ok q
    → p.spiffe_id ≡ q.spiffe_id
    → template_of i ≡ template_of j
validate-injective v c i j p q rejects h ti tj ni nj hp hq same =
    let plain = ((validate_iff c).0 h).trust_domain_plain in
    (plan_identity-injective v i j p q rejects (rw ti plain) (rw tj plain) ni nj hp hq same).1
