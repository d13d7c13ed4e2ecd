-- ===== src/Inspection/Config/Settings.antt =====
-- The settings that the inspection takes, and those that the operator starts with.
use kleym.Prelude.{◌≡◌, refl, sym, ◌∙◌, ◌↔◌, is_nil, if◌then◌else◌}
use kleym.Prelude.Text.{Text}
use kleym.Errors.{Result, ok, err, ◌>>◌}
use kleym.Identity.{default_trust_domain}
use kleym.Controller.{OperatorConfig}
use kleym.Controller.Config.{validate}
use kleym.Controller.Config.Accepted.{IsAccepted, validate_iff}
use kleym.Inspection.Config.{
  Config, validate_operator_identity_config, normalized_inspection_identity_config,
}

-- The settings as the operator has them.
abbrev pub as_operator_config : Text → Text → OperatorConfig
as_operator_config trust_domain class_name = record {
  trust_domain = trust_domain;
  cluster_spiffe_id_class_name = class_name;
}

-- The trust domain of the command line, or the default.
abbrev pub chosen : Config → Text
chosen c = if is_nil c.trust_domain then default_trust_domain else c.trust_domain

then_iff :
    (checked : Result (Unit {0})) (x kept : Config)
    → ((checked >> ok x) ≡ ok kept) ↔ ((checked ≡ ok tt) × (kept ≡ x))
then_iff (ok tt) x kept = (λ h. (refl, cc), λ (e, same). cc)
then_iff (err e) x kept = (λ h. cc, λ (e, same). cc)

same_checks :
    (t class : Text)
    → validate_operator_identity_config t class ≡ validate (as_operator_config t class)
unfolding validate_operator_identity_config validate
same_checks t class = refl

-- The inspection takes the settings of the command line exactly when the operator accepts them, the default trust
-- domain standing for an empty one, and what it keeps is those settings.
pub normalized_inspection_identity_config_iff :
    (c kept : Config)
    → (normalized_inspection_identity_config c ≡ ok kept) ↔ (
        IsAccepted (as_operator_config (chosen c) c.cluster_spiffe_id_class_name)
        × (kept ≡ record c { trust_domain = chosen c }))
unfolding normalized_inspection_identity_config
normalized_inspection_identity_config_iff c kept =
    let t = chosen c in
    let class = c.cluster_spiffe_id_class_name in
    let (to, from) =
      then_iff (validate_operator_identity_config t class) (record c { trust_domain = t }) kept in
    let (accepted, valid) = validate_iff (as_operator_config t class) in
    (
      λ h. let (checked, same) = to h in (accepted (sym (same_checks t class) ∙ checked), same),
      λ (a, same). from (same_checks t class ∙ valid a, same),
    )
