-- ===== src/Spirecm/Desired.antt =====
-- The fields of the object that `DesiredClusterSPIFFEID` of internal/spirecm builds, read one by one.
use kleym.Prelude.{ℕ, ◌≡◌, refl, ap, Option, none, some, List, [], ◌∷◌, is_nil, if◌then◌else◌}
use kleym.Prelude.Text.{Text, codes, text_eq}
use kleym.Value.{Value, text, array, object, Items, nil, item, lookup_field}
use kleym.Identity.{Plan}
use kleym.Api.{InferenceIdentityBinding}
use kleym.Spirecm.{desired_cluster_spiffe_id, selector_templates, class_field}

-- A field of the object's spec.
abbrev pub spec_field : Text → Value → Option Value
spec_field k (object fields) = lookup_field k fields
spec_field _ _ = none

abbrev pub texts : List Text → Items
texts [] = nil
texts (s ∷ rest) = item (text s) (texts rest)

selector_templates-eq :
    (sha1 : List ℕ → List ℕ) (ss : List Text) → selector_templates sha1 ss ≡ texts ss
unfolding selector_templates
selector_templates-eq sha1 [] = refl
selector_templates-eq sha1 (s ∷ rest) = ap (item (text s)) (selector_templates-eq sha1 rest)

class_field-lookup :
    (sha1 : List ℕ → List ℕ) (class_name : Text)
    → lookup_field (codes "className") (class_field sha1 class_name)
      ≡ (if is_nil class_name then none else some (text class_name))
unfolding class_field lookup_field text_eq codes
class_field-lookup sha1 [] = refl
class_field-lookup sha1 (x ∷ name) = refl

module _ (sha1 : List ℕ → List ℕ) (b : InferenceIdentityBinding) (plan : Plan) where
  pub desired-selectors :
      (class_name : Text)
      → spec_field
          (codes "workloadSelectorTemplates")
          (desired_cluster_spiffe_id sha1 b plan class_name).spec
        ≡ some (array (texts plan.selectors))
  unfolding desired_cluster_spiffe_id lookup_field text_eq codes
  desired-selectors class_name =
      ap (λ x. some (array x)) (selector_templates-eq sha1 plan.selectors)

  pub desired-class :
      (class_name : Text)
      → spec_field (codes "className") (desired_cluster_spiffe_id sha1 b plan class_name).spec
        ≡ (if is_nil class_name then none else some (text class_name))
  unfolding desired_cluster_spiffe_id lookup_field text_eq codes
  desired-class class_name = class_field-lookup sha1 class_name
