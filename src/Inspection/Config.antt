-- ===== src/Inspection/Config.antt =====
-- The identity configuration of internal/inspection/inspection.go: what the command line was given, and what the
-- status of a binding tells of the operator that reconciled it.
pub mod Settings
use kleym.Prelude.{Bool, true, false, not, ◌&&◌, ◌||◌, is_nil, if◌then◌else◌}
use kleym.Prelude.Text.{Text, codes, text_eq, trim_space, has_prefix, contains}
use kleym.Errors.{Result, ok, err, plain, fail_if, ◌>>◌}
use kleym.Identity.{default_trust_domain}
use kleym.Api.{InferenceIdentityBinding}

-- `Config`, without the access settings of the Kubernetes client.
pub record Config : Type 0 where
  pub trust_domain : Text
  pub trust_domain_override : Bool
  pub cluster_spiffe_id_class_name : Text
  pub cluster_spiffe_id_class_name_override : Bool

-- Where a setting comes from: `identityConfigSource…`.
abbrev pub source_binding_status : Text
source_binding_status = codes "bindingStatus"

abbrev pub source_default : Text
source_default = codes "default"

abbrev pub source_flag : Text
source_flag = codes "flag"

unfoldable pub validate_operator_identity_config : Text → Text → Result (Unit {0})
validate_operator_identity_config trust_domain class_name = do
  fail_if (is_nil (trim_space trust_domain))
      (plain (codes "trustDomain must be configured before Kleym can render SPIFFE IDs"))
  fail_if (not (text_eq trust_domain (trim_space trust_domain)))
      (plain (codes "trustDomain must not include leading or trailing whitespace"))
  fail_if (has_prefix trust_domain (codes "spiffe://"))
      (plain (codes "trustDomain must not include spiffe://"))
  fail_if (contains trust_domain b'/') (plain (codes "trustDomain must not contain /"))
  fail_if (not (text_eq class_name (trim_space class_name)))
      (plain (codes "clusterspiffeidClassName must not include leading or trailing whitespace"))

abbrev or_default_trust_domain : Text → Text
or_default_trust_domain s = if is_nil s then default_trust_domain else s

-- The result has the fields of the configuration that is kept.
unfoldable pub normalized_inspection_identity_config : Config → Result Config
normalized_inspection_identity_config c = do
  let trust_domain = or_default_trust_domain c.trust_domain
  validate_operator_identity_config trust_domain c.cluster_spiffe_id_class_name
  ok (record c { trust_domain = trust_domain })

pub record ResolvedIdentityConfig : Type 0 where
  pub trust_domain : Text
  pub trust_domain_source : Text
  pub cluster_spiffe_id_class_name : Text
  pub cluster_spiffe_id_class_name_source : Text
  pub discovered : Bool

from_defaults : Config → ResolvedIdentityConfig
from_defaults c = record {
  trust_domain = c.trust_domain;
  trust_domain_source = source_default;
  cluster_spiffe_id_class_name = c.cluster_spiffe_id_class_name;
  cluster_spiffe_id_class_name_source = source_default;
  discovered = false;
}

with_binding_status : InferenceIdentityBinding → ResolvedIdentityConfig → ResolvedIdentityConfig
with_binding_status b r =
    if not (is_nil b.status.trust_domain)
    then record {
      trust_domain = b.status.trust_domain;
      trust_domain_source = source_binding_status;
      cluster_spiffe_id_class_name = b.status.cluster_spiffe_id_class_name;
      cluster_spiffe_id_class_name_source = source_binding_status;
      discovered = true;
    }
    else r

with_trust_domain_flag : Config → ResolvedIdentityConfig → ResolvedIdentityConfig
with_trust_domain_flag c r =
    if c.trust_domain_override
    then record r { trust_domain = c.trust_domain; trust_domain_source = source_flag }
    else r

with_class_name_flag : Config → ResolvedIdentityConfig → ResolvedIdentityConfig
with_class_name_flag c r =
    if c.cluster_spiffe_id_class_name_override
    then record r {
      cluster_spiffe_id_class_name = c.cluster_spiffe_id_class_name;
      cluster_spiffe_id_class_name_source = source_flag;
    }
    else r

-- The configuration of `resolveIdentityConfig`; what it adds to the report is in Binding.
unfoldable pub resolve_identity_config : Config → InferenceIdentityBinding → ResolvedIdentityConfig
unfolding from_defaults with_binding_status with_trust_domain_flag with_class_name_flag
resolve_identity_config c b =
    with_class_name_flag c (with_trust_domain_flag c (with_binding_status b (from_defaults c)))
