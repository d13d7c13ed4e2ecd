-- ===== src/Controller/Config.antt =====
-- operator_config.go: the settings that the operator starts with.
pub mod Accepted
use kleym.Prelude.{Bool, true, false, not, Option, some, none, is_nil, if◌then◌else◌}
use kleym.Prelude.Text.{Text, codes, text_eq, trim_space, has_prefix, contains}
use kleym.Errors.{Result, ok, err, plain, fail_if, ◌>>◌}
use kleym.Controller.{OperatorConfig}

abbrev pub env_trust_domain : Text
env_trust_domain = codes "KLEYM_TRUST_DOMAIN"

abbrev pub env_cluster_spiffe_id_class_name : Text
env_cluster_spiffe_id_class_name = codes "KLEYM_CLUSTERSPIFFEID_CLASS_NAME"

pub record OperatorConfigExplicitFields : Type 0 where
  pub trust_domain : Bool
  pub cluster_spiffe_id_class_name : Bool

-- A value of the environment, unless the flag was given or the variable is unset.
fallback : Bool → Option Text → Text → Text
fallback true env value = value
fallback false (some env) value = env
fallback false none value = value

-- `lookup_env` is `os.LookupEnv`.
unfoldable pub with_env_fallback :
    (Text → Option Text) → OperatorConfigExplicitFields → OperatorConfig → OperatorConfig
unfolding fallback
with_env_fallback lookup_env explicit c = record c {
  trust_domain = fallback explicit.trust_domain (lookup_env env_trust_domain) c.trust_domain;
  cluster_spiffe_id_class_name =
      fallback explicit.cluster_spiffe_id_class_name (lookup_env env_cluster_spiffe_id_class_name)
        c.cluster_spiffe_id_class_name;
}

unfoldable pub validate : OperatorConfig → Result (Unit {0})
validate c = do
  fail_if (is_nil (trim_space c.trust_domain))
      (plain (codes "trustDomain must be configured before Kleym can render SPIFFE IDs"))
  fail_if (not (text_eq c.trust_domain (trim_space c.trust_domain)))
      (plain (codes "trustDomain must not include leading or trailing whitespace"))
  fail_if (has_prefix c.trust_domain (codes "spiffe://"))
      (plain (codes "trustDomain must not include spiffe://"))
  fail_if (contains c.trust_domain b'/') (plain (codes "trustDomain must not contain /"))
  fail_if (not (text_eq c.cluster_spiffe_id_class_name (trim_space c.cluster_spiffe_id_class_name)))
      (plain (codes "clusterspiffeidClassName must not include leading or trailing whitespace"))
