-- ===== src/Identity.antt =====
-- internal/identity/types.go: the inputs and the result of identity planning.
pub mod Selectors
pub mod Boundary
pub mod Conflicts
pub mod Planning
use kleym.Prelude.{List, ◌++◌}
use kleym.Prelude.Text.{Text, codes}
use kleym.Errors.{StateError, Error, identity_state}
use kleym.Value.{Value}

abbrev pub default_trust_domain : Text
default_trust_domain = codes "kleym.sonda.red"

abbrev pub condition_type_unsafe_selector : Text
condition_type_unsafe_selector = codes "UnsafeSelector"

abbrev pub condition_type_render_failure : Text
condition_type_render_failure = codes "RenderFailure"

abbrev pub reason_missing_trust_domain : Text
reason_missing_trust_domain = codes "MissingTrustDomain"

abbrev pub reason_invalid_service_account_name : Text
reason_invalid_service_account_name = codes "InvalidServiceAccountName"

abbrev pub reason_unsafe_selector : Text
reason_unsafe_selector = codes "UnsafeSelector"

abbrev pub reason_invalid_spiffe_id : Text
reason_invalid_spiffe_id = codes "InvalidSPIFFEID"

abbrev pub reason_invalid_pool_selector : Text
reason_invalid_pool_selector = codes "InvalidPoolSelector"

abbrev pub reason_invalid_identity_boundary : Text
reason_invalid_identity_boundary = codes "InvalidIdentityBoundary"

-- `newStateError`.
abbrev pub new_state_error : Text → Text → Text → Error
new_state_error condition_type reason message =
    identity_state (record { condition_type = condition_type; reason = reason; message = message })

-- k8s.io/apimachinery/pkg/util/validation: each check returns its complaints, none for a valid text.
pub record Validation : Type 0 where
  pub is_valid_label_value : Text → List Text
  pub is_dns1123_subdomain : Text → List Text
  pub is_qualified_name : Text → List Text

pub record IdentityAnchor : Type 0 where
  pub kind : Text
  pub name : Text

pub record ResolvedInferenceTarget : Type 0 where
  pub identity_anchor : IdentityAnchor
  pub pod_selector : Value
  pub derived_selectors : List Text

pub record PlanInput : Type 0 where
  pub namespace : Text
  pub service_account_name : Text
  pub trust_domain : Text
  pub variant : Text
  pub target : ResolvedInferenceTarget

pub record Plan : Type 0 where
  pub spiffe_id : Text
  pub selectors : List Text
  pub pod_selector : Value
  pub identity_anchor : IdentityAnchor
  pub variant : Text

pub record RenderTemplateData : Type 0 where
  pub namespace : Text
  pub service_account_name : Text
  pub identity_anchor : IdentityAnchor
  pub variant : Text

-- `types.NamespacedName`.
pub record NamespacedName : Type 0 where
  pub namespace : Text
  pub name : Text
