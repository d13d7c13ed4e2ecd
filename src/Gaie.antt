-- ===== src/Gaie.antt =====
-- internal/gaie/types.go and gvk.go: the pool reference of a binding, and the kinds of pool that are supported.
pub mod Resolver
pub mod Selector
use kleym.Prelude.{Bool, true, false, not, ◌&&◌, List, [], ◌∷◌, ◌++◌, keep, is_nil, if◌then◌else◌}
use kleym.Prelude.Text.{Text, codes, text_eq, trim_space, quote}
use kleym.Errors.{Error, plain, gaie_state, Result, ok, err, fail_if, ◌>>=◌, ◌>>◌}
use kleym.Api.{InferenceIdentityBinding}

abbrev pub condition_type_invalid_ref : Text
condition_type_invalid_ref = codes "InvalidRef"

abbrev pub reason_inference_pool_crd_missing : Text
reason_inference_pool_crd_missing = codes "InferencePoolCRDMissing"

abbrev pub reason_target_pool_not_found : Text
reason_target_pool_not_found = codes "TargetPoolNotFound"

abbrev pub new_state_error : Text → Text → Text → Error
new_state_error condition_type reason message =
    gaie_state (record { condition_type = condition_type; reason = reason; message = message })

-- `schema.GroupVersionKind`.
pub record GroupVersionKind : Type 0 where
  pub group : Text
  pub version : Text
  pub kind : Text

-- `inferencePoolGVKs`.
abbrev pub inference_pool_gvks : List GroupVersionKind
inference_pool_gvks =
    record {
      group = codes "inference.networking.k8s.io";
      version = codes "v1";
      kind = codes "InferencePool";
    }
    ∷ []

unfoldable pub resolve_pool_gvks : List GroupVersionKind → List GroupVersionKind
resolve_pool_gvks available = if not (is_nil available) then available else inference_pool_gvks

unfoldable pub supported_pool_gvks_for_group : Text → List GroupVersionKind
supported_pool_gvks_for_group group = keep (λ gvk. text_eq gvk.group group) inference_pool_gvks

unfoldable pub candidate_pool_gvks : List GroupVersionKind → Text → List GroupVersionKind
candidate_pool_gvks candidates group =
    if is_nil group
    then candidates
    else (let filtered = keep (λ (gvk : GroupVersionKind). text_eq gvk.group group) candidates in
        if not (is_nil filtered) then filtered else supported_pool_gvks_for_group group)

unfoldable pub is_supported_inference_pool_group : Text → Bool
is_supported_inference_pool_group group = not (is_nil (supported_pool_gvks_for_group group))

pub record PoolRef : Type 0 where
  pub name : Text
  pub group : Text
  pub namespace : Text

unfoldable pub binding_pool_ref : InferenceIdentityBinding → Result PoolRef
binding_pool_ref binding = do
  let name = trim_space binding.spec.pool_ref.name
  fail_if (is_nil name) (plain (codes "spec.poolRef.name is required"))
  let group = trim_space binding.spec.pool_ref.group
  fail_if (not (is_nil group) && not (is_supported_inference_pool_group group)) (
      plain (
        codes "spec.poolRef.group "
        ++ quote group
        ++ codes " is not a supported GAIE InferencePool group"))
  ok (record { name = name; group = group; namespace = binding.namespace })
