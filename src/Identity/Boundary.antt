-- ===== src/Identity/Boundary.antt =====
-- internal/identity/boundary.go: validation of a variant, and which bindings exclude one another.
use Prim.Native.Nat.{Ordering}
use kleym.Prelude.{not, ◌||◌, Option, none, some, ◌++◌, is_nil, if◌then◌else◌}
use kleym.Prelude.Order.{cmp_or, list_compare, nat_compare, list_cmp}
use kleym.Prelude.Text.{Text, codes, text_eq, trim_space, join, quote}
use kleym.Errors.{Result, fail_if, ◌>>◌}
use kleym.Identity.{
  Validation, NamespacedName, new_state_error, condition_type_unsafe_selector,
  reason_invalid_identity_boundary,
}

abbrev pub variant_label_key : Text
variant_label_key = codes "identity.kleym.sonda.red/variant"

pub data ConflictCause : Type 0 where
  variant_reuse duplicate_spiffe_id : ConflictCause

-- The text of a cause, by which Go compares it.
unfoldable pub cause_text : ConflictCause → Text
unfolding codes
cause_text variant_reuse = codes "VariantReuse"
cause_text duplicate_spiffe_id = codes "DuplicateSPIFFEID"

pub record VariantRecord : Type 0 where
  pub binding_ref : NamespacedName
  pub service_account_name : Text
  pub variant : Text
  pub spiffe_id : Text

pub record VariantConflict : Type 0 where
  pub binding_ref : NamespacedName
  pub peer_binding_ref : NamespacedName
  pub cause : ConflictCause
  pub peer_spiffe_id : Text
  pub peer_variant : Text

module _ (v : Validation) where
  unfoldable pub validate_variant : Text → Result (Unit {0})
  unfolding text_eq trim_space
  validate_variant variant = do
    fail_if (not (text_eq variant (trim_space variant))) (
        new_state_error condition_type_unsafe_selector reason_invalid_identity_boundary
          (codes "identityBoundary.variant must not include leading or trailing whitespace"))
    fail_if (is_nil variant) (
        new_state_error condition_type_unsafe_selector reason_invalid_identity_boundary
          (codes "identityBoundary.variant must not be empty"))
    let errs = v.is_valid_label_value variant
    fail_if (not (is_nil errs)) (
        new_state_error condition_type_unsafe_selector reason_invalid_identity_boundary (
          codes "identityBoundary.variant "
          ++ quote variant
          ++ codes " is invalid: "
          ++ join errs (codes "; ")))

-- `evaluateVariantPair`: the cause, if the two are not exclusive.
unfoldable pub evaluate_variant_pair : VariantRecord → VariantRecord → Option ConflictCause
unfolding text_eq
evaluate_variant_pair left right =
    if text_eq left.spiffe_id right.spiffe_id
    then some duplicate_spiffe_id
    else if not (text_eq left.binding_ref.namespace right.binding_ref.namespace)
        || not (text_eq left.service_account_name right.service_account_name)
    then none
    else if not (text_eq left.variant right.variant)
    then none
    else some variant_reuse

abbrev pub variant_conflict : NamespacedName → VariantRecord → ConflictCause → VariantConflict
variant_conflict binding_ref peer cause = record {
  binding_ref = binding_ref;
  peer_binding_ref = peer.binding_ref;
  cause = cause;
  peer_spiffe_id = peer.spiffe_id;
  peer_variant = peer.variant;
}

-- `compareVariantConflicts`: `cmp.Or` of the seven comparisons.
unfoldable pub compare_variant_conflicts : VariantConflict → VariantConflict → Ordering
unfolding cause_text
compare_variant_conflicts left right =
    cmp_or (list_cmp left.binding_ref.namespace right.binding_ref.namespace) (
      cmp_or (list_cmp left.binding_ref.name right.binding_ref.name) (
        cmp_or (list_cmp left.peer_binding_ref.namespace right.peer_binding_ref.namespace) (
          cmp_or (list_cmp left.peer_binding_ref.name right.peer_binding_ref.name) (
            cmp_or (list_cmp (cause_text left.cause) (cause_text right.cause)) (
              cmp_or (list_cmp left.peer_spiffe_id right.peer_spiffe_id)
                (list_cmp left.peer_variant right.peer_variant))))))
