-- ===== src/Spirecm/Naming.antt =====
-- How long the name of a ClusterSPIFFEID can get.
use kleym.Prelude.{
  ◌≡◌, refl, inl, inr, ℕ, zero, suc, ◌+◌, ◌*◌, ◌≤◌, List, [], ◌∷◌, ◌++◌, length, length-append, ltb,
  Bool-cases, arith,
}
use kleym.Prelude.Text.{Text, codes, hex}
use kleym.Identity.Selectors.{utf8}
use kleym.Spirecm.{
  max_dns_label_length, name_hash_bytes, default_name_value, trim_hyphens_left, trim_hyphens_right,
  trim_hyphens, sanitize_dns_label, take, or_default, cut_base, max_base_length,
  build_cluster_spiffe_id_name,
}

length-take {ℓ} : {A : Type ℓ} (n : ℕ) (xs : List A) → length (take n xs) ≤ n
unfolding take
length-take zero xs = omega arith
length-take (suc n) [] = omega arith
length-take (suc n) (x ∷ xs) = omega (arith, length-take n xs)

length-trim_hyphens_left : (s : Text) → length (trim_hyphens_left s) ≤ length s
unfolding trim_hyphens_left
length-trim_hyphens_left [] = omega arith
length-trim_hyphens_left (c ∷ s) = ground (arith, length-trim_hyphens_left s)

length-trim_hyphens_right : (s : Text) → length (trim_hyphens_right s) ≤ length s
unfolding trim_hyphens_right
length-trim_hyphens_right [] = omega arith
length-trim_hyphens_right (c ∷ s) = ground (arith, length-trim_hyphens_right s)

length-trim_hyphens : (s : Text) → length (trim_hyphens s) ≤ length s
unfolding trim_hyphens
length-trim_hyphens s =
    omega (arith, length-trim_hyphens_left s, length-trim_hyphens_right (trim_hyphens_left s))

length-hex : (bytes : List ℕ) → length (hex bytes) ≡ 2 * length bytes
unfolding hex
length-hex [] = omega arith
length-hex (b ∷ bs) = omega (arith, length-hex bs)

length-or_default : (s d : Text) (n : ℕ) → length s ≤ n → length d ≤ n → length (or_default s d) ≤ n
unfolding or_default
length-or_default [] d n h k = k
length-or_default (c ∷ s) d n h k = h

-- A base that is cut has room for the default too.
length-cut_base : (n : ℕ) (base : Text) → 5 ≤ n → length (cut_base n base) ≤ n
unfolding cut_base codes
length-cut_base n base h = elim (Bool-cases (ltb n (length base))) [
  | inl t ↦ rw t (
      length-or_default (trim_hyphens (take n base)) default_name_value n
        (omega (arith, length-trim_hyphens (take n base), length-take n base)) h)
  | inr f ↦ rw f (ground arith)
]

length_hyphen : length (codes "-") ≡ 1
unfolding codes
length_hyphen = refl

length_five :
    (a b c d e : Text)
    → length (a ++ b ++ c ++ d ++ e) ≡ length a + length b + length c + length d + length e
length_five a b c d e = omega (
  arith,
  length-append (a ++ b ++ c ++ d) e,
  length-append (a ++ b ++ c) d,
  length-append (a ++ b) c,
  length-append a b,
)

-- The base, the mode and the hash with hyphens between them.
length_joined :
    (base mode hash_suffix : Text)
    → length mode ≤ 48
    → length hash_suffix ≤ 8
    → length (
        cut_base (max_base_length mode hash_suffix) base
        ++ codes "-"
        ++ mode
        ++ codes "-"
        ++ hash_suffix)
      ≤ max_dns_label_length
unfolding max_base_length
length_joined base mode hash_suffix h k =
    let m = max_base_length mode hash_suffix in
    let room : (5 ≤ m) × (m + length mode + length hash_suffix + 2 ≤ 63) =
      (ground arith, ground arith) in
    let cut = length-cut_base m base room.0 in
    let whole = length_five (cut_base m base) (codes "-") mode (codes "-") hash_suffix in
    let fits = room.1 in omega (arith, cut, whole, fits, length_hyphen)

-- The name of a ClusterSPIFFEID has at most 63 characters, whatever the namespace and the name of the binding are, as long
-- as the sanitised anchor kind has at most 48.
pub length-build_cluster_spiffe_id_name :
    (sha1 : List ℕ → List ℕ) (namespace binding_name kind spiffe_id : Text)
    → length (sanitize_dns_label kind) ≤ 48
    → length (build_cluster_spiffe_id_name sha1 namespace binding_name kind spiffe_id)
      ≤ max_dns_label_length
unfolding build_cluster_spiffe_id_name codes
length-build_cluster_spiffe_id_name sha1 namespace binding_name kind spiffe_id h =
    let bytes = take name_hash_bytes (sha1 (utf8 spiffe_id)) in
    length_joined _ (or_default (sanitize_dns_label kind) (codes "identity")) (hex bytes)
      (length-or_default (sanitize_dns_label kind) (codes "identity") 48 h (omega arith))
      (omega (arith, length-hex bytes, length-take name_hash_bytes (sha1 (utf8 spiffe_id))))
