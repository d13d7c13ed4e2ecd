-- ===== src/Identity/Selectors.antt =====
-- `UniqueAndSorted` and `SelectorFingerprint` of internal/identity/render.go.
pub mod Canonical
use kleym.Prelude.{
  ℕ, zero, suc, ◌+◌, ◌/◌, ◌%◌, Bool, List, [], ◌∷◌, ◌++◌, is_nil, any, length, if◌then◌else◌, ltb,
}
use kleym.Prelude.Order.{list_compare, nat_compare}
use kleym.Prelude.Sort.{sort}
use kleym.Prelude.Text.{Text, codes, text_eq, trim_space, hex}

unfoldable pub occurs : Text → List Text → Bool
unfolding any text_eq
occurs s = any (text_eq s)

-- One more key of the map that serves as a set.
set_add : Text → List Text → List Text
unfolding occurs
set_add s set = if occurs s set then set else s ∷ set

-- The loop over the values: trim, skip what is empty, enter the rest in the set.
collect : List Text → List Text → List Text
unfolding set_add trim_space
collect [] set = set
collect (value ∷ values) set =
    let trimmed = trim_space value in
    collect values (if is_nil trimmed then set else set_add trimmed set)

unfoldable pub unique_and_sorted : List Text → List Text
unfolding collect sort
unique_and_sorted values = sort (collect values [])

-- The bytes that UTF-8 gives a code point.
utf8_char : ℕ → List ℕ
utf8_char c =
    if ltb c 0x80
    then c ∷ []
    else if ltb c 0x800
    then (0xC0 + c / 64) ∷ (0x80 + c % 64) ∷ []
    else if ltb c 0x10000
    then (0xE0 + c / 4096) ∷ (0x80 + c / 64 % 64) ∷ (0x80 + c % 64) ∷ []
    else (0xF0 + c / 262144) ∷ (0x80 + c / 4096 % 64) ∷ (0x80 + c / 64 % 64) ∷ (0x80 + c % 64) ∷ []

unfoldable pub utf8 : Text → List ℕ
unfolding utf8_char
utf8 [] = []
utf8 (c ∷ s) = utf8_char c ++ utf8 s

-- `strconv.Itoa`, the digits in front of those already written. A number has no more digits than its
-- successor, which is the fuel.
digits : ℕ → ℕ → Text → Text
digits zero n out = out
digits (suc fuel) n out =
    let more = digits fuel (n / 10) ((48 + n % 10) ∷ out) in
    if ltb n 10 then (48 + n) ∷ out else more

unfoldable pub itoa : ℕ → Text
unfolding digits
itoa n = digits (suc n) n []

-- What the hash is given: each selector behind its length in bytes, both ended by a zero byte.
unfoldable pub fingerprint_input : List Text → List ℕ
unfolding itoa utf8
fingerprint_input [] = []
fingerprint_input (selector ∷ rest) =
    let bytes = utf8 selector in itoa (length bytes) ++ 0 ∷ (bytes ++ 0 ∷ fingerprint_input rest)

-- `sha256` is crypto/sha256: the digest of a list of bytes.
module _ (sha256 : List ℕ → List ℕ) where
  unfoldable pub selector_fingerprint : List Text → Text
  unfolding unique_and_sorted fingerprint_input hex
  selector_fingerprint selectors =
      codes "sha256:" ++ hex (sha256 (fingerprint_input (unique_and_sorted selectors)))
