-- ===== src/Prelude/Prefix.antt =====
-- Prefixes, and texts cut at a separator.
use kleym.Prelude.Tests.{◌==◌, ==_iff, and-true}
use kleym.Prelude.Text.{Text, has_prefix, drop_prefix, trim_prefix, contains}
use mathlib.Core.Path.{◌≡◌, refl, ap₂}
use mathlib.Core.Bool.{true, false}
use mathlib.Core.List.{[], ◌∷◌, ◌++◌}
use native.Mathlib.Omega.{arith}
use Prim.Native.Nat.{ℕ, ◌≤◌}
use kleym.Prelude.Lists.{length}

drop_prefix_lem : (s p : Text) → has_prefix s p ≡ true → s ≡ p ++ drop_prefix s p
unfolding has_prefix drop_prefix
drop_prefix_lem s [] h = refl
drop_prefix_lem [] (q ∷ p) h = cc
drop_prefix_lem (c ∷ s) (q ∷ p) h =
    let (e, rest) = and-true (c == q) (has_prefix s p) h in
    ap₂ ◌∷◌ ((==_iff c q).0 e) (drop_prefix_lem s p rest)

-- What `TrimPrefix` leaves is what stands behind the prefix.
pub append-trim_prefix : (s p : Text) → has_prefix s p ≡ true → s ≡ p ++ trim_prefix s p
unfolding trim_prefix
append-trim_prefix s p h = rw h (drop_prefix_lem s p h)

pub has_prefix-append : (p s : Text) → has_prefix (p ++ s) p ≡ true
unfolding has_prefix
has_prefix-append [] s = refl
has_prefix-append (c ∷ p) s = rw ((==_iff c c).1 refl, has_prefix-append p s)

-- Two segments without the separator, each followed by it, are cut at the same place.
pub split_at_separator :
    (sep : ℕ) (a b r s : Text)
    → contains a sep ≡ false
    → contains b sep ≡ false
    → a ++ sep ∷ r ≡ b ++ sep ∷ s
    → (a ≡ b) × (r ≡ s)
unfolding contains
split_at_separator sep [] [] r s ha hb e = (refl, cc)
split_at_separator sep [] (y ∷ b) r s ha hb e = ground (arith)
split_at_separator sep (x ∷ a) [] r s ha hb e = ground (arith)
split_at_separator sep (x ∷ a) (y ∷ b) r s ha hb e =
    let (p, q) = split_at_separator sep a b r s (ground arith) (ground arith) (cc) in (cc p, q)

-- A text has no prefix that is not one of a longer prefix of it.
pub has_prefix_apart :
    (s p q : Text)
    → length p ≤ length q
    → has_prefix s q ≡ true
    → has_prefix q p ≡ false
    → has_prefix s p ≡ false
unfolding has_prefix
has_prefix_apart s [] q le hq apart = apart
has_prefix_apart s (x ∷ p) [] le hq apart = absurd (omega arith)
has_prefix_apart [] (x ∷ p) (y ∷ q) le hq apart = refl
has_prefix_apart (c ∷ s) (x ∷ p) (y ∷ q) le hq apart = ground (arith, has_prefix_apart s p q)

drop_prefix-append : (p s : Text) → drop_prefix (p ++ s) p ≡ s
unfolding drop_prefix
drop_prefix-append [] [] = refl
drop_prefix-append [] (c ∷ s) = refl
drop_prefix-append (c ∷ p) s = drop_prefix-append p s

-- What `TrimPrefix` leaves of a text with a prefix.
pub trim_prefix-append : (p s : Text) → trim_prefix (p ++ s) p ≡ s
unfolding trim_prefix
trim_prefix-append p s = rw (has_prefix-append p s, drop_prefix-append p s) refl
