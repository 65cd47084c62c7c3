-- ===== src/Shared/Text/Affixes.antt =====
-- `strings.HasPrefix`, `TrimPrefix`, and `TrimSuffix` at one code point.
use Prim.Native.Nat.{ℕ}
use mathlib.Core.Path.{◌≡◌, refl, sym, ap, ◌∙◌}
use mathlib.Core.Logic.{◌⊎◌, inl, inr}
use mathlib.Core.Bool.{Bool, true, false}
use mathlib.Core.List.{[], ◌∷◌, ◌++◌, reverse}
use mathlib.Core.Option.{Option, none, some}
use native.Mathlib.Omega.{arith}
use sls.Shared.Tests.{◌==◌, if◌then◌else◌, Bool-cases, ==_iff}
use sls.Shared.Text.{Text}

-- What stands behind the prefix.
unfoldable pub strip : Text → Text → Option Text
strip [] s = some s
strip (c ∷ p) [] = none
strip (c ∷ p) (d ∷ s) = let rest = strip p s in if c == d then rest else none

abbrev is_some : Option Text → Bool
is_some none = false
is_some (some t) = true

abbrev or_all : Text → Option Text → Text
or_all s none = s
or_all s (some t) = t

unfoldable pub has_prefix : Text → Text → Bool
unfolding strip
has_prefix p s = is_some (strip p s)

unfoldable pub trim_prefix : Text → Text → Text
unfolding strip
trim_prefix p s = or_all s (strip p s)

unfoldable pub trim_suffix_char : ℕ → Text → Text
trim_suffix_char c [] = []
trim_suffix_char c (d ∷ []) = if c == d then [] else d ∷ []
trim_suffix_char c (d ∷ e ∷ s) = d ∷ trim_suffix_char c (e ∷ s)

strip-append : (p s t : Text) → strip p s ≡ some t → s ≡ p ++ t
unfolding strip
strip-append [] s t h = cc
strip-append (c ∷ p) [] t h = cc
strip-append (c ∷ p) (d ∷ s) t h = elim (Bool-cases (c == d)) [
  | inl same ↦
      ap (λ x. x ∷ s) (sym ((==_iff c d).0 same))
      ∙ ap (◌∷◌ c) (strip-append p s t (rw (same, if◌then◌else◌) at h))
  | inr other ↦ absurd (ground (arith, other, h))
]

strip-prefix : (p t : Text) → strip p (p ++ t) ≡ some t
unfolding strip
strip-prefix [] t = refl
strip-prefix (c ∷ p) t = ground (arith, ==_iff c c, strip-prefix p t)

pub has_prefix-append : (p s : Text) → has_prefix p s ≡ true → (t : Text) × (s ≡ p ++ t)
unfolding has_prefix
has_prefix-append p s h = by_rest (strip p s) refl h
  where
    by_rest : (o : Option Text) → strip p s ≡ o → is_some o ≡ true → (t : Text) × (s ≡ p ++ t)
    by_rest none e h = cc
    by_rest (some t) e h = (t, strip-append p s t e)

pub trim_prefix-append : (p t : Text) → trim_prefix p (p ++ t) ≡ t
unfolding trim_prefix
trim_prefix-append p t = ap (or_all (p ++ t)) (strip-prefix p t)

-- A text that loses its last code point ended with it.
pub trim_suffix_char-cases :
    (c : ℕ) (s : Text) → (trim_suffix_char c s ≡ s) ⊎ (s ≡ trim_suffix_char c s ++ c ∷ [])
unfolding trim_suffix_char
trim_suffix_char-cases c [] = inl refl
trim_suffix_char-cases c (d ∷ []) = elim (Bool-cases (c == d)) [
  | inl same ↦ inr (rw (same, if◌then◌else◌) (ap (λ x. x ∷ []) (sym ((==_iff c d).0 same))))
  | inr other ↦ inl (rw (other, if◌then◌else◌) refl)
]
trim_suffix_char-cases c (d ∷ e ∷ s) = elim (trim_suffix_char-cases c (e ∷ s)) [
  | inl same ↦ inl (ap (◌∷◌ d) same)
  | inr cut ↦ inr (ap (◌∷◌ d) cut)
]

pub trim_suffix_char-append : (c : ℕ) (s : Text) → trim_suffix_char c (s ++ c ∷ []) ≡ s
unfolding trim_suffix_char
trim_suffix_char-append c [] = ground (arith, ==_iff c c)
trim_suffix_char-append c (d ∷ []) = ap (◌∷◌ d) (trim_suffix_char-append c [])
trim_suffix_char-append c (d ∷ e ∷ s) = ap (◌∷◌ d) (trim_suffix_char-append c (e ∷ s))

unfoldable pub trim_left_char : ℕ → Text → Text
trim_left_char c [] = []
trim_left_char c (d ∷ s) = let rest = trim_left_char c s in if c == d then rest else d ∷ s

-- `strings.Trim` with a set of one code point
unfoldable pub trim_char : ℕ → Text → Text
unfolding trim_left_char
trim_char c s = reverse (trim_left_char c (reverse (trim_left_char c s)))
