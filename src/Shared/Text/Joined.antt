-- ===== src/Shared/Text/Joined.antt =====
-- `strings.Join` at one code point, as the inverse of `strings.Split`.
use sls.Shared.Lists.{All, All-append}
use sls.Shared.Tests.{◌==◌, Bool-cases, ==_iff}
use mathlib.Core.Logic.{inl, inr, ◌≢◌}
use mathlib.Core.Path.{◌≡◌, refl, sym, ap, ◌∙◌}
use mathlib.Core.List.{List, [], ◌∷◌, ◌++◌, append-nil, append_assoc}
use Prim.Native.Nat.{ℕ}
use sls.Shared.Text.{Text, split, split_from, split_from-append, split_from_at, Lacks}

unfoldable pub join : ℕ → List Text → Text
join sep [] = []
join sep (p ∷ []) = p
join sep (p ∷ q ∷ ps) = p ++ sep ∷ join sep (q ∷ ps)

split_from-join :
    (sep : ℕ) (p : Text) (ps : List Text)
    → All (Lacks sep) (p ∷ ps)
    → split_from sep [] (join sep (p ∷ ps)) ≡ p ∷ ps
unfolding join
split_from-join sep p [] (h, _) =
    ap (split_from sep []) (sym (append-nil p))
    ∙ split_from-append sep [] p [] h
    ∙ unfold split_from in refl
split_from-join sep p (q ∷ ps) (h, hs) =
    split_from-append sep [] p (sep ∷ join sep (q ∷ ps)) h
    ∙ split_from_at sep p (join sep (q ∷ ps))
    ∙ ap (◌∷◌ p) (split_from-join sep q ps hs)

-- Parts without the separator are found again.
pub split-join :
    (sep : ℕ) (p : Text) (ps : List Text)
    → All (Lacks sep) (p ∷ ps)
    → split (join sep (p ∷ ps)) sep ≡ p ∷ ps
unfolding split
split-join sep p ps h = split_from-join sep p ps h

-- The parts of a text lack the separator.
split_from-Lacks : (sep : ℕ) (cur s : Text) → Lacks sep cur → All (Lacks sep) (split_from sep cur s)
unfolding split_from
split_from-Lacks sep cur [] h = (h, tt)
split_from-Lacks sep cur (c ∷ s) h = elim (Bool-cases (c == sep)) [
  | inl at ↦ rw (at, split_from) (h, split_from-Lacks sep [] s tt)
  | inr other ↦
      rw (other, split_from)
        (split_from-Lacks sep (cur ++ c ∷ []) s (All-append _ cur (c ∷ []) h (other, tt)))
]

pub split-Lacks : (sep : ℕ) (s : Text) → All (Lacks sep) (split s sep)
unfolding split
split-Lacks sep s = split_from-Lacks sep [] s tt

split_from_rest :
    (sep : ℕ) (cur a b : Text)
    → split_from sep cur (a ++ sep ∷ b) ≡ split_from sep cur a ++ split_from sep [] b
unfolding split_from
split_from_rest sep cur [] b = split_from_at sep cur b
split_from_rest sep cur (c ∷ a) b = elim (Bool-cases (c == sep)) [
  | inl at ↦ rw (at, split_from) (ap (◌∷◌ cur) (split_from_rest sep [] a b))
  | inr other ↦ rw (other, split_from) (split_from_rest sep (cur ++ c ∷ []) a b)
]

-- A text with a separator in it falls into the parts before it and those after it.
pub split_rest : (sep : ℕ) (a b : Text) → split (a ++ sep ∷ b) sep ≡ split a sep ++ split b sep
unfolding split
split_rest sep a b = split_from_rest sep [] a b

join-cons :
    (sep : ℕ) (p : Text) (ps : List Text) → ps ≢ [] → join sep (p ∷ ps) ≡ p ++ sep ∷ join sep ps
unfolding join
join-cons sep p [] h = absurd (h refl)
join-cons sep p (q ∷ ps) h = refl

split_from-nonempty : (sep : ℕ) (cur s : Text) → split_from sep cur s ≢ []
unfolding split_from
split_from-nonempty sep cur [] = λ h. cc
split_from-nonempty sep cur (c ∷ s) = elim (Bool-cases (c == sep)) [
  | inl at ↦ rw (at, split_from) (λ h. cc)
  | inr other ↦ rw (other, split_from) (split_from-nonempty sep (cur ++ c ∷ []) s)
]

join-split_from : (sep : ℕ) (cur s : Text) → join sep (split_from sep cur s) ≡ cur ++ s
unfolding split_from
join-split_from sep cur [] = unfold join in sym (append-nil cur)
join-split_from sep cur (c ∷ s) = elim (Bool-cases (c == sep)) [
  | inl at ↦
      rw (at, split_from)
        (join-cons sep cur (split_from sep [] s) (split_from-nonempty sep [] s)
          ∙ ap (λ t. cur ++ sep ∷ t) (join-split_from sep [] s)
          ∙ ap (λ d. cur ++ d ∷ s) (sym ((==_iff c sep).0 at)))
  | inr other ↦
      rw (other, split_from) (join-split_from sep (cur ++ c ∷ []) s ∙ append_assoc cur (c ∷ []) s)
]

-- The parts, joined again, are the text.
pub join-split : (sep : ℕ) (s : Text) → join sep (split s sep) ≡ s
unfolding split
join-split sep s = join-split_from sep [] s
