-- ===== src/Software/Order.antt =====
-- compareVersions is a total order on versions, up to zeros at the end.
use sls.Shared.{
  ℕ, zero, suc, ◌+◌, ◌-◌, ◌≤◌, ◌<◌, ◌≡◌, refl, sym, ap, ◌∙◌, ◌↔◌, inl, inr, ltb, [], ◌∷◌, arith,
  length, Bool-cases,
}
use native.Mathlib.Decide.{ℕ_discrete, dec_lt}
use sls.Shared.Int.{pos, neg, ◌≤ℤ◌}
use sls.Software.{Version, component, compare_from, compare_versions}

component-beyond : (a : Version) (i : ℕ) → length a ≤ i → component a i ≡ 0
component-beyond [] i h = refl
component-beyond (x ∷ a) zero h = absurd (omega arith)
component-beyond (x ∷ a) (suc i) h = component-beyond a i (omega arith)

compare_from-beyond :
    (k i : ℕ) (a b : Version) → length a ≤ i → length b ≤ i → compare_from k i a b ≡ pos 0
unfolding compare_from
compare_from-beyond zero i a b ha hb = refl
compare_from-beyond (suc k) i a b ha hb =
    rw (component-beyond a i ha, component-beyond b i hb)
      (compare_from-beyond k (i + 1) a b (omega arith) (omega arith))

-- More rounds than both slices are long change nothing.
compare_from-stable :
    (k m i : ℕ) (a b : Version)
    → length a ≤ i + k
    → length b ≤ i + k
    → compare_from (k + m) i a b ≡ compare_from k i a b
unfolding compare_from
compare_from-stable zero m i a b ha hb =
    compare_from-beyond (0 + m) i a b (omega arith) (omega arith)
compare_from-stable (suc k) m i a b ha hb =
    let more : suc k + m ≡ suc (k + m) = omega arith in
    rw more (ground (arith, compare_from-stable k m (i + 1) a b (omega arith) (omega arith)))

-- So any number of rounds that is long enough gives the comparison.
compare_versions-from :
    (n : ℕ) (a b : Version)
    → length a ≤ n
    → length b ≤ n
    → compare_versions a b ≡ compare_from n 0 a b
compare_versions-from n a b ha hb = elim (Bool-cases (ltb (length a) (length b))) [
  | inl shorter ↦
      unfold compare_versions in
      rw shorter (rounds (length b) (omega arith) (ground (arith, shorter)) (omega arith))
  | inr longer ↦
      unfold compare_versions in
      rw longer (rounds (length a) (omega arith) (omega arith) (ground (arith, longer)))
]
  where
    rounds :
        (k : ℕ) → k ≤ n → length a ≤ k → length b ≤ k → compare_from k 0 a b ≡ compare_from n 0 a b
    rounds k within fa fb =
        let split : n ≡ k + (n - k) = omega arith in
        sym (rw split (compare_from-stable k (n - k) 0 a b (omega arith) (omega arith)))

compare_from-flip : (k i : ℕ) (a b : Version) → compare_from k i b a ≡ neg (compare_from k i a b)
unfolding compare_from
compare_from-flip zero i a b = refl
compare_from-flip (suc k) i a b = ground (arith, compare_from-flip k (i + 1) a b)

-- Swapping the versions turns the sign.
pub compare_versions-flip : (a b : Version) → compare_versions b a ≡ neg (compare_versions a b)
compare_versions-flip a b =
    let n = length a + length b in
    compare_versions-from n b a (omega arith) (omega arith)
    ∙ compare_from-flip n 0 a b
    ∙ ap neg (sym (compare_versions-from n a b (omega arith) (omega arith)))

compare_from-trans :
    (k i : ℕ) (a b c : Version)
    → compare_from k i a b ≤ℤ pos 0
    → compare_from k i b c ≤ℤ pos 0
    → compare_from k i a c ≤ℤ pos 0
unfolding compare_from
compare_from-trans zero i a b c h g = omega arith
compare_from-trans (suc k) i a b c h g = ground (arith, compare_from-trans k (i + 1) a b c)

-- No later than, and no later than again.
pub compare_versions-trans :
    (a b c : Version)
    → compare_versions a b ≤ℤ pos 0
    → compare_versions b c ≤ℤ pos 0
    → compare_versions a c ≤ℤ pos 0
compare_versions-trans a b c h g =
    let n = length a + length b + length c in
    let ab = compare_versions-from n a b (omega arith) (omega arith) in
    let bc = compare_versions-from n b c (omega arith) (omega arith) in
    let ac = compare_versions-from n a c (omega arith) (omega arith) in
    rw ac (compare_from-trans n 0 a b c (rw ab at h) (rw bc at g))

-- The components agree from `i` on for `k` places.
abbrev Agree : ℕ → ℕ → Version → Version → Type 0
Agree k i a b = (j : ℕ) → i ≤ j → j < i + k → component a j ≡ component b j

compare_from-Agree : (k i : ℕ) (a b : Version) → compare_from k i a b ≡ pos 0 → Agree k i a b
unfolding compare_from
compare_from-Agree zero i a b h = λ j lo hi. absurd (omega arith)
compare_from-Agree (suc k) i a b h =
    let here : component a i ≡ component b i = ground (arith, h) in
    let rest = compare_from-Agree k (i + 1) a b (ground (arith, h)) in
    λ j lo hi. elim (ℕ_discrete j i) [
      | yes at ↦ rw at here
      | no off ↦ rest j (omega arith) (omega arith)
    ]

Agree-compare_from : (k i : ℕ) (a b : Version) → Agree k i a b → compare_from k i a b ≡ pos 0
unfolding compare_from
Agree-compare_from zero i a b h = refl
Agree-compare_from (suc k) i a b h = ground (
  arith,
  h i (omega arith) (omega arith),
  Agree-compare_from k (i + 1) a b (λ j lo hi. h j (omega arith) (omega arith)),
)

-- Two versions compare equal exactly if they agree at every component, where a missing component
-- counts as 0.
pub compare_versions-zero :
    (a b : Version) → (compare_versions a b ≡ pos 0) ↔ ((j : ℕ) → component a j ≡ component b j)
compare_versions-zero a b =
    let n = length a + length b in
    let ab = compare_versions-from n a b (omega arith) (omega arith) in
    (
      (λ h j. elim (dec_lt j n) [
        | yes lt ↦ compare_from-Agree n 0 a b (sym ab ∙ h) j (omega arith) (omega arith)
        | no past ↦ component-beyond a j (omega arith) ∙ sym (component-beyond b j (omega arith))
      ]),
      λ h. ab ∙ Agree-compare_from n 0 a b (λ j lo hi. h j),
    )
