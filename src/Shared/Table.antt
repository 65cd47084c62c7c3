-- ===== src/Shared/Table.antt =====
-- Go maps as association lists over keys with an equality test: one entry for each key that is
-- written, a lookup that misses is `none`.
use mathlib.Core.Path.{◌≡◌, refl}
use sls.Shared.Lists.{Among}
use mathlib.Core.List.{List, [], ◌∷◌}
use mathlib.Core.Option.{Option, none, some}
use native.Mathlib.Omega.{arith}
use mathlib.Core.Logic.{◌≢◌, ◌⊎◌, inl, inr}
use sls.Shared.Tests.{if◌then◌else◌, Bool-cases}
use sls.Shared.Equality.{Eq}

abbrev pub Table {ℓ κ} : Type ℓ → Type κ → Type (ℓ ⊔ κ)
Table K V = List (K × V)

module _ {ℓ κ} {K : Type ℓ} ⦃e : Eq K⦄ {V : Type κ} where
  unfoldable pub lookup : K → Table K V → Option V
  lookup k [] = none
  lookup k ((j, v) ∷ m) = if e.beq j k then some v else lookup k m

  -- `m[k] = v`
  unfoldable pub insert : K → V → Table K V → Table K V
  insert k v [] = (k, v) ∷ []
  insert k v ((j, w) ∷ m) = if e.beq j k then (k, v) ∷ m else (j, w) ∷ insert k v m

  -- `delete(m, k)`
  unfoldable pub delete : K → Table K V → Table K V
  delete k [] = []
  delete k ((j, w) ∷ m) = let rest = delete k m in if e.beq j k then rest else (j, w) ∷ rest

  -- The keys in the order of the entries.
  unfoldable pub keys : Table K V → List K
  keys [] = []
  keys ((k, v) ∷ m) = k ∷ keys m

  pub lookup-insert :
      (k j : K) (v : V) (m : Table K V)
      → lookup j (insert k v m) ≡ (if e.beq k j then some v else lookup j m)
  unfolding lookup insert
  lookup-insert k j v [] = refl
  lookup-insert k j v ((i, w) ∷ m) =
      ground (arith, e.beq_iff k j, e.beq_iff i k, e.beq_iff i j, lookup-insert k j v m)

  pub lookup-delete :
      (k j : K) (m : Table K V) → lookup j (delete k m) ≡ (if e.beq k j then none else lookup j m)
  unfolding lookup delete
  lookup-delete k j [] = ground arith
  lookup-delete k j ((i, w) ∷ m) =
      ground (arith, e.beq_iff k j, e.beq_iff i k, e.beq_iff i j, lookup-delete k j m)

  pub lookup-insert_inv :
      (k j : K) (v : V) (m : Table K V) {w : V}
      → lookup j (insert k v m) ≡ some w
      → (k ≡ j) × (v ≡ w) ⊎ (k ≢ j) × (lookup j m ≡ some w)
  lookup-insert_inv k j v m h = elim (Bool-cases (e.beq k j)) [
    | inl same ↦ inl ((e.beq_iff k j).0 same, ground (arith, same, h, lookup-insert k j v m))
    | inr other ↦
        inr
          ((λ p. ground (arith, e.beq_iff k j, p)), ground (arith, other, h, lookup-insert k j v m))
  ]

  pub lookup-delete_inv :
      (k j : K) (m : Table K V) {w : V}
      → lookup j (delete k m) ≡ some w
      → (k ≢ j) × (lookup j m ≡ some w)
  lookup-delete_inv k j m h = elim (Bool-cases (e.beq k j)) [
    | inl same ↦ absurd (ground (arith, same, h, lookup-delete k j m))
    | inr other ↦
        ((λ p. ground (arith, e.beq_iff k j, p)), ground (arith, other, h, lookup-delete k j m))
  ]

module _ {K V : Type 0} ⦃e : Eq K⦄ where
  -- A key of a written map is the written one or was there before.
  pub keys-insert :
      (k j : K) (v : V) (m : Table K V) → Among j (keys (insert k v m)) → (j ≡ k) ⊎ Among j (keys m)
  unfolding keys insert
  keys-insert k j v [] h = h
  keys-insert k j v ((i, w) ∷ m) h = elim (Bool-cases (e.beq i k)) [
    | inl same ↦ replaced (rw (same, keys) at h)
    | inr other ↦ kept (keys-insert k j v m) (rw (other, keys) at h)
  ]
    where
      replaced : (j ≡ k) ⊎ Among j (keys m) → (j ≡ k) ⊎ ((j ≡ i) ⊎ Among j (keys m))
      replaced (inl here) = inl here
      replaced (inr there) = inr (inr there)

      kept :
          (Among j (keys (insert k v m)) → (j ≡ k) ⊎ Among j (keys m))
          → (j ≡ i) ⊎ Among j (keys (insert k v m))
          → (j ≡ k) ⊎ ((j ≡ i) ⊎ Among j (keys m))
      kept ih (inl here) = inr (inl here)
      kept ih (inr there) = elim (ih there) [ inl new ↦ inl new | inr old ↦ inr (inr old) ]
