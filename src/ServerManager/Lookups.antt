-- ===== src/ServerManager/Lookups.antt =====
-- The tables of the control plane, by key.
use sls.Shared.{
  ℕ, ◌≡◌, refl, sym, ap, ◌∙◌, Bool, true, false, Option, none, some, if◌then◌else◌, Bool-cases, inl,
  inr,
}
use sls.Shared.Equality.{nat_eq, list_eq, list_beq, list_beq_iff}
use sls.Shared.Table.{Table, lookup, insert, delete, lookup-insert, lookup-delete}
use sls.Shared.Text.{Text}
use sls.Allocator.{Allocator}
use sls.Allocator.Ledger.{is_used}

abbrev pub Differs : Text → Text → Type 0
Differs j k = list_beq j k ≡ false

-- The tables agree but for one key.
abbrev pub SameBut : {V : Type 0} → Text → Table Text V → Table Text V → Type 0
SameBut k m m' = (j : Text) → Differs k j → lookup j m' ≡ lookup j m

pub text_beq_refl : (k : Text) → list_beq k k ≡ true
text_beq_refl k = (list_beq_iff k k).1 refl

module _ {V : Type 0} where
  pub lookup-insert_same : (k : Text) (v : V) (m : Table Text V) → lookup k (insert k v m) ≡ some v
  lookup-insert_same k v m = lookup-insert k k v m ∙ rw (text_beq_refl k, if◌then◌else◌)

  pub lookup-delete_same : (k : Text) (m : Table Text V) → lookup k (delete k m) ≡ none
  lookup-delete_same k m = lookup-delete k k m ∙ rw (text_beq_refl k, if◌then◌else◌)

  pub insert-SameBut : (k : Text) (v : V) (m : Table Text V) → SameBut k m (insert k v m)
  insert-SameBut k v m j h = lookup-insert k j v m ∙ rw (h, if◌then◌else◌)

  pub delete-SameBut : (k : Text) (m : Table Text V) → SameBut k m (delete k m)
  delete-SameBut k m j h = lookup-delete k j m ∙ rw (h, if◌then◌else◌)

  pub SameBut-trans :
      (k : Text) (a b c : Table Text V) → SameBut k a b → SameBut k b c → SameBut k a c
  SameBut-trans k a b c f g j h = g j h ∙ f j h

  -- Tables that agree but for a key that neither has.
  pub SameBut-none :
      (k : Text) (a b : Table Text V)
      → SameBut k a b
      → lookup k a ≡ none
      → lookup k b ≡ none
      → (j : Text) → lookup j b ≡ lookup j a
  SameBut-none k a b f h g j = elim (Bool-cases (list_beq k j)) [
    | inl same ↦
        let e = (list_beq_iff k j).0 same in
        ap (λ i. lookup i b) (sym e) ∙ g ∙ sym h ∙ ap (λ i. lookup i a) e
    | inr other ↦ f j other
  ]

abbrev pub is_used_by : Option Allocator → Text → ℕ → Bool
is_used_by none ip port = false
is_used_by (some a) ip port = is_used a ip port

-- A pair is in use at the allocator of a node.
abbrev pub is_used_at : Table Text Allocator → Text → Text → ℕ → Bool
is_used_at allocators node ip port = is_used_by (lookup node allocators) ip port
