-- ===== src/Registry/Contents.antt =====
-- What protocube/blueprint/registry.go finds under an id.
use sls.Shared.{
  ◌≡◌, refl, ap, ◌∙◌, inl, inr, Option, none, some, List, [], ◌∷◌, if◌then◌else◌, Bool-cases, All,
}
use sls.Shared.Equality.{nat_eq, list_eq, list_beq}
use sls.Shared.Table.{Table, lookup, insert, lookup-insert}
use sls.Shared.Text.{Text}
use sls.Registry.{register, register_all, replace_all, get}

module _ {A : Type 0} (id : A → Text) where
  -- The last element of a list that has the id.
  unfoldable pub last_with : Text → List A → Option A → Option A
  last_with key [] before = before
  last_with key (x ∷ xs) before = last_with key xs (if list_beq (id x) key then some x else before)

  pub register_all-get :
      (key : Text) (xs : List A) (registry : Table Text A)
      → get id key (register_all id xs registry) ≡ last_with key xs (get id key registry)
  unfolding register_all register get last_with
  register_all-get key [] registry = refl
  register_all-get key (x ∷ xs) registry =
      register_all-get key xs (insert (id x) x registry)
      ∙ ap (last_with key xs) (lookup-insert (id x) key x registry)

  -- Every element stands under its own id.
  abbrev pub IsKeyed : Table Text A → Type 0
  IsKeyed = All (λ e. e.0 ≡ id e.1)

  insert-IsKeyed : (x : A) (m : Table Text A) → IsKeyed m → IsKeyed (insert (id x) x m)
  unfolding insert
  insert-IsKeyed x [] h = (refl, tt)
  insert-IsKeyed x ((k, y) ∷ m) (h, hs) = elim (Bool-cases (list_beq k (id x))) [
    | inl same ↦ rw (same, insert) (refl, hs)
    | inr other ↦ rw (other, insert) (h, insert-IsKeyed x m hs)
  ]

  register_all-IsKeyed :
      (xs : List A) (m : Table Text A) → IsKeyed m → IsKeyed (register_all id xs m)
  unfolding register_all register
  register_all-IsKeyed [] m h = h
  register_all-IsKeyed (x ∷ xs) m h =
      register_all-IsKeyed xs (insert (id x) x m) (insert-IsKeyed x m h)

  -- After ReplaceAll, Get finds under each id the last element of the list that has it, or nothing,
  -- whatever was registered before, and each element stands under its own id.
  pub replace_all-get :
      (key : Text) (xs : List A) (registry : Table Text A)
      → (get id key (replace_all id xs registry) ≡ last_with key xs none)
        × IsKeyed (replace_all id xs registry)
  unfolding replace_all
  replace_all-get key xs registry =
      (register_all-get key xs [] ∙ unfold get lookup in refl, register_all-IsKeyed xs [] tt)
