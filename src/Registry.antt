-- ===== src/Registry.antt =====
-- protocube/blueprint/registry.go: the blueprints by their ids. The registry of
-- protocube/software/registry.go is the same code over the definitions of software, so that the
-- elements are any type with an id.
pub mod Contents
mod Examples
use sls.Shared.{Bool, Option, List, [], ◌∷◌, if◌then◌else◌}
use sls.Shared.Equality.{nat_eq, list_eq}
use sls.Shared.Table.{Table, lookup, insert}
use sls.Shared.Text.{Text}

module _ {A : Type 0} (id : A → Text) where
  abbrev pub new_registry : Table Text A
  new_registry = []

  unfoldable pub register : A → Table Text A → Table Text A
  register x registry = insert (id x) x registry

  unfoldable pub register_all : List A → Table Text A → Table Text A
  unfolding register
  register_all [] registry = registry
  register_all (x ∷ xs) registry = register_all xs (register x registry)

  unfoldable pub replace_all : List A → Table Text A → Table Text A
  unfolding register_all
  replace_all xs registry = register_all xs new_registry

  abbrev pub clear : Table Text A → Table Text A
  clear registry = new_registry

  unfoldable pub get : Text → Table Text A → Option A
  get key registry = lookup key registry

  -- `Find`, over the entries in the order of the range.
  unfoldable pub find : (A → Bool) → Table Text A → List A
  find filter [] = []
  find filter ((k, x) ∷ m) = let rest = find filter m in if filter x then x ∷ rest else rest

  unfoldable pub all : Table Text A → List A
  all [] = []
  all ((k, x) ∷ m) = x ∷ all m
