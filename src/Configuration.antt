-- ===== src/Configuration.antt =====
-- protocube/server: how a server's runtime configuration is made of a blueprint, its software and the
-- overrides of a request (configuration.go), and the patches of its files (config_parser.go).
pub mod Build
pub mod Layers
pub mod Image
mod Examples
use sls.Shared.{
  ℕ, Bool, true, false, not, ◌||◌, Option, none, some, List, [], ◌∷◌, ◌++◌, if◌then◌else◌,
}
use sls.Shared.Equality.{nat_eq, list_eq}
use sls.Shared.Paths.{path_join}
use sls.Shared.Table.{Table, lookup, insert}
use sls.Shared.Text.{Text, codes}
use sls.Allocator.{Allocations}
use sls.Limits.{Limits, copy_limits, merge_limits}
use sls.Software
use sls.Software.{image_for_version}
use sls.Blueprint
use sls.Blueprint.{
  Value, scalar, nested, Fields, nil, field, ConfigFile, Definition, InstallationScript, State,
  Blueprint, insert_all, merge_state, is_blank,
}

-- `mergedConfig`
pub record MergedConfig : Type 0 where
  pub parser : Text
  pub find : Table Text Value

-- The merged files, and the file names in the order in which they came.
pub record Merged : Type 0 where
  pub files : Table Text MergedConfig
  pub order : List Text

abbrev pub no_files : Merged
no_files = record { files = []; order = [] }

unfoldable pub insert_fields : Fields → Table Text Value → Table Text Value
insert_fields nil m = m
insert_fields (field k v fs) m = insert_fields fs (insert k v m)

abbrev pub merge_file : Text → Text → Fields → Option MergedConfig → Merged → Merged
merge_file file parser find none m = record {
  files = insert file (record { parser = parser; find = insert_fields find [] }) m.files;
  order = m.order ++ file ∷ [];
}
merge_file file parser find (some c) m = record m {
  files = insert file (record { parser = parser; find = insert_fields find c.find }) m.files;
}

unfoldable pub add_file : Text → ConfigFile → Merged → Merged
unfolding insert_fields
add_file file c m = merge_file file c.parser c.find (lookup file m.files) m

-- The files of one layer, in the order of the range.
unfoldable pub add_layer : Table Text ConfigFile → Merged → Merged
unfolding add_file
add_layer [] m = m
add_layer ((file, c) ∷ layer) m = add_layer layer (add_file file c m)

-- Software, then blueprint, then overrides.
abbrev pub merged_layers :
    Table Text ConfigFile → Table Text ConfigFile → Table Text ConfigFile → Merged
merged_layers software blueprint overrides =
    add_layer overrides (add_layer blueprint (add_layer software no_files))

-- `flattenMap`: nested keys are joined by dots.
abbrev pub full_key : Text → Text → Text
full_key prefix key = if is_blank prefix then key else prefix ++ b'.' ∷ key

unfoldable mutual
  unfolding insert_all

  pub flatten_fields : Text → Fields → Table Text Text → Table Text Text
  flatten_fields prefix nil result = result
  flatten_fields prefix (field k v fs) result =
      flatten_fields prefix fs (flatten_value (full_key prefix k) v result)

  pub flatten_value : Text → Value → Table Text Text → Table Text Text
  flatten_value key (scalar t) result = insert key t result
  flatten_value key (nested fs) result = insert_all (flatten_fields key fs []) result

-- The entries of a map, in the order of the range.
abbrev pub to_fields : Table Text Value → Fields
to_fields [] = nil
to_fields ((k, v) ∷ m) = field k v (to_fields m)

pub record ConfigurationFile : Type 0 where
  pub file_name : Text
  pub parser : Text
  pub replace : List (Text × Text)

module _ (new_replace_value : Text → Option Text) where
  unfoldable pub replacements : Table Text Text → Option (List (Text × Text))
  replacements [] = some []
  replacements ((k, v) ∷ m) = elim (new_replace_value v) [
    | none ↦ none
    | some w ↦ elim (replacements m) [ none ↦ none | some rest ↦ some ((k, w) ∷ rest) ]
  ]

  abbrev pub configuration_file :
      Text → Text → Option (List (Text × Text)) → Option ConfigurationFile
  configuration_file file parser none = none
  configuration_file file parser (some replace) =
      some (record { file_name = file; parser = parser; replace = replace })

  unfoldable pub convert_config_file : Text → MergedConfig → Option ConfigurationFile
  unfolding replacements flatten_fields
  convert_config_file file c =
      configuration_file file c.parser (replacements (flatten_fields [] (to_fields c.find) []))

  abbrev pub convert_found : Text → Option MergedConfig → Option ConfigurationFile
  convert_found file none = none
  convert_found file (some c) = convert_config_file file c

  unfoldable pub convert_all : List Text → Table Text MergedConfig → Option (List ConfigurationFile)
  unfolding convert_config_file
  convert_all [] files = some []
  convert_all (file ∷ order) files = elim (convert_found file (lookup file files)) [
    | none ↦ none
    | some c ↦ elim (convert_all order files) [ none ↦ none | some rest ↦ some (c ∷ rest) ]
  ]

  unfoldable pub get_config_files :
      Table Text ConfigFile
      → Table Text ConfigFile
      → Table Text ConfigFile
      → Option (List ConfigurationFile)
  unfolding convert_all add_layer
  get_config_files software blueprint overrides =
      let m = merged_layers software blueprint overrides in convert_all m.order m.files
