-- ===== src/Software/Examples.antt =====
-- Versions, constraints and images at concrete inputs: tests, and the theorems at inputs that meet
-- their conditions.
use mathlib.Core.List.{flatten}
use sls.Shared.{◌≡◌, refl, some, [], ◌∷◌}
use sls.Shared.Table.{lookup}
use sls.Shared.Text.{codes, trim_space, split, atoi, fields}
use sls.Software.{
  Software, ok, err, Error, parse_version, compare_versions, matches_version_constraint, all_match,
  token_matches, split_comparator_token, image_for_version,
}
use sls.Software.Selection.{selected, first_match, image_for_version-selected}

prerelease : parse_version (codes " 1.21.9-pre2") ≡ ok (1 ∷ 21 ∷ 9 ∷ [])
unfolding parse_version trim_space split atoi
prerelease = refl

no_number : parse_version (codes "v1.2") ≡ err Error.not_numeric
unfolding parse_version trim_space
no_number = refl

abbrev paper : Software
paper = record {
  docker_images = (codes "java_8", codes "img8") ∷ (codes "java_17", codes "img17") ∷ [];
  mappings =
      ((codes "java_8", codes "<=1.16.5") ∷ [])
      ∷ ((codes "java_17", codes ">=1.18 <=1.20.4") ∷ [])
      ∷ ((codes "default", codes "java_17") ∷ [])
      ∷ [];
}

old_version : image_for_version (some paper) (codes "1.9") ≡ ok (codes "img8")
unfolding image_for_version parse_version matches_version_constraint all_match token_matches
    split_comparator_token compare_versions trim_space split atoi fields lookup flatten
old_version = refl

parsed_old : parse_version (codes "1.9") ≡ ok (1 ∷ 9 ∷ [])
unfolding parse_version trim_space split atoi
parsed_old = refl

image_for_version-selected_example :
    image_for_version (some paper) (codes "1.9")
    ≡ selected paper [] (flatten paper.mappings) (first_match (1 ∷ 9 ∷ []) (flatten paper.mappings))
image_for_version-selected_example =
    image_for_version-selected paper (codes "1.9") (1 ∷ 9 ∷ []) (λ e. cc) (λ e. cc) parsed_old
