-- ===== src/Software/Selection.antt =====
-- ImageForVersion against a plain description: the first entry whose constraint matches, or else the
-- last default.
use mathlib.Core.List.{flatten}
use sls.Shared.{
  ◌≡◌, refl, true, false, not, ◌&&◌, Option, none, some, List, [], ◌∷◌, ◌≢◌, inl, inr, arith,
  Bool-cases,
}
use sls.Shared.Equality.{nat_eq, list_eq}
use sls.Shared.Table.{Table, lookup}
use sls.Shared.Text.{Text}
use sls.Software.{
  Software, Version, Result, ok, err, no_image_for_key, no_mapping, default_image, is_default,
  is_empty, matches_version_constraint, image_for_key, fall_back, choose, image_for_version,
  parse_version, choose_imaged, choose_mapped,
}

-- The key of the first entry, no default, whose constraint the version meets.
pub first_match : Version → List (Text × Text) → Option Text
first_match v [] = none
first_match v ((key, expr) ∷ rest) =
    elim (not (is_default key) && not (is_empty expr) && matches_version_constraint v expr) [
      | true ↦ some key
      | false ↦ first_match v rest
    ]

-- The value of the last default, or what was found before.
pub last_default : Text → List (Text × Text) → Text
last_default target [] = target
last_default target ((key, expr) ∷ rest) = elim (is_default key) [
  | true ↦ last_default expr rest
  | false ↦ last_default target rest
]

-- The image of a key that an entry names: one without an image is an error.
abbrev pub image_of_entry : Option Text → Result Text
image_of_entry none = err no_image_for_key
image_of_entry (some image) = ok image

-- The image of what a default names, which is an image by itself when it is no key.
abbrev pub image_of_default : Text → Option Text → Result Text
image_of_default [] image = err no_mapping
image_of_default (c ∷ target) none = ok (c ∷ target)
image_of_default (c ∷ target) (some image) = ok image

abbrev pub selected : Software → Text → List (Text × Text) → Option Text → Result Text
selected s target entries none =
    let named = last_default target entries in image_of_default named (lookup named s.docker_images)
selected s target entries (some key) = image_of_entry (lookup key s.docker_images)

fall_back-image_of_default :
    (s : Software) (target : Text)
    → fall_back s target ≡ image_of_default target (lookup target s.docker_images)
unfolding fall_back
fall_back-image_of_default s [] = refl
fall_back-image_of_default s (c ∷ target) = go (lookup (c ∷ target) s.docker_images)
  where
    go : (o : Option Text) → default_image o (c ∷ target) ≡ image_of_default (c ∷ target) o
    go none = refl
    go (some image) = refl

image_for_key-image_of_entry : (o : Option Text) → image_for_key o ≡ image_of_entry o
image_for_key-image_of_entry none = refl
image_for_key-image_of_entry (some image) = refl

choose-selected :
    (s : Software) (v : Version) (target : Text) (entries : List (Text × Text))
    → choose s v target entries ≡ selected s target entries (first_match v entries)
unfolding choose first_match last_default
choose-selected s v target [] = fall_back-image_of_default s target
choose-selected s v target ((key, expr) ∷ rest) = elim (Bool-cases (is_default key)) [
  | inl default ↦ ground (arith, default, choose-selected s v expr rest)
  | inr other ↦ ground (
    arith,
    other,
    choose-selected s v target rest,
    image_for_key-image_of_entry (lookup key s.docker_images),
  )
]

-- For a software with images and mappings and a version that parses, ImageForVersion returns the
-- image of the first entry, in the order of the mappings, that is no default and whose constraint
-- the version meets, and an error if the key of that entry has no image. Where there is no such entry,
-- it returns the image of the key that the last default names, or its text if that is no key, and an
-- error if there is no default or it is empty.
pub image_for_version-selected :
    (s : Software) (version : Text) (v : Version)
    → s.docker_images ≢ []
    → s.mappings ≢ []
    → parse_version version ≡ ok v
    → image_for_version (some s) version
      ≡ selected s [] (flatten s.mappings) (first_match v (flatten s.mappings))
unfolding image_for_version
image_for_version-selected s version v has_images has_mappings parsed = images s.docker_images refl
  where
    mapped :
        (ms : List (List (Text × Text)))
        → s.mappings ≡ ms
        → choose_mapped s ms version
          ≡ selected s [] (flatten s.mappings) (first_match v (flatten s.mappings))
    mapped [] e = absurd (has_mappings e)
    mapped (m ∷ ms) e = rw parsed (choose-selected s v [] (flatten s.mappings))

    images :
        (is : Table Text Text)
        → s.docker_images ≡ is
        → choose_imaged s is version
          ≡ selected s [] (flatten s.mappings) (first_match v (flatten s.mappings))
    images [] e = absurd (has_images e)
    images (i ∷ is) e = mapped s.mappings refl
