-- ===== src/Software.antt =====
-- protocube/software/version.go: which Docker image serves a version of a server software.
-- A Go map that is ranged over is given by its entries in the order of the iteration.
pub mod Order
pub mod Selection
mod Examples
use mathlib.Core.List.{flatten}
use sls.Shared.{
  ℕ, zero, suc, ◌+◌, ◌-◌, ◌==◌, ltb, leb, Bool, true, false, not, ◌&&◌, ◌||◌, Option, none, some,
  List, [], ◌∷◌, ◌++◌, if◌then◌else◌, length, max,
}
use sls.Shared.Equality.{nat_eq, list_eq, list_beq}
use sls.Shared.Table.{Table, lookup}
use sls.Shared.Int.{ℤ, pos, negsuc, ltb_ℤ, leb_ℤ}
use sls.Shared.Text.{Text, codes, is_digit, split, atoi, trim_space, fields}

-- The fields of Software that the choice reads.
pub record Software : Type 0 where
  pub docker_images : Table Text Text
  pub mappings : List (List (Text × Text))

pub data Error : Type 0 where
  software_is_nil no_images ambiguous invalid_version no_image_for_key no_mapping : Error
  empty_version not_numeric bad_component : Error

pub data Result {ℓ} (A : Type ℓ) : Type ℓ where
  ok : A → Result A
  err : Error → Result A

abbrev pub Version : Type 0
Version = List ℕ

abbrev pub digit_first : Text → Bool
digit_first [] = false
digit_first (c ∷ s) = is_digit c

-- The longest beginning of the form digits, or digits with dots between, and what follows it: what
-- the group `(\d+(?:\.\d+)*)` takes behind a digit.
unfoldable pub numeric_part : Text → Text × Text
numeric_part [] = ([], [])
numeric_part (c ∷ s) =
    let (core, rest) = numeric_part s in
    if is_digit c || (c == b'.' && digit_first s) then (c ∷ core, rest) else ([], c ∷ s)

-- `.` matches every code point but the newline.
unfoldable pub no_newline : Text → Bool
no_newline [] = true
no_newline (c ∷ s) = not (c == 10) && no_newline s

-- `(?:[^\d].*)?$` at what the group leaves: it begins with no digit.
abbrev pub suffix_ok : Text → Bool
suffix_ok [] = true
suffix_ok (c ∷ s) = no_newline s

-- The submatch of `^(\d+(?:\.\d+)*)(?:[^\d].*)?$`.
unfoldable pub version_core : Text → Option Text
unfolding numeric_part no_newline
version_core v =
    let (core, rest) = numeric_part v in if digit_first v && suffix_ok rest then some core else none

unfoldable pub parse_components : List Text → Result Version
parse_components [] = ok []
parse_components (p ∷ ps) = elim (atoi p) [
  | none ↦ err bad_component
  | some n ↦ elim (parse_components ps) [ err e ↦ err e | ok ns ↦ ok (n ∷ ns) ]
]

abbrev pub parse_core : Option Text → Result Version
parse_core none = err not_numeric
parse_core (some core) = parse_components (split core b'.')

abbrev pub parse_trimmed : Text → Result Version
parse_trimmed [] = err empty_version
parse_trimmed (c ∷ s) = parse_core (version_core (c ∷ s))

unfoldable pub parse_version : Text → Result Version
unfolding version_core parse_components
parse_version v = parse_trimmed (trim_space v)

-- `a[i]` where the slice is that long, and 0 beyond.
abbrev pub component : Version → ℕ → ℕ
component [] i = 0
component (x ∷ xs) zero = x
component (x ∷ xs) (suc i) = component xs i

-- The loop of compareVersions over the rounds left.
unfoldable pub compare_from : ℕ → ℕ → Version → Version → ℤ
compare_from zero i a b = pos 0
compare_from (suc k) i a b =
    let rest = compare_from k (i + 1) a b in
    if ltb (component a i) (component b i)
    then negsuc 0
    else if ltb (component b i) (component a i)
    then pos 1
    else rest

unfoldable pub compare_versions : Version → Version → ℤ
unfolding compare_from
compare_versions a b = compare_from (if ltb (length a) (length b) then length b else length a) 0 a b

pub data Comparator : Type 0 where
  gt ge lt le eq_eq eq absent : Comparator

-- Two-letter operators are tried before those of one letter.
abbrev pub comparator : Text → Comparator × Text
comparator [] = (absent, [])
comparator (c ∷ []) =
    if c == b'>'
    then (gt, [])
    else if c == b'<'
    then (lt, [])
    else if c == b'='
    then (eq, [])
    else (absent, c ∷ [])
comparator (c ∷ d ∷ s) =
    if c == b'>' && d == b'='
    then (ge, trim_space s)
    else if c == b'<' && d == b'='
    then (le, trim_space s)
    else if c == b'=' && d == b'='
    then (eq_eq, trim_space s)
    else if c == b'>'
    then (gt, trim_space (d ∷ s))
    else if c == b'<'
    then (lt, trim_space (d ∷ s))
    else if c == b'='
    then (eq, trim_space (d ∷ s))
    else (absent, c ∷ d ∷ s)

unfoldable pub split_comparator_token : Text → Comparator × Text
split_comparator_token tok = comparator (trim_space tok)

-- The `switch` of matchesVersionConstraint on the operator.
abbrev pub satisfies : Comparator → ℤ → Bool
satisfies gt c = ltb_ℤ (pos 0) c
satisfies ge c = leb_ℤ (pos 0) c
satisfies lt c = ltb_ℤ c (pos 0)
satisfies le c = leb_ℤ c (pos 0)
satisfies eq_eq c = leb_ℤ c (pos 0) && leb_ℤ (pos 0) c
satisfies eq c = leb_ℤ c (pos 0) && leb_ℤ (pos 0) c
satisfies absent c = leb_ℤ c (pos 0) && leb_ℤ (pos 0) c

abbrev pub holds_for : Comparator → Version → Result Version → Bool
holds_for op version (err e) = false
holds_for op version (ok ref) = satisfies op (compare_versions version ref)

-- One token of a constraint.
unfoldable pub token_matches : Version → Text → Bool
token_matches version tok =
    let (op, ref) = split_comparator_token tok in holds_for op version (parse_version ref)

unfoldable pub all_match : Version → List Text → Bool
all_match version [] = true
all_match version (tok ∷ toks) = token_matches version tok && all_match version toks

abbrev pub matches_trimmed : Version → Text → Bool
matches_trimmed version [] = false
matches_trimmed version (c ∷ s) = all_match version (fields (c ∷ s))

unfoldable pub matches_version_constraint : Version → Text → Bool
matches_version_constraint version expr = matches_trimmed version (trim_space expr)

abbrev pub is_default : Text → Bool
is_default key = list_beq key (codes "default")

abbrev pub is_empty : Text → Bool
is_empty [] = true
is_empty (c ∷ s) = false

abbrev pub image_for_key : Option Text → Result Text
image_for_key none = err no_image_for_key
image_for_key (some img) = ok img

-- What follows the loop over the mappings.
abbrev pub default_image : Option Text → Text → Result Text
default_image (some img) target = ok img
default_image none target = ok target

unfoldable pub fall_back : Software → Text → Result Text
fall_back s [] = err no_mapping
fall_back s (c ∷ target) = default_image (lookup (c ∷ target) s.docker_images) (c ∷ target)

-- The loops over the mappings and over the entries of each, with the default found so far.
unfoldable pub choose : Software → Version → Text → List (Text × Text) → Result Text
unfolding fall_back
choose s version target [] = fall_back s target
choose s version target ((key, expr) ∷ rest) = elim (is_default key) [
  | true ↦ choose s version expr rest
  | false ↦ elim (not (is_empty expr) && matches_version_constraint version expr) [
    | true ↦ image_for_key (lookup key s.docker_images)
    | false ↦ choose s version target rest
  ]
]

abbrev pub single_image : Table Text Text → Result Text
single_image ((key, img) ∷ []) = ok img
single_image _ = err ambiguous

abbrev pub choose_parsed : Software → Result Version → Result Text
choose_parsed s (err e) = err invalid_version
choose_parsed s (ok version) = choose s version [] (flatten s.mappings)

abbrev pub choose_mapped : Software → List (List (Text × Text)) → Text → Result Text
choose_mapped s [] version = single_image s.docker_images
choose_mapped s (m ∷ ms) version = choose_parsed s (parse_version version)

abbrev pub choose_imaged : Software → Table Text Text → Text → Result Text
choose_imaged s [] version = err no_images
choose_imaged s (i ∷ is) version = choose_mapped s s.mappings version

unfoldable pub image_for_version : Option Software → Text → Result Text
unfolding choose
image_for_version none version = err software_is_nil
image_for_version (some s) version = choose_imaged s s.docker_images version
