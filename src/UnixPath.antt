-- ===== src/UnixPath.antt =====
-- The paths of the file system in daemon/internal/ufs: unsafePath and the cut of safePath in
-- fs_unix.go, and path_unix.go. A path is a list of code points; the separators are ASCII.
pub mod Confined
pub mod Splitting
mod Examples
use sls.Shared.{
  ℕ, ◌==◌, Bool, true, false, ◌&&◌, Option, none, some, List, [], ◌∷◌, ◌++◌, if◌then◌else◌,
}
use sls.Shared.Paths.{slash, dot, or_dot, clean, path_join}
use sls.Shared.Text.{Text}
use sls.Shared.Text.Affixes.{has_prefix, trim_prefix, trim_suffix_char}

unfoldable pub is_inside_of_base : Text → Text → Bool
is_inside_of_base base path =
    has_prefix (base ++ slash ∷ []) (trim_suffix_char slash path ++ slash ∷ [])

-- `unsafePath`; `none` is ErrBadPathResolution.
abbrev pub resolve : Text → Text → Text
resolve base path = clean (path_join base (trim_prefix base path))

unfoldable pub unsafe_path : Text → Text → Option Text
unfolding is_inside_of_base
unsafe_path base path =
    if is_inside_of_base base (resolve base path)
    then some (or_dot (trim_prefix (slash ∷ []) (trim_prefix base (resolve base path))))
    else none

-- `filepath.Split`: the path up to its last slash, with it, and the rest.
unfoldable pub split_file : Text → Text × Text
split_file [] = ([], [])
split_file (c ∷ s) =
    let (dir, file) = split_file s in
    elim dir [
      | [] ↦ if c == slash then (slash ∷ [], file) else ([], c ∷ file)
      | d ∷ ds ↦ (c ∷ d ∷ ds, file)
    ]

-- What safePath opens below the base path, if the file is nested, and the name in that directory.
abbrev pub open_dir : Text × Text → Option Text × Text
open_dir ([], file) = (none, file)
open_dir (d ∷ dir, file) = (some (trim_suffix_char slash (d ∷ dir)), file)

unfoldable pub safe_path : Text → Text → Option (Option Text × Text)
unfolding unsafe_path split_file
safe_path base path = elim (unsafe_path base path) [
  | none ↦ none
  | some name ↦ some (open_dir (split_file name))
]

-- `for ; i > 0 && path[i] == '/'; i--`: the slashes at the end, but not the first code point.
unfoldable pub trim_slashes : Text → Text
trim_slashes [] = []
trim_slashes (c ∷ s) =
    let rest = trim_slashes s in
    elim rest [ [] ↦ if c == slash then [] else c ∷ [] | d ∷ t ↦ c ∷ d ∷ t ]

unfoldable pub trim_trailing : Text → Text
unfolding trim_slashes
trim_trailing [] = []
trim_trailing (c ∷ s) = c ∷ trim_slashes s

-- What stands before the last slash and behind it; the last code point is not looked at.
unfoldable pub cut_last : Text → Option (Text × Text)
cut_last [] = none
cut_last (c ∷ []) = none
cut_last (c ∷ d ∷ s) = elim (cut_last (d ∷ s)) [
  | none ↦ if c == slash then some ([], d ∷ s) else none
  | some (dir, base) ↦ some (c ∷ dir, base)
]

unfoldable pub basename : Text → Text
unfolding trim_trailing cut_last
basename name = elim (cut_last (trim_trailing name)) [
  | none ↦ trim_trailing name
  | some (dir, base) ↦ base
]

unfoldable pub ends_with_dot : Text → Bool
ends_with_dot [] = false
ends_with_dot (c ∷ []) = c == b'.'
ends_with_dot (c ∷ d ∷ []) = c == slash && d == b'.'
ends_with_dot (c ∷ d ∷ e ∷ s) = ends_with_dot (d ∷ e ∷ s)

-- Of the slashes at the front, one is kept.
unfoldable pub trim_leading : Text → Text
trim_leading [] = []
trim_leading (c ∷ []) = c ∷ []
trim_leading (c ∷ d ∷ s) =
    let rest = trim_leading (d ∷ s) in if c == slash && d == slash then rest else c ∷ d ∷ s

abbrev pub parent_of : Text → Text
parent_of [] = slash ∷ []
parent_of (c ∷ dir) = c ∷ dir

-- The parent directory and the name in it.
unfoldable pub split_path : Text → Text × Text
unfolding trim_leading trim_trailing cut_last
split_path path = elim (cut_last (trim_trailing (trim_leading path))) [
  | none ↦ (dot, trim_trailing (trim_leading path))
  | some (dir, base) ↦ (parent_of dir, base)
]
