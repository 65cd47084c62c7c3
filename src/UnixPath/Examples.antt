-- ===== src/UnixPath/Examples.antt =====
-- Paths of the file system: tests, and the theorem at a concrete path.
use sls.Shared.{◌≡◌, refl, none, some, ◌∷◌, true}
use sls.Shared.Paths.{slash, clean, path_join}
use sls.Shared.Text.{Text, codes, split}
use sls.Shared.Text.Joined.{join}
use sls.Shared.Text.Affixes.{strip, has_prefix, trim_prefix, trim_suffix_char}
use sls.UnixPath.{
  is_inside_of_base, trim_leading, trim_trailing, cut_last, split_file, unsafe_path, safe_path,
  basename, ends_with_dot, split_path,
}
use sls.UnixPath.Splitting.{OpensBelow, safe_path-OpensBelow}

-- The base path behind its first slash.
abbrev base : Text
base = codes "srv/data"

climbs : unsafe_path (slash ∷ base) (codes "/../../etc/passwd") ≡ none
unfolding unsafe_path is_inside_of_base has_prefix trim_prefix trim_suffix_char clean path_join
    split strip join
climbs = refl

stays : unsafe_path (slash ∷ base) (codes "/worlds/../a//b/./c/") ≡ some (codes "a/b/c")
unfolding unsafe_path is_inside_of_base has_prefix trim_prefix trim_suffix_char clean path_join
    split strip join
stays = refl

-- A path that begins with the text of the base path, but goes on in its last name, is taken for one
-- below the base path.
loses_a_name : unsafe_path (slash ∷ base) (codes "/srv/database/x") ≡ some (codes "base/x")
unfolding unsafe_path is_inside_of_base has_prefix trim_prefix trim_suffix_char clean path_join
    split strip join
loses_a_name = refl

opens_nested :
    safe_path (slash ∷ base) (codes "a/../b/c.txt") ≡ some (some (codes "b"), codes "c.txt")
unfolding safe_path unsafe_path split_file is_inside_of_base has_prefix trim_prefix trim_suffix_char
    clean path_join split strip join
opens_nested = refl

safe_path-OpensBelow_example : OpensBelow (some (codes "b"), codes "c.txt")
safe_path-OpensBelow_example =
    safe_path-OpensBelow base (codes "a/../b/c.txt") (some (codes "b"), codes "c.txt") opens_nested

splits :
    (split_path (codes "//a/b//") ≡ (codes "/a", codes "b"))
    × (split_path (codes "b/") ≡ (codes ".", codes "b"))
    × (split_path (codes "/b") ≡ (codes "/", codes "b"))
unfolding split_path trim_leading trim_trailing cut_last
splits = (refl, refl, refl)

names : (basename (codes "a/b//") ≡ codes "b") × (ends_with_dot (codes "a/.") ≡ true)
unfolding basename trim_trailing cut_last ends_with_dot
names = (refl, refl)
