-- ===== src/Mounts.antt =====
-- daemon/server/mounts.go, the part of InitServer in daemon/server/manager.go that turns the volumes of
-- a server into mounts and overlays, and WithinPath of daemon/server/filesystem/path.go. The working
-- directory is an argument, and so is the test whether a directory is there, where none is an error.
pub mod Within
pub mod Sources
mod Examples
use sls.Shared.{
  ℕ, ◌==◌, Bool, true, false, ◌||◌, Option, none, some, List, [], ◌∷◌, ◌++◌, if◌then◌else◌,
}
use sls.Shared.Equality.{nat_eq, list_eq, list_beq}
use sls.Shared.Outcome.{Outcome, ok, err, ◌>>=◌}
use sls.Shared.Paths.{slash, dot, clean, path_join}
use sls.Shared.Table.{Table, lookup, insert}
use sls.Shared.Text.{Text, codes}
use sls.Shared.Text.Affixes.{has_prefix, trim_prefix}

-- `strings.HasSuffix` with one code point
unfoldable pub has_suffix_char : ℕ → Text → Bool
has_suffix_char c [] = false
has_suffix_char c (d ∷ []) = c == d
has_suffix_char c (d ∷ e ∷ s) = has_suffix_char c (e ∷ s)

abbrev pub with_slash : Text → Text
with_slash root = if has_suffix_char slash root then root else root ++ slash ∷ []

abbrev pub is_within : Text → Text → Bool
is_within path root = list_beq path root || has_prefix (with_slash root) path

unfoldable pub within_path : Text → Text → Bool
within_path path root = is_within (clean path) (clean root)

-- `filepath.Abs`, in a working directory
unfoldable pub absolute : Text → Text → Text
absolute cwd [] = path_join cwd []
absolute cwd (c ∷ s) = if c == slash then clean (c ∷ s) else path_join cwd (c ∷ s)

-- `environment.Mount`
pub record Mount : Type 0 where
  pub default : Bool
  pub target : Text
  pub source : Text
  pub read_only : Bool

pub data VolumeMode : Type 0 where
  mode_cow mode_ro mode_rw mode_unknown : VolumeMode

pub record Volume : Type 0 where
  pub name : Text
  pub source : Text
  pub target : Text
  pub mode : VolumeMode

pub data Error : Type 0 where
  outside_root not_checked no_source invalid_mode : Error

-- `if target == "." { target = "/" }`
abbrev pub or_root : Text → Text
or_root target = if list_beq target dot then slash ∷ [] else target

unfoldable pub is_source_allowed : Text → Text → List Text → Bool
unfolding within_path absolute
is_source_allowed cwd source [] = false
is_source_allowed cwd source ([] ∷ allowed) = is_source_allowed cwd source allowed
is_source_allowed cwd source ((c ∷ root) ∷ allowed) =
    let rest = is_source_allowed cwd source allowed in
    within_path source (absolute cwd (clean (c ∷ root))) || rest

abbrev pub custom_mount : Text → Mount → Mount
custom_mount cwd m = record {
  default = false;
  target = or_root (clean m.target);
  source = absolute cwd (clean m.source);
  read_only = m.read_only;
}

unfoldable pub custom_mounts : Text → List Text → List Mount → List Mount
unfolding is_source_allowed
custom_mounts cwd allowed [] = []
custom_mounts cwd allowed (m ∷ ms) =
    let rest = custom_mounts cwd allowed ms in
    if is_source_allowed cwd (absolute cwd (clean m.source)) allowed
    then custom_mount cwd m ∷ rest
    else rest

abbrev pub checked : Text → Option Bool → Outcome Error Text
checked source none = err not_checked
checked source (some false) = err no_source
checked source (some true) = ok source

-- The source of a volume, below the root of the volumes.
unfoldable pub volume_source : (Text → Option Bool) → Text → Text → Volume → Outcome Error Text
unfolding absolute within_path
volume_source dir_exists cwd root v =
    let source = absolute cwd (path_join root (clean v.source)) in
    if within_path source root then checked source (dir_exists source) else err outside_root

abbrev pub home : Text
home = codes "/home/container"

abbrev pub volume_mount : Bool → Text → Volume → Mount
volume_mount is_read_only source v = record {
  default = false;
  target = path_join home (trim_prefix (slash ∷ []) (or_root (clean v.target)));
  source = source;
  read_only = is_read_only;
}

abbrev pub bind_volume :
    VolumeMode
    → Outcome Error Text
    → Volume
    → Outcome Error (List Mount)
    → Outcome Error (List Mount)
bind_volume mode_cow source v rest = rest
bind_volume mode_ro source v rest = source >>= λ s. rest >>= λ ms. ok (volume_mount true s v ∷ ms)
bind_volume mode_rw source v rest = source >>= λ s. rest >>= λ ms. ok (volume_mount false s v ∷ ms)
bind_volume mode_unknown source v rest = err invalid_mode

-- The loop over the volumes, but for those that are overlays.
unfoldable pub volume_mounts :
    (Text → Option Bool) → Text → Text → List Volume → Outcome Error (List Mount)
unfolding volume_source
volume_mounts dir_exists cwd root [] = ok []
volume_mounts dir_exists cwd root (v ∷ vs) =
    bind_volume v.mode (volume_source dir_exists cwd root v) v
      (volume_mounts dir_exists cwd root vs)

abbrev pub main_mount : Text → Mount
main_mount path = record { default = true; target = home; source = path; read_only = false }

-- Server.Mounts, with the path of the file system and the mounts of the volumes.
unfoldable pub mounts : Text → Text → List Text → List Mount → List Mount → List Mount
unfolding custom_mounts
mounts path cwd allowed custom volumes =
    main_mount path ∷ custom_mounts cwd allowed custom ++ volumes

-- The volumes that are overlays, by their target as it is written.
abbrev pub group_of : Option (List Volume) → List Volume
group_of none = []
group_of (some vs) = vs

abbrev pub add_to_group : VolumeMode → Volume → Table Text (List Volume) → Table Text (List Volume)
add_to_group mode_cow v groups =
    insert v.target (group_of (lookup v.target groups) ++ v ∷ []) groups
add_to_group _ v groups = groups

unfoldable pub cow_groups : List Volume → Table Text (List Volume) → Table Text (List Volume)
cow_groups [] groups = groups
cow_groups (v ∷ vs) groups = cow_groups vs (add_to_group v.mode v groups)

-- Where the overlay of a target is mounted on the host, below the volume of the server.
unfoldable pub overlay_target : Text → Text → Text
overlay_target volume target = path_join volume (trim_prefix (slash ∷ []) (clean target))
