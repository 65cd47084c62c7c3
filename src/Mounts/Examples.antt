-- ===== src/Mounts/Examples.antt =====
-- Mounts of a server: tests, and the theorem at concrete mounts and volumes.
use sls.Shared.{◌≡◌, refl, Bool, true, false, Option, some, [], ◌∷◌, All}
use sls.Shared.Equality.{nat_eq}
use sls.Shared.Outcome.{ok, err}
use sls.Shared.Paths.{clean, clean_from, clean_parts, path_join}
use sls.Shared.Table.{insert, lookup}
use sls.Shared.Text.{Text, codes, split}
use sls.Shared.Text.Joined.{join}
use sls.Shared.Text.Affixes.{has_prefix, strip, trim_prefix}
use sls.Mounts.{
  Mount, Volume, mode_cow, mode_ro, outside_root, has_suffix_char, within_path, absolute,
  volume_source, volume_mount, volume_mounts, mounts, cow_groups, overlay_target,
}
use sls.Mounts.Sources.{ComesFrom, mounts-ComesFrom}

abbrev all_there : Text → Option Bool
all_there path = some true

abbrev volume : Text → Text → Volume
volume source target = record { name = codes "v"; source = source; target = target; mode = mode_ro }

abbrev cwd : Text
cwd = codes "/srv"

abbrev root : Text
root = codes "/volumes"

abbrev maps : Mount
maps = record {
  default = false;
  target = codes "/home/container/maps";
  source = codes "/volumes/maps";
  read_only = true;
}

accepts_inside :
    volume_mounts all_there cwd root (volume (codes "maps") (codes "/maps") ∷ []) ≡ ok (maps ∷ [])
unfolding volume_mounts volume_source within_path absolute has_suffix_char has_prefix trim_prefix
    strip path_join clean clean_from clean_parts split join
accepts_inside = refl

rejects_outside :
    volume_mounts all_there cwd root (volume (codes "../volumes2") (codes "/maps") ∷ [])
    ≡ err outside_root
unfolding volume_mounts volume_source within_path absolute has_suffix_char has_prefix trim_prefix
    strip path_join clean clean_from clean_parts split join
rejects_outside = refl

-- The target of a volume is not confined: in the container, and for an overlay on the host.
escapes :
    ((volume_mount true root (volume (codes "maps") (codes "../../etc"))).target ≡ codes "/etc")
    × (overlay_target (codes "/srv/s1") (codes "../../etc") ≡ codes "/etc")
unfolding overlay_target trim_prefix strip path_join clean clean_from clean_parts split join
escapes = (refl, refl)

-- Two spellings of one target are two groups.
two_groups :
    cow_groups
      (record { name = []; source = []; target = codes "/a"; mode = mode_cow }
        ∷ record { name = []; source = []; target = codes "a"; mode = mode_cow }
        ∷ [])
      []
    ≡ (codes "/a", record { name = []; source = []; target = codes "/a"; mode = mode_cow } ∷ [])
      ∷ (codes "a", record { name = []; source = []; target = codes "a"; mode = mode_cow } ∷ [])
      ∷ []
unfolding cow_groups insert lookup
two_groups = refl

abbrev timezone : Mount
timezone = record {
  default = false;
  target = codes "/etc/localtime";
  source = codes "/usr/share/../share/zone";
  read_only = true;
}

mounts-ComesFrom_example :
    All
      (ComesFrom all_there
        (codes "srv")
        (codes "volumes")
        (codes "/srv/s1")
        (codes "/usr/share" ∷ []))
      (mounts (codes "/srv/s1") cwd (codes "/usr/share" ∷ []) (timezone ∷ []) (maps ∷ []))
mounts-ComesFrom_example =
    mounts-ComesFrom all_there (codes "srv") (codes "volumes") (codes "/srv/s1")
      (codes "/usr/share" ∷ []) (timezone ∷ []) (volume (codes "maps") (codes "/maps") ∷ [])
      (maps ∷ []) accepts_inside
