-- ===== src/DiskUsage/Examples.antt =====
-- A directory with a file of two names: tests, and the theorem at it.
use sls.Shared.{◌≡◌, refl, false, true, none, [], ◌∷◌, List, arith}
use sls.Shared.Int.{pos, int64, ◌+ℤ◌}
use sls.Quota.{set_usage}
use sls.DiskUsage.{
  DirEntry, is_known, count_file, walk_dir, directory_size, update_cached_disk_usage, disk_usage,
  has_space_available,
}
use sls.DiskUsage.Links.{AllLinked, once, directory_size-once}

abbrev world : DirEntry
world = record {
  walk_fails = false;
  is_regular = true;
  lstat_fails = false;
  nlink = 2;
  ino = 8;
  size = 70;
}

abbrev folder : DirEntry
folder = record world { is_regular = false; ino = 9 }

abbrev log : DirEntry
log = record world { nlink = 1; ino = 5; size = 4 }

abbrev entries : List DirEntry
entries = world ∷ folder ∷ log ∷ world ∷ []

counted_once : once [] entries ≡ 74
unfolding once is_known
counted_once = refl

-- A lookup whose time is over walks again and keeps the size.
looked_up :
    has_space_available 100 entries (record {
      quota = record { limit = pos 50; usage = pos 1 };
      disk_check_interval = 30;
      last_lookup = 70;
    })
    ≡ (
      record {
        quota = record { limit = pos 50; usage = pos 74 };
        disk_check_interval = 30;
        last_lookup = 100;
      },
      false,
    )
unfolding has_space_available disk_usage update_cached_disk_usage directory_size walk_dir count_file
    is_known set_usage int64 ◌+ℤ◌
looked_up = refl

entries-AllLinked : AllLinked entries
entries-AllLinked = ((refl, (refl, (refl, tt))), ((refl, (refl, tt)), ((refl, tt), (tt, tt))))

directory_size-once_example : directory_size entries ≡ (pos (once [] entries), none)
unfolding once is_known
directory_size-once_example =
    directory_size-once entries entries-AllLinked (refl, (refl, (refl, (refl, tt)))) (omega arith)
