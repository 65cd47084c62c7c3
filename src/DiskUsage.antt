-- ===== src/DiskUsage.antt =====
-- daemon/server/filesystem/disk_space.go: the size of a directory with its hard links, and the check
-- whether there is space left. The walk is the list of its entries in their order.
pub mod Links
mod Examples
use sls.Shared.{
  ℕ, ◌+◌, ◌-◌, ◌*◌, ◌==◌, ltb, Bool, true, false, not, ◌&&◌, ◌||◌, Option, none, some, List, [],
  ◌∷◌, if◌then◌else◌,
}
use sls.Shared.Int.{ℤ, pos, negsuc, ◌+ℤ◌, int64, leb_ℤ, ◌==ℤ◌}
use sls.Quota.{Quota, set_usage}

-- What the walk and Lstatat say of an entry.
pub record DirEntry : Type 0 where
  pub walk_fails : Bool
  pub is_regular : Bool
  pub lstat_fails : Bool
  pub nlink : ℕ
  pub ino : ℕ
  pub size : ℕ

pub data Error : Type 0 where
  walk_failed lstat_failed : Error

unfoldable pub is_known : ℕ → List ℕ → Bool
is_known i [] = false
is_known i (j ∷ js) = i == j || is_known i js

-- The sum so far, and the inodes in hardLinks.
pub record Walk : Type 0 where
  pub hard_links : List ℕ
  pub size : ℤ

-- `size.Add(info.Size())`
abbrev pub grow : DirEntry → Walk → Walk
grow d w = record w { size = int64 (w.size +ℤ pos d.size) }

-- The callback on an entry that is a regular file.
unfoldable pub count_file : DirEntry → Walk → Walk
unfolding is_known
count_file d w =
    if ltb 1 d.nlink
    then (if is_known d.ino w.hard_links
        then w
        else grow d (record w { hard_links = d.ino ∷ w.hard_links }))
    else grow d w

-- An error ends the walk; the sum so far is returned with it.
unfoldable pub walk_dir : Walk → List DirEntry → ℤ × Option Error
unfolding count_file
walk_dir w [] = (w.size, none)
walk_dir w (d ∷ ds) =
    let rest = walk_dir (if d.is_regular then count_file d w else w) ds in
    if d.walk_fails
    then (w.size, some walk_failed)
    else if d.is_regular && d.lstat_fails
    then (w.size, some lstat_failed)
    else rest

unfoldable pub directory_size : List DirEntry → ℤ × Option Error
unfolding walk_dir
directory_size ds = walk_dir (record { hard_links = []; size = pos 0 }) ds

-- The fields of Filesystem that the lookup of the usage reads and writes; times are in seconds.
pub record Usage : Type 0 where
  pub quota : Quota
  pub disk_check_interval : ℕ
  pub last_lookup : ℕ

-- The lookup is kept even if it failed.
unfoldable pub update_cached_disk_usage : ℕ → List DirEntry → Usage → Usage × ℤ
unfolding directory_size set_usage
update_cached_disk_usage now ds u =
    let (size, e) = directory_size ds in
    (record u { quota = (set_usage u.quota size).0; last_lookup = now }, size)

-- DiskUsage when no stale value is allowed. The cached value is fresh while its time is after
-- `now - interval`.
unfoldable pub disk_usage : ℕ → List DirEntry → Usage → Usage × ℤ
unfolding update_cached_disk_usage
disk_usage now ds u =
    if u.disk_check_interval == 0
    then (u, pos 0)
    else if ltb now (u.last_lookup + u.disk_check_interval)
    then (u, u.quota.usage)
    else update_cached_disk_usage now ds u

unfoldable pub has_space_available : ℕ → List DirEntry → Usage → Usage × Bool
unfolding disk_usage
has_space_available now ds u =
    let (v, size) = disk_usage now ds u in
    (v, if v.quota.limit ==ℤ pos 0 then true else leb_ℤ size v.quota.limit)
