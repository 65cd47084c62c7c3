-- ===== src/Filesystem/Examples.antt =====
-- A file system with a few bytes in use: tests, and the theorems at inputs that meet their
-- conditions.
use sls.Shared.{if◌then◌else◌, ◌-◌, ◌^◌, ◌≤◌, ◌≡◌, refl, false, true, some, none, [], ◌∷◌, arith}
use sls.Shared.Equality.{nat_eq, list_eq}
use sls.Shared.Table.{lookup, insert}
use sls.Shared.Text.{Text, codes}
use sls.Shared.Int.{pos, int64, ◌+ℤ◌}
use sls.Quota.{add, can_fit}
use sls.Filesystem.{directory, regular, Filesystem, World, write, unlinkat, no_space}
use sls.Filesystem.Total.{total, Once}
use sls.Filesystem.Accounting.{Accounted, write-Accounted}
use sls.Filesystem.Unlinking.{unlinkat_lem}
use sls.Filesystem.Limit.{write-total}

abbrev log : Text
log = codes "log"

abbrev plugins : Text
plugins = codes "plugins"

abbrev small_disk : Filesystem
small_disk = record {
  quota = record { limit = pos 100; usage = pos 40 };
  disk = (plugins, directory) ∷ (log, regular 40) ∷ [];
}

-- The reader has more bytes than the caller asks for.
abbrev calm : World
calm = record {
  stat_fails = false;
  touch_fails = false;
  copy_fails = false;
  chown_fails = false;
  unlink_fails = false;
  available = 90;
}

abbrev stuck : World
stuck = record calm { unlink_fails = true }

small_disk-Accounted : Accounted small_disk
unfolding total lookup Once
small_disk-Accounted = record { once = (refl, (refl, tt)); usage_is = refl; small = omega arith }

grown : write calm small_disk log (pos 70) ≡ (
  record {
    quota = record { limit = pos 100; usage = pos 70 };
    disk = (plugins, directory) ∷ (log, regular 70) ∷ [];
  },
  none,
)
unfolding write add can_fit lookup insert int64 ◌+ℤ◌
grown = refl

refused : write calm small_disk log (pos 101) ≡ (small_disk, some no_space)
unfolding write add can_fit lookup insert int64 ◌+ℤ◌
refused = refl

-- A size that makes the sum wrap around is taken to fit.
wrapped : can_fit small_disk.quota (pos (2 ^ 63 - 1)) ≡ true
unfolding can_fit int64 ◌+ℤ◌
wrapped = refl

write-Accounted_example : Accounted (write calm small_disk log (pos 70)).0
unfolding total
write-Accounted_example =
    write-Accounted calm small_disk log (pos 70) small_disk-Accounted (omega arith)

unlinkat_lem_example :
    ((unlinkat stuck small_disk log).0.quota.usage ≡ pos (total small_disk.disk - 40))
    × (total (unlinkat stuck small_disk log).0.disk
        ≡ (if stuck.unlink_fails then total small_disk.disk else total small_disk.disk - 40))
unfolding lookup
unlinkat_lem_example = unlinkat_lem stuck small_disk log 40 small_disk-Accounted refl refl

write-total_example : total (write calm small_disk log (pos 70)).0.disk ≤ 100
unfolding total
write-total_example =
    write-total calm small_disk log 99 70 small_disk-Accounted refl (omega arith) (omega arith)
      (omega arith)
