-- ===== src/Filesystem.antt =====
-- daemon/server/filesystem/filesystem.go: writing and deleting the files of a server under its
-- quota, with daemon/internal/ufs for the deletion (Remove and unlinkat of fs_quota.go, RemoveStat of
-- fs_unix.go).
-- The disk is a table from paths to what stands there; what a call of the operating system answers
-- that the disk does not decide is an argument.
pub mod Total
pub mod Accounting
pub mod Unlinking
pub mod Limit
mod Examples
use sls.Shared.{ℕ, ◌-◌, min, Bool, true, false, not, Option, none, some, if◌then◌else◌, ltb}
use sls.Shared.Equality.{nat_eq, list_eq}
use sls.Shared.Table.{Table, lookup, insert, delete}
use sls.Shared.Int.{ℤ, pos, negsuc, ◌+ℤ◌, neg, pos_part, int64, ◌==ℤ◌}
use sls.Shared.Text.{Text}
use sls.Quota.{Quota, add, can_fit}

pub data Entry : Type 0 where
  directory : Entry
  regular : ℕ → Entry  -- of that many bytes

pub record Filesystem : Type 0 where
  pub quota : Quota
  pub disk : Table Text Entry

-- Which calls of the operating system fail, and how many bytes the reader would give.
pub record World : Type 0 where
  pub stat_fails : Bool
  pub touch_fails : Bool
  pub copy_fails : Bool
  pub chown_fails : Bool
  pub unlink_fails : Bool
  pub available : ℕ

pub data Error : Type 0 where
  stat_failed is_directory no_space touch_failed chown_failed copy_failed not_exist unlink_failed :
      Error

-- `none` is the nil error.
abbrev pub Answer : Type 0
Answer = Filesystem × Option Error

-- `io.Copy(file, io.LimitReader(r, newSize))` after the truncation by Touch.
abbrev pub copied_limited : World → ℤ → ℕ
copied_limited w new_size = min w.available (pos_part new_size)

-- What Write and Writefile return.
abbrev pub closing : World → Bool → Option Error
closing w copy_fails =
    if w.chown_fails then some chown_failed else if copy_fails then some copy_failed else none

-- Write after Touch, which leaves the file empty.
unfoldable pub write_touched : World → Filesystem → Text → ℤ → ℕ → Answer
write_touched w f p new_size current =
    if new_size ==ℤ pos 0
    then (
      record f {
        quota = (add f.quota (int64 (neg (pos current)))).0;
        disk = insert p (regular 0) f.disk;
      },
      closing w false,
    )
    else (
      record f {
        quota = (add f.quota (int64 (pos (copied_limited w new_size) +ℤ neg (pos current)))).0;
        disk = insert p (regular (copied_limited w new_size)) f.disk;
      },
      closing w w.copy_fails,
    )

unfoldable pub write_over : World → Filesystem → Text → ℤ → ℕ → Answer
unfolding write_touched
write_over w f p new_size current =
    if not (can_fit f.quota (int64 (new_size +ℤ neg (pos current))))
    then (f, some no_space)
    else if w.touch_fails
    then (f, some touch_failed)
    else write_touched w f p new_size current

unfoldable pub write : World → Filesystem → Text → ℤ → Answer
unfolding write_over
write w f p new_size = if w.stat_fails then (f, some stat_failed) else elim (lookup p f.disk) [
  | none ↦ write_over w f p new_size 0
  | some directory ↦ (f, some is_directory)
  | some (regular current) ↦ write_over w f p new_size current
]

-- Writefile asks for no space and copies all that the reader gives.
unfoldable pub writefile_over : World → Filesystem → Text → ℕ → Answer
writefile_over w f p current = if w.touch_fails then (f, some touch_failed) else (
  record f {
    quota = (add f.quota (int64 (pos w.available +ℤ neg (pos current)))).0;
    disk = insert p (regular w.available) f.disk;
  },
  closing w w.copy_fails,
)

unfoldable pub writefile : World → Filesystem → Text → Answer
unfolding writefile_over
writefile w f p = if w.stat_fails then (f, some stat_failed) else elim (lookup p f.disk) [
  | none ↦ writefile_over w f p 0
  | some directory ↦ (f, some is_directory)
  | some (regular current) ↦ writefile_over w f p current
]

-- Quota.Remove on what RemoveStat of the Unix file system removes.
unfoldable pub remove : World → Filesystem → Text → Answer
remove w f p = if w.stat_fails then (f, some stat_failed) else elim (lookup p f.disk) [
  | none ↦ (f, some not_exist)
  | some x ↦ if w.unlink_fails then (f, some unlink_failed) else elim x [
    | directory ↦ (record f { disk = delete p f.disk }, none)
    | regular size ↦ (
      record f { quota = (add f.quota (int64 (neg (pos size)))).0; disk = delete p f.disk },
      none,
    )
  ]
]

-- What unlinkat of the Unix file system does without flags.
unfoldable pub unix_unlinkat : World → Filesystem → Text → Answer
unix_unlinkat w f p = if w.unlink_fails then (f, some unlink_failed) else elim (lookup p f.disk) [
  | none ↦ (f, some not_exist)
  | some directory ↦ (f, some unlink_failed)
  | some (regular size) ↦ (record f { disk = delete p f.disk }, none)
]

-- Quota.unlinkat without flags takes the size off the usage before it unlinks.
unfoldable pub account_unlink : World → Filesystem → Text → Filesystem
account_unlink w f p = if w.stat_fails then f else elim (lookup p f.disk) [
  | none ↦ f
  | some directory ↦ f
  | some (regular size) ↦ record f { quota = (add f.quota (int64 (neg (pos size)))).0 }
]

unfoldable pub unlinkat : World → Filesystem → Text → Answer
unfolding unix_unlinkat account_unlink
unlinkat w f p = unix_unlinkat w (account_unlink w f p) p
