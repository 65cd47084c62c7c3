-- ===== src/Filesystem/Accounting.antt =====
-- The usage that is tracked against the bytes that the disk holds.
use sls.Shared.{
  ℕ, ◌+◌, ◌-◌, ◌^◌, ◌≤◌, ◌<◌, ◌≡◌, sym, ap, ◌∙◌, inl, inr, arith, Bool-cases, Option-cases,
}
use sls.Shared.Equality.{nat_eq, list_eq}
use sls.Shared.Table.{lookup, insert, delete}
use sls.Shared.Text.{Text}
use sls.Shared.Int.{ℤ, pos, ◌+ℤ◌, neg, int64, ◌==ℤ◌}
use sls.Quota.{Quota, add, can_fit}
use sls.Quota.Arithmetic.{add-replaces, add-shrinks}
use sls.Filesystem.{
  directory, regular, Filesystem, World, write, write_over, write_touched, writefile,
  writefile_over, remove, copied_limited,
}
use sls.Filesystem.Total.{
  total, bytes_at, Once, bytes_at-total, total-insert, Once-insert, total-delete, Once-delete,
}

-- The usage is the number of bytes on the disk.
pub record Accounted (f : Filesystem) : Type 0 where
  pub once : Once f.disk
  pub usage_is : f.quota.usage ≡ pos (total f.disk)
  pub small : total f.disk < 2 ^ 63

-- The usage and the disk after a file of `current` bytes is replaced by one of n bytes.
abbrev pub replaced : Filesystem → Text → ℕ → ℕ → Filesystem
replaced f p n current = record f {
  quota = (add f.quota (int64 (pos n +ℤ neg (pos current)))).0;
  disk = insert p (regular n) f.disk;
}

pub replaced-Accounted :
    (f : Filesystem) (p : Text) (n current : ℕ)
    → Accounted f
    → bytes_at (lookup p f.disk) ≡ current
    → total f.disk + n < 2 ^ 63
    → Accounted (replaced f p n current)
replaced-Accounted f p n current a here room = record {
  once = Once-insert p (regular n) f.disk a.once;
  usage_is =
      ap (λ (q : Quota). q.usage)
        (add-replaces f.quota (total f.disk) n current a.usage_is within room)
      ∙ ap pos sums;
  small = ground (arith, total-insert p (regular n) f.disk, within, room);
}
  where
    within : current ≤ total f.disk
    within = ground (arith, bytes_at-total p f.disk, here)

    sums : total f.disk + n - current ≡ total (insert p (regular n) f.disk)
    sums = ground (arith, total-insert p (regular n) f.disk, here)

-- The usage after a file of `size` bytes is taken off the disk.
abbrev pub shrunk : Filesystem → ℕ → Quota
shrunk f size = (add f.quota (int64 (neg (pos size)))).0

int64-neg : (n : ℕ) → n < 2 ^ 63 → int64 (neg (pos n)) ≡ neg (pos n)
unfolding int64
int64-neg n h = ground arith

pub shrunk-usage :
    (f : Filesystem) (size : ℕ)
    → Accounted f
    → size ≤ total f.disk
    → (shrunk f size).usage ≡ pos (total f.disk - size)
shrunk-usage f size a h =
    rw (shrunk, int64-neg size (ground (arith, h, a.small)))
      (ap (λ (q : Quota). q.usage)
        (add-shrinks f.quota (total f.disk) size a.usage_is a.small (ground (arith, h, a.small))))

zero-neg : (n : ℕ) → pos 0 +ℤ neg (pos n) ≡ neg (pos n)
unfolding ◌+ℤ◌
zero-neg n = ground arith

-- Write once the size of the file before is known.
write_over-Accounted :
    (w : World) (f : Filesystem) (p : Text) (new_size : ℤ) (current : ℕ)
    → Accounted f
    → bytes_at (lookup p f.disk) ≡ current
    → total f.disk + w.available < 2 ^ 63
    → Accounted (write_over w f p new_size current).0
unfolding write_over write_touched
write_over-Accounted w f p new_size current a here room =
    elim (Bool-cases (can_fit f.quota (int64 (new_size +ℤ neg (pos current))))) [
      | inr full ↦ rw full a
      | inl fits ↦ elim (Bool-cases w.touch_fails) [
        | inl failed ↦ rw (fits, failed) a
        | inr touched ↦ rw (fits, touched) written
      ]
    ]
  where
    written : Accounted (write_touched w f p new_size current).0
    written = elim (Bool-cases (new_size ==ℤ pos 0)) [
      | inl empty ↦
          rw (empty, sym (zero-neg current))
            (replaced-Accounted f p 0 current a here (ground (arith, room)))
      | inr filled ↦
          rw filled (
            replaced-Accounted f p (copied_limited w new_size) current a here
              (ground (arith, room)))
    ]

-- Write keeps the usage equal to the bytes on the disk, whatever fails and whatever size the caller
-- gave, as long as the bytes that the reader has left fit an int64 together with it.
pub write-Accounted :
    (w : World) (f : Filesystem) (p : Text) (new_size : ℤ)
    → Accounted f
    → total f.disk + w.available < 2 ^ 63
    → Accounted (write w f p new_size).0
unfolding write
write-Accounted w f p new_size a room = elim (Bool-cases w.stat_fails) [
  | inl failed ↦ rw failed a
  | inr found ↦ elim (Option-cases (lookup p f.disk)) [
    | inl missing ↦
        rw (found, missing) (write_over-Accounted w f p new_size 0 a (ap bytes_at missing) room)
    | inr (directory, here) ↦ rw (found, here) a
    | inr (regular current, here) ↦
        rw (found, here) (write_over-Accounted w f p new_size current a (ap bytes_at here) room)
  ]
]

writefile_over-Accounted :
    (w : World) (f : Filesystem) (p : Text) (current : ℕ)
    → Accounted f
    → bytes_at (lookup p f.disk) ≡ current
    → total f.disk + w.available < 2 ^ 63
    → Accounted (writefile_over w f p current).0
unfolding writefile_over
writefile_over-Accounted w f p current a here room = elim (Bool-cases w.touch_fails) [
  | inl failed ↦ rw failed a
  | inr touched ↦ rw touched (replaced-Accounted f p w.available current a here room)
]

-- Writefile keeps the usage equal to the bytes on the disk, whatever fails, as long as the bytes
-- that the reader has left fit an int64 together with it.
pub writefile-Accounted :
    (w : World) (f : Filesystem) (p : Text)
    → Accounted f
    → total f.disk + w.available < 2 ^ 63
    → Accounted (writefile w f p).0
unfolding writefile
writefile-Accounted w f p a room = elim (Bool-cases w.stat_fails) [
  | inl failed ↦ rw failed a
  | inr found ↦ elim (Option-cases (lookup p f.disk)) [
    | inl missing ↦
        rw (found, missing) (writefile_over-Accounted w f p 0 a (ap bytes_at missing) room)
    | inr (directory, here) ↦ rw (found, here) a
    | inr (regular current, here) ↦
        rw (found, here) (writefile_over-Accounted w f p current a (ap bytes_at here) room)
  ]
]

-- An entry that is deleted, with its size taken off.
deleted-Accounted :
    (f : Filesystem) (p : Text) (size : ℕ)
    → Accounted f
    → bytes_at (lookup p f.disk) ≡ size
    → Accounted (record f { quota = shrunk f size; disk = delete p f.disk })
deleted-Accounted f p size a here = record {
  once = Once-delete p f.disk a.once;
  usage_is = shrunk-usage f size a (ground (arith, here, bytes_at-total p f.disk)) ∙ ap pos less;
  small = ground (arith, total-delete p f.disk a.once, a.small);
}
  where
    less : total f.disk - size ≡ total (delete p f.disk)
    less = ground (arith, total-delete p f.disk a.once, here)

deleted_directory-Accounted :
    (f : Filesystem) (p : Text)
    → Accounted f
    → bytes_at (lookup p f.disk) ≡ 0
    → Accounted (record f { disk = delete p f.disk })
deleted_directory-Accounted f p a here = record {
  once = Once-delete p f.disk a.once;
  usage_is = a.usage_is ∙ ap pos same;
  small = ground (arith, total-delete p f.disk a.once, a.small);
}
  where
    same : total f.disk ≡ total (delete p f.disk)
    same = ground (arith, total-delete p f.disk a.once, here)

-- Remove keeps the usage equal to the bytes on the disk, whatever it finds and whatever fails.
pub remove-Accounted :
    (w : World) (f : Filesystem) (p : Text) → Accounted f → Accounted (remove w f p).0
unfolding remove
remove-Accounted w f p a = elim (Bool-cases w.stat_fails) [
  | inl failed ↦ rw failed a
  | inr found ↦ elim (Option-cases (lookup p f.disk)) [
    | inl missing ↦ rw (found, missing) a
    | inr (directory, here) ↦ elim (Bool-cases w.unlink_fails) [
      | inl failed ↦ rw (found, here, failed) a
      | inr unlinked ↦
          rw (found, here, unlinked) (deleted_directory-Accounted f p a (ap bytes_at here))
    ]
    | inr (regular size, here) ↦ elim (Bool-cases w.unlink_fails) [
      | inl failed ↦ rw (found, here, failed) a
      | inr unlinked ↦ rw (found, here, unlinked) (deleted-Accounted f p size a (ap bytes_at here))
    ]
  ]
]
