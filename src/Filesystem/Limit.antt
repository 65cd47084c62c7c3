-- ===== src/Filesystem/Limit.antt =====
-- Write keeps a file system within its limit.
use sls.Shared.{
  ℕ, suc, ◌+◌, ◌^◌, ◌≤◌, ◌<◌, ◌≡◌, ap, inl, inr, Option-cases, arith, Bool-cases, true,
}
use sls.Shared.Equality.{nat_eq, list_eq}
use sls.Shared.Table.{lookup}
use sls.Shared.Text.{Text}
use sls.Shared.Int.{pos, ◌+ℤ◌, neg, int64, ◌==ℤ◌}
use sls.Quota.{can_fit}
use sls.Quota.Arithmetic.{can_fit-replaced}
use sls.Filesystem.{
  directory, regular, Filesystem, World, write, write_over, write_touched, copied_limited,
}
use sls.Filesystem.Total.{total, bytes_at, bytes_at-total, total-insert}
use sls.Filesystem.Accounting.{Accounted}

write_over-total :
    (w : World) (f : Filesystem) (p : Text) (l n current : ℕ)
    → Accounted f
    → bytes_at (lookup p f.disk) ≡ current
    → f.quota.limit ≡ pos (suc l)
    → suc l < 2 ^ 63
    → total f.disk + n < 2 ^ 63
    → total f.disk ≤ suc l
    → total (write_over w f p (pos n) current).0.disk ≤ suc l
unfolding write_over write_touched
write_over-total w f p l n current a here limit bound room within =
    elim (Bool-cases (can_fit f.quota (int64 (pos n +ℤ neg (pos current))))) [
      | inr full ↦ rw full within
      | inl fits ↦ elim (Bool-cases w.touch_fails) [
        | inl failed ↦ rw (fits, failed) within
        | inr touched ↦
            rw (fits, touched)
              (elim (Bool-cases (pos n ==ℤ pos 0)) [
                | inl empty ↦ rw empty (ground (arith, total-insert p (regular 0) f.disk, within))
                | inr filled ↦ rw filled (
                    ground (
                      arith,
                      total-insert p (regular (copied_limited w (pos n))) f.disk,
                      here,
                      space fits,
                    ))
              ])
      ]
    ]
  where
    space :
        can_fit f.quota (int64 (pos n +ℤ neg (pos current))) ≡ true
        → total f.disk + n ≤ suc l + current
    space fits =
        can_fit-replaced f.quota l (total f.disk) n current limit a.usage_is
          (ground (arith, bytes_at-total p f.disk, here)) room bound fits

-- Under a positive limit and with a usage that is the bytes on the disk, a disk that holds no more than the limit does so after any Write, even
-- when the reader has more bytes than the size that was asked for, provided that this size and the
-- usage do not exceed an int64 together.
pub write-total :
    (w : World) (f : Filesystem) (p : Text) (l n : ℕ)
    → Accounted f
    → f.quota.limit ≡ pos (suc l)
    → suc l < 2 ^ 63
    → total f.disk + n < 2 ^ 63
    → total f.disk ≤ suc l
    → total (write w f p (pos n)).0.disk ≤ suc l
unfolding write
write-total w f p l n a limit bound room within = elim (Bool-cases w.stat_fails) [
  | inl failed ↦ rw failed within
  | inr found ↦ elim (Option-cases (lookup p f.disk)) [
    | inl missing ↦
        rw (found, missing)
          (write_over-total w f p l n 0 a (ap bytes_at missing) limit bound room within)
    | inr (directory, here) ↦ rw (found, here) within
    | inr (regular current, here) ↦
        rw (found, here)
          (write_over-total w f p l n current a (ap bytes_at here) limit bound room within)
  ]
]
