-- ===== src/Filesystem/Unlinking.antt =====
-- What unlinkat of daemon/internal/ufs/fs_quota.go does to the usage.
use sls.Shared.{
  if◌then◌else◌, ℕ, ◌-◌, ◌≡◌, refl, ap, ◌∙◌, inl, inr, some, arith, Bool-cases, true, false,
}
use sls.Shared.Equality.{nat_eq, list_eq}
use sls.Shared.Table.{lookup, delete}
use sls.Shared.Text.{Text}
use sls.Shared.Int.{pos}
use sls.Filesystem.{regular, Filesystem, World, unlinkat, unix_unlinkat, account_unlink}
use sls.Filesystem.Total.{total, bytes_at-total, total-delete}
use sls.Filesystem.Accounting.{Accounted, shrunk, shrunk-usage}

account_unlink_lem :
    (w : World) (f : Filesystem) (p : Text) (size : ℕ)
    → w.stat_fails ≡ false
    → lookup p f.disk ≡ some (regular size)
    → account_unlink w f p ≡ record f { quota = shrunk f size }
unfolding account_unlink
account_unlink_lem w f p size found here = rw (found, here) refl

unix_unlinkat_ok :
    (w : World) (g : Filesystem) (p : Text) (size : ℕ)
    → lookup p g.disk ≡ some (regular size)
    → w.unlink_fails ≡ false
    → (unix_unlinkat w g p).0 ≡ record g { disk = delete p g.disk }
unfolding unix_unlinkat
unix_unlinkat_ok w g p size here unlinked = rw (unlinked, here) refl

unix_unlinkat_failed :
    (w : World) (g : Filesystem) (p : Text) → w.unlink_fails ≡ true → (unix_unlinkat w g p).0 ≡ g
unfolding unix_unlinkat
unix_unlinkat_failed w g p failed = rw failed refl

-- With a usage that is the bytes on the disk, unlinkat of a regular file whose Lstatat succeeds takes
-- its size off the usage, also when the unlink fails and the file stays on the disk: only when it succeeds does the disk hold as much less.
pub unlinkat_lem :
    (w : World) (f : Filesystem) (p : Text) (size : ℕ)
    → Accounted f
    → w.stat_fails ≡ false
    → lookup p f.disk ≡ some (regular size)
    → ((unlinkat w f p).0.quota.usage ≡ pos (total f.disk - size))
      × (total (unlinkat w f p).0.disk
          ≡ (if w.unlink_fails then total f.disk else total f.disk - size))
unfolding unlinkat
unlinkat_lem w f p size a found here = elim (Bool-cases w.unlink_fails) [
  | inl failed ↦
      let after : (unlinkat w f p).0 ≡ less = first ∙ unix_unlinkat_failed w less p failed in
      (
        ap (λ (g : Filesystem). g.quota.usage) after ∙ off_usage,
        ap (λ (g : Filesystem). total g.disk) after ∙ rw failed refl,
      )
  | inr unlinked ↦
      let after : (unlinkat w f p).0 ≡ record less { disk = delete p f.disk } =
        first ∙ unix_unlinkat_ok w less p size here unlinked in
      (
        ap (λ (g : Filesystem). g.quota.usage) after ∙ off_usage,
        ap (λ (g : Filesystem). total g.disk) after ∙ off_disk ∙ rw unlinked refl,
      )
]
  where
    less : Filesystem
    less = record f { quota = shrunk f size }

    first : (unlinkat w f p).0 ≡ (unix_unlinkat w less p).0
    first =
        ap (λ (g : Filesystem). (unix_unlinkat w g p).0) (account_unlink_lem w f p size found here)

    off_usage : (shrunk f size).usage ≡ pos (total f.disk - size)
    off_usage = shrunk-usage f size a (ground (arith, here, bytes_at-total p f.disk))

    off_disk : total (delete p f.disk) ≡ total f.disk - size
    off_disk = ground (arith, total-delete p f.disk a.once, here)
