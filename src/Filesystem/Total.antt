-- ===== src/Filesystem/Total.antt =====
-- The bytes that a disk holds, and how a written or deleted entry changes them.
use sls.Shared.{
  ℕ, ◌+◌, ◌≤◌, ◌≡◌, refl, ap, inl, inr, Option, none, some, [], ◌∷◌, arith, Bool-cases,
}
use sls.Shared.Equality.{nat_eq, list_eq, list_beq, list_beq_iff}
use sls.Shared.Table.{Table, lookup, insert, delete, lookup-insert, lookup-delete}
use sls.Shared.Text.{Text}
use sls.Filesystem.{Entry, directory, regular}

abbrev pub bytes : Entry → ℕ
bytes directory = 0
bytes (regular n) = n

-- The sizes of the regular files, summed up.
unfoldable pub total : Table Text Entry → ℕ
total [] = 0
total ((p, x) ∷ m) = bytes x + total m

abbrev pub bytes_at : Option Entry → ℕ
bytes_at none = 0
bytes_at (some x) = bytes x

-- No path has a second entry.
unfoldable pub Once : Table Text Entry → Type 0
Once [] = Unit
Once ((p, x) ∷ m) = (lookup p m ≡ none) × Once m

pub bytes_at-total : (p : Text) (m : Table Text Entry) → bytes_at (lookup p m) ≤ total m
unfolding total lookup
bytes_at-total p [] = ground arith
bytes_at-total p ((q, y) ∷ m) = ground (arith, bytes_at-total p m)

pub total-insert :
    (p : Text) (x : Entry) (m : Table Text Entry)
    → total (insert p x m) + bytes_at (lookup p m) ≡ total m + bytes x
unfolding total insert lookup
total-insert p x [] = ground arith
total-insert p x ((q, y) ∷ m) = ground (arith, total-insert p x m)

pub Once-insert : (p : Text) (x : Entry) (m : Table Text Entry) → Once m → Once (insert p x m)
unfolding insert Once lookup
Once-insert p x [] h = (refl, tt)
Once-insert p x ((q, y) ∷ m) (h, hs) = elim (Bool-cases (list_beq q p)) [
  | inl same ↦ rw (same, Once) (ground (arith, list_beq_iff q p, same, h), hs)
  | inr other ↦
      rw (other, Once)
        (
          ground (arith, lookup-insert p q x m, list_beq_iff p q, list_beq_iff q p, other, h),
          Once-insert p x m hs,
        )
]

delete-missing : (p : Text) (m : Table Text Entry) → lookup p m ≡ none → delete p m ≡ m
unfolding delete lookup
delete-missing p [] h = refl
delete-missing p ((q, y) ∷ m) h = ground (arith, delete-missing p m)

pub total-delete :
    (p : Text) (m : Table Text Entry)
    → Once m
    → total (delete p m) + bytes_at (lookup p m) ≡ total m
unfolding total delete lookup Once
total-delete p [] h = ground arith
total-delete p ((q, y) ∷ m) (h, hs) = elim (Bool-cases (list_beq q p)) [
  | inl same ↦ ground (arith, list_beq_iff q p, same, h, ap total (delete-missing q m h))
  | inr other ↦ ground (arith, total-delete p m hs, other)
]

pub Once-delete : (p : Text) (m : Table Text Entry) → Once m → Once (delete p m)
unfolding delete Once lookup
Once-delete p [] h = tt
Once-delete p ((q, y) ∷ m) (h, hs) = elim (Bool-cases (list_beq q p)) [
  | inl same ↦ rw same (Once-delete p m hs)
  | inr other ↦
      rw (other, Once)
        (
          ground (arith, lookup-delete p q m, list_beq_iff p q, list_beq_iff q p, other, h),
          Once-delete p m hs,
        )
]
