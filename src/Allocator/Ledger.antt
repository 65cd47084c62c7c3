-- ===== src/Allocator/Ledger.antt =====
-- The ports in use as a set of pairs of an address and a port, and how each write changes it.
use sls.Shared.{
  ℕ, ◌≡◌, refl, ◌==◌, Bool, ◌&&◌, ◌||◌, not, List, [], ◌∷◌, arith, Option-cases, inl, inr,
}
use sls.Shared.Equality.{nat_eq, list_eq, list_beq_iff, list_beq}
use sls.Shared.Table.{lookup, lookup-insert}
use sls.Shared.Text.{Text}
use sls.Allocator.{Allocator, port_set, contains, remove, release, ensure_used, mark_used}

unfoldable pub is_used : Allocator → Text → ℕ → Bool
unfolding contains
is_used a address p = contains p (port_set (lookup address a.used))

contains-remove : (p q : ℕ) (qs : List ℕ) → contains q (remove p qs) ≡ contains q qs && not (q == p)
unfolding contains remove
contains-remove p q [] = refl
contains-remove p q (r ∷ qs) = ground (arith, contains-remove p q qs)

pub is_used-mark_used :
    (a : Allocator) (address other : Text) (port p : ℕ)
    → is_used (mark_used a address port) other p
      ≡ (list_beq address other && p == port) || is_used a other p
unfolding is_used mark_used
is_used-mark_used a address other port p = ground (
  arith,
  lookup-insert address other (port ∷ port_set (lookup address a.used)) a.used,
  list_beq_iff address other,
)

pub is_used-ensure_used :
    (a : Allocator) (address other : Text) (p : ℕ)
    → is_used (ensure_used a address) other p ≡ is_used a other p
unfolding is_used ensure_used
is_used-ensure_used a address other p = elim (Option-cases (lookup address a.used)) [
  | inl missing ↦
      ground (arith, missing, lookup-insert address other [] a.used, list_beq_iff address other)
  | inr (qs, found) ↦ ground (arith, found)
]

-- Release makes the pair free, whether it was in use or not, and changes nothing else.
pub is_used-release :
    (a : Allocator) (address other : Text) (port p : ℕ)
    → is_used (release a address port) other p
      ≡ is_used a other p && not (list_beq address other && p == port)
unfolding is_used release
is_used-release a address other port p = elim (Option-cases (lookup address a.used)) [
  | inl missing ↦ ground (arith, missing, list_beq_iff address other)
  | inr (qs, found) ↦ ground (
    arith,
    found,
    lookup-insert address other (remove port qs) a.used,
    list_beq_iff address other,
    contains-remove port p qs,
  )
]

pub is_used_lem :
    (a : Allocator) (address : Text) (p : ℕ)
    → is_used a address p ≡ contains p (port_set (lookup address a.used))
unfolding is_used
is_used_lem a address p = refl
