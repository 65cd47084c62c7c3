-- ===== src/Allocator/Takes.antt =====
-- What NewAllocation of protocube/node/allocator/allocator.go does to the pairs in use, for ranges with
-- any end, also where the count of the ports wraps around.
use sls.Shared.{
  ℕ, zero, suc, ◌≡◌, refl, sym, ◌∙◌, inl, inr, false, Option, none, some, List, [], ◌∷◌, arith,
  Bool-cases, if◌then◌else◌,
}
use sls.Shared.Table.{Table, keys, lookup}
use sls.Shared.Equality.{nat_eq, list_eq}
use sls.Shared.Text.{Text}
use sls.Allocator.{
  Allocator, Allocation, Allocations, Result, ok, err, no_free_ports, no_allocations,
  none_configured, configured, contains, port_set, rounds_of, scan_range, scan_allocations,
  allocate_from, allocate, ensure_used, mark_used, answer, try_addresses, new_allocation, is_empty,
}
use sls.Allocator.Ledger.{is_used, is_used_lem}
use sls.Allocator.Calls.{SameUse, OneMore, ensure_used-SameUse, mark_used-OneMore}
use sls.Allocator.Choice.{SameUse-trans}

-- The caller gets a pair that was free and is now in use, and the closure that would release just it.
pub record Takes (a b : Allocator) (out : Allocations) : Type 0 where
  pub one_more : OneMore a b out.ip out.port
  pub was_free : is_used a out.ip out.port ≡ false
  pub mapped : out.mappings ≡ (out.ip, out.port ∷ []) ∷ []
  pub released : out.release ≡ (out.ip, out.port)

abbrev IsFree : List ℕ → Option ℕ → Type 0
IsFree used none = Unit {0}
IsFree used (some p) = contains p used ≡ false

abbrev IsFreeAt : List ℕ → Option (ℕ × Allocation) → Type 0
IsFreeAt used none = Unit {0}
IsFreeAt used (some (p, x)) = contains p used ≡ false

scan_range-IsFree : (used : List ℕ) (k port : ℕ) → IsFree used (scan_range used k port)
unfolding scan_range
scan_range-IsFree used zero port = tt
scan_range-IsFree used (suc k) port = elim (Bool-cases (contains port used)) [
  | inl taken ↦ rw (taken, scan_range) (scan_range-IsFree used k _)
  | inr free ↦ rw (free, scan_range) free
]

scan_allocations-IsFreeAt :
    (used : List ℕ) (xs : List Allocation) → IsFreeAt used (scan_allocations used xs)
unfolding scan_allocations
scan_allocations-IsFreeAt used [] = tt
scan_allocations-IsFreeAt used (x ∷ xs) =
    go (scan_range used (rounds_of x.port_range) x.port_range.start)
      (scan_range-IsFree used (rounds_of x.port_range) x.port_range.start)
      (scan_allocations-IsFreeAt used xs)
  where
    go :
        (r : Option ℕ)
        → IsFree used r
        → IsFreeAt used (scan_allocations used xs)
        → IsFreeAt used (elim r [ some port ↦ some (port, x) | none ↦ scan_allocations used xs ])
    go none h rest = rest
    go (some p) h rest = h

-- A port that is returned was free and is the one more in use; an error changes no use.
abbrev Allots : Allocator → Text → Allocator × Result (ℕ × Allocation) → Type 0
Allots a address (b, ok (p, x)) = OneMore a b address p × (is_used a address p ≡ false)
Allots a address (b, err e) = SameUse a b

allocate_from-Allots :
    (a b : Allocator) (address : Text) (xs : List Allocation)
    → SameUse a b
    → Allots a address (allocate_from b address xs)
unfolding allocate_from
allocate_from-Allots a b address xs same =
    go (scan_allocations used xs) (scan_allocations-IsFreeAt used xs)
  where
    used : List ℕ
    used = port_set (lookup address b.used)

    go :
        (r : Option (ℕ × Allocation))
        → IsFreeAt used r
        → Allots a address (elim r [
          | none ↦ (b, err no_free_ports)
          | some (port, y) ↦ (mark_used b address port, ok (port, y))
        ])
    go none h = same
    go (some (p, y)) h = (
      mark_used-OneMore a b address p same,
      sym (sym (is_used_lem b address p) ∙ same.same_used address p) ∙ h,
    )

SameUse-refl : (a : Allocator) → SameUse a a
SameUse-refl a = record { same_allocations = refl; same_used = λ other p. refl }

allocate-Allots : (a : Allocator) (address : Text) → Allots a address (allocate a address)
unfolding allocate
allocate-Allots a address = go (configured a address)
  where
    go :
        (xs : List Allocation)
        → Allots a address (elim xs [
          | [] ↦ (a, err no_allocations)
          | x ∷ xs ↦ allocate_from (ensure_used a address) address (x ∷ xs)
        ])
    go [] = SameUse-refl a
    go (x ∷ xs) =
        allocate_from-Allots a (ensure_used a address) address (x ∷ xs)
          (ensure_used-SameUse a address)

abbrev Tried : Allocator → Allocator × Result Allocations → Type 0
Tried a (b, ok out) = Takes a b out
Tried a (b, err e) = SameUse a b

Tried-SameUse :
    (a b : Allocator) (r : Allocator × Result Allocations) → SameUse a b → Tried b r → Tried a r
Tried-SameUse a b (c, ok out) same t = record {
  one_more = record {
    same_allocations = t.one_more.same_allocations ∙ same.same_allocations;
    one_more = λ other p. ground (arith, t.one_more.one_more other p, same.same_used other p);
  };
  was_free = sym (same.same_used out.ip out.port) ∙ t.was_free;
  mapped = t.mapped;
  released = t.released;
}
Tried-SameUse a b (c, err e) same t = SameUse-trans a b c same t

try_addresses-Tried : (a : Allocator) (order : List Text) → Tried a (try_addresses a order)
unfolding try_addresses
try_addresses-Tried a [] = SameUse-refl a
try_addresses-Tried a (x ∷ order) =
    go (allocate a x) (allocate-Allots a x) (try_addresses-Tried (allocate a x).0 order)
  where
    go :
        (r : Allocator × Result (ℕ × Allocation))
        → Allots a x r
        → Tried r.0 (try_addresses r.0 order)
        → Tried a (elim r.1 [
          | ok found ↦ (r.0, ok (answer x found))
          | err e ↦ elim e [ no_free_ports ↦ try_addresses r.0 order | other ↦ (r.0, err other) ]
        ])
    go (b, ok (p, y)) h rest = record {
      one_more = h.0;
      was_free = h.1;
      mapped = refl;
      released = refl;
    }
    go (b, err no_free_ports) h rest = Tried-SameUse a b (try_addresses b order) h rest
    go (b, err _) h rest = h

-- What NewAllocation comes to: a pair that was free is taken, or the same pairs are in use.
abbrev pub TakesOrKeeps : Allocator → Option Allocator × Result Allocations → Type 0
TakesOrKeeps a (none, r) = ⊥
TakesOrKeeps a (some b, ok out) = Takes a b out
TakesOrKeeps a (some b, err e) = SameUse a b

-- NewAllocation, for any shuffle and ranges with any end, takes a pair that was free, or fails and
-- leaves the pairs in use as they were.
pub new_allocation-TakesOrKeeps :
    (shuffle : List Text → List Text) (a : Allocator)
    → TakesOrKeeps a (new_allocation shuffle (some a))
unfolding new_allocation
new_allocation-TakesOrKeeps shuffle a =
    go a.allocations (try_addresses a (shuffle (keys a.allocations)))
      (try_addresses-Tried a (shuffle (keys a.allocations)))
  where
    go :
        (m : Table Text (List Allocation)) (r : Allocator × Result Allocations)
        → Tried a r
        → TakesOrKeeps a (if is_empty m then (some a, err none_configured) else (some r.0, r.1))
    go [] r t = SameUse-refl a
    go (x ∷ m) (b, ok out) t = t
    go (x ∷ m) (b, err e) t = t
