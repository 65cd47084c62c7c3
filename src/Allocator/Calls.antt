-- ===== src/Allocator/Calls.antt =====
-- What each call of the allocator does to the pairs in use, on every branch.
use sls.Shared.{
  ℕ, ◌≤◌, ◌<◌, ◌≡◌, ◌≢◌, refl, sym, ap, subst, ◌↔◌, ◌∙◌, inl, inr, ◌==◌, true, false, ◌&&◌, ◌||◌,
  Option, none, some, List, [], ◌∷◌, ◌++◌, arith, Bool-cases,
}
use sls.Shared.Equality.{nat_eq, list_eq, list_beq, list_beq_iff}
use sls.Shared.Table.{lookup}
use sls.Shared.Text.{Text}
use sls.Allocator.{
  Allocator, Allocation, Result, ok, err, no_free_ports, no_allocations, configured, contains,
  port_set, ensure_used, mark_used, allocate, allocate_from, scan_allocations, claim, release,
  in_range,
}
use sls.Allocator.Ledger.{
  is_used, is_used_lem, is_used-mark_used, is_used-ensure_used, is_used-release,
}
use sls.Allocator.Search.{InRanges, FirstFit, scan_allocations-FirstFit, EndBelow}

-- Two allocators have the same pairs in use, under the same configuration.
pub record SameUse (a b : Allocator) : Type 0 where
  pub same_allocations : b.allocations ≡ a.allocations
  pub same_used : (other : Text) (p : ℕ) → is_used b other p ≡ is_used a other p

-- One more pair is in use.
pub record OneMore (a b : Allocator) (address : Text) (port : ℕ) : Type 0 where
  pub same_allocations : b.allocations ≡ a.allocations
  pub one_more :
      (other : Text) (p : ℕ)
      → is_used b other p ≡ (list_beq address other && p == port) || is_used a other p

-- Every port of the ranges of an address is in use.
abbrev pub NoneFree : Allocator → Text → Type 0
NoneFree a address = (q : ℕ) → InRanges q (configured a address) → is_used a address q ≡ true

-- The port is the first free one in the order of the allocations of the address.
abbrev pub IsFirstFree : Allocator → Text → ℕ → Allocation → Type 0
IsFirstFree a address p x =
    (before : List Allocation) × (after : List Allocation) × (configured a address
      ≡ before ++ x ∷ after)
    × ((q : ℕ) → InRanges q before → is_used a address q ≡ true)
    × (x.port_range.start ≤ p)
    × (p ≤ x.port_range.end)
    × (is_used a address p ≡ false)
    × ((q : ℕ) → x.port_range.start ≤ q → q < p → is_used a address q ≡ true)

-- What `allocate` promises, by its result.
abbrev pub Allocates : Allocator → Text → Allocator × Result (ℕ × Allocation) → Type 0
Allocates a address (b, ok (p, x)) = OneMore a b address p × IsFirstFree a address p x
Allocates a address (b, err no_allocations) = SameUse a b × (configured a address ≡ [])
Allocates a address (b, err no_free_ports) =
    SameUse a b × (configured a address ≢ []) × NoneFree a address
Allocates a address (b, err _) = ⊥

pub ensure_used-SameUse : (a : Allocator) (address : Text) → SameUse a (ensure_used a address)
ensure_used-SameUse a address = record {
  same_allocations = unfold ensure_used in ground arith;
  same_used = λ other p. is_used-ensure_used a address other p;
}

pub mark_used-OneMore :
    (a b : Allocator) (address : Text) (port : ℕ)
    → SameUse a b
    → OneMore a (mark_used b address port) address port
mark_used-OneMore a b address port same = record {
  same_allocations = unfold mark_used in same.same_allocations;
  one_more = λ other p.
      is_used-mark_used b address other port p
      ∙ ap (◌||◌ (list_beq address other && p == port)) (same.same_used other p);
}

allocate_from-Allocates :
    (a b : Allocator) (address : Text) (x : Allocation) (xs : List Allocation)
    → configured a address ≡ x ∷ xs
    → EndBelow (x ∷ xs)
    → SameUse a b
    → Allocates a address (allocate_from b address (x ∷ xs))
unfolding allocate_from
allocate_from-Allocates a b address x xs here below same =
    go (scan_allocations used (x ∷ xs)) (scan_allocations-FirstFit used (x ∷ xs) below)
  where
    used : List ℕ
    used = port_set (lookup address b.used)

    in_use : (q : ℕ) → contains q used ≡ is_used a address q
    in_use q = sym (is_used_lem b address q) ∙ same.same_used address q

    go :
        (r : Option (ℕ × Allocation))
        → FirstFit used (x ∷ xs) r
        → Allocates a address (elim r [
          | none ↦ (b, err no_free_ports)
          | some (port, y) ↦ (mark_used b address port, ok (port, y))
        ])
    go none full = (same, (λ e. cc), λ q h. sym (in_use q) ∙ full q (subst (InRanges q) here h))
    go (some (p, y)) (before, after, cut, sooner, from, to, free, first) = (
      mark_used-OneMore a b address p same,
      (
        before,
        after,
        here ∙ cut,
        (λ q h. sym (in_use q) ∙ sooner q h),
        from,
        to,
        sym (in_use p) ∙ free,
        λ q lo hi. sym (in_use q) ∙ first q lo hi,
      ),
    )

-- `allocate` on every branch, with ranges of the address that end below the largest int. A port that it returns is the first free one in the order of the
-- configuration, and becomes the one more in use. It fails for want of ports exactly when every
-- port of every range of the address is in use, and for want of allocations when the address has
-- none; then the same pairs are in use as before.
pub allocate-Allocates :
    (a : Allocator) (address : Text)
    → EndBelow (configured a address)
    → Allocates a address (allocate a address)
unfolding allocate
allocate-Allocates a address below = go (configured a address) refl
  where
    go :
        (xs : List Allocation)
        → configured a address ≡ xs
        → Allocates a address (elim xs [
          | [] ↦ (a, err no_allocations)
          | x ∷ xs ↦ allocate_from (ensure_used a address) address (x ∷ xs)
        ])
    go [] e = (record { same_allocations = refl; same_used = λ other p. refl }, e)
    go (x ∷ xs) e =
        allocate_from-Allocates a (ensure_used a address) address x xs e (subst EndBelow e below)
          (ensure_used-SameUse a address)

pub in_range-InRanges : (p : ℕ) (xs : List Allocation) → (in_range p xs ≡ true) ↔ InRanges p xs
unfolding in_range
in_range-InRanges p [] = ((λ h. cc), λ h. absurd h)
in_range-InRanges p (x ∷ xs) =
    let ih = in_range-InRanges p xs in ((λ h. ground (arith, ih)), λ h. ground (arith, ih))

-- What `claim` promises: one more pair if the port lies in a range of the address.
pub claim-OneMore :
    (a : Allocator) (address : Text) (port : ℕ)
    → in_range port (configured a address) ≡ true
    → OneMore a (claim a address port) address port
unfolding claim
claim-OneMore a address port h =
    rw h (mark_used-OneMore a (ensure_used a address) address port (ensure_used-SameUse a address))

pub claim_outside :
    (a : Allocator) (address : Text) (port : ℕ)
    → in_range port (configured a address) ≡ false
    → claim a address port ≡ a
unfolding claim
claim_outside a address port h = rw h

-- Claim takes a pair into use exactly if its port lies in a range of its address, and changes
-- nothing else.
pub is_used-claim :
    (a : Allocator) (address other : Text) (port p : ℕ)
    → is_used (claim a address port) other p
      ≡ (list_beq address other && p == port && in_range port (configured a address))
        || is_used a other p
is_used-claim a address other port p = elim (Bool-cases (in_range port (configured a address))) [
  | inl inside ↦ ground (arith, inside, (claim-OneMore a address port inside).one_more other p)
  | inr outside ↦
      ground (arith, outside, ap (λ b. is_used b other p) (claim_outside a address port outside))
]

-- With ranges that end below the largest int, releasing a pair that `allocate` returned makes the same pairs be in use as before.
pub release-allocate :
    (a b : Allocator) (address : Text) (port : ℕ) (x : Allocation)
    → EndBelow (configured a address)
    → allocate a address ≡ (b, ok (port, x))
    → (other : Text) (p : ℕ) → is_used (release b address port) other p ≡ is_used a other p
release-allocate a b address port x below h other p =
    elim (Bool-cases (list_beq address other && p == port)) [
      | inl here ↦
          ground
            (arith, is_used-release b address other port p, here, free, list_beq_iff address other)
      | inr elsewhere ↦
          ground (arith, is_used-release b address other port p, elsewhere, held.0.one_more other p)
    ]
  where
    held : Allocates a address (b, ok (port, x))
    held = subst (Allocates a address) h (allocate-Allocates a address below)

    free : is_used a address port ≡ false
    free = held.1.6
