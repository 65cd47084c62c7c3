-- ===== src/Allocator/Config.antt =====
-- The pairs in use lie in the configured ranges, whatever is allocated, claimed and released.
use sls.Shared.{
  ℕ, ◌≤◌, ◌≡◌, sym, subst, ◌∙◌, inl, inr, ◌==◌, true, ◌&&◌, List, [], ◌∷◌, ◌++◌, arith, Bool-cases,
}
use sls.Shared.Equality.{nat_eq, list_eq, list_beq, list_beq_iff}
use sls.Shared.Text.{Text}
use sls.Allocator.{
  Allocator, Allocation, Result, ok, err, no_allocations, no_free_ports, configured, claim, release,
  allocate, in_range,
}
use sls.Allocator.Ledger.{is_used, is_used-release}
use sls.Allocator.Search.{EndBelow, InRanges}
use sls.Allocator.Calls.{
  SameUse, OneMore, Allocates, IsFirstFree, allocate-Allocates, claim-OneMore, claim_outside,
  in_range-InRanges,
}

abbrev pub InConfig : Allocator → Type 0
InConfig a =
    (address : Text) (p : ℕ) → is_used a address p ≡ true → InRanges p (configured a address)

pub configured_same :
    (a b : Allocator) (address : Text)
    → b.allocations ≡ a.allocations
    → configured b address ≡ configured a address
unfolding configured
configured_same a b address e = rw e

InRanges-middle :
    (before after : List Allocation) (x : Allocation) (p : ℕ)
    → x.port_range.start ≤ p
    → p ≤ x.port_range.end
    → InRanges p (before ++ x ∷ after)
InRanges-middle [] after x p lo hi = inl (lo, hi)
InRanges-middle (y ∷ before) after x p lo hi = inr (InRanges-middle before after x p lo hi)

pub IsFirstFree-InRanges :
    (a : Allocator) (address : Text) (p : ℕ) (x : Allocation)
    → IsFirstFree a address p x
    → InRanges p (configured a address)
IsFirstFree-InRanges a address p x (before, after, cut, sooner, from, to, free, first) =
    subst (InRanges p) (sym cut) (InRanges-middle before after x p from to)

SameUse-InConfig : (a b : Allocator) → SameUse a b → InConfig a → InConfig b
SameUse-InConfig a b same v address p h =
    subst (InRanges p) (sym (configured_same a b address same.same_allocations))
      (v address p (sym (same.same_used address p) ∙ h))

OneMore-InConfig :
    (a b : Allocator) (address : Text) (port : ℕ)
    → OneMore a b address port
    → InRanges port (configured a address)
    → InConfig a
    → InConfig b
OneMore-InConfig a b address port more inside v other p h =
    subst (InRanges p) (sym (configured_same a b other more.same_allocations))
      (elim (Bool-cases (list_beq address other && p == port)) [
        | inl here ↦
            let same : address ≡ other = (list_beq_iff address other).0 (ground (arith, here)) in
            let at : port ≡ p = ground (arith, here) in
            subst (λ o. InRanges p (configured a o)) same
              (subst (λ q. InRanges q (configured a address)) at inside)
        | inr elsewhere ↦ v other p (ground (arith, elsewhere, more.one_more other p, h))
      ])

-- `allocate`, with ranges that end below the largest int and whatever it returns, keeps the pairs in use within the configuration.
pub allocate-InConfig :
    (a : Allocator) (address : Text)
    → EndBelow (configured a address)
    → InConfig a
    → InConfig (allocate a address).0
allocate-InConfig a address below v = go (allocate a address) (allocate-Allocates a address below)
  where
    go : (r : Allocator × Result (ℕ × Allocation)) → Allocates a address r → InConfig r.0
    go (b, ok (p, x)) h =
        OneMore-InConfig a b address p h.0 (IsFirstFree-InRanges a address p x h.1) v
    go (b, err no_allocations) h = SameUse-InConfig a b h.0 v
    go (b, err no_free_ports) h = SameUse-InConfig a b h.0 v
    go (b, err _) h = absurd h

pub claim-InConfig :
    (a : Allocator) (address : Text) (port : ℕ) → InConfig a → InConfig (claim a address port)
claim-InConfig a address port v = elim (Bool-cases (in_range port (configured a address))) [
  | inl inside ↦
      OneMore-InConfig a _ address port (claim-OneMore a address port inside)
        ((in_range-InRanges port (configured a address)).0 inside) v
  | inr outside ↦ subst InConfig (sym (claim_outside a address port outside)) v
]

release_allocations :
    (a : Allocator) (address : Text) (port : ℕ)
    → (release a address port).allocations ≡ a.allocations
unfolding release
release_allocations a address port = ground arith

-- All ranges end below the largest int.
abbrev pub IsBounded : Allocator → Type 0
IsBounded a = (address : Text) → EndBelow (configured a address)

pub same-IsBounded : (a b : Allocator) → b.allocations ≡ a.allocations → IsBounded a → IsBounded b
same-IsBounded a b e h address = subst EndBelow (sym (configured_same a b address e)) (h address)

pub allocate-IsBounded :
    (a : Allocator) (address : Text) → IsBounded a → IsBounded (allocate a address).0
allocate-IsBounded a address v = go (allocate a address) (allocate-Allocates a address (v address))
  where
    go : (r : Allocator × Result (ℕ × Allocation)) → Allocates a address r → IsBounded r.0
    go (b, ok (p, x)) h = same-IsBounded a b h.0.same_allocations v
    go (b, err no_allocations) h = same-IsBounded a b h.0.same_allocations v
    go (b, err no_free_ports) h = same-IsBounded a b h.0.same_allocations v
    go (b, err _) h = absurd h

pub claim-IsBounded :
    (a : Allocator) (address : Text) (port : ℕ) → IsBounded a → IsBounded (claim a address port)
claim-IsBounded a address port v = elim (Bool-cases (in_range port (configured a address))) [
  | inl inside ↦ same-IsBounded a _ (claim-OneMore a address port inside).same_allocations v
  | inr outside ↦ subst IsBounded (sym (claim_outside a address port outside)) v
]

pub release-IsBounded :
    (a : Allocator) (address : Text) (port : ℕ) → IsBounded a → IsBounded (release a address port)
release-IsBounded a address port v = same-IsBounded a _ (release_allocations a address port) v

pub release-InConfig :
    (a : Allocator) (address : Text) (port : ℕ) → InConfig a → InConfig (release a address port)
release-InConfig a address port v other p h =
    subst (InRanges p) (sym (configured_same a _ other (release_allocations a address port)))
      (v other p (ground (arith, h, is_used-release a address other port p)))
