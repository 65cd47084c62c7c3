-- ===== src/Allocator/Choice.antt =====
-- NewAllocation: a port at some address, tried in the shuffled order.
use sls.Shared.{
  ℕ, ◌≡◌, ◌≢◌, refl, sym, subst, ◌∙◌, inl, inr, ◌↔◌, false, Option, some, List, [], ◌∷◌, arith,
  Among, if◌then◌else◌,
}
use sls.Shared.Equality.{nat_eq, list_eq}
use sls.Shared.Table.{Table, keys}
use sls.Shared.Text.{Text}
use sls.Allocator.{
  Allocator, Allocation, Allocations, Result, ok, err, no_allocations, no_free_ports,
  none_configured, allocate, configured, answer, try_addresses, new_allocation, is_empty,
}
use sls.Allocator.Ledger.{is_used}
use sls.Allocator.Search.{InRanges, EndBelow}
use sls.Allocator.Calls.{SameUse, OneMore, Allocates, NoneFree, allocate-Allocates}
use sls.Allocator.Config.{configured_same, IsFirstFree-InRanges}

-- What a caller gets: a pair that was free, lies in the configuration, and is now in use; and the
-- closure that would release just that pair.
pub record Serves (a b : Allocator) (out : Allocations) : Type 0 where
  pub one_more : OneMore a b out.ip out.port
  pub was_free : is_used a out.ip out.port ≡ false
  pub inside : InRanges out.port (configured a out.ip)
  pub mapped : out.mappings ≡ (out.ip, out.port ∷ []) ∷ []
  pub released : out.release ≡ (out.ip, out.port)

-- The tried addresses, once the loop has ended.
abbrev pub Tries : Allocator → List Text → Allocator × Result Allocations → Type 0
Tries a order (b, ok out) = Serves a b out × Among out.ip order
Tries a order (b, err no_free_ports) =
    SameUse a b × ((address : Text) → Among address order → NoneFree a address)
Tries a order (b, err _) = ⊥

pub SameUse-trans : (a b c : Allocator) → SameUse a b → SameUse b c → SameUse a c
SameUse-trans a b c f g = record {
  same_allocations = g.same_allocations ∙ f.same_allocations;
  same_used = λ other p. g.same_used other p ∙ f.same_used other p;
}

NoneFree-SameUse :
    (a b : Allocator) (address : Text) → SameUse a b → NoneFree b address → NoneFree a address
NoneFree-SameUse a b address same full q h =
    sym (same.same_used address q)
    ∙ full q (subst (InRanges q) (sym (configured_same a b address same.same_allocations)) h)

Serves-SameUse :
    (a b c : Allocator) (out : Allocations) → SameUse a b → Serves b c out → Serves a c out
Serves-SameUse a b c out same s = record {
  one_more = record {
    same_allocations = s.one_more.same_allocations ∙ same.same_allocations;
    one_more = λ other p. ground (arith, s.one_more.one_more other p, same.same_used other p);
  };
  was_free = sym (same.same_used out.ip out.port) ∙ s.was_free;
  inside = subst (InRanges out.port) (configured_same a b out.ip same.same_allocations) s.inside;
  mapped = s.mapped;
  released = s.released;
}

-- Each of the addresses has an allocation, and its ranges end below the largest int.
abbrev pub HasPorts : Allocator → List Text → Type 0
HasPorts a order =
    (address : Text)
    → Among address order
    → (configured a address ≢ []) × EndBelow (configured a address)

try_addresses-Tries :
    (a : Allocator) (order : List Text) → HasPorts a order → Tries a order (try_addresses a order)
unfolding try_addresses
try_addresses-Tries a [] has =
    (record { same_allocations = refl; same_used = λ other p. refl }, λ address h. absurd h)
try_addresses-Tries a (x ∷ order) has =
    go (allocate a x) (allocate-Allocates a x (has x (inl refl)).1)
      (try_addresses-Tries (allocate a x).0 order)
  where
    later :
        (b : Allocator) (r : Allocator × Result Allocations)
        → SameUse a b
        → NoneFree a x
        → Tries b order r
        → Tries a (x ∷ order) r
    later b (c, ok out) same full t = (Serves-SameUse a b c out same t.0, inr t.1)
    later b (c, err no_free_ports) same full t = (
      SameUse-trans a b c same t.0,
      λ address h. elim h [
        | inl here ↦ subst (NoneFree a) (sym here) full
        | inr there ↦ NoneFree-SameUse a b address same (t.1 address there)
      ],
    )
    later b (c, err _) same full t = absurd t

    go :
        (r : Allocator × Result (ℕ × Allocation))
        → Allocates a x r
        → (HasPorts r.0 order → Tries r.0 order (try_addresses r.0 order))
        → Tries a (x ∷ order) (elim r.1 [
          | ok found ↦ (r.0, ok (answer x found))
          | err e ↦ elim e [ no_free_ports ↦ try_addresses r.0 order | other ↦ (r.0, err other) ]
        ])
    go (b, ok (p, y)) h rest = (
      record {
        one_more = h.0;
        was_free = h.1.6;
        inside = IsFirstFree-InRanges a x p y h.1;
        mapped = refl;
        released = refl;
      },
      inl refl,
    )
    go (b, err no_free_ports) h rest = later b _ h.0 h.2 (
        rest λ address at.
          let same = configured_same a b address h.0.same_allocations in
          let (some_ports, below) = has address (inr at) in
          ((λ e. some_ports (sym same ∙ e)), subst EndBelow (sym same) below))
    go (b, err no_allocations) h rest = absurd ((has x (inl refl)).0 h.1)
    go (b, err _) h rest = absurd h

-- What NewAllocation promises, by its result: an allocator is there, and either a pair is served, or
-- nothing is configured, or no configured address has a free port.
abbrev pub Chooses : Allocator → Option Allocator × Result Allocations → Type 0
Chooses a (some b, ok out) = Serves a b out
Chooses a (some b, err none_configured) = (b ≡ a) × (a.allocations ≡ [])
Chooses a (some b, err no_free_ports) =
    SameUse a b × ((address : Text) → Among address (keys a.allocations) → NoneFree a address)
Chooses a _ = ⊥

-- NewAllocation on every branch, for any shuffle that keeps the elements and with allocations of each
-- address, whose ranges end below the largest int: it serves a free pair of
-- some configured address, or reports that nothing is configured, or that no port of any configured
-- address is free; in the last two cases the same pairs are in use as before.
pub new_allocation-Chooses :
    (shuffle : List Text → List Text) (a : Allocator)
    → ((address : Text) (xs : List Text) → Among address (shuffle xs) ↔ Among address xs)
    → HasPorts a (keys a.allocations)
    → Chooses a (new_allocation shuffle (some a))
unfolding new_allocation
new_allocation-Chooses shuffle a permutes has =
    go a.allocations refl (try_addresses a (shuffle (keys a.allocations))) (
      try_addresses-Tries a (shuffle (keys a.allocations))
        λ address h. has address ((permutes address (keys a.allocations)).0 h))
  where
    go :
        (m : Table Text (List Allocation))
        → a.allocations ≡ m
        → (r : Allocator × Result Allocations) → Tries a (shuffle (keys a.allocations)) r
        → Chooses a (if is_empty m then (some a, err none_configured) else (some r.0, r.1))
    go [] e r t = (refl, e)
    go (x ∷ m) e (b, ok out) t = t.0
    go (x ∷ m) e (b, err no_free_ports) t =
        (t.0, λ address h. t.1 address ((permutes address (keys a.allocations)).1 h))
    go (x ∷ m) e (b, err _) t = absurd t
