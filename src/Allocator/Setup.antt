-- ===== src/Allocator/Setup.antt =====
-- NewAllocator: the configuration is read, nothing is in use, and every address has an allocation.
use sls.Shared.{
  ℕ, ◌≤◌, ◌≡◌, ◌≢◌, refl, subst, inl, inr, false, List, [], ◌∷◌, ◌++◌, arith, Among, if◌then◌else◌,
  Bool-cases,
}
use sls.Shared.Equality.{nat_eq, list_eq, list_beq, list_beq_iff}
use sls.Shared.Table.{keys, insert, lookup, lookup-insert, keys-insert}
use sls.Shared.Text.{Text, split_pair, atoi-decimal, AllDigits, Lacks, decimal, max_int}
use sls.Allocator.{
  Allocator, Allocation, ConfigAllocation, PortRange, Result, ok, err, configured, get_range,
  entry_of, add_allocation, add_allocations, new_allocator,
}
use sls.Allocator.Ledger.{is_used}
use sls.Allocator.Config.{InConfig}

-- A port range that is written as two numbers around a minus sign is read as these numbers.
pub get_range-decimal :
    (entry : ConfigAllocation) (c d : ℕ) (a b : Text)
    → entry.ports ≡ (c ∷ a) ++ b'-' ∷ (d ∷ b)
    → AllDigits (c ∷ a)
    → AllDigits (d ∷ b)
    → decimal 0 (c ∷ a) ≤ max_int
    → decimal 0 (d ∷ b) ≤ max_int
    → get_range entry ≡ ok (record { start = decimal 0 (c ∷ a); end = decimal 0 (d ∷ b) })
unfolding get_range
get_range-decimal entry c d a b written da db fa fb =
    rw
      (written, split_pair b'-' (c ∷ a) (d ∷ b) (digits-Lacks (c ∷ a) da) (digits-Lacks (d ∷ b) db))
      (rw (atoi-decimal c a da fa, atoi-decimal d b db fb))
  where
    digits-Lacks : (s : Text) → AllDigits s → Lacks b'-' s
    digits-Lacks [] _ = tt
    digits-Lacks (x ∷ s) (h, hs) = (ground (arith, h), digits-Lacks s hs)

-- Each of the addresses has an allocation.
abbrev pub HasAllocations : Allocator → List Text → Type 0
HasAllocations a order = (address : Text) → Among address order → configured a address ≢ []

-- An allocator that nobody has used yet.
pub record IsFresh (a : Allocator) : Type 0 where
  pub unused : a.used ≡ []
  pub has_ports : HasAllocations a (keys a.allocations)

append-ne-nil : (xs : List Allocation) (x : Allocation) → xs ++ x ∷ [] ≢ []
append-ne-nil [] x e = cc
append-ne-nil (y ∷ xs) x e = cc

-- The entry of an address grows, and the others stay.
configured-add_allocation :
    (a : Allocator) (c : ConfigAllocation) (r : PortRange) (other : Text)
    → configured (add_allocation a c r) other ≡ (
        if list_beq c.address other
        then configured a c.address ++ entry_of c r ∷ []
        else configured a other)
unfolding add_allocation configured
configured-add_allocation a c r other = ground (
  arith,
  lookup-insert c.address other (configured a c.address ++ entry_of c r ∷ []) a.allocations,
)

add_allocation-IsFresh :
    (a : Allocator) (c : ConfigAllocation) (r : PortRange)
    → IsFresh a
    → IsFresh (add_allocation a c r)
add_allocation-IsFresh a c r v = record {
  unused = unfold add_allocation in v.unused;
  has_ports = λ address h. elim (Bool-cases (list_beq c.address address)) [
    | inl same ↦ λ e.
        append-ne-nil (configured a c.address) (entry_of c r)
          (ground (arith, configured-add_allocation a c r address, same, e))
    | inr other ↦ λ e.
        v.has_ports address (known address other h)
          (ground (arith, configured-add_allocation a c r address, other, e))
  ];
}
  where
    known :
        (address : Text)
        → list_beq c.address address ≡ false
        → Among address (keys (add_allocation a c r).allocations)
        → Among address (keys a.allocations)
    known address away h =
        let grown : List Allocation = configured a c.address ++ entry_of c r ∷ [] in
        let written : Among address (keys (insert c.address grown a.allocations)) =
          unfold add_allocation in h in
        elim (keys-insert c.address address grown a.allocations written) [
          | inl same ↦ absurd (ground (arith, away, same, list_beq_iff c.address address))
          | inr old ↦ old
        ]

add_allocations-IsFresh :
    (a b : Allocator) (cs : List ConfigAllocation)
    → IsFresh a
    → add_allocations a cs ≡ ok b
    → IsFresh b
unfolding add_allocations
add_allocations-IsFresh a b [] v e = subst IsFresh (ground (arith, e)) v
add_allocations-IsFresh a b (c ∷ cs) v e =
    go (get_range c) e
      (λ r. add_allocations-IsFresh (add_allocation a c r) b cs (add_allocation-IsFresh a c r v))
  where
    go :
        (r : Result PortRange)
        → (elim r [ err e ↦ err e | ok r ↦ add_allocations (add_allocation a c r) cs ]) ≡ ok b
        → ((r : PortRange) → add_allocations (add_allocation a c r) cs ≡ ok b → IsFresh b)
        → IsFresh b
    go (err x) e later = cc
    go (ok r) e later = later r e

fresh-InConfig : (a : Allocator) → a.used ≡ [] → InConfig a
unfolding is_used lookup
fresh-InConfig a e address p h = absurd (ground (arith, e, h))

-- An allocator that NewAllocator returns has no pair in use, so what is in use is configured, and
-- every address in it has an allocation.
pub new_allocator-IsFresh :
    (cs : List ConfigAllocation) (a : Allocator)
    → new_allocator cs ≡ ok a
    → (a.used ≡ []) × InConfig a × HasAllocations a (keys a.allocations)
unfolding new_allocator
new_allocator-IsFresh cs a e =
    let v = add_allocations-IsFresh _ a cs empty e in
    (v.unused, fresh-InConfig a v.unused, v.has_ports)
  where
    empty : IsFresh (record { used = []; allocations = [] })
    empty = record { unused = refl; has_ports = λ address h. absurd (unfold keys in h) }
