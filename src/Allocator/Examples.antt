-- ===== src/Allocator/Examples.antt =====
-- The allocator at a concrete configuration: tests, and the theorems at inputs that meet their
-- conditions.
use sls.Shared.{◌≡◌, refl, Bool, true, false, none, some, [], ◌∷◌, ◌^◌, if◌then◌else◌, arith}
use sls.Shared.Equality.{nat_eq, list_eq, list_beq}
use sls.Shared.Table.{lookup, insert, keys}
use sls.Shared.Text.{Text, codes, split, atoi, max_int}
use sls.Allocator.{
  Allocator, Allocation, ConfigAllocation, ok, err, new_allocator, get_range, allocate,
  new_allocation, no_free_ports, Error, configured, entries, scan_range, rounds_of, contains,
}
use sls.Allocator.Calls.{Allocates, allocate-Allocates}
use sls.Allocator.Choice.{HasPorts, Chooses, new_allocation-Chooses}
use sls.Allocator.History.{allocates, claims, releases, Inv, run, run-Inv}
use sls.Allocator.Setup.{new_allocator-IsFresh, HasAllocations}
use sls.Allocator.Search.{EndBelow}
use sls.Allocator.Config.{InConfig, IsBounded}

abbrev home : Text
home = codes "10.0.0.1"

abbrev config : ConfigAllocation
config = record {
  address = home;
  alias = codes "lan";
  force_outgoing_ip = false;
  ports = codes "65-66";
}

abbrev range : Allocation
range = record {
  address = home;
  alias = codes "lan";
  force_outgoing_ip = false;
  port_range = record { start = 65; end = 66 };
}

abbrev fresh : Allocator
fresh = record { used = []; allocations = (home, range ∷ []) ∷ [] }

abbrev one_used : Allocator
one_used = record fresh { used = (home, 65 ∷ []) ∷ [] }

configured_fresh : new_allocator (config ∷ []) ≡ ok fresh
unfolding new_allocator split atoi lookup insert
configured_fresh = refl

first_port : allocate fresh home ≡ (one_used, ok (65, range))
unfolding allocate lookup insert
first_port = refl

none_left :
    (allocate (record fresh { used = (home, 66 ∷ 65 ∷ []) ∷ [] }) home).1 ≡ err no_free_ports
unfolding allocate lookup
none_left = refl

bad_range : get_range (record config { ports = codes "65" }) ≡ err Error.invalid_range
unfolding get_range split
bad_range = refl

fresh-facts : (fresh.used ≡ []) × InConfig fresh × HasAllocations fresh (keys fresh.allocations)
fresh-facts = new_allocator-IsFresh (config ∷ []) fresh configured_fresh

fresh-IsBounded : IsBounded fresh
unfolding configured lookup
fresh-IsBounded address = by_test (list_beq home address)
  where
    by_test : (b : Bool) → EndBelow (entries (if b then some (range ∷ []) else none))
    by_test true = (omega arith, tt)
    by_test false = tt

fresh-HasPorts : HasPorts fresh (keys fresh.allocations)
fresh-HasPorts address h = (fresh-facts.2 address h, fresh-IsBounded address)

-- A range up to the largest int: the port behind it is negative.
wraps :
    scan_range (max_int ∷ []) (rounds_of (record { start = max_int; end = max_int })) max_int
    ≡ some (2 ^ 63)
unfolding scan_range rounds_of contains
wraps = refl

allocate-Allocates_example : Allocates fresh home (allocate fresh home)
allocate-Allocates_example = allocate-Allocates fresh home (fresh-IsBounded home)

run-Inv_example : Inv (
    run
      (record { allocator = fresh; held = [] })
      (allocates home ∷ claims home 66 ∷ releases home 65 ∷ allocates home ∷ []))
run-Inv_example =
    run-Inv (record { allocator = fresh; held = [] })
      (allocates home ∷ claims home 66 ∷ releases home 65 ∷ allocates home ∷ [])
      (record { in_use = tt; once = tt; in_config = fresh-facts.1; bounded = fresh-IsBounded })

new_allocation-Chooses_example : Chooses fresh (new_allocation (λ xs. xs) (some fresh))
new_allocation-Chooses_example =
    new_allocation-Chooses (λ xs. xs) fresh (λ address xs. ((λ h. h), λ h. h)) fresh-HasPorts
