-- ===== src/Allocator.antt =====
-- protocube/node/allocator: the IP and port assignments of one node.
-- A port range is written as two numbers without a sign around a minus sign, so ports are numbers;
-- the mutex makes each method one step. Shuffling the addresses is an argument.
pub mod Ledger
pub mod Search
pub mod Calls
pub mod History
pub mod Config
pub mod Choice
pub mod Takes
pub mod Setup
mod Examples
use sls.Shared.{
  ℕ, zero, suc, ◌+◌, ◌-◌, ◌%◌, ◌^◌, ◌==◌, leb, Bool, true, false, ◌&&◌, ◌||◌, Option, none, some,
  List, [], ◌∷◌, ◌++◌, if◌then◌else◌,
}
use sls.Shared.Equality.{nat_eq, list_eq}
use sls.Shared.Table.{Table, lookup, insert, keys}
use sls.Shared.Text.{Text, split, atoi, max_int}

pub record PortRange : Type 0 where
  pub start : ℕ
  pub end : ℕ

pub record Allocation : Type 0 where
  pub address : Text
  pub alias : Text
  pub force_outgoing_ip : Bool
  pub port_range : PortRange

pub record Allocator : Type 0 where
  pub used : Table Text (List ℕ)  -- ip -> set of ports
  pub allocations : Table Text (List Allocation)  -- address -> allocations

-- `models.Allocation`, an entry of the node's configuration.
pub record ConfigAllocation : Type 0 where
  pub address : Text
  pub alias : Text
  pub force_outgoing_ip : Bool
  pub ports : Text

-- `environment.Allocations`; `release` holds the arguments of the call that its closure makes.
pub record Allocations : Type 0 where
  pub force_outgoing_ip : Bool
  pub ip : Text
  pub port : ℕ
  pub alias : Text
  pub mappings : Table Text (List ℕ)
  pub release : Text × ℕ

pub data Error : Type 0 where
  allocator_is_nil none_configured no_allocations no_free_ports invalid_range bad_number : Error

pub data Result {ℓ} (A : Type ℓ) : Type ℓ where
  ok : A → Result A
  err : Error → Result A

-- `getRange` once both parts are read.
abbrev pub range_of : Option ℕ → Option ℕ → Result PortRange
range_of none end = err bad_number
range_of (some a) none = err bad_number
range_of (some a) (some b) = ok (record { start = a; end = b })

abbrev pub range_of_parts : List Text → Result PortRange
range_of_parts (a ∷ b ∷ []) = range_of (atoi a) (atoi b)
range_of_parts _ = err invalid_range

unfoldable pub get_range : ConfigAllocation → Result PortRange
get_range c = range_of_parts (split c.ports b'-')

abbrev pub entries : Option (List Allocation) → List Allocation
entries none = []
entries (some xs) = xs

-- `a.Allocations[address]`
unfoldable pub configured : Allocator → Text → List Allocation
configured a address = entries (lookup address a.allocations)

unfoldable pub entry_of : ConfigAllocation → PortRange → Allocation
entry_of c r = record {
  address = c.address;
  alias = c.alias;
  force_outgoing_ip = c.force_outgoing_ip;
  port_range = r;
}

-- One round of the loop of NewAllocator.
unfoldable pub add_allocation : Allocator → ConfigAllocation → PortRange → Allocator
unfolding configured entry_of
add_allocation a c r = record a {
  allocations = insert c.address (configured a c.address ++ entry_of c r ∷ []) a.allocations;
}

unfoldable pub add_allocations : Allocator → List ConfigAllocation → Result Allocator
unfolding add_allocation get_range
add_allocations a [] = ok a
add_allocations a (c ∷ cs) = elim (get_range c) [
  | err e ↦ err e
  | ok r ↦ add_allocations (add_allocation a c r) cs
]

unfoldable pub new_allocator : List ConfigAllocation → Result Allocator
unfolding add_allocations
new_allocator cs = add_allocations (record { used = []; allocations = [] }) cs

-- A set of ports: `_, exists := used[port]` and `delete(used, port)`.
unfoldable pub contains : ℕ → List ℕ → Bool
contains p [] = false
contains p (q ∷ qs) = p == q || contains p qs

unfoldable pub remove : ℕ → List ℕ → List ℕ
remove p [] = []
remove p (q ∷ qs) = let rest = remove p qs in if p == q then rest else q ∷ rest

unfoldable pub release : Allocator → Text → ℕ → Allocator
unfolding remove
release a address port = elim (lookup address a.used) [
  | none ↦ a
  | some used ↦ record a { used = insert address (remove port used) a.used }
]

-- The rounds of `for port := start; port <= end; port++`. No int is above the largest one: up to it the
-- loop goes through all ints and does not end by itself.
unfoldable pub rounds_of : PortRange → ℕ
rounds_of r = if r.end == max_int then 2 ^ 64 else suc r.end - r.start

-- The loop over the rounds left; a port that has wrapped around is the word of 64 bits that it is.
unfoldable pub scan_range : List ℕ → ℕ → ℕ → Option ℕ
unfolding contains
scan_range used zero port = none
scan_range used (suc k) port = elim (contains port used) [
  | true ↦ scan_range used k ((port + 1) % 2 ^ 64)
  | false ↦ some port
]

unfoldable pub scan_allocations : List ℕ → List Allocation → Option (ℕ × Allocation)
unfolding scan_range rounds_of
scan_allocations used [] = none
scan_allocations used (x ∷ xs) =
    elim (scan_range used (rounds_of x.port_range) x.port_range.start) [
      | some port ↦ some (port, x)
      | none ↦ scan_allocations used xs
    ]

abbrev pub port_set : Option (List ℕ) → List ℕ
port_set none = []
port_set (some used) = used

-- `used, ok := a.Used[address]; if !ok { … a.Used[address] = used }`
unfoldable pub ensure_used : Allocator → Text → Allocator
ensure_used a address = elim (lookup address a.used) [
  | none ↦ record a { used = insert address [] a.used }
  | some used ↦ a
]

-- `a.Used[address][port] = struct{}{}`
unfoldable pub mark_used : Allocator → Text → ℕ → Allocator
mark_used a address port = record a {
  used = insert address (port ∷ port_set (lookup address a.used)) a.used;
}

-- The search of `allocate` once the address has allocations.
unfoldable pub allocate_from :
    Allocator → Text → List Allocation → Allocator × Result (ℕ × Allocation)
unfolding scan_allocations mark_used
allocate_from a address allocs = elim (scan_allocations (port_set (lookup address a.used)) allocs) [
  | none ↦ (a, err no_free_ports)
  | some (port, x) ↦ (mark_used a address port, ok (port, x))
]

unfoldable pub allocate : Allocator → Text → Allocator × Result (ℕ × Allocation)
unfolding configured ensure_used allocate_from
allocate a address = elim (configured a address) [
  | [] ↦ (a, err no_allocations)
  | x ∷ xs ↦ allocate_from (ensure_used a address) address (x ∷ xs)
]

unfoldable pub in_range : ℕ → List Allocation → Bool
in_range p [] = false
in_range p (x ∷ xs) = leb x.port_range.start p && leb p x.port_range.end || in_range p xs

unfoldable pub claim : Allocator → Text → ℕ → Allocator
unfolding configured in_range ensure_used mark_used
claim a address port =
    let allocs = configured a address in
    if in_range port allocs then mark_used (ensure_used a address) address port else a

abbrev pub answer : Text → ℕ × Allocation → Allocations
answer address (port, x) = record {
  force_outgoing_ip = x.force_outgoing_ip;
  ip = address;
  port = port;
  alias = x.alias;
  mappings = (address, port ∷ []) ∷ [];
  release = (address, port);
}

-- The loop of NewAllocation over the shuffled addresses.
unfoldable pub try_addresses : Allocator → List Text → Allocator × Result Allocations
try_addresses a [] = (a, err no_free_ports)
try_addresses a (address ∷ rest) =
    let (a', r) = allocate a address in
    elim r [
      | ok found ↦ (a', ok (answer address found))
      | err e ↦ elim e [ no_free_ports ↦ try_addresses a' rest | other ↦ (a', err other) ]
    ]

abbrev pub is_empty {ℓ} : {A : Type ℓ} → List A → Bool
is_empty [] = true
is_empty (x ∷ xs) = false

unfoldable pub new_allocation :
    (List Text → List Text) → Option Allocator → Option Allocator × Result Allocations
unfolding try_addresses
new_allocation shuffle none = (none, err allocator_is_nil)
new_allocation shuffle (some a) =
    let (a', r) = try_addresses a (shuffle (keys a.allocations)) in
    if is_empty a.allocations then (some a, err none_configured) else (some a', r)
