-- ===== src/ServerManager/Examples.antt =====
-- Servers of the control plane: tests, and the theorems at a concrete node.
use sls.Shared.{ℕ, ◌≡◌, refl, Bool, true, false, none, some, [], ◌∷◌}
use sls.Shared.Equality.{nat_eq, list_eq}
use sls.Shared.Outcome.{Outcome, ok, err}
use sls.Shared.Table.{lookup, insert, delete, keys}
use sls.Shared.Text.{Text, codes}
use sls.Allocator.{Allocation, Allocator, Allocations, new_allocation, allocate}
use sls.ServerManager.{
  Builder, Node, Replies, World, Server, Answer, create_server, cleanup_for_destroy, undo_creation,
}
use sls.ServerManager.Removal.{SameState, cleanup_for_destroy-create_server}

-- A configuration that is just the allocations of the server; the blueprint tells whether it is built.
abbrev build_simple : Bool → Allocations → Outcome Text (Allocations × Text)
build_simple true alloc = ok (alloc, codes "install")
build_simple false alloc = err (codes "invalid")

build_simple-keeps :
    (bp : Bool) (alloc c : Allocations) (script : Text)
    → build_simple bp alloc ≡ ok (c, script)
    → c ≡ alloc
build_simple-keeps true alloc c script h = cc
build_simple-keeps false alloc c script h = cc

abbrev simple : Builder Allocations Text Text Bool Text
simple = record {
  build = λ id overrides bp alloc. build_simple bp alloc;
  allocations = λ c. c;
  keeps = λ id overrides bp alloc c script h. build_simple-keeps bp alloc c script h;
  read_back = λ c. c;
  read_back_ip = λ c. refl;
  read_back_port = λ c. refl;
}

abbrev home : Text
home = codes "10.0.0.1"

abbrev two_ports : Allocation
two_ports = record {
  address = home;
  alias = [];
  force_outgoing_ip = false;
  port_range = record { start = 65; end = 66 };
}

abbrev fresh : Allocator
fresh = record { used = []; allocations = (home, two_ports ∷ []) ∷ [] }

abbrev node : Node
node = record { id = codes "n1"; name = codes "North" }

abbrev start : World simple
start = record {
  servers = [];
  records = [];
  allocators = (codes "n1", fresh) ∷ [];
  destroyed = [];
  published = [];
}

abbrev all_well : Replies
all_well = record { stored = true; created = true; removed = true }

abbrev created_in : World simple → Text → Answer simple
created_in w id = create_server simple (λ xs. xs) all_well node id (codes "bp") none true w

abbrev alloc_at : ℕ → Allocations
alloc_at port = record {
  force_outgoing_ip = false;
  ip = home;
  port = port;
  alias = [];
  mappings = (home, port ∷ []) ∷ [];
  release = (home, port);
}

abbrev server_at : Text → ℕ → Server simple
server_at id port = record {
  id = id;
  node_name = codes "North";
  node_id = codes "n1";
  blueprint_id = codes "bp";
  overrides = none;
  configuration = alloc_at port;
  install_script = codes "install";
  connected = true;
  release = some (record { node = codes "n1"; ip = home; port = port });
}

abbrev one : World simple
one = (created_in start (codes "s1")).0

creates_first : created_in start (codes "s1") ≡ (one, ok (server_at (codes "s1") 65))
unfolding create_server new_allocation allocate lookup insert keys
creates_first = refl

second_port : (created_in one (codes "s2")).1 ≡ ok (server_at (codes "s2") 66)
unfolding create_server new_allocation allocate lookup insert keys
second_port = refl

-- A creation that fails keeps its pair: the next server gets the other one.
keeps_pair :
    (created_in
      (create_server simple
        (λ xs. xs)
        (record all_well { stored = false })
        node
        (codes "s1")
        (codes "bp")
        none
        true
        start).0
      (codes "s2")).1
    ≡ ok (server_at (codes "s2") 66)
unfolding create_server new_allocation allocate undo_creation lookup insert delete keys
keeps_pair = refl

-- A node that connects again, with a new allocator, is given servers before its own are attached: the
-- new server gets the pair of the one that runs there.
same_pair :
    (created_in (record one { allocators = (codes "n1", fresh) ∷ [] }) (codes "s2")).1
    ≡ ok (server_at (codes "s2") 65)
unfolding create_server new_allocation allocate lookup insert keys
same_pair = refl

cleanup_for_destroy-create_server_example :
    SameState simple start (cleanup_for_destroy simple true (server_at (codes "s1") 65) one)
unfolding lookup
cleanup_for_destroy-create_server_example =
    cleanup_for_destroy-create_server simple (λ xs. xs) all_well node (codes "s1") (codes "bp") none
      true start fresh refl refl refl one (server_at (codes "s1") 65) creates_first

abbrev two : World simple
two = (created_in one (codes "s2")).0

abbrev after_one : Allocator
after_one = record fresh { used = (home, 65 ∷ []) ∷ [] }
