-- ===== src/ServerManager.antt =====
-- protocube/server/manager.go, CleanupForDestroy of protocube/server/server.go, and
-- protocube/server/repository: the servers of the control plane, with their rows in the database and the
-- allocators of the nodes. One call runs at one time. What the database and the node answer is an
-- argument of each call, and so is the builder of configurations, which Filled.antt fills in.
pub mod Lookups
pub mod Creation
pub mod Removal
pub mod Nodes
pub mod Ports
pub mod History
pub mod Filled
pub mod Exclusion
mod Examples
use sls.Shared.{ℕ, ◌≡◌, Bool, true, false, Option, none, some, List, [], ◌∷◌, ◌++◌, if◌then◌else◌}
use sls.Shared.Equality.{nat_eq, list_eq, list_beq}
use sls.Shared.Outcome.{Outcome, ok, err}
use sls.Shared.Table.{Table, lookup, insert, delete}
use sls.Shared.Text.{Text, codes}
use sls.Allocator
use sls.Allocator.{Allocator, Allocations, new_allocation, claim, release}

-- BuildServerConfiguration, as CreateServer uses it, and what the row of a server gives back of its
-- configuration, which it keeps as JSON: not all of it, but where the server listens.
pub record Builder (Configuration Script Overrides Blueprint Failure : Type 0) : Type 0 where
  pub build :
      Text → Option Overrides → Blueprint → Allocations → Outcome Failure (Configuration × Script)
  pub allocations : Configuration → Allocations
  pub keeps :
      (id : Text) (overrides : Option Overrides) (blueprint : Blueprint) (alloc : Allocations)
      (c : Configuration) (script : Script)
      → build id overrides blueprint alloc ≡ ok (c, script)
      → allocations c ≡ alloc
  pub read_back : Configuration → Configuration
  pub read_back_ip : (c : Configuration) → (allocations (read_back c)).ip ≡ (allocations c).ip
  pub read_back_port : (c : Configuration) → (allocations (read_back c)).port ≡ (allocations c).port

-- A closure that releases a pair at the allocator of a node.
pub record Release : Type 0 where
  pub node : Text
  pub ip : Text
  pub port : ℕ

-- What CreateServer reads of the node; its allocator is in the state.
pub record Node : Type 0 where
  pub id : Text
  pub name : Text

-- The answers of the database and of the node in one call.
pub record Replies : Type 0 where
  pub stored : Bool
  pub created : Bool
  pub removed : Bool

pub data Failure (E : Type 0) : Type 0 where
  no_allocation : Allocator.Error → Failure E
  no_configuration : E → Failure E
  not_stored not_created : Failure E

unfoldable pub run_release : Option Release → Table Text Allocator → Table Text Allocator
run_release none allocators = allocators
run_release (some r) allocators = elim (lookup r.node allocators) [
  | none ↦ allocators
  | some a ↦ insert r.node (release a r.ip r.port) allocators
]

abbrev pub allocator_after : Text → Option Allocator → Table Text Allocator → Table Text Allocator
allocator_after node none allocators = allocators
allocator_after node (some a) allocators = insert node a allocators

module _ {Configuration Script Overrides Blueprint E : Type 0}
    (builder : Builder Configuration Script Overrides Blueprint E) where
  -- `status`, the buses and the sinks are not part of the state.
  pub record Server : Type 0 where
    pub id : Text
    pub node_name : Text
    pub node_id : Text
    pub blueprint_id : Text
    pub overrides : Option Overrides
    pub configuration : Configuration
    pub install_script : Script
    pub connected : Bool
    pub release : Option Release

  pub record ServerRecord : Type 0 where
    pub id : Text
    pub node_name : Text
    pub node_id : Text
    pub blueprint_id : Text
    pub overrides : Option Overrides
    pub configuration : Configuration
    pub install_script : Script

  -- The manager's map, the table of the database, the allocators of the nodes that are connected, the
  -- servers whose bus and sinks are destroyed, and the events of the global bus.
  pub record World : Type 0 where
    pub servers : Table Text Server
    pub records : Table Text ServerRecord
    pub allocators : Table Text Allocator
    pub destroyed : List Text
    pub published : List (Text × Text)

  abbrev pub add : Server → World → World
  add s w = record w { servers = insert s.id s w.servers }

  abbrev pub remove : Text → World → World
  remove id w = record w { servers = delete id w.servers }

  abbrev pub store_server : ServerRecord → World → World
  store_server r w = record w { records = insert r.id r w.records }

  abbrev pub remove_server : Bool → Text → World → World
  remove_server removed id w = record w {
    records = if removed then delete id w.records else w.records;
  }

  abbrev pub destroy : Text → World → World
  destroy id w = record w { destroyed = id ∷ w.destroyed }

  -- The deferred function of CreateServer.
  unfoldable pub undo_creation : Replies → Text → World → World
  undo_creation q id w = remove_server q.removed id (destroy id (remove id w))

  abbrev pub new_server :
      Node → Text → Text → Option Overrides → Configuration → Script → Allocations → Server
  new_server node id blueprint_id overrides c script alloc = record {
    id = id;
    node_name = node.name;
    node_id = node.id;
    blueprint_id = blueprint_id;
    overrides = overrides;
    configuration = c;
    install_script = script;
    connected = true;
    release = some (record { node = node.id; ip = alloc.release.0; port = alloc.release.1 });
  }

  -- The row, as it is read again.
  abbrev pub record_of : Server → ServerRecord
  record_of s = record {
    id = s.id;
    node_name = s.node_name;
    node_id = s.node_id;
    blueprint_id = s.blueprint_id;
    overrides = s.overrides;
    configuration = builder.read_back s.configuration;
    install_script = s.install_script;
  }

  abbrev pub Answer : Type 0
  Answer = World × Outcome (Failure E) Server

  abbrev pub ask_node : Replies → Server → World → Answer
  ask_node q s w = if q.created then (w, ok s) else (undo_creation q s.id w, err not_created)

  abbrev pub store_new : Replies → Server → World → Answer
  store_new q s w =
      if q.stored
      then ask_node q s (store_server (record_of s) w)
      else (undo_creation q s.id w, err not_stored)

  abbrev pub with_configuration :
      Replies
      → Node
      → Text
      → Text
      → Option Overrides
      → Allocations
      → World
      → Outcome E (Configuration × Script)
      → Answer
  with_configuration q node id blueprint_id overrides alloc w (err e) =
      (undo_creation q id w, err (no_configuration e))
  with_configuration q node id blueprint_id overrides alloc w (ok (c, script)) =
      let s = new_server node id blueprint_id overrides c script alloc in store_new q s (add s w)

  abbrev pub with_allocation :
      Replies
      → Node
      → Text
      → Text
      → Option Overrides
      → Blueprint
      → World
      → Option Allocator × Allocator.Result Allocations
      → Answer
  with_allocation q node id blueprint_id overrides bp w (a, Allocator.err e) =
      (record w { allocators = allocator_after node.id a w.allocators }, err (no_allocation e))
  with_allocation q node id blueprint_id overrides bp w (a, Allocator.ok alloc) =
      with_configuration q node id blueprint_id overrides alloc
        (record w { allocators = allocator_after node.id a w.allocators })
        (builder.build id overrides bp alloc)

  unfoldable pub create_server :
      (List Text → List Text)
      → Replies
      → Node
      → Text
      → Text
      → Option Overrides
      → Blueprint
      → World
      → Answer
  create_server shuffle q node id blueprint_id overrides bp w =
      with_allocation q node id blueprint_id overrides bp w
        (new_allocation shuffle (lookup node.id w.allocators))

  -- Server.CleanupForDestroy
  unfoldable pub cleanup_for_destroy : Bool → Server → World → World
  unfolding run_release
  cleanup_for_destroy removed s w = remove_server removed s.id (
      remove s.id (record w {
        published = (s.id, codes "deleted") ∷ w.published;
        destroyed = s.id ∷ w.destroyed;
        allocators = run_release s.release w.allocators;
      }))

  abbrev pub release_at : Text → Allocations → Option Release
  release_at node a = some (record { node = node; ip = a.ip; port = a.port })

  abbrev pub attach_server : Node → Server → Server
  attach_server node s = record s {
    connected = true;
    node_name = node.name;
    release = release_at node.id (builder.allocations s.configuration);
  }

  abbrev pub claim_server : Server → Allocator → Allocator
  claim_server s a = let alloc = builder.allocations s.configuration in claim a alloc.ip alloc.port

  -- The servers of a node, changed in place.
  unfoldable pub change_of_node : Text → (Server → Server) → Table Text Server → Table Text Server
  change_of_node node change [] = []
  change_of_node node change ((k, s) ∷ m) =
      (k, if list_beq s.node_id node then change s else s) ∷ change_of_node node change m

  unfoldable pub claim_all : Text → Table Text Server → Allocator → Allocator
  claim_all node [] a = a
  claim_all node ((k, s) ∷ m) a =
      claim_all node m (if list_beq s.node_id node then claim_server s a else a)

  abbrev pub claim_at : Node → World → Option Allocator → Table Text Allocator
  claim_at node w none = w.allocators
  claim_at node w (some a) = insert node.id (claim_all node.id w.servers a) w.allocators

  unfoldable pub attach_node_client_to_servers : Node → World → World
  unfolding change_of_node claim_all
  attach_node_client_to_servers node w = record w {
    servers = change_of_node node.id (attach_server node) w.servers;
    allocators = claim_at node w (lookup node.id w.allocators);
  }

  abbrev pub detach_server : Server → Server
  detach_server s = record s { connected = false; release = none }

  unfoldable pub detach_node_client_from_servers : Text → World → World
  unfolding change_of_node
  detach_node_client_from_servers node w = record w {
    servers = change_of_node node detach_server w.servers;
  }

  -- InitServer of a row that is valid.
  unfoldable pub init_server :
      ServerRecord → Option Node → Table Text Allocator → Server × Table Text Allocator
  init_server r none allocators = (
    record {
      id = r.id;
      node_name = r.node_name;
      node_id = r.node_id;
      blueprint_id = r.blueprint_id;
      overrides = r.overrides;
      configuration = r.configuration;
      install_script = r.install_script;
      connected = false;
      release = none;
    },
    allocators,
  )
  init_server r (some n) allocators = (
    record {
      id = r.id;
      node_name = n.name;
      node_id = r.node_id;
      blueprint_id = r.blueprint_id;
      overrides = r.overrides;
      configuration = r.configuration;
      install_script = r.install_script;
      connected = true;
      release = release_at n.id (builder.allocations r.configuration);
    },
    elim (lookup n.id allocators) [
      | none ↦ allocators
      | some a ↦
          let alloc = builder.allocations r.configuration in
          insert n.id (claim a alloc.ip alloc.port) allocators
    ],
  )
