-- ===== src/ServerManager/Exclusion.antt =====
-- No two servers of a node have the same pair, after any history of the control plane.
use sls.Shared.{◌≡◌, Bool, Option, none, some, List}
use sls.Shared.Equality.{nat_eq, list_eq}
use sls.Shared.Table.{lookup}
use sls.Shared.Text.{Text}
use sls.Allocator.{Allocator}
use sls.ServerManager.{Builder, Node, Replies, World, Server, create_server, cleanup_for_destroy}
use sls.ServerManager.Ports.{Has}
use sls.ServerManager.History.{register, disconnect, AllInside}

module _ {Configuration Script Overrides Blueprint E : Type 0}
    (builder : Builder Configuration Script Overrides Blueprint E) where
  -- One call. A creation is on a node that is connected, with an id that is new; a node registers with
  -- an allocator whose ranges hold the pairs of its servers,
  -- and claims them before there is another call.
  pub data Step : World builder → World builder → Type 0 where
    creates :
        (shuffle : List Text → List Text) (q : Replies) (node : Node) (id blueprint_id : Text)
        (overrides : Option Overrides) (bp : Blueprint) (w : World builder) (a : Allocator)
        → lookup node.id w.allocators ≡ some a
        → lookup id w.servers ≡ none
        → lookup id w.records ≡ none
        → Step w (create_server builder shuffle q node id blueprint_id overrides bp w).0
    destroys :
        (removed : Bool) (k : Text) (s : Server builder) (w : World builder)
        → Has builder w k s
        → Step w (cleanup_for_destroy builder removed s w)
    registers :
        (node : Node) (a : Allocator) (w : World builder)
        → AllInside builder node.id a w
        → Step w (register builder node a w)
    disconnects : (node : Text) (w : World builder) → Step w (disconnect builder node w)

  pub data Steps : World builder → World builder → Type 0 where
    stop : (w : World builder) → Steps w w
    next : (w w' w'' : World builder) → Step w w' → Steps w' w'' → Steps w w''
