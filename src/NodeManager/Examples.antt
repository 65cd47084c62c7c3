-- ===== src/NodeManager/Examples.antt =====
-- Two nodes, of which one falls silent: a test, and the theorem at it.
use sls.Shared.{ℕ, ◌≡◌, refl, false, some, List, [], ◌∷◌, ◌+◌}
use sls.Shared.Equality.{nat_eq}
use sls.Shared.Table.{lookup, insert, delete}
use sls.Balancer.{BalancedNode, new_round_robin, add_node, remove_node, remove_at, fix_index}
use sls.NodeManager.{
  Event, new_manager, registers, ticks, handle_all, handle, register, disconnect, check_health,
  timed_out, disconnect_all, timeout,
}
use sls.NodeManager.Agreement.{Steps, handle_all-new}

-- A node is its id and the time of its last heartbeat.
abbrev methods : BalancedNode ℕ (ℕ × ℕ)
methods = record { id = λ n. n.0; drained = λ n. false }

abbrev seen : ℕ × ℕ → ℕ
seen n = n.1

abbrev events : List (Event methods seen)
events = registers (7, 0) ∷ registers (8, 20) ∷ ticks (timeout + 10) ∷ []

one_left :
    handle_all methods seen (new_manager methods seen) events
    ≡ some (record {
      lb = record { nodes = (8, 20) ∷ []; node_map = (8, 0) ∷ []; index = 0 };
      nodes = (8, (8, 20)) ∷ [];
    })
unfolding handle_all handle register disconnect check_health timed_out disconnect_all new_manager
    new_round_robin add_node remove_node remove_at fix_index lookup insert delete
one_left = refl

handle_all-new_example :
    Steps methods seen (handle_all methods seen (new_manager methods seen) events)
handle_all-new_example = handle_all-new methods seen events
