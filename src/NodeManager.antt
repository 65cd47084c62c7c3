-- ===== src/NodeManager.antt =====
-- protocube/node/manager.go and health.go: the nodes that are connected, and the balancer over them.
-- A node is any value with an id and the time of its last heartbeat; its other fields are set when it
-- is made, before it is registered. A panic of the balancer is `none`.
pub mod Agreement
mod Examples
use sls.Shared.{ℕ, ◌-◌, ltb, Bool, true, false, Option, none, some, List, [], ◌∷◌, if◌then◌else◌}
use sls.Shared.Equality.{Eq}
use sls.Shared.Table.{Table, lookup, insert, delete}
use sls.Balancer.{BalancedNode, RoundRobin, new_round_robin, add_node, remove_node}

-- `time.Second * 15`, in nanoseconds.
abbrev pub timeout : ℕ
timeout = 15000000000

pub record Manager (K N : Type 0) : Type 0 where
  pub lb : RoundRobin K N
  pub nodes : Table K N

module _ {K N : Type 0} ⦃e : Eq K⦄ (methods : BalancedNode K N) (last_seen : N → ℕ) where
  open methods use {id}

  unfoldable pub new_manager : Manager K N
  new_manager = record { lb = new_round_robin methods; nodes = [] }

  -- Register, from AddNode on.
  unfoldable pub register : Manager K N → N → Option (Manager K N)
  register m n = elim (add_node methods m.lb n) [
    | none ↦ none
    | some lb ↦ some (record { lb = lb; nodes = insert (id n) n m.nodes })
  ]

  unfoldable pub disconnect : Manager K N → N → Option (Manager K N)
  disconnect m n = elim (remove_node methods m.lb n) [
    | none ↦ none
    | some lb ↦ some (record { lb = lb; nodes = delete (id n) m.nodes })
  ]

  unfoldable pub get_node : Manager K N → K → Option N
  get_node m k = lookup k m.nodes

  -- The nodes that the health monitor takes for disconnected.
  unfoldable pub timed_out : ℕ → Table K N → List N
  timed_out now [] = []
  timed_out now ((k, n) ∷ m) =
      let rest = timed_out now m in if ltb timeout (now - last_seen n) then n ∷ rest else rest

  unfoldable pub disconnect_all : Manager K N → List N → Option (Manager K N)
  unfolding disconnect
  disconnect_all m [] = some m
  disconnect_all m (n ∷ ns) = elim (disconnect m n) [ none ↦ none | some m' ↦ disconnect_all m' ns ]

  -- One tick of the health monitor.
  unfoldable pub check_health : ℕ → Manager K N → Option (Manager K N)
  unfolding timed_out disconnect_all
  check_health now m = disconnect_all m (timed_out now m.nodes)

  pub data Event : Type 0 where
    registers disconnects : N → Event
    ticks : ℕ → Event

  unfoldable pub handle : Manager K N → Event → Option (Manager K N)
  unfolding register disconnect check_health
  handle m (registers n) = register m n
  handle m (disconnects n) = disconnect m n
  handle m (ticks now) = check_health now m

  unfoldable pub handle_all : Manager K N → List Event → Option (Manager K N)
  unfolding handle
  handle_all m [] = some m
  handle_all m (x ∷ xs) = elim (handle m x) [ none ↦ none | some m' ↦ handle_all m' xs ]
