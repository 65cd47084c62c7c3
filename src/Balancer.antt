-- ===== src/Balancer.antt =====
-- protocube/balancer: the Balancer interface, the round-robin balancer and the provider.
-- A node is any value with an id and a drained flag; a run-time panic (an index out of range) is
-- `none`.
pub mod Validity
pub mod Removal
pub mod Operations
pub mod Around
pub mod Rotation
pub mod Directory
pub mod Provider
mod Examples
use sls.Shared.{
  ℕ, zero, suc, ◌+◌, ◌-◌, ◌%◌, Bool, true, false, ◌&&◌, Option, none, some, List, [], ◌∷◌, ◌++◌,
  leb, ltb, if◌then◌else◌, length, get_elem?, set, take,
}
use sls.Shared.Equality.{Eq}
use sls.Shared.Table.{Table, lookup, insert, delete}

-- The methods of BalancedNode that the balancer calls.
pub record BalancedNode (K N : Type 0) : Type 0 where
  pub id : N → K
  pub drained : N → Bool

pub record RoundRobin (K N : Type 0) : Type 0 where
  pub nodes : List N
  pub node_map : Table K ℕ  -- id -> index
  pub index : ℕ

module _ {K N : Type 0} ⦃e : Eq K⦄ (methods : BalancedNode K N) where
  open methods use {id, drained}

  unfoldable pub new_round_robin : RoundRobin K N
  new_round_robin = record { nodes = []; node_map = []; index = 0 }

  -- The loop of PickNode over the rounds left; the inner `none` is the nil result.
  unfoldable pub pick_loop : ℕ → RoundRobin K N → Option (Option N × RoundRobin K N)
  pick_loop zero b = some (none, b)
  pick_loop (suc k) b = elim (get_elem? b.nodes b.index) [
    | none ↦ none
    | some n ↦
        let next = record b { index = (b.index + 1) % length b.nodes } in
        elim (drained n) [ true ↦ pick_loop k next | false ↦ some (some n, next) ]
  ]

  unfoldable pub pick_node : RoundRobin K N → Option (Option N × RoundRobin K N)
  unfolding pick_loop
  pick_node b = pick_loop (length b.nodes) b

  unfoldable pub add_node : RoundRobin K N → N → Option (RoundRobin K N)
  add_node b n = elim (lookup (id n) b.node_map) [
    | some i ↦ if ltb i (length b.nodes) then some (record b { nodes = set b.nodes i n }) else none
    | none ↦
        let nodes = b.nodes ++ n ∷ [] in
        some (record b { nodes = nodes; node_map = insert (id n) (length nodes - 1) b.node_map })
  ]

  -- `if b.index >= len(b.nodes) && len(b.nodes) > 0 { b.index = 0 }`
  unfoldable pub fix_index : RoundRobin K N → RoundRobin K N
  fix_index b =
      if leb (length b.nodes) b.index && ltb 0 (length b.nodes) then record b { index = 0 } else b

  -- RemoveNode once the index of the target is known and `last` is read.
  unfoldable pub remove_at : RoundRobin K N → K → ℕ → N → RoundRobin K N
  remove_at b k i last = fix_index (record b {
    nodes = take (length b.nodes - 1) (set b.nodes i last);
    node_map = delete k (insert (id last) i b.node_map);
  })

  unfoldable pub remove_node : RoundRobin K N → N → Option (RoundRobin K N)
  remove_node b target = elim (lookup (id target) b.node_map) [
    | none ↦ some b
    | some i ↦ elim (get_elem? b.nodes (length b.nodes - 1)) [
      | none ↦ none
      | some last ↦ if ltb i (length b.nodes) then some (remove_at b (id target) i last) else none
    ]
  ]

  unfoldable pub list_nodes : RoundRobin K N → List N
  list_nodes b = b.nodes
