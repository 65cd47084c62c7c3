-- ===== src/Balancer/Examples.antt =====
-- The balancer at concrete nodes: tests, and the theorems at inputs that meet their conditions.
use sls.Shared.{
  ℕ, ◌≡◌, refl, inl, Bool, true, false, none, some, [], ◌∷◌, arith, ◌↔◌, ◌==◌, if◌then◌else◌,
}
use sls.Shared.Equality.{nat_eq}
use sls.Shared.Table.{lookup, insert, delete}
use sls.Balancer.{
  BalancedNode, RoundRobin, new_round_robin, add_node, remove_node, remove_at, fix_index, pick_node,
}
use sls.Balancer.Validity.{IsValid, new-IsValid}
use sls.Balancer.Operations.{Keeps, add_node-IsValid, remove_node-IsValid}
use sls.Balancer.Around.{rotation}
use sls.Balancer.Rotation.{
  picks, picks-rotation, pick_node-first_live, Picks, first_live, AllDrained,
}
use sls.Balancer.Directory.{node_of, node_of-remove_node}

-- A node is its id and its drained flag.
abbrev methods : BalancedNode ℕ (ℕ × Bool)
methods = record { id = λ n. n.0; drained = λ n. n.1 }

abbrev three : RoundRobin ℕ (ℕ × Bool)
three = record {
  nodes = (7, false) ∷ (8, true) ∷ (9, false) ∷ [];
  node_map = (7, 0) ∷ (8, 1) ∷ (9, 2) ∷ [];
  index = 1;
}

added_three :
    add_node methods
      (record three { nodes = (7, false) ∷ (8, true) ∷ []; node_map = (7, 0) ∷ (8, 1) ∷ [] })
      (9, false)
    ≡ some three
unfolding add_node lookup insert
added_three = refl

removed_first :
    remove_node methods three (7, true)
    ≡ some
        (record { nodes = (9, false) ∷ (8, true) ∷ []; node_map = (8, 1) ∷ (9, 0) ∷ []; index = 1 })
unfolding remove_node remove_at lookup insert delete fix_index
removed_first = refl

picked_last : pick_node methods three ≡ some (some (9, false), record three { index = 0 })
unfolding pick_node
picked_last = refl

three-IsValid : IsValid methods three
unfolding new_round_robin add_node lookup insert
three-IsValid = record {
  indexed = full.indexed;
  mapped = full.mapped;
  in_range = inl (omega arith);
}
  where
    one : IsValid methods (record { nodes = (7, false) ∷ []; node_map = (7, 0) ∷ []; index = 0 })
    one = add_node-IsValid methods (new_round_robin methods) (7, false) (new-IsValid methods)

    two :
        IsValid methods (record {
          nodes = (7, false) ∷ (8, true) ∷ [];
          node_map = (7, 0) ∷ (8, 1) ∷ [];
          index = 0;
        })
    two = add_node-IsValid methods _ (8, true) one

    full : IsValid methods (record three { index = 0 })
    full = add_node-IsValid methods _ (9, false) two

remove_node-IsValid_example : Keeps methods (IsValid methods) (remove_node methods three (7, true))
remove_node-IsValid_example = remove_node-IsValid methods three (7, true) three-IsValid

pick_node-first_live_example :
    Picks methods three (first_live methods (rotation 1 three.nodes)) (pick_node methods three)
    × ((first_live methods (rotation 1 three.nodes) ≡ none) ↔ AllDrained methods three.nodes)
pick_node-first_live_example = pick_node-first_live methods three three-IsValid

abbrev live : RoundRobin ℕ (ℕ × Bool)
live = record three { nodes = (7, false) ∷ (9, false) ∷ []; index = 1 }

picks-rotation_example : picks methods 2 live ≡ some (some (9, false) ∷ some (7, false) ∷ [], live)
picks-rotation_example = picks-rotation methods live (refl, (refl, tt)) (omega arith)

node_of-remove_node_example :
    Keeps methods
      (λ b'. (k : ℕ) → node_of methods b' k ≡ (if 7 == k then none else node_of methods three k))
      (remove_node methods three (7, true))
node_of-remove_node_example = node_of-remove_node methods three (7, true) three-IsValid
