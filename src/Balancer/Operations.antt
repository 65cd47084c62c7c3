-- ===== src/Balancer/Operations.antt =====
-- AddNode and RemoveNode as a whole: no panic, and the invariant is kept.
use sls.Shared.{
  ℕ, ◌-◌, ◌<◌, ◌≡◌, inl, inr, Option, none, some, [], ◌∷◌, ◌++◌, arith, length, get_elem?, set,
  get_elem?-some_lt, get_elem?-lt_some, Option-cases, lt→ltb,
}
use sls.Shared.Equality.{Eq}
use sls.Shared.Table.{lookup, insert}
use sls.Balancer.{BalancedNode, RoundRobin, add_node, remove_node, remove_at}
use sls.Balancer.Validity.{IsValid, append-IsValid, replace-IsValid}
use sls.Balancer.Removal.{remove_at-IsValid}

module _ {K N : Type 0} ⦃e : Eq K⦄ (methods : BalancedNode K N) where
  open methods use {id, drained}

  -- What an operation returns is a balancer with `P`: it does not panic.
  abbrev pub Keeps : (RoundRobin K N → Type 0) → Option (RoundRobin K N) → Type 0
  Keeps P none = ⊥
  Keeps P (some b) = P b

  pub Keeps-mono :
      {P Q : RoundRobin K N → Type 0} (r : Option (RoundRobin K N))
      → ((b : RoundRobin K N) → P b → Q b)
      → Keeps P r
      → Keeps Q r
  Keeps-mono none f h = h
  Keeps-mono (some b) f h = f b h

  -- The two ways in which a node is registered with a valid balancer.
  pub add_node_cases :
      (P : RoundRobin K N → Type 0) (b : RoundRobin K N) (n : N)
      → IsValid methods b
      → (lookup (id n) b.node_map ≡ none
          → P (record b {
            nodes = b.nodes ++ n ∷ [];
            node_map = insert (id n) (length (b.nodes ++ n ∷ []) - 1) b.node_map;
          }))
      → ((i : ℕ) → lookup (id n) b.node_map ≡ some i → P (record b { nodes = set b.nodes i n }))
      → Keeps P (add_node methods b n)
  unfolding add_node
  add_node_cases P b n v appended replaced = elim (Option-cases (lookup (id n) b.node_map)) [
    | inl missing ↦ rw (missing, add_node) (appended missing)
    | inr (i, found) ↦
        let (m, there, _) = v.mapped (id n) i found in
        rw (found, add_node, lt→ltb i (length b.nodes) (get_elem?-some_lt b.nodes i there))
          (replaced i found)
  ]

  -- A node that is removed is unknown, or the last node takes its place.
  pub remove_node_cases :
      (P : RoundRobin K N → Type 0) (b : RoundRobin K N) (t : N)
      → IsValid methods b
      → (lookup (id t) b.node_map ≡ none → P b)
      → ((i : ℕ) (last : N)
          → lookup (id t) b.node_map ≡ some i
          → get_elem? b.nodes (length b.nodes - 1) ≡ some last
          → P (remove_at methods b (id t) i last))
      → Keeps P (remove_node methods b t)
  unfolding remove_node
  remove_node_cases P b t v unknown removed = elim (Option-cases (lookup (id t) b.node_map)) [
    | inl missing ↦ rw (missing, remove_node) (unknown missing)
    | inr (i, found) ↦
        let (m, there, _) = v.mapped (id t) i found in
        let lt : i < length b.nodes = get_elem?-some_lt b.nodes i there in
        let (last, end) = get_elem?-lt_some b.nodes (length b.nodes - 1) (omega arith) in
        rw (found, remove_node, end, lt→ltb i (length b.nodes) lt) (removed i last found end)
  ]

  -- Registering a node never panics and keeps the balancer valid.
  pub add_node-IsValid :
      (b : RoundRobin K N) (n : N)
      → IsValid methods b
      → Keeps (IsValid methods) (add_node methods b n)
  add_node-IsValid b n v =
      add_node_cases (IsValid methods) b n v (λ missing. append-IsValid methods b n missing v)
        λ i found. replace-IsValid methods b n i found v

  -- Removing a node, registered or not, never panics and keeps the balancer valid.
  pub remove_node-IsValid :
      (b : RoundRobin K N) (t : N)
      → IsValid methods b
      → Keeps (IsValid methods) (remove_node methods b t)
  remove_node-IsValid b t v =
      remove_node_cases (IsValid methods) b t v (λ _. v)
        λ i last found end. remove_at-IsValid methods b t last i found end v
