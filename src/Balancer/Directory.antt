-- ===== src/Balancer/Directory.antt =====
-- The balancer as a directory from ids to nodes: what registering and removing a node mean,
-- whatever the order of the slice.
use sls.Shared.{
  ℕ, ◌-◌, ◌≡◌, ◌∙◌, inl, inr, Option, none, some, [], ◌∷◌, ◌++◌, arith, length, length-append, leb,
  ltb, ◌&&◌, get_elem?-take, get_elem?, set, take, get_elem?-some_lt, get_elem?-set_self,
  get_elem?-set_ne, get_elem?-append_left, get_elem?-append_length, Bool-cases, Option-cases,
  if◌then◌else◌,
}
use sls.Shared.Equality.{Eq}
use sls.Shared.Table.{lookup, insert, delete, lookup-insert, lookup-delete}
use sls.Balancer.{BalancedNode, RoundRobin, add_node, remove_node, remove_at, fix_index}
use sls.Balancer.Validity.{IsValid}
use sls.Balancer.Operations.{Keeps, add_node_cases, remove_node_cases}

module _ {K N : Type 0} ⦃e : Eq K⦄ (methods : BalancedNode K N) where
  open methods use {id, drained}

  -- The node that is registered under an id.
  unfoldable pub node_of : RoundRobin K N → K → Option N
  node_of b k = elim (lookup k b.node_map) [ none ↦ none | some i ↦ get_elem? b.nodes i ]

  node_of-registered :
      (b : RoundRobin K N) (i : ℕ) (n : N)
      → IsValid methods b
      → get_elem? b.nodes i ≡ some n
      → node_of b (id n) ≡ some n
  unfolding node_of
  node_of-registered b i n v at = rw (v.indexed i n at, node_of) at

  -- A node under an id stands in the slice and has that id.
  node_of-some :
      (b : RoundRobin K N) (k : K) {n : N}
      → IsValid methods b
      → node_of b k ≡ some n
      → (i : ℕ) × (get_elem? b.nodes i ≡ some n) × (id n ≡ k)
  unfolding node_of
  node_of-some b k {n} v h = elim (Option-cases (lookup k b.node_map)) [
    | inl missing ↦ absurd (ground (arith, missing, h))
    | inr (i, found) ↦
        let (m, there, same) = v.mapped k i found in
        let hit : get_elem? b.nodes i ≡ some n = ground (arith, found, h) in
        (i, hit, ground (arith, hit, there, same))
  ]

  node_of-replace :
      (b : RoundRobin K N) (n : N) (i : ℕ)
      → lookup (id n) b.node_map ≡ some i
      → IsValid methods b
      → (k : K)
      → node_of (record b { nodes = set b.nodes i n }) k
        ≡ (if e.beq (id n) k then some n else node_of b k)
  unfolding node_of
  node_of-replace b n i found v k =
      let (m, there, same) = v.mapped (id n) i found in
      let lt = get_elem?-some_lt b.nodes i there in
      elim (Option-cases (lookup k b.node_map)) [
        | inl missing ↦ ground (arith, missing, found, e.beq_iff (id n) k)
        | inr (j, hit) ↦
            let (m', there', same') = v.mapped k j hit in
            ground (
              arith,
              hit,
              found,
              there,
              there',
              same,
              same',
              e.beq_iff (id n) k,
              get_elem?-set_self b.nodes i n lt,
              get_elem?-set_ne b.nodes i j n,
            )
      ]

  node_of-append :
      (b : RoundRobin K N) (n : N)
      → IsValid methods b
      → (k : K)
      → node_of
          (record b {
            nodes = b.nodes ++ n ∷ [];
            node_map = insert (id n) (length (b.nodes ++ n ∷ []) - 1) b.node_map;
          })
          k
        ≡ (if e.beq (id n) k then some n else node_of b k)
  unfolding node_of
  node_of-append b n v k =
      let at_end = length (b.nodes ++ n ∷ []) - 1 in
      let put = lookup-insert (id n) k at_end b.node_map in
      let end : get_elem? (b.nodes ++ n ∷ []) at_end ≡ some n =
        ground (arith, length-append b.nodes (n ∷ []), get_elem?-append_length b.nodes [] n) in
      elim (Bool-cases (e.beq (id n) k)) [
        | inl same ↦ ground (arith, put, same, end)
        | inr other ↦ elim (Option-cases (lookup k b.node_map)) [
          | inl missing ↦ ground (arith, put, other, missing)
          | inr (j, hit) ↦
              let (m, there, _) = v.mapped k j hit in
              ground (
                arith,
                put,
                other,
                hit,
                there,
                get_elem?-append_left b.nodes (n ∷ []) j,
                get_elem?-some_lt b.nodes j there,
              )
        ]
      ]

  -- After AddNode an id is looked up as in a map that was written at the id of the node, whether
  -- the id was new or not.
  pub node_of-add_node :
      (b : RoundRobin K N) (n : N)
      → IsValid methods b
      → Keeps methods
          (λ b'. (k : K) → node_of b' k ≡ (if e.beq (id n) k then some n else node_of b k))
          (add_node methods b n)
  node_of-add_node b n v =
      add_node_cases methods _ b n v (λ _. node_of-append b n v)
        λ i found. node_of-replace b n i found v

  node_of-moved :
      (b : RoundRobin K N) (t last : N) (i : ℕ)
      → lookup (id t) b.node_map ≡ some i
      → get_elem? b.nodes (length b.nodes - 1) ≡ some last
      → IsValid methods b
      → (k : K)
      → node_of
          (record b {
            nodes = take (length b.nodes - 1) (set b.nodes i last);
            node_map = delete (id t) (insert (id last) i b.node_map);
          })
          k
        ≡ (if e.beq (id t) k then none else node_of b k)
  unfolding node_of
  node_of-moved b t last i found end v k =
      let (m, there, same) = v.mapped (id t) i found in
      let cut = lookup-delete (id t) k (insert (id last) i b.node_map) in
      let put = lookup-insert (id last) k i b.node_map in
      let final = v.indexed (length b.nodes - 1) last end in
      elim (Bool-cases (e.beq (id t) k)) [
        | inl gone ↦ ground (arith, cut, gone)
        | inr other ↦ elim (Option-cases (lookup k b.node_map)) [
          | inl missing ↦ ground (arith, cut, put, other, missing, final, e.beq_iff (id last) k)
          | inr (j, hit) ↦
              let (m', there', same') = v.mapped k j hit in
              ground (
                arith,
                cut,
                put,
                hit,
                final,
                end,
                there,
                there',
                same,
                same',
                other,
                found,
                e.beq_iff (id t) k,
                e.beq_iff (id last) k,
                get_elem?-some_lt b.nodes i there,
                get_elem?-some_lt b.nodes j there',
                get_elem?-take (length b.nodes - 1) (set b.nodes i last) j,
                get_elem?-take (length b.nodes - 1) (set b.nodes i last) i,
                get_elem?-set_self b.nodes i last,
                get_elem?-set_ne b.nodes i j last,
              )
        ]
      ]

  node_of-fix_index : (b : RoundRobin K N) (k : K) → node_of (fix_index methods b) k ≡ node_of b k
  unfolding node_of fix_index
  node_of-fix_index b k =
      elim (Bool-cases (leb (length b.nodes) b.index && ltb 0 (length b.nodes))) [
        | inl past ↦ rw past
        | inr fits ↦ rw fits
      ]

  node_of-remove_at :
      (b : RoundRobin K N) (t last : N) (i : ℕ)
      → lookup (id t) b.node_map ≡ some i
      → get_elem? b.nodes (length b.nodes - 1) ≡ some last
      → IsValid methods b
      → (k : K)
      → node_of (remove_at methods b (id t) i last) k
        ≡ (if e.beq (id t) k then none else node_of b k)
  unfolding remove_at
  node_of-remove_at b t last i found end v k =
      node_of-fix_index _ k ∙ node_of-moved b t last i found end v k

  node_of-unknown :
      (b : RoundRobin K N) (t : N)
      → lookup (id t) b.node_map ≡ none
      → (k : K) → node_of b k ≡ (if e.beq (id t) k then none else node_of b k)
  unfolding node_of
  node_of-unknown b t missing k = ground (arith, missing, e.beq_iff (id t) k)

  -- After RemoveNode the id of the node is unknown and every other id is looked up as before,
  -- although the last node has moved.
  pub node_of-remove_node :
      (b : RoundRobin K N) (t : N)
      → IsValid methods b
      → Keeps methods
          (λ b'. (k : K) → node_of b' k ≡ (if e.beq (id t) k then none else node_of b k))
          (remove_node methods b t)
  node_of-remove_node b t v =
      remove_node_cases methods _ b t v (node_of-unknown b t)
        λ i last found end. node_of-remove_at b t last i found end v
