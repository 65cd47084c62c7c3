-- ===== src/Balancer/Removal.antt =====
-- RemoveNode at a known position: the last node takes the place of the removed one.
use sls.Shared.{
  ℕ, ◌-◌, ◌≤◌, ◌≡◌, refl, ◌≢◌, inl, inr, some, arith, length, get_elem?, set, take, length-set,
  length-take, get_elem?-some_lt, get_elem?-set_self, get_elem?-set_ne, get_elem?-take,
  get_elem?-set_inv, get_elem?-take_inv, Bool-cases, leb, ltb, ◌&&◌,
}
use sls.Shared.Equality.{Eq, beq_refl}
use sls.Shared.Table.{
  lookup, insert, delete, lookup-insert, lookup-delete, lookup-insert_inv, lookup-delete_inv,
}
use sls.Balancer.{BalancedNode, RoundRobin, remove_at, fix_index}
use sls.Balancer.Validity.{IsValid}

module _ {K N : Type 0} ⦃e : Eq K⦄ (methods : BalancedNode K N) where
  open methods use {id, drained}

  moved_indexed :
      (b : RoundRobin K N) (t last : N) (i : ℕ)
      → lookup (id t) b.node_map ≡ some i
      → get_elem? b.nodes (length b.nodes - 1) ≡ some last
      → IsValid methods b
      → (j : ℕ) (n : N) → get_elem? (take (length b.nodes - 1) (set b.nodes i last)) j ≡ some n
      → lookup (id n) (delete (id t) (insert (id last) i b.node_map)) ≡ some j
  moved_indexed b t last i found end v j n h =
      let (inside, at) = get_elem?-take_inv (length b.nodes - 1) (set b.nodes i last) j h in
      elim (get_elem?-set_inv b.nodes i j last at) [
        | inl (here, same) ↦ ground (
          arith,
          here,
          same,
          found,
          v.indexed _ last end,
          lookup-delete (id t) (id n) (insert (id last) i b.node_map),
          lookup-insert (id last) (id n) i b.node_map,
          e.beq_iff (id t) (id n),
          beq_refl (id n),
        )
        | inr (off, old) ↦ ground (
          arith,
          off,
          found,
          v.indexed _ last end,
          v.indexed j n old,
          lookup-delete (id t) (id n) (insert (id last) i b.node_map),
          lookup-insert (id last) (id n) i b.node_map,
          e.beq_iff (id t) (id n),
          e.beq_iff (id last) (id n),
        )
      ]

  moved_mapped :
      (b : RoundRobin K N) (t last : N) (i : ℕ)
      → lookup (id t) b.node_map ≡ some i
      → get_elem? b.nodes (length b.nodes - 1) ≡ some last
      → IsValid methods b
      → (k : K) (j : ℕ) → lookup k (delete (id t) (insert (id last) i b.node_map)) ≡ some j
      → (n : N) × (get_elem? (take (length b.nodes - 1) (set b.nodes i last)) j ≡ some n)
        × (id n ≡ k)
  moved_mapped b t last i found end v k j h =
      let (kept, h') = lookup-delete_inv (id t) k (insert (id last) i b.node_map) h in
      let (m, there, same) = v.mapped (id t) i found in
      elim (lookup-insert_inv (id last) k i b.node_map h') [
        | inl (is_last, here) ↦
            let off_end : i ≢ length b.nodes - 1 =
              λ p. kept (ground (arith, p, there, end, same)) in
            (
              last,
              ground (
                arith,
                here,
                off_end,
                get_elem?-some_lt b.nodes i there,
                get_elem?-take (length b.nodes - 1) (set b.nodes i last) j,
                get_elem?-set_self b.nodes i last,
              ),
              is_last,
            )
        | inr (not_last, old) ↦
            let (n, at, is_n) = v.mapped k j old in
            let off : i ≢ j = λ p. kept (ground (arith, p, there, at, same, is_n)) in
            let off_end : j ≢ length b.nodes - 1 =
              λ p. not_last (ground (arith, p, at, end, is_n)) in
            (
              n,
              ground (
                arith,
                off_end,
                at,
                get_elem?-some_lt b.nodes j at,
                get_elem?-take (length b.nodes - 1) (set b.nodes i last) j,
                get_elem?-set_ne b.nodes i j last off,
              ),
              is_n,
            )
      ]

  fix_index-IsValid :
      (b : RoundRobin K N)
      → ((i : ℕ) (n : N) → get_elem? b.nodes i ≡ some n → lookup (id n) b.node_map ≡ some i)
      → ((k : K) (i : ℕ)
          → lookup k b.node_map ≡ some i
          → (n : N) × (get_elem? b.nodes i ≡ some n) × (id n ≡ k))
      → b.index ≤ length b.nodes
      → IsValid methods (fix_index methods b)
  unfolding fix_index
  fix_index-IsValid b indexed mapped within =
      elim (Bool-cases (leb (length b.nodes) b.index && ltb 0 (length b.nodes))) [
        | inl past ↦ rw past (record { indexed = indexed; mapped = mapped; in_range = inr refl })
        | inr fits ↦
            rw fits (record { indexed = indexed; mapped = mapped; in_range = ground arith })
      ]

  pub remove_at-IsValid :
      (b : RoundRobin K N) (t last : N) (i : ℕ)
      → lookup (id t) b.node_map ≡ some i
      → get_elem? b.nodes (length b.nodes - 1) ≡ some last
      → IsValid methods b
      → IsValid methods (remove_at methods b (id t) i last)
  unfolding remove_at
  remove_at-IsValid b t last i found end v =
      fix_index-IsValid _ (moved_indexed b t last i found end v)
        (moved_mapped b t last i found end v)
        (ground (
          arith,
          v.in_range,
          get_elem?-some_lt b.nodes _ end,
          length-take (length b.nodes - 1) (set b.nodes i last),
          length-set b.nodes i last,
        ))
