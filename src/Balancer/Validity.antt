-- ===== src/Balancer/Validity.antt =====
-- The invariant of the round-robin balancer, and the two ways in which AddNode keeps it.
use sls.Shared.{
  ℕ, ◌-◌, ◌<◌, ◌≡◌, refl, ◌⊎◌, inl, inr, none, some, [], ◌∷◌, ◌++◌, arith, length, get_elem?, set,
  length-append, length-set, get_elem?-some_lt, get_elem?-set_self, get_elem?-set_ne,
  get_elem?-append_left, get_elem?-append_length, get_elem?-append_inv, get_elem?-set_inv,
}
use native.Mathlib.Decide.{ℕ_discrete}
use sls.Shared.Equality.{Eq, beq_refl}
use sls.Shared.Table.{lookup, insert, lookup-insert, lookup-insert_inv}
use sls.Balancer.{BalancedNode, RoundRobin, new_round_robin}

module _ {K N : Type 0} ⦃e : Eq K⦄ (methods : BalancedNode K N) where
  open methods use {id, drained}

  -- Every node stands where the map says, the map names no other position, and the next index is
  -- a position unless there is none.
  pub record IsValid (b : RoundRobin K N) : Type 0 where
    pub indexed : (i : ℕ) (n : N) → get_elem? b.nodes i ≡ some n → lookup (id n) b.node_map ≡ some i
    pub mapped :
        (k : K) (i : ℕ)
        → lookup k b.node_map ≡ some i
        → (n : N) × (get_elem? b.nodes i ≡ some n) × (id n ≡ k)
    pub in_range : (b.index < length b.nodes) ⊎ (b.index ≡ 0)

  pub new-IsValid : IsValid (new_round_robin methods)
  unfolding new_round_robin lookup
  new-IsValid = record { indexed = λ i n h. cc; mapped = λ k i h. cc; in_range = inr refl }

  -- A registered node is replaced where it stands.
  pub replace-IsValid :
      (b : RoundRobin K N) (n : N) (i : ℕ)
      → lookup (id n) b.node_map ≡ some i
      → IsValid b
      → IsValid (record b { nodes = set b.nodes i n })
  replace-IsValid b n i found v = record {
    indexed = λ j m h. elim (get_elem?-set_inv b.nodes i j n h) [
      | inl (at, e) ↦ ground (arith, at, e, found)
      | inr (_, e) ↦ v.indexed j m e
    ];
    mapped = λ k j h. elim (ℕ_discrete i j) [
      | yes at ↦
          let (m, there, same) = v.mapped (id n) i found in
          let (m', there', same') = v.mapped k j h in
          (
            n,
            ground (arith, get_elem?-set_self b.nodes i n, get_elem?-some_lt b.nodes i there),
            ground (arith, at, there, there', same, same'),
          )
      | no off ↦
          let (m', there', same') = v.mapped k j h in
          (m', ground (arith, get_elem?-set_ne b.nodes i j n off, there'), same')
    ];
    in_range = elim v.in_range [
      | inl lt ↦ inl (omega (arith, length-set b.nodes i n))
      | inr e ↦ inr e
    ];
  }

  pub append-IsValid :
      (b : RoundRobin K N) (n : N)
      → lookup (id n) b.node_map ≡ none
      → IsValid b
      → IsValid (record b {
        nodes = b.nodes ++ n ∷ [];
        node_map = insert (id n) (length (b.nodes ++ n ∷ []) - 1) b.node_map;
      })
  append-IsValid b n missing v = record {
    indexed = λ j m h. elim (get_elem?-append_inv b.nodes n j h) [
      | inl old ↦ ground (
        arith,
        lookup-insert (id n) (id m) (length (b.nodes ++ n ∷ []) - 1) b.node_map,
        e.beq_iff (id n) (id m),
        v.indexed j m old,
        missing,
      )
      | inr (at, same) ↦ ground (
        arith,
        lookup-insert (id n) (id m) (length (b.nodes ++ n ∷ []) - 1) b.node_map,
        length-append b.nodes (n ∷ []),
        beq_refl (id n),
        at,
        same,
      )
    ];
    mapped = λ k j h.
        elim (lookup-insert_inv (id n) k (length (b.nodes ++ n ∷ []) - 1) b.node_map h) [
          | inl (same, at) ↦ (
            n,
            ground
                (arith, at, length-append b.nodes (n ∷ []), get_elem?-append_length b.nodes [] n),
            same,
          )
          | inr (_, old) ↦
              let (m, there, same) = v.mapped k j old in
              (
                m,
                ground (
                  arith,
                  there,
                  get_elem?-some_lt b.nodes j there,
                  get_elem?-append_left b.nodes (n ∷ []) j,
                ),
                same,
              )
        ];
    in_range = elim v.in_range [
      | inl lt ↦ inl (omega (arith, length-append b.nodes (n ∷ [])))
      | inr e ↦ inr e
    ];
  }
