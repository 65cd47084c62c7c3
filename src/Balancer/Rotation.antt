-- ===== src/Balancer/Rotation.antt =====
-- PickNode goes round the nodes: it returns the first node, from the current index on and round to
-- it again, that is not drained.
use sls.Shared.{
  ℕ, zero, suc, ◌+◌, ◌-◌, ◌%◌, ◌<◌, ◌≡◌, refl, sym, ap, ◌∙◌, subst, ◌↔◌, All-append, All-append_inv,
  ◌⊎◌, inl, inr, true, false, Option, none, some, List, [], ◌∷◌, map, arith, length, get_elem?,
  take, drop, All, get_elem?-lt_some, All-get_elem?, take-append-drop, Bool-cases,
}
use native.Mathlib.Nat.{mod-eq_of_lt, add-zero, mod-add-mod, add-mod_right}
use sls.Shared.Equality.{Eq}
use sls.Shared.Table.{Table}
use sls.Balancer.{BalancedNode, RoundRobin, pick_node, pick_loop}
use sls.Balancer.Validity.{IsValid}
use sls.Balancer.Around.{around, rotation, around-rotation}

module _ {K N : Type 0} ⦃e : Eq K⦄ (methods : BalancedNode K N) where
  open methods use {id, drained}

  -- The first node that is not drained.
  unfoldable pub first_live : List N → Option N
  first_live [] = none
  first_live (n ∷ ns) = elim (drained n) [ true ↦ first_live ns | false ↦ some n ]

  -- What a pick that started from `b` with the answer `r` returns: the nodes are as they were.
  abbrev pub Picks : RoundRobin K N → Option N → Option (Option N × RoundRobin K N) → Type 0
  Picks b r none = ⊥
  Picks b r (some (r', b')) =
      (r' ≡ r)
      × (b'.nodes ≡ b.nodes)
      × (b'.node_map ≡ b.node_map)
      × ((b'.index < length b'.nodes) ⊎ (b'.index ≡ 0))

  pick_loop-Picks :
      (k : ℕ) (b : RoundRobin K N)
      → b.index < length b.nodes
      → Picks b (first_live (around k b.index b.nodes)) (pick_loop methods k b)
  unfolding pick_loop first_live around
  pick_loop-Picks zero b h = (refl, refl, refl, inl h)
  pick_loop-Picks (suc k) b h =
      let (n, at) = get_elem?-lt_some b.nodes b.index h in
      let next = record b { index = (b.index + 1) % length b.nodes } in
      let later = pick_loop-Picks k next (omega arith) in
      rw (at, around, pick_loop)
        (elim (Bool-cases (drained n)) [
          | inl off ↦ rw (off, first_live) later
          | inr on ↦ rw (on, first_live) (refl, refl, refl, inl (omega arith))
        ])

  -- Every node is drained.
  abbrev pub AllDrained : List N → Type 0
  AllDrained = All (λ n. drained n ≡ true)

  first_live-none : (ns : List N) → (first_live ns ≡ none) ↔ AllDrained ns
  unfolding first_live
  first_live-none [] = ((λ _. tt), λ _. refl)
  first_live-none (n ∷ ns) = elim (Bool-cases (drained n)) [
    | inl off ↦ (
      (λ h. (off, (first_live-none ns).0 (rw (off, first_live) at h))),
      λ h. rw (off, first_live) ((first_live-none ns).1 h.1),
    )
    | inr on ↦ ((λ h. absurd (ground (arith, on, h))), λ h. absurd (ground (arith, on, h.0)))
  ]

  AllDrained-rotation : (i : ℕ) (ns : List N) → AllDrained (rotation i ns) ↔ AllDrained ns
  AllDrained-rotation i ns = (
    (λ h.
        let (later, sooner) = All-append_inv _ (drop i ns) (take i ns) h in
        rw (take-append-drop i ns) at (All-append _ (take i ns) (drop i ns) sooner later)),
    λ h.
        let (sooner, later) =
          All-append_inv _ (take i ns) (drop i ns)
            (subst (AllDrained) (sym (take-append-drop i ns)) h) in
        All-append _ (drop i ns) (take i ns) later sooner,
  )

  pick_any :
      (ns : List N) (m : Table K ℕ) (i : ℕ)
      → (i < length ns) ⊎ (i ≡ 0)
      → let b : RoundRobin K N = record { nodes = ns; node_map = m; index = i } in
        Picks b (first_live (rotation i ns)) (pick_node methods b)
  unfolding pick_node pick_loop first_live
  pick_any [] m i (inl h) = elim h [ ]
  pick_any [] m i (inr at) = rw at (refl, refl, refl, inr refl)
  pick_any (n ∷ ns) m i range =
      let h : i < length (n ∷ ns) = omega arith in
      rw (← around-rotation i (n ∷ ns) h)
        (pick_loop-Picks (length (n ∷ ns)) (record { nodes = n ∷ ns; node_map = m; index = i }) h)

  -- PickNode on a valid balancer never panics. It returns the first node that is not drained, going
  -- round from the current index, and nil exactly if all are drained; the nodes and the map stay as
  -- they were, and the new index is in range.
  pub pick_node-first_live :
      (b : RoundRobin K N)
      → IsValid methods b
      → Picks b (first_live (rotation b.index b.nodes)) (pick_node methods b)
        × ((first_live (rotation b.index b.nodes) ≡ none) ↔ AllDrained b.nodes)
  unfolding pick_node
  pick_node-first_live b v =
      let all = first_live-none (rotation b.index b.nodes) in
      let same = AllDrained-rotation b.index b.nodes in
      (
        pick_any b.nodes b.node_map b.index v.in_range,
        ((λ h. same.0 (all.0 h)), λ h. all.1 (same.1 h)),
      )

  -- `k` picks in a row.
  unfoldable pub picks : ℕ → RoundRobin K N → Option (List (Option N) × RoundRobin K N)
  picks zero b = some ([], b)
  picks (suc k) b = elim (pick_node methods b) [
    | none ↦ none
    | some (r, b') ↦ elim (picks k b') [ none ↦ none | some (rs, c) ↦ some (r ∷ rs, c) ]
  ]

  pick_fresh :
      (k : ℕ) (b : RoundRobin K N) {n : N}
      → length b.nodes ≡ suc k
      → get_elem? b.nodes b.index ≡ some n
      → drained n ≡ false
      → pick_node methods b ≡ some (some n, record b { index = (b.index + 1) % length b.nodes })
  pick_fresh k b size at on =
      unfold pick_node in rw size (rw (at, pick_loop) (rw (on, pick_loop) (rw size)))

  next_round : (i k n : ℕ) → ((i + 1) % n + k) % n ≡ (i + suc k) % n
  next_round i k n = mod-add-mod (i + 1) n k ∙ ap (λ t. t % n) (omega arith)

  full_round : (i n : ℕ) → i < n → (i + n) % n ≡ i
  full_round i n h = add-mod_right i n ∙ mod-eq_of_lt h

  picks-around :
      (k : ℕ) (b : RoundRobin K N)
      → All (λ n. drained n ≡ false) b.nodes
      → b.index < length b.nodes
      → picks k b
        ≡ some (
          map some (around k b.index b.nodes),
          record b { index = (b.index + k) % length b.nodes },
        )
  unfolding picks around
  picks-around zero b live h = rw (add-zero, mod-eq_of_lt h)
  picks-around (suc k) b live h =
      let (n, at) = get_elem?-lt_some b.nodes b.index h in
      let on : drained n ≡ false = All-get_elem? _ b.nodes b.index at live in
      let next = record b { index = (b.index + 1) % length b.nodes } in
      rw (pick_fresh (length b.nodes - 1) b (omega arith) at on, picks)
        (rw (picks-around k next live (omega arith), picks, at, around)
          (rw (next_round b.index k (length b.nodes))))

  -- With no node drained, as many picks as there are nodes return every node once, in the order of
  -- the rotation, and leave the balancer as it was.
  pub picks-rotation :
      (b : RoundRobin K N)
      → All (λ n. drained n ≡ false) b.nodes
      → b.index < length b.nodes
      → picks (length b.nodes) b ≡ some (map some (rotation b.index b.nodes), b)
  picks-rotation b live h =
      picks-around (length b.nodes) b live h
      ∙ rw (around-rotation b.index b.nodes h) (rw (full_round b.index (length b.nodes) h))
