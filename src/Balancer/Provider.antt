-- ===== src/Balancer/Provider.antt =====
-- protocube/balancer/provider.go: the balancer in use, and its replacement while nodes are known.
use sls.Shared.{◌≡◌, refl, ap, ◌∙◌, Option, none, some, List, [], ◌∷◌, if◌then◌else◌}
use sls.Shared.Equality.{Eq}
use sls.Shared.Table.{lookup}
use sls.Balancer.{BalancedNode, RoundRobin, add_node, new_round_robin}
use sls.Balancer.Validity.{IsValid, new-IsValid}
use sls.Balancer.Operations.{Keeps, Keeps-mono, add_node-IsValid}
use sls.Balancer.Directory.{node_of, node_of-add_node}

-- The balancer itself is reached through its interface, here by its state.
pub record Provider (B : Type 0) : Type 0 where
  pub lb : B

module _ {B : Type 0} where
  unfoldable pub new_provider : B → Provider B
  new_provider initial = record { lb = initial }

  unfoldable pub get : Provider B → B
  get p = p.lb

  -- `none` is the nil balancer; the result `none` is the error, which leaves the provider as it is.
  unfoldable pub set_balancer : Provider B → Option B → Option (Provider B)
  set_balancer p none = none
  set_balancer p (some lb) = some (record p { lb = lb })

-- What SetWithNodes returns: the error for a nil balancer, a panic of AddNode, or the provider.
pub data Outcome (A : Type 0) : Type 0 where
  refused panicked : Outcome A
  installed : A → Outcome A

module _ {B N : Type 0} (add : B → N → Option B) where
  -- `for _, n := range nodes { lb.AddNode(n) }`
  unfoldable pub add_nodes : B → List N → Option B
  add_nodes lb [] = some lb
  add_nodes lb (n ∷ ns) = elim (add lb n) [ none ↦ none | some lb' ↦ add_nodes lb' ns ]

  unfoldable pub set_with_nodes : Provider B → Option B → List N → Outcome (Provider B)
  unfolding add_nodes
  set_with_nodes p none ns = refused
  set_with_nodes p (some lb) ns = elim (add_nodes lb ns) [
    | none ↦ panicked
    | some lb' ↦ installed (record p { lb = lb' })
  ]

module _ {K N : Type 0} ⦃e : Eq K⦄ (methods : BalancedNode K N) where
  open methods use {id}

  -- The last node of the list with the id, or else `found`.
  unfoldable pub last_with : K → List N → Option N → Option N
  last_with k [] found = found
  last_with k (n ∷ ns) found = last_with k ns (if e.beq (id n) k then some n else found)

  abbrev pub Holds : List N → RoundRobin K N → RoundRobin K N → Type 0
  Holds ns b b' =
      IsValid methods b' × ((k : K) → node_of methods b' k ≡ last_with k ns (node_of methods b k))

  add_nodes-Holds :
      (b : RoundRobin K N) (ns : List N)
      → IsValid methods b
      → Keeps methods (Holds ns b) (add_nodes (add_node methods) b ns)
  unfolding add_nodes last_with
  add_nodes-Holds b [] v = (v, λ k. refl)
  add_nodes-Holds b (n ∷ ns) v =
      go (add_node methods b n) (add_node-IsValid methods b n v) (node_of-add_node methods b n v)
        λ b' v'. add_nodes-Holds b' ns v'
    where
      go :
          (r : Option (RoundRobin K N))
          → Keeps methods (IsValid methods) r
          → Keeps methods
              (λ b'.
                (k : K)
                → node_of methods b' k ≡ (if e.beq (id n) k then some n else node_of methods b k))
              r
          → ((b' : RoundRobin K N)
              → IsValid methods b'
              → Keeps methods (Holds ns b') (add_nodes (add_node methods) b' ns))
          → Keeps methods
              (Holds (n ∷ ns) b)
              (elim r [ none ↦ none | some lb' ↦ add_nodes (add_node methods) lb' ns ])
      go none v' d later = v'
      go (some b') v' d later =
          Keeps-mono methods (add_nodes (add_node methods) b' ns)
            (λ c holds. (holds.0, λ k. holds.1 k ∙ ap (last_with k ns) (d k))) (later b' v')

  abbrev pub Installs :
      Provider (RoundRobin K N) → List N → Outcome (Provider (RoundRobin K N)) → Type 0
  Installs p ns refused = ⊥
  Installs p ns panicked = ⊥
  Installs p ns (installed q) =
      IsValid methods q.lb × ((k : K) → node_of methods q.lb k ≡ last_with k ns none)

  node_of-new : (k : K) → node_of methods (new_round_robin methods) k ≡ none
  unfolding node_of new_round_robin lookup
  node_of-new k = refl

  -- SetWithNodes with a new round-robin balancer never panics or refuses, and the balancer that is
  -- then in use is valid and knows exactly the nodes of the list, under each id the last one.
  pub set_with_nodes-Installs :
      (p : Provider (RoundRobin K N)) (ns : List N)
      → Installs p ns (set_with_nodes (add_node methods) p (some (new_round_robin methods)) ns)
  unfolding set_with_nodes
  set_with_nodes-Installs p ns =
      go (add_nodes (add_node methods) (new_round_robin methods) ns)
        (add_nodes-Holds (new_round_robin methods) ns (new-IsValid methods))
    where
      go :
          (r : Option (RoundRobin K N))
          → Keeps methods (Holds ns (new_round_robin methods)) r
          → Installs p ns
              (elim r [ none ↦ panicked | some lb' ↦ installed (record p { lb = lb' }) ])
      go none h = h
      go (some b) h = (h.0, λ k. h.1 k ∙ ap (last_with k ns) (node_of-new k))
