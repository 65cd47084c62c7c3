-- ===== src/NodeManager/Agreement.antt =====
-- The manager of protocube/node/manager.go and its balancer know the same nodes.
use sls.Shared.{ℕ, ◌≡◌, refl, sym, ap, ◌∙◌, Option, none, some, List, [], ◌∷◌, if◌then◌else◌}
use sls.Shared.Equality.{Eq}
use sls.Shared.Table.{lookup, insert, delete, lookup-insert, lookup-delete}
use sls.Balancer.{BalancedNode, RoundRobin, new_round_robin, add_node, remove_node}
use sls.Balancer.Validity.{IsValid, new-IsValid}
use sls.Balancer.Operations.{Keeps, add_node-IsValid, remove_node-IsValid}
use sls.Balancer.Directory.{node_of, node_of-add_node, node_of-remove_node}
use sls.NodeManager.{
  Manager, new_manager, register, disconnect, timed_out, disconnect_all, check_health, Event,
  registers, disconnects, ticks, handle, handle_all,
}

module _ {K N : Type 0} ⦃e : Eq K⦄ (methods : BalancedNode K N) (last_seen : N → ℕ) where
  open methods use {id}

  -- The balancer is valid and finds under each id the node that the manager has under it.
  pub record Agrees (m : Manager K N) : Type 0 where
    pub valid : IsValid methods m.lb
    pub same : (k : K) → node_of methods m.lb k ≡ lookup k m.nodes

  -- A step that does not panic and after which they agree.
  abbrev pub Steps : Option (Manager K N) → Type 0
  Steps none = ⊥
  Steps (some m) = Agrees m

  register-Agrees : (m : Manager K N) (n : N) → Agrees m → Steps (register methods last_seen m n)
  unfolding register
  register-Agrees m n a =
      go (add_node methods m.lb n) (add_node-IsValid methods m.lb n a.valid)
        (node_of-add_node methods m.lb n a.valid)
    where
      go :
          (o : Option (RoundRobin K N))
          → Keeps methods (IsValid methods) o
          → Keeps methods
              (λ b.
                (k : K)
                → node_of methods b k ≡ (if e.beq (id n) k then some n else node_of methods m.lb k))
              o
          → Steps (elim o [
            | none ↦ none
            | some lb ↦ some (record { lb = lb; nodes = insert (id n) n m.nodes })
          ])
      go none v h = v
      go (some b) v h = record {
        valid = v;
        same = λ k.
            h k
            ∙ ap (λ o. if e.beq (id n) k then some n else o) (a.same k)
            ∙ sym (lookup-insert (id n) k n m.nodes);
      }

  disconnect-Agrees :
      (m : Manager K N) (n : N) → Agrees m → Steps (disconnect methods last_seen m n)
  unfolding disconnect
  disconnect-Agrees m n a =
      go (remove_node methods m.lb n) (remove_node-IsValid methods m.lb n a.valid)
        (node_of-remove_node methods m.lb n a.valid)
    where
      go :
          (o : Option (RoundRobin K N))
          → Keeps methods (IsValid methods) o
          → Keeps methods
              (λ b.
                (k : K)
                → node_of methods b k ≡ (if e.beq (id n) k then none else node_of methods m.lb k))
              o
          → Steps (elim o [
            | none ↦ none
            | some lb ↦ some (record { lb = lb; nodes = delete (id n) m.nodes })
          ])
      go none v h = v
      go (some b) v h = record {
        valid = v;
        same = λ k.
            h k
            ∙ ap (λ o. if e.beq (id n) k then none else o) (a.same k)
            ∙ sym (lookup-delete (id n) k m.nodes);
      }

  Steps-chain :
      (o : Option (Manager K N)) (f : Manager K N → Option (Manager K N))
      → Steps o
      → ((m : Manager K N) → Agrees m → Steps (f m))
      → Steps (elim o [ none ↦ none | some m ↦ f m ])
  Steps-chain none f a rest = a
  Steps-chain (some m) f a rest = rest m a

  disconnect_all-Agrees :
      (m : Manager K N) (ns : List N) → Agrees m → Steps (disconnect_all methods last_seen m ns)
  unfolding disconnect_all
  disconnect_all-Agrees m [] a = a
  disconnect_all-Agrees m (n ∷ ns) a =
      Steps-chain (disconnect methods last_seen m n) (λ m'. disconnect_all methods last_seen m' ns)
        (disconnect-Agrees m n a) λ m' a'. disconnect_all-Agrees m' ns a'

  handle-Agrees :
      (m : Manager K N) (x : Event methods last_seen)
      → Agrees m
      → Steps (handle methods last_seen m x)
  unfolding handle check_health
  handle-Agrees m (registers n) a = register-Agrees m n a
  handle-Agrees m (disconnects n) a = disconnect-Agrees m n a
  handle-Agrees m (ticks now) a =
      disconnect_all-Agrees m (timed_out methods last_seen now m.nodes) a

  handle_all-Agrees :
      (m : Manager K N) (xs : List (Event methods last_seen))
      → Agrees m
      → Steps (handle_all methods last_seen m xs)
  unfolding handle_all
  handle_all-Agrees m [] a = a
  handle_all-Agrees m (x ∷ xs) a =
      Steps-chain (handle methods last_seen m x) (λ m'. handle_all methods last_seen m' xs)
        (handle-Agrees m x a) λ m' a'. handle_all-Agrees m' xs a'

  -- From a new manager, in any history of registrations, disconnections and ticks of the health
  -- monitor, the balancer does not panic, stays valid, and finds under each id just the node that the
  -- manager has under it.
  pub handle_all-new :
      (xs : List (Event methods last_seen))
      → Steps (handle_all methods last_seen (new_manager methods last_seen) xs)
  handle_all-new xs = handle_all-Agrees (new_manager methods last_seen) xs fresh
    where
      fresh : Agrees (new_manager methods last_seen)
      fresh =
          unfold new_manager node_of lookup new_round_robin in
          record { valid = new-IsValid methods; same = λ k. refl }
