-- ===== src/ServerManager/History.antt =====
-- Histories of the control plane, each step one call: creations, removals, and nodes that connect and
-- disconnect.
use sls.Shared.{
  ◌≡◌, ◌⊎◌, refl, sym, ap, ◌∙◌, subst, Bool, true, none, some, inl, inr, if◌then◌else◌, Bool-cases,
}
use sls.Shared.Equality.{nat_eq, list_eq, list_beq, list_beq_iff}
use sls.Shared.Table.{Table, lookup, insert, delete, lookup-delete_inv}
use sls.Shared.Text.{Text}
use sls.Allocator.{Allocator}
use sls.Allocator.Ledger.{is_used}
use sls.ServerManager.{
  Builder, Node, World, Server, release_at, cleanup_for_destroy, attach_node_client_to_servers,
  detach_node_client_from_servers, change_of_node,
}
use sls.ServerManager.Lookups.{Differs}
use sls.ServerManager.Nodes.{lookup-change_of_node, InAllocator, IsUsed}
use sls.ServerManager.Ports.{Has, pair_of, Inv, Released, run_release-is_used}

module _ {Configuration Script Overrides Blueprint E : Type 0}
    (builder : Builder Configuration Script Overrides Blueprint E) where
  pub cleanup_for_destroy-Inv :
      (removed : Bool) (k : Text) (s : Server builder) (w : World builder)
      → Inv builder w
      → Has builder w k s
      → Inv builder (cleanup_for_destroy builder removed s w)
  unfolding cleanup_for_destroy
  cleanup_for_destroy-Inv removed k s w i h = record {
    by_id = λ j t g. i.by_id j t (lookup-delete_inv s.id j w.servers g).1;
    closure = λ j t g. i.closure j t (lookup-delete_inv s.id j w.servers g).1;
    in_use = λ j t b g e.
        let (differs, found) = lookup-delete_inv s.id j w.servers g in
        let (a, before, keeps) = run_release-is_used s.release w.allocators t.node_id b e in
        keeps _ _ (others j t (λ same. differs (i.by_id k s h ∙ same)) found)
          (i.in_use j t a found before);
    apart = λ j l t u d g f n p.
        i.apart j l t u d (lookup-delete_inv s.id j w.servers g).1
          (lookup-delete_inv s.id l w.servers f).1 n p;
  }
    where
      differ : (j : Text) → (k ≡ j → ⊥) → Differs k j
      differ j d = elim (Bool-cases (list_beq k j)) [
        | inl same ↦ absurd (d ((list_beq_iff k j).0 same))
        | inr other ↦ other
      ]

      others :
          (j : Text) (t : Server builder)
          → (k ≡ j → ⊥)
          → Has builder w j t
          → Released s.release t.node_id (pair_of builder t).0 (pair_of builder t).1
          → ⊥
      others j t d g = elim (i.closure k s h) [
        | inl nothing ↦ λ r.
            subst (λ x. Released x t.node_id (pair_of builder t).0 (pair_of builder t).1) nothing r
        | inr own ↦ λ r.
            let (n, p, q) =
              subst (λ x. Released x t.node_id (pair_of builder t).0 (pair_of builder t).1) own r in
            i.apart k j s t (differ j d) h g n (p, q)
      ]

  -- A node registers with a new allocator, and its servers are attached before another call runs.
  abbrev pub register : Node → Allocator → World builder → World builder
  register node a w =
      attach_node_client_to_servers builder node
        (record w { allocators = insert node.id a w.allocators })

  abbrev pub disconnect : Text → World builder → World builder
  disconnect node w = record (detach_node_client_from_servers builder node w) {
    allocators = delete node w.allocators;
  }

  -- The ranges of an allocator hold the pair of every server of the node.
  abbrev pub AllInside : Text → Allocator → World builder → Type 0
  AllInside node a w =
      (k : Text) (s : Server builder)
      → Has builder w k s
      → s.node_id ≡ node
      → InAllocator builder s a

  -- A change that keeps the id, the node and the configuration, and leaves a closure of the kind that
  -- the invariant has.
  pub record IsHarmless (change : Server builder → Server builder) : Type 0 where
    pub same_id : (s : Server builder) → (change s).id ≡ s.id
    pub same_node : (s : Server builder) → (change s).node_id ≡ s.node_id
    pub same_configuration : (s : Server builder) → (change s).configuration ≡ s.configuration

  -- Before a change of the servers of a node.
  record Before (node : Text) (w : World builder) (k : Text) (t : Server builder) : Type 0 where
    server : Server builder
    found : Has builder w k server
    same_id : t.id ≡ server.id
    same_node : t.node_id ≡ server.node_id
    same_configuration : t.configuration ≡ server.configuration

  Before-change :
      (node : Text) (change : Server builder → Server builder) (w : World builder)
      → IsHarmless change
      → (k : Text) (t : Server builder)
      → lookup k (change_of_node builder node change w.servers) ≡ some t
      → Before node w k t
  Before-change node change w harmless k t h =
      let (s, found, e) = lookup-change_of_node builder node change w.servers k t h in
      elim (Bool-cases (list_beq s.node_id node)) [
        | inl its ↦
            let f : t ≡ change s = rw (its, if◌then◌else◌) at e in
            record {
              server = s;
              found = found;
              same_id = ap (λ u. u.id) f ∙ harmless.same_id s;
              same_node = ap (λ u. u.node_id) f ∙ harmless.same_node s;
              same_configuration = ap (λ u. u.configuration) f ∙ harmless.same_configuration s;
            }
        | inr other ↦
            let f : t ≡ s = rw (other, if◌then◌else◌) at e in
            record {
              server = s;
              found = found;
              same_id = ap (λ u. u.id) f;
              same_node = ap (λ u. u.node_id) f;
              same_configuration = ap (λ u. u.configuration) f;
            }
      ]

  -- The part of the invariant that a change of the servers of a node keeps by itself.
  pub change-Inv :
      (node : Text) (change : Server builder → Server builder) (w : World builder)
      (allocators : Table Text Allocator)
      → Inv builder w
      → IsHarmless change
      → ((s : Server builder)
          → s.node_id ≡ node
          → ((change s).release ≡ none)
            ⊎ ((change s).release ≡ release_at builder node (builder.allocations s.configuration)))
      → ((k : Text) (s : Server builder) (b : Allocator)
          → Has builder w k s
          → lookup s.node_id allocators ≡ some b
          → IsUsed builder s b)
      → Inv builder (record w {
        servers = change_of_node builder node change w.servers;
        allocators = allocators;
      })
  change-Inv node change w allocators i harmless closes used = record {
    by_id = λ k t h. let b = before k t h in b.same_id ∙ i.by_id k b.server b.found;
    closure = λ k t h. closed k t h;
    in_use = λ k t c h e.
        let b = before k t h in
        subst (λ x. is_used c (builder.allocations x).ip (builder.allocations x).port ≡ true)
          (sym b.same_configuration)
          (used k b.server c b.found (ap (λ n. lookup n allocators) (sym b.same_node) ∙ e));
    apart = λ j k t u d h g n p.
        let b = before j t h in
        let c = before k u g in
        i.apart j k b.server c.server d b.found c.found (sym b.same_node ∙ n ∙ c.same_node) (
          ap (λ x. (builder.allocations x).ip) (sym b.same_configuration)
              ∙ p.0
              ∙ ap (λ x. (builder.allocations x).ip) c.same_configuration,
          ap (λ x. (builder.allocations x).port) (sym b.same_configuration)
              ∙ p.1
              ∙ ap (λ x. (builder.allocations x).port) c.same_configuration,
        );
  }
    where
      before :
          (k : Text) (t : Server builder)
          → lookup k (change_of_node builder node change w.servers) ≡ some t
          → Before node w k t
      before = Before-change node change w harmless

      IsClosed : Server builder → Type 0
      IsClosed t =
          (t.release ≡ none)
          ⊎ (t.release ≡ release_at builder t.node_id (builder.allocations t.configuration))

      closed :
          (k : Text) (t : Server builder)
          → lookup k (change_of_node builder node change w.servers) ≡ some t
          → IsClosed t
      closed k t h =
          let (s, found, e) = lookup-change_of_node builder node change w.servers k t h in
          elim (Bool-cases (list_beq s.node_id node)) [
            | inl its ↦
                let n : s.node_id ≡ node = (list_beq_iff s.node_id node).0 its in
                let f : t ≡ change s = rw (its, if◌then◌else◌) at e in
                subst IsClosed (sym f) (elim (closes s n) [
                  | inl nothing ↦ inl nothing
                  | inr own ↦
                      inr (own ∙ rw (harmless.same_node s, harmless.same_configuration s, n) refl)
                ])
            | inr other ↦
                let f : t ≡ s = rw (other, if◌then◌else◌) at e in
                subst IsClosed (sym f) (i.closure k s found)
          ]
