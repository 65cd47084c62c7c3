-- ===== src/ServerManager/Ports.antt =====
-- Histories of the control plane: no two servers of a node have the same pair.
use sls.Shared.{
  Bool, ℕ, ◌≡◌, ◌⊎◌, refl, sym, ap, ◌∙◌, subst, true, false, ◌&&◌, ◌==◌, Option, none, some, inl,
  inr, arith, Bool-cases, ==_iff,
}
use sls.Shared.Equality.{nat_eq, list_eq, list_beq, list_beq_iff}
use sls.Shared.Outcome.{Outcome, ok, err}
use sls.Shared.Table.{Table, lookup, insert, lookup-insert_inv}
use sls.Shared.Text.{Text}
use sls.Allocator.{Allocator, release}
use sls.Allocator.Ledger.{is_used, is_used-release}
use sls.ServerManager.{Builder, Node, Failure, World, Server, Release, run_release, release_at}
use sls.ServerManager.Lookups.{Differs, SameBut-none, lookup-insert_same}
use sls.ServerManager.Creation.{Grown, insert-Grown, Created, Creates}
use sls.ServerManager.Nodes.{IsUsed}

-- A release takes at most its own pair away from its own node.
abbrev pub Released : Option Release → Text → Text → ℕ → Type 0
Released none node ip port = ⊥
Released (some r) node ip port = (r.node ≡ node) × (r.ip ≡ ip) × (r.port ≡ port)

pub run_release-is_used :
    (r : Option Release) (m : Table Text Allocator) (node : Text) (b : Allocator)
    → lookup node (run_release r m) ≡ some b
    → (a : Allocator) × (lookup node m ≡ some a)
      × ((ip : Text) (port : ℕ)
          → (Released r node ip port → ⊥)
          → is_used a ip port ≡ true
          → is_used b ip port ≡ true)
unfolding run_release
run_release-is_used none m node b h = (b, h, λ ip port other used. used)
run_release-is_used (some r) m node b h = by_node (lookup r.node m) refl h
  where
    by_node :
        (o : Option Allocator)
        → lookup r.node m ≡ o
        → lookup node (elim o [ none ↦ m | some a ↦ insert r.node (release a r.ip r.port) m ])
          ≡ some b
        → (a : Allocator) × (lookup node m ≡ some a)
          × ((ip : Text) (port : ℕ)
              → (Released (some r) node ip port → ⊥)
              → is_used a ip port ≡ true
              → is_used b ip port ≡ true)
    by_node none e h = (b, h, λ ip port other used. used)
    by_node (some a) e h = elim (lookup-insert_inv r.node node (release a r.ip r.port) m h) [
      | inl (here, same) ↦ (
        a,
        ap (λ j. lookup j m) (sym here) ∙ e,
        λ ip port other used.
            ap (λ x. is_used x ip port) (sym same)
            ∙ elim (Bool-cases (list_beq r.ip ip && port == r.port)) [
              | inl taken ↦ absurd (
                  other (
                    here,
                    ground (arith, taken, list_beq_iff r.ip ip),
                    ground (arith, taken, ==_iff port r.port),
                  ))
              | inr kept ↦ ground (arith, kept, used, is_used-release a r.ip ip r.port port)
            ],
      )
      | inr (there, found) ↦ (b, found, λ ip port other used. used)
    ]

module _ {Configuration Script Overrides Blueprint E : Type 0}
    (builder : Builder Configuration Script Overrides Blueprint E) where
  abbrev pub Has : World builder → Text → Server builder → Type 0
  Has w k s = lookup k w.servers ≡ some s

  abbrev pub pair_of : Server builder → Text × ℕ
  pair_of s = let a = builder.allocations s.configuration in (a.ip, a.port)

  abbrev pub SamePair : Server builder → Server builder → Type 0
  SamePair s t =
      let a = builder.allocations s.configuration in
      let b = builder.allocations t.configuration in (a.ip ≡ b.ip) × (a.port ≡ b.port)

  -- The map is by id, a closure releases the server's own pair at its own node, a pair is in use
  -- while the node is connected, and two servers of a node have different pairs.
  pub record Inv (w : World builder) : Type 0 where
    pub by_id : (k : Text) (s : Server builder) → Has w k s → s.id ≡ k
    pub closure :
        (k : Text) (s : Server builder)
        → Has w k s
        → (s.release ≡ none)
          ⊎ (s.release ≡ release_at builder s.node_id (builder.allocations s.configuration))
    pub in_use :
        (k : Text) (s : Server builder) (a : Allocator)
        → Has w k s
        → lookup s.node_id w.allocators ≡ some a
        → IsUsed builder s a
    pub apart :
        (j k : Text) (s t : Server builder)
        → Differs j k
        → Has w j s
        → Has w k t
        → s.node_id ≡ t.node_id
        → SamePair s t
        → ⊥

  -- Servers of before, in tables of before that grew, keep the invariant.
  Inv-Grown :
      (w w' : World builder)
      → Inv w
      → ((k : Text) → lookup k w'.servers ≡ lookup k w.servers)
      → Grown w.allocators w'.allocators
      → Inv w'
  Inv-Grown w w' i same grown = record {
    by_id = λ k s h. i.by_id k s (back k h);
    closure = λ k s h. i.closure k s (back k h);
    in_use = λ k s b h e.
        let (a, found, grows) = grown s.node_id b e in grows _ _ (i.in_use k s a (back k h) found);
    apart = λ j k s t d h g n p. i.apart j k s t d (back j h) (back k g) n p;
  }
    where
      back : (k : Text) {s : Server builder} → Has w' k s → Has w k s
      back k h = sym (same k) ∙ h

  -- A server after a creation is the new one, or one of before.
  Created-servers :
      (node : Node) (id : Text) (w w' : World builder) (s : Server builder)
      → Created builder node id w w' s
      → (k : Text) (t : Server builder) → Has w' k t
      → (t ≡ s) × (k ≡ id) ⊎ Differs id k × Has w k t
  Created-servers node id w w' s c k t h = elim (Bool-cases (list_beq id k)) [
    | inl here ↦
        let e = (list_beq_iff id k).0 here in
        let f : some t ≡ some s = sym h ∙ ap (λ j. lookup j w'.servers) (sym e) ∙ c.in_servers in
        inl (cc, sym e)
    | inr there ↦ inr (there, sym (c.others.servers k there) ∙ h)
  ]

  Created-apart :
      (node : Node) (id : Text) (w w' : World builder) (s : Server builder)
      → Inv w
      → Created builder node id w w' s
      → (k : Text) (t : Server builder) → Has w k t
      → s.node_id ≡ t.node_id
      → SamePair s t
      → ⊥
  Created-apart node id w w' s i c k t h n (p, q) =
      let used =
        i.in_use k t c.before h
          (ap (λ j. lookup j w.allocators) (sym n ∙ c.its_node) ∙ c.had_allocator) in
      clash (
        sym c.serves.was_free
        ∙ ap (λ ip. is_used c.before ip (builder.allocations s.configuration).port) p
        ∙ ap (is_used c.before _) q
        ∙ used)
    where
      clash : false ≡ true → ⊥
      clash e = cc

  Created-in_use :
      (node : Node) (id : Text) (w w' : World builder) (s : Server builder)
      → Created builder node id w w' s
      → (a : Allocator) → lookup s.node_id w'.allocators ≡ some a
      → IsUsed builder s a
  Created-in_use node id w w' s c a h =
      let alloc = builder.allocations s.configuration in
      let here : some c.after ≡ some a =
        sym (lookup-insert_same node.id c.after w.allocators)
        ∙ ap (λ m. lookup node.id m) (sym c.new_allocators)
        ∙ ap (λ j. lookup j w'.allocators) (sym c.its_node)
        ∙ h in
      let one : is_used c.after alloc.ip alloc.port ≡ true = ground (
        arith,
        c.serves.one_more.one_more alloc.ip alloc.port,
        list_beq_iff alloc.ip alloc.ip,
        ==_iff alloc.port alloc.port,
      ) in
      let same : c.after ≡ a = cc in ap (λ x. is_used x alloc.ip alloc.port) (sym same) ∙ one

  pub create_server-Inv :
      (removed : Bool) (node : Node) (id : Text) (w w' : World builder)
      (r : Outcome (Failure E) (Server builder))
      → Inv w
      → lookup id w.servers ≡ none
      → Creates builder removed node id w (w', r)
      → Inv w'
  create_server-Inv removed node id w w' (err e) i new c =
      Inv-Grown w w' i (SameBut-none id w.servers w'.servers c.others.servers new c.no_server)
        c.grown
  create_server-Inv removed node id w w' (ok s) i new c = record {
    by_id = λ k t h. elim (after k t h) [
      | inl (e, here) ↦ ap (λ u. u.id) e ∙ c.its_id ∙ sym here
      | inr (there, found) ↦ i.by_id k t found
    ];
    closure = λ k t h. elim (after k t h) [
      | inl (e, here) ↦ rw (e, c.its_node) (inr c.its_release)
      | inr (there, found) ↦ i.closure k t found
    ];
    in_use = λ k t b h e. elim (after k t h) [
      | inl (same, here) ↦
          subst (λ u. lookup u.node_id w'.allocators ≡ some b → IsUsed builder u b) (sym same)
            (Created-in_use node id w w' s c b) e
      | inr (there, found) ↦
          let (a, before, grows) =
            grown t.node_id b (ap (lookup t.node_id) (sym c.new_allocators) ∙ e) in
          grows _ _ (i.in_use k t a found before)
    ];
    apart = λ j k t u d h g n p. elim (after j t h) [
      | inl (e, here) ↦ elim (after k u g) [
        | inl (f, there) ↦ differ j k d (here ∙ sym there)
        | inr (there, found) ↦
            Created-apart node id w w' s i c k u found (ap (λ x. x.node_id) (sym e) ∙ n)
              (subst (λ x. SamePair x u) e p)
      ]
      | inr (there, found) ↦ elim (after k u g) [
        | inl (f, here) ↦
            Created-apart node id w w' s i c j t found (ap (λ x. x.node_id) (sym f) ∙ sym n)
              (subst (λ x. SamePair x t) f (sym p.0, sym p.1))
        | inr (here, also) ↦ i.apart j k t u d found also n p
      ]
    ];
  }
    where
      after :
          (k : Text) (t : Server builder)
          → Has w' k t
          → (t ≡ s) × (k ≡ id) ⊎ Differs id k × Has w k t
      after = Created-servers node id w w' s c

      grown : Grown w.allocators (insert node.id c.after w.allocators)
      grown =
          insert-Grown node.id c.before c.after w.allocators c.had_allocator
            λ ip port used. ground (arith, c.serves.one_more.one_more ip port, used)

      differ : (j k : Text) → Differs j k → j ≡ k → ⊥
      differ j k d e = ground (arith, d, (list_beq_iff j k).1 e)
