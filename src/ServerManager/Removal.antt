-- ===== src/ServerManager/Removal.antt =====
-- CleanupForDestroy of protocube/server/server.go, after CreateServer.
use sls.Shared.{
  ℕ, ◌≡◌, refl, sym, ap, ◌∙◌, Bool, true, false, ◌&&◌, ◌==◌, Option, none, some, List,
  if◌then◌else◌, arith, subst, inl, inr, Bool-cases,
}
use sls.Shared.Equality.{nat_eq, list_eq, list_beq, list_beq_iff}
use sls.Shared.Outcome.{ok}
use sls.Shared.Table.{Table, lookup, insert, delete, lookup-insert}
use sls.Shared.Text.{Text}
use sls.Allocator.{Allocator, Allocations, release}
use sls.Allocator.Ledger.{is_used, is_used-release}
use sls.Allocator.Takes.{Takes}
use sls.ServerManager.{
  Builder, Node, Replies, World, Server, run_release, create_server, cleanup_for_destroy,
  release_at,
}
use sls.ServerManager.Lookups.{
  SameBut-none, SameBut-trans, lookup-insert_same, lookup-delete_same, delete-SameBut, is_used_by,
  is_used_at,
}
use sls.ServerManager.Creation.{Created, Creates, create_server-Creates}

-- A pair that was free, was taken and is released, and the others, are in use as before.
release_served :
    (a b : Allocator) (alloc : Allocations) (ip : Text) (port : ℕ)
    → Takes a b alloc
    → is_used (release b alloc.ip alloc.port) ip port ≡ is_used a ip port
release_served a b alloc ip port s =
    elim (Bool-cases (list_beq alloc.ip ip && port == alloc.port)) [
      | inl here ↦ ground (
        arith,
        is_used-release b alloc.ip ip alloc.port port,
        here,
        s.was_free,
        list_beq_iff alloc.ip ip,
      )
      | inr elsewhere ↦ ground (
        arith,
        is_used-release b alloc.ip ip alloc.port port,
        elsewhere,
        s.one_more.one_more ip port,
      )
    ]

run_release-insert :
    (node ip : Text) (port : ℕ) (b : Allocator) (m : Table Text Allocator)
    → run_release (some (record { node = node; ip = ip; port = port })) (insert node b m)
      ≡ insert node (release b ip port) (insert node b m)
unfolding run_release
run_release-insert node ip port b m = rw (run_release, lookup-insert_same node b m)

insert_twice :
    (k : Text) (b c : Allocator) (m : Table Text Allocator) (j : Text)
    → lookup j (insert k c (insert k b m)) ≡ (if list_beq k j then some c else lookup j m)
insert_twice k b c m j = ground (arith, lookup-insert k j c (insert k b m), lookup-insert k j b m)

module _ {Configuration Script Overrides Blueprint E : Type 0}
    (builder : Builder Configuration Script Overrides Blueprint E) where
  -- The same servers, rows and pairs in use.
  pub record SameState (w w' : World builder) : Type 0 where
    pub servers : (id : Text) → lookup id w'.servers ≡ lookup id w.servers
    pub records : (id : Text) → lookup id w'.records ≡ lookup id w.records
    pub pairs :
        (node ip : Text) (port : ℕ)
        → is_used_at w'.allocators node ip port ≡ is_used_at w.allocators node ip port

  released_pairs :
      (node : Node) (id : Text) (w w' : World builder) (s : Server builder)
      (c : Created builder node id w w' s) (other ip : Text) (port : ℕ)
      → is_used_at (run_release s.release w'.allocators) other ip port
        ≡ is_used_at w.allocators other ip port
  released_pairs node id w w' s c other ip port =
      let alloc = builder.allocations s.configuration in
      ap (λ m. is_used_at m other ip port)
        (ap (λ r. run_release r w'.allocators) c.its_release
          ∙ ap (run_release (release_at builder node.id alloc)) c.new_allocators
          ∙ run_release-insert node.id alloc.ip alloc.port c.after w.allocators)
      ∙ ap (λ o. is_used_by o ip port)
          (insert_twice node.id c.after (release c.after alloc.ip alloc.port) w.allocators other)
      ∙ by_node (list_beq node.id other) refl
    where
      alloc : Allocations
      alloc = builder.allocations s.configuration

      by_node :
          (b : Bool)
          → list_beq node.id other ≡ b
          → is_used_by
              (if b then some (release c.after alloc.ip alloc.port) else lookup other w.allocators)
              ip
              port
            ≡ is_used_at w.allocators other ip port
      by_node false e = refl
      by_node true e =
          release_served c.before c.after alloc ip port c.serves
          ∙ ap (λ o. is_used_by o ip port)
              (sym c.had_allocator
                ∙ ap (λ k. lookup k w.allocators) ((list_beq_iff node.id other).0 e))

  cleanup_for_destroy-Created :
      (node : Node) (id : Text) (w w' : World builder) (s : Server builder)
      → lookup id w.servers ≡ none
      → lookup id w.records ≡ none
      → Created builder node id w w' s
      → SameState w (cleanup_for_destroy builder true s w')
  unfolding cleanup_for_destroy
  cleanup_for_destroy-Created node id w w' s no_server no_record c = record {
    servers =
        subst (λ k. (j : Text) → lookup j (delete k w'.servers) ≡ lookup j w.servers) (sym c.its_id)
          (SameBut-none id w.servers (delete id w'.servers)
            (SameBut-trans id w.servers w'.servers _ c.others.servers
              (delete-SameBut id w'.servers))
            no_server (lookup-delete_same id w'.servers));
    records =
        subst (λ k. (j : Text) → lookup j (delete k w'.records) ≡ lookup j w.records) (sym c.its_id)
          (SameBut-none id w.records (delete id w'.records)
            (SameBut-trans id w.records w'.records _ c.others.records
              (delete-SameBut id w'.records))
            no_record (lookup-delete_same id w'.records));
    pairs = released_pairs node id w w' s c;
  }

  -- Under the conditions of a creation that keeps its promises, a server that CreateServer gives and
  -- that CleanupForDestroy then takes away, with a database that removes its row, leaves the servers
  -- of the manager, the rows of the database and the pairs in use at every node as they were before.
  pub cleanup_for_destroy-create_server :
      (shuffle : List Text → List Text) (q : Replies) (node : Node) (id blueprint_id : Text)
      (overrides : Option Overrides) (bp : Blueprint) (w : World builder) (a : Allocator)
      → lookup node.id w.allocators ≡ some a
      → lookup id w.servers ≡ none
      → lookup id w.records ≡ none
      → (w' : World builder) (s : Server builder)
      → create_server builder shuffle q node id blueprint_id overrides bp w ≡ (w', ok s)
      → SameState w (cleanup_for_destroy builder true s w')
  cleanup_for_destroy-create_server shuffle q node id blueprint_id overrides bp w a h no_server
        no_record w' s e =
      cleanup_for_destroy-Created node id w w' s no_server no_record (
        subst (Creates builder q.removed node id w) e (
          create_server-Creates builder shuffle q node id blueprint_id overrides bp w a h no_server
            no_record))
