-- ===== src/ServerManager/Creation.antt =====
-- CreateServer of protocube/server/manager.go on every branch.
use sls.Shared.{
  ◌≡◌, refl, inl, inr, sym, ap, ◌∙◌, Bool, true, false, Option, none, some, List, if◌then◌else◌, ℕ,
  arith,
}
use sls.Shared.Equality.{nat_eq, list_eq}
use sls.Shared.Outcome.{Outcome, ok, err}
use sls.Shared.Table.{Table, lookup, insert, delete, lookup-insert_inv}
use sls.Shared.Text.{Text}
use sls.Allocator
use sls.Allocator.{
  Allocator, Allocations, new_allocation, none_configured, no_free_ports, allocator_is_nil,
  no_allocations, invalid_range, bad_number,
}
use sls.Allocator.Ledger.{is_used}
use sls.Allocator.Takes.{Takes, TakesOrKeeps, new_allocation-TakesOrKeeps}
use sls.ServerManager.{
  remove_server, remove, destroy, ServerRecord, Builder, Node, Replies, World, Server, add,
  store_server, record_of, undo_creation, new_server, release_at, attach_server, init_server,
  ask_node, store_new, with_configuration, with_allocation, create_server, Answer, not_stored,
  not_created,
}
use sls.ServerManager.Lookups.{
  SameBut, lookup-insert_same, lookup-delete_same, insert-SameBut, delete-SameBut, SameBut-trans,
}

-- The same nodes are connected, and every pair that was in use at one still is.
abbrev pub Grown : Table Text Allocator → Table Text Allocator → Type 0
Grown m m' =
    (node : Text) (b : Allocator)
    → lookup node m' ≡ some b
    → (a : Allocator) × (lookup node m ≡ some a)
      × ((ip : Text) (port : ℕ) → is_used a ip port ≡ true → is_used b ip port ≡ true)

pub insert-Grown :
    (k : Text) (a b : Allocator) (m : Table Text Allocator)
    → lookup k m ≡ some a
    → ((ip : Text) (port : ℕ) → is_used a ip port ≡ true → is_used b ip port ≡ true)
    → Grown m (insert k b m)
insert-Grown k a b m h grows node c e = elim (lookup-insert_inv k node b m e) [
  | inl (here, same) ↦ (
    a,
    ap (λ j. lookup j m) (sym here) ∙ h,
    λ ip port used. ap (λ x. is_used x ip port) (sym same) ∙ grows ip port used,
  )
  | inr (there, found) ↦ (c, found, λ ip port used. used)
]

module _ {Configuration Script Overrides Blueprint E : Type 0}
    (builder : Builder Configuration Script Overrides Blueprint E) where
  -- Other servers and their rows are as before.
  pub record Others (id : Text) (w w' : World builder) : Type 0 where
    pub servers : SameBut id w.servers w'.servers
    pub records : SameBut id w.records w'.records

  -- The server that a new process makes of the row, once the node is attached.
  abbrev pub restored : Node → Server builder → Table Text Allocator → Server builder
  restored node s allocators =
      attach_server builder node (init_server builder (record_of builder s) none allocators).0

  -- The server is known and has its row, and its pair was free at the node and is in use.
  pub record Created (node : Node) (id : Text) (w w' : World builder) (s : Server builder)
      : Type 0 where
    pub its_id : s.id ≡ id
    pub its_node : s.node_id ≡ node.id
    pub in_servers : lookup id w'.servers ≡ some s
    pub in_records : lookup id w'.records ≡ some (record_of builder s)
    pub others : Others id w w'
    pub before : Allocator
    pub after : Allocator
    pub had_allocator : lookup node.id w.allocators ≡ some before
    pub new_allocators : w'.allocators ≡ insert node.id after w.allocators
    pub serves : Takes before after (builder.allocations s.configuration)
    pub its_release : s.release ≡ release_at builder node.id (builder.allocations s.configuration)
    pub survives :
        (m : Table Text Allocator)
        → restored node s m ≡ record s { configuration = builder.read_back s.configuration }

  -- The row of the id is gone, if the database has removed it.
  abbrev pub Gone : Bool → Text → Table Text (ServerRecord builder) → Type 0
  Gone true id records = lookup id records ≡ none
  Gone false id records = Unit {0}

  pub record NotCreated (removed : Bool) (id : Text) (w w' : World builder) : Type 0 where
    pub no_server : lookup id w'.servers ≡ none
    pub no_record : Gone removed id w'.records
    pub others : Others id w w'
    pub grown : Grown w.allocators w'.allocators

  abbrev pub Creates : Bool → Node → Text → World builder → Answer builder → Type 0
  Creates removed node id w (w', ok s) = Created node id w w' s
  Creates removed node id w (w', err e) = NotCreated removed id w w'

  undo_creation-NotCreated :
      (q : Replies) (id : Text) (w w' : World builder)
      → Others id w w'
      → Grown w.allocators w'.allocators
      → NotCreated q.removed id w (undo_creation builder q id w')
  unfolding undo_creation
  undo_creation-NotCreated q id w w' o g = by_removal q.removed
    where
      servers : SameBut id w.servers (delete id w'.servers)
      servers =
          SameBut-trans id w.servers w'.servers (delete id w'.servers) o.servers
            (delete-SameBut id w'.servers)

      by_removal :
          (b : Bool)
          → NotCreated b id w
              (remove_server builder b id (destroy builder id (remove builder id w')))
      by_removal true = record {
        no_server = lookup-delete_same id w'.servers;
        no_record = lookup-delete_same id w'.records;
        others = record {
          servers = servers;
          records =
              SameBut-trans id w.records w'.records (delete id w'.records) o.records
                (delete-SameBut id w'.records);
        };
        grown = g;
      }
      by_removal false = record {
        no_server = lookup-delete_same id w'.servers;
        no_record = tt;
        others = record { servers = servers; records = o.records };
        grown = g;
      }

  ask_node-Creates :
      (q : Replies) (node : Node) (w w' : World builder) (s : Server builder)
      → Grown w.allocators w'.allocators
      → Created node s.id w w' s
      → Creates q.removed node s.id w (ask_node builder q s w')
  ask_node-Creates q node w w' s g c = by_reply q.created
    where
      by_reply :
          (b : Bool)
          → Creates q.removed node s.id w
              (if b then (w', ok s) else (undo_creation builder q s.id w', err not_created))
      by_reply true = c
      by_reply false = undo_creation-NotCreated q s.id w w' c.others g

  store_new-Creates :
      (q : Replies) (node : Node) (w w' : World builder) (s : Server builder)
      → Others s.id w w'
      → Grown w.allocators w'.allocators
      → (Others s.id w (store_server builder (record_of builder s) w')
          → Created node s.id w (store_server builder (record_of builder s) w') s)
      → Creates q.removed node s.id w (store_new builder q s w')
  store_new-Creates q node w w' s o g c = by_reply q.stored
    where
      stored : World builder
      stored = store_server builder (record_of builder s) w'

      by_reply :
          (b : Bool)
          → Creates q.removed node s.id w (
              if b
              then ask_node builder q s stored
              else (undo_creation builder q s.id w', err not_stored))
      by_reply true = ask_node-Creates q node w stored s g (
          c (record {
            servers = o.servers;
            records =
                SameBut-trans s.id w.records w'.records _ o.records
                  (insert-SameBut s.id (record_of builder s) w'.records);
          }))
      by_reply false = undo_creation-NotCreated q s.id w w' o g

  with_configuration-Creates :
      (q : Replies) (node : Node) (id blueprint_id : Text) (overrides : Option Overrides)
      (bp : Blueprint) (alloc : Allocations) (w : World builder) (a b : Allocator)
      → lookup node.id w.allocators ≡ some a
      → Takes a b alloc
      → Creates q.removed node id w (
          with_configuration builder q node id blueprint_id overrides alloc
            (record w { allocators = insert node.id b w.allocators })
            (builder.build id overrides bp alloc))
  with_configuration-Creates q node id blueprint_id overrides bp alloc w a b h serves =
      by_build (builder.build id overrides bp alloc) refl
    where
      allocated : World builder
      allocated = record w { allocators = insert node.id b w.allocators }

      grown : Grown w.allocators allocated.allocators
      grown =
          insert-Grown node.id a b w.allocators h
            λ ip port used. ground (arith, serves.one_more.one_more ip port, used)

      by_build :
          (r : Outcome E (Configuration × Script))
          → builder.build id overrides bp alloc ≡ r
          → Creates q.removed node id w
              (with_configuration builder q node id blueprint_id overrides alloc allocated r)
      by_build (err e) built =
          undo_creation-NotCreated q id w allocated
            (record { servers = λ j _. refl; records = λ j _. refl }) grown
      by_build (ok (c, script)) built =
          let s = new_server builder node id blueprint_id overrides c script alloc in
          let kept = builder.keeps id overrides bp alloc c script built in
          store_new-Creates q node w (add builder s allocated) s
            (record { servers = insert-SameBut id s w.servers; records = λ j _. refl }) grown
            λ o. record {
              its_id = refl;
              its_node = refl;
              in_servers = lookup-insert_same id s w.servers;
              in_records = lookup-insert_same id (record_of builder s) w.records;
              others = o;
              before = a;
              after = b;
              had_allocator = h;
              new_allocators = refl;
              serves = rw kept serves;
              its_release = rw (kept, serves.released) refl;
              survives = λ m.
                  unfold init_server in
                  rw (builder.read_back_ip c, builder.read_back_port c, kept, serves.released) refl;
            }

  pub create_server-Creates :
      (shuffle : List Text → List Text) (q : Replies) (node : Node) (id blueprint_id : Text)
      (overrides : Option Overrides) (bp : Blueprint) (w : World builder) (a : Allocator)
      → lookup node.id w.allocators ≡ some a
      → lookup id w.servers ≡ none
      → lookup id w.records ≡ none
      → Creates q.removed node id w
          (create_server builder shuffle q node id blueprint_id overrides bp w)
  unfolding create_server
  create_server-Creates shuffle q node id blueprint_id overrides bp w a h no_server no_record =
      rw h (by_choice (new_allocation shuffle (some a)) (new_allocation-TakesOrKeeps shuffle a))
    where
      gone : (b : Bool) → Gone b id w.records
      gone true = no_record
      gone false = tt

      by_choice :
          (r : Option Allocator × Allocator.Result Allocations)
          → TakesOrKeeps a r
          → Creates q.removed node id w
              (with_allocation builder q node id blueprint_id overrides bp w r)
      by_choice (none, r) c = absurd c
      by_choice (some b, Allocator.err e) c = record {
        no_server = no_server;
        no_record = gone q.removed;
        others = record { servers = λ j _. refl; records = λ j _. refl };
        grown = insert-Grown node.id a b w.allocators h λ ip port used. c.same_used ip port ∙ used;
      }
      by_choice (some b, Allocator.ok alloc) c =
          with_configuration-Creates q node id blueprint_id overrides bp alloc w a b h c
