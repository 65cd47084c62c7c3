-- ===== src/ServerManager/Nodes.antt =====
-- AttachNodeClientToServers and DetachNodeClientFromServers of protocube/server/manager.go: what they do
-- to each server, and which pairs an attachment claims.
use sls.Shared.{
  ℕ, ◌≡◌, refl, sym, ap, ◌∙◌, subst, true, some, [], ◌∷◌, if◌then◌else◌, arith, Bool-cases, inl,
  inr, ==_iff,
}
use sls.Shared.Equality.{nat_eq, list_eq, list_beq}
use sls.Shared.Table.{Table, lookup}
use sls.Shared.Text.{Text}
use sls.Allocator.{Allocator, claim, configured, in_range}
use sls.Allocator.Ledger.{is_used}
use sls.Allocator.Calls.{is_used-claim, claim-OneMore, claim_outside}
use sls.Allocator.Config.{configured_same}
use sls.ServerManager.{Builder, Server, change_of_node, claim_all, claim_server}
use sls.ServerManager.Lookups.{text_beq_refl}

module _ {Configuration Script Overrides Blueprint E : Type 0}
    (builder : Builder Configuration Script Overrides Blueprint E) where
  abbrev pub changed : Text → (Server builder → Server builder) → Server builder → Server builder
  changed node change s = if list_beq s.node_id node then change s else s

  pub lookup-change_of_node :
      (node : Text) (change : Server builder → Server builder) (m : Table Text (Server builder))
      (k : Text) (t : Server builder)
      → lookup k (change_of_node builder node change m) ≡ some t
      → (s : Server builder) × (lookup k m ≡ some s) × (t ≡ changed node change s)
  unfolding change_of_node lookup
  lookup-change_of_node node change [] k t h = cc
  lookup-change_of_node node change ((j, s) ∷ m) k t h = elim (Bool-cases (list_beq j k)) [
    | inl here ↦
        let e : some (changed node change s) ≡ some t = rw (here, if◌then◌else◌) at h in
        (s, rw (here, if◌then◌else◌) refl, cc)
    | inr there ↦
        let (u, found, e) =
          lookup-change_of_node node change m k t (rw (there, if◌then◌else◌) at h) in
        (u, rw (there, if◌then◌else◌) found, e)
  ]

  -- The pair of a server lies in the ranges of an allocator.
  abbrev pub InAllocator : Server builder → Allocator → Type 0
  InAllocator s a =
      let alloc = builder.allocations s.configuration in
      in_range alloc.port (configured a alloc.ip) ≡ true

  abbrev pub IsUsed : Server builder → Allocator → Type 0
  IsUsed s a =
      let alloc = builder.allocations s.configuration in is_used a alloc.ip alloc.port ≡ true

  claim_allocations :
      (a : Allocator) (ip : Text) (port : ℕ) → (claim a ip port).allocations ≡ a.allocations
  claim_allocations a ip port = elim (Bool-cases (in_range port (configured a ip))) [
    | inl inside ↦ (claim-OneMore a ip port inside).same_allocations
    | inr outside ↦ ap (λ b. b.allocations) (claim_outside a ip port outside)
  ]

  claim_one : Text → Server builder → Allocator → Allocator
  claim_one node s a = if list_beq s.node_id node then claim_server builder s a else a

  claim_one-allocations :
      (node : Text) (s : Server builder) (a : Allocator)
      → (claim_one node s a).allocations ≡ a.allocations
  unfolding claim_one
  claim_one-allocations node s a = elim (Bool-cases (list_beq s.node_id node)) [
    | inl its ↦ rw (its, if◌then◌else◌) (claim_allocations a _ _)
    | inr other ↦ rw (other, if◌then◌else◌) refl
  ]

  claim_one-is_used :
      (node : Text) (s : Server builder) (a : Allocator) (ip : Text) (port : ℕ)
      → is_used a ip port ≡ true
      → is_used (claim_one node s a) ip port ≡ true
  unfolding claim_one
  claim_one-is_used node s a ip port used = elim (Bool-cases (list_beq s.node_id node)) [
    | inl its ↦
        let alloc = builder.allocations s.configuration in
        rw (its, if◌then◌else◌) (ground (arith, is_used-claim a alloc.ip ip alloc.port port, used))
    | inr other ↦ rw (other, if◌then◌else◌) used
  ]

  claim_all-is_used :
      (node : Text) (m : Table Text (Server builder)) (a : Allocator) (ip : Text) (port : ℕ)
      → is_used a ip port ≡ true
      → is_used (claim_all builder node m a) ip port ≡ true
  unfolding claim_all claim_one
  claim_all-is_used node [] a ip port used = used
  claim_all-is_used node ((k, s) ∷ m) a ip port used =
      claim_all-is_used node m (claim_one node s a) ip port
        (claim_one-is_used node s a ip port used)

  InAllocator-claim_one :
      (node : Text) (s t : Server builder) (a : Allocator)
      → InAllocator t a
      → InAllocator t (claim_one node s a)
  InAllocator-claim_one node s t a h =
      let alloc = builder.allocations t.configuration in
      ap (in_range alloc.port)
        (configured_same a (claim_one node s a) alloc.ip (claim_one-allocations node s a))
      ∙ h

  -- Every server of the node whose pair lies in the ranges has it in use.
  pub claim_all-IsUsed :
      (node : Text) (m : Table Text (Server builder)) (a : Allocator) (k : Text)
      (s : Server builder)
      → lookup k m ≡ some s
      → s.node_id ≡ node
      → InAllocator s a
      → IsUsed s (claim_all builder node m a)
  unfolding claim_all lookup claim_one
  claim_all-IsUsed node [] a k s h its inside = cc
  claim_all-IsUsed node ((j, t) ∷ m) a k s h its inside = elim (Bool-cases (list_beq j k)) [
    | inl here ↦
        let e : some t ≡ some s = rw (here, if◌then◌else◌) at h in
        claim_all-is_used node m (claim_one node t a) _ _ (first t cc)
    | inr there ↦
        claim_all-IsUsed node m (claim_one node t a) k s (rw (there, if◌then◌else◌) at h) its
          (InAllocator-claim_one node t s a inside)
  ]
    where
      claimed : IsUsed s (claim_one node s a)
      claimed =
          let alloc = builder.allocations s.configuration in
          rw (its, text_beq_refl node, if◌then◌else◌)
            (ground (
              arith,
              is_used-claim a alloc.ip alloc.ip alloc.port alloc.port,
              text_beq_refl alloc.ip,
              ==_iff alloc.port alloc.port,
              inside,
            ))

      first : (u : Server builder) → u ≡ s → IsUsed s (claim_one node u a)
      first u e = subst (λ v. IsUsed s (claim_one node v a)) (sym e) claimed
