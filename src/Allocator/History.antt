-- ===== src/Allocator/History.antt =====
-- Histories of calls: who holds a pair, and that no pair is handed out twice.
use sls.Shared.{
  ℕ, ◌≡◌, ap, if◌then◌else◌, ◌∙◌, inl, inr, ◌==◌, Bool, true, ◌&&◌, List, [], ◌∷◌, arith,
  Bool-cases, All, All-mono, Distinct,
}
use sls.Shared.Equality.{nat_eq, list_eq, list_beq, list_beq_iff}
use sls.Shared.Text.{Text}
use sls.Allocator.{
  Allocator, Allocation, Result, ok, err, no_allocations, no_free_ports, claim, release, allocate,
}
use sls.Allocator.Ledger.{is_used, is_used-release}
use sls.Allocator.Calls.{SameUse, Allocates, allocate-Allocates, is_used-claim}
use sls.Allocator.Config.{
  InConfig, allocate-InConfig, claim-InConfig, release-InConfig, IsBounded, allocate-IsBounded,
  claim-IsBounded, release-IsBounded,
}

pub data Call : Type 0 where
  allocates : Text → Call
  claims releases : Text → ℕ → Call

abbrev pub Pair : Type 0
Pair = Text × ℕ

-- The allocator with the pairs that it has handed out and that nobody has released since.
pub record Session : Type 0 where
  pub allocator : Allocator
  pub held : List Pair

abbrev pub same_pair : Pair → Pair → Bool
same_pair (a, p) (b, q) = list_beq a b && q == p

pub drop_pair : Pair → List Pair → List Pair
drop_pair o [] = []
drop_pair o (x ∷ xs) = let rest = drop_pair o xs in if same_pair o x then rest else x ∷ rest

abbrev pub hand_out : Text → List Pair → Allocator × Result (ℕ × Allocation) → Session
hand_out address held (b, ok (p, x)) = record { allocator = b; held = (address, p) ∷ held }
hand_out address held (b, err e) = record { allocator = b; held = held }

pub step : Session → Call → Session
step s (allocates address) = hand_out address s.held (allocate s.allocator address)
step s (claims address port) = record s { allocator = claim s.allocator address port }
step s (releases address port) = record s {
  allocator = release s.allocator address port;
  held = drop_pair (address, port) s.held;
}

pub run : Session → List Call → Session
run s [] = s
run s (c ∷ cs) = run (step s c) cs

abbrev pub InUse : Allocator → Pair → Type 0
InUse a o = is_used a o.0 o.1 ≡ true

-- A pair is held once, and while it is held it is in use; what is in use is configured, in ranges
-- that end below the largest int.
pub record Inv (s : Session) : Type 0 where
  pub in_use : All (InUse s.allocator) s.held
  pub once : Distinct s.held
  pub in_config : InConfig s.allocator
  pub bounded : IsBounded s.allocator

same_pair-eq : (o q : Pair) → same_pair o q ≡ true → o ≡ q
same_pair-eq (a, p) (b, q) h = ground (arith, list_beq_iff a b)

All-drop_pair : (P : Pair → Type 0) (o : Pair) (xs : List Pair) → All P xs → All P (drop_pair o xs)
unfolding drop_pair
All-drop_pair P o [] h = tt
All-drop_pair P o (x ∷ xs) (h, hs) = elim (Bool-cases (same_pair o x)) [
  | inl same ↦ rw (same, drop_pair) (All-drop_pair P o xs hs)
  | inr other ↦ rw (other, drop_pair) (h, All-drop_pair P o xs hs)
]

Distinct-drop_pair : (o : Pair) (xs : List Pair) → Distinct xs → Distinct (drop_pair o xs)
unfolding drop_pair
Distinct-drop_pair o [] h = tt
Distinct-drop_pair o (x ∷ xs) (h, hs) = elim (Bool-cases (same_pair o x)) [
  | inl same ↦ rw (same, drop_pair) (Distinct-drop_pair o xs hs)
  | inr other ↦ rw (other, drop_pair) (All-drop_pair _ o xs h, Distinct-drop_pair o xs hs)
]

InUse-release :
    (a : Allocator) (address : Text) (port : ℕ) (xs : List Pair)
    → All (InUse a) xs
    → All (InUse (release a address port)) (drop_pair (address, port) xs)
unfolding drop_pair
InUse-release a address port [] h = tt
InUse-release a address port (x ∷ xs) (h, hs) = elim (Bool-cases (same_pair (address, port) x)) [
  | inl same ↦ rw (same, drop_pair) (InUse-release a address port xs hs)
  | inr other ↦
      rw (other, drop_pair)
        (
          ground (arith, is_used-release a address x.0 port x.1, other, h),
          InUse-release a address port xs hs,
        )
]

allocates-Inv : (s : Session) (address : Text) → Inv s → Inv (step s (allocates address))
unfolding step
allocates-Inv s address v =
    go (allocate s.allocator address) (allocate-Allocates s.allocator address (v.bounded address))
      (allocate-InConfig s.allocator address (v.bounded address) v.in_config)
      (allocate-IsBounded s.allocator address v.bounded)
  where
    kept : (b : Allocator) → SameUse s.allocator b → All (InUse b) s.held
    kept b same = All-mono s.held (λ o h. same.same_used o.0 o.1 ∙ h) v.in_use

    go :
        (r : Allocator × Result (ℕ × Allocation))
        → Allocates s.allocator address r
        → InConfig r.0
        → IsBounded r.0
        → Inv (hand_out address s.held r)
    go (b, ok (p, x)) h c d = record {
      in_use = (
        ground (arith, h.0.one_more address p, list_beq_iff address address),
        All-mono s.held (λ o used. ground (arith, h.0.one_more o.0 o.1, used)) v.in_use,
      );
      once = (
        All-mono s.held
            (λ o used e.
              ground (arith, used, h.1.6, ap (λ (q : Pair). is_used s.allocator q.0 q.1) e))
            v.in_use,
        v.once,
      );
      in_config = c;
      bounded = d;
    }
    go (b, err no_allocations) h c d = record {
      in_use = kept b h.0;
      once = v.once;
      in_config = c;
      bounded = d;
    }
    go (b, err no_free_ports) h c d = record {
      in_use = kept b h.0;
      once = v.once;
      in_config = c;
      bounded = d;
    }
    go (b, err _) h c d = absurd h

-- Every call keeps the invariant.
pub step-Inv : (s : Session) (c : Call) → Inv s → Inv (step s c)
step-Inv s (allocates address) v = allocates-Inv s address v
step-Inv s (claims address port) v =
    unfold step in
    record {
      in_use =
          All-mono s.held
            (λ o used. ground (arith, is_used-claim s.allocator address o.0 port o.1, used))
            v.in_use;
      once = v.once;
      in_config = claim-InConfig s.allocator address port v.in_config;
      bounded = claim-IsBounded s.allocator address port v.bounded;
    }
step-Inv s (releases address port) v =
    unfold step in
    record {
      in_use = InUse-release s.allocator address port s.held v.in_use;
      once = Distinct-drop_pair (address, port) s.held v.once;
      in_config = release-InConfig s.allocator address port v.in_config;
      bounded = release-IsBounded s.allocator address port v.bounded;
    }

-- In any history of allocations, claims and releases, from an allocator in its configuration whose
-- ranges end below the largest int, no pair of an address and a port is held twice, every held pair is in use, and all pairs in use lie
-- in the configured ranges.
pub run-Inv : (s : Session) (cs : List Call) → Inv s → Inv (run s cs)
unfolding run
run-Inv s [] v = v
run-Inv s (c ∷ cs) v = run-Inv (step s c) cs (step-Inv s c v)
