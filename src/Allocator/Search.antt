-- ===== src/Allocator/Search.antt =====
-- The search for a free port is first fit: in the order of the allocations, and in each from the
-- start of its range on.
use sls.Shared.{
  ℕ, zero, suc, All, ◌%◌, ◌^◌, ◌+◌, ◌-◌, ◌≤◌, ◌<◌, ◌≡◌, refl, sym, subst, ap, ◌⊎◌, inl, inr, true,
  false, Option, none, some, List, [], ◌∷◌, ◌++◌, arith, Bool-cases,
}
use native.Mathlib.Decide.{ℕ_discrete}
use native.Mathlib.Nat.{mod-eq_of_lt}
use sls.Shared.Text.{max_int}
use sls.Allocator.{Allocation, PortRange, contains, rounds_of, scan_range, scan_allocations}

-- The ports from `lo` up to `hi` are all in use.
abbrev pub Full : List ℕ → ℕ → ℕ → Type 0
Full used lo hi = (q : ℕ) → lo ≤ q → q < hi → contains q used ≡ true

abbrev pub FirstFree : List ℕ → ℕ → ℕ → Option ℕ → Type 0
FirstFree used lo hi none = Full used lo hi
FirstFree used lo hi (some p) = (lo ≤ p) × (p < hi) × (contains p used ≡ false) × Full used lo p

pub scan_range-FirstFree :
    (used : List ℕ) (k port hi : ℕ)
    → k ≡ hi - port
    → hi < 2 ^ 64
    → FirstFree used port (port + k) (scan_range used k port)
unfolding scan_range
scan_range-FirstFree used zero port hi e h = λ q lo hi. absurd (omega arith)
scan_range-FirstFree used (suc k) port hi e h = elim (Bool-cases (contains port used)) [
  | inl taken ↦
      let next : (port + 1) % 2 ^ 64 ≡ port + 1 = mod-eq_of_lt (omega (arith, e, h)) in
      rw (taken, scan_range, next)
        (extend (scan_range used k (port + 1)) taken
          (scan_range-FirstFree used k (port + 1) hi (omega (arith, e)) h))
  | inr free ↦
      rw (free, scan_range) (omega arith, omega arith, free, λ q lo hi. absurd (omega arith))
]
  where
    shift : (hi : ℕ) → contains port used ≡ true → Full used (port + 1) hi → Full used port hi
    shift hi taken full q lo below = elim (ℕ_discrete q port) [
      | yes at ↦ rw at taken
      | no off ↦ full q (omega arith) below
    ]

    extend :
        (r : Option ℕ)
        → contains port used ≡ true
        → FirstFree used (port + 1) (port + 1 + k) r
        → FirstFree used port (port + suc k) r
    extend none taken full = λ q lo hi. shift (port + 1 + k) taken full q lo (omega arith)
    extend (some p) taken found =
        (omega (arith, found.0), omega (arith, found.1), found.2, shift p taken found.3)

-- The ranges end below the largest int.
abbrev pub EndBelow : List Allocation → Type 0
EndBelow xs = All (λ x. x.port_range.end < max_int) xs

rounds_of_lem : (r : PortRange) → r.end < max_int → rounds_of r ≡ suc r.end - r.start
unfolding rounds_of
rounds_of_lem r h = ground (arith, h)

-- A port lies in one of the ranges.
abbrev pub InRanges : ℕ → List Allocation → Type 0
InRanges p [] = ⊥
InRanges p (x ∷ xs) = (x.port_range.start ≤ p) × (p ≤ x.port_range.end) ⊎ InRanges p xs

-- Every port of every range is in use.
abbrev pub AllFull : List ℕ → List Allocation → Type 0
AllFull used xs = (q : ℕ) → InRanges q xs → contains q used ≡ true

abbrev pub FirstFit : List ℕ → List Allocation → Option (ℕ × Allocation) → Type 0
FirstFit used xs none = AllFull used xs
FirstFit used xs (some (p, x)) =
    (before : List Allocation) × (after : List Allocation) × (xs ≡ before ++ x ∷ after)
    × AllFull used before
    × (x.port_range.start ≤ p)
    × (p ≤ x.port_range.end)
    × (contains p used ≡ false)
    × Full used x.port_range.start p

pub scan_allocations-FirstFit :
    (used : List ℕ) (xs : List Allocation)
    → EndBelow xs
    → FirstFit used xs (scan_allocations used xs)
unfolding scan_allocations
scan_allocations-FirstFit used [] below = λ q h. absurd h
scan_allocations-FirstFit used (x ∷ xs) (below, rest) =
    let rounds = rounds_of_lem x.port_range below in
    subst
      (λ k. FirstFit used (x ∷ xs) (elim (scan_range used k x.port_range.start) [
        | some port ↦ some (port, x)
        | none ↦ scan_allocations used xs
      ]))
      (sym rounds)
      (go (scan_range used (suc x.port_range.end - x.port_range.start) x.port_range.start)
        (scan_range-FirstFree used _ x.port_range.start (suc x.port_range.end) refl
          (omega (arith, below)))
        (scan_allocations used xs) (scan_allocations-FirstFit used xs rest))
  where
    Whole : Option ℕ → Type 0
    Whole r =
        FirstFree used x.port_range.start
          (x.port_range.start + (suc x.port_range.end - x.port_range.start)) r

    later :
        (r : Option (ℕ × Allocation))
        → Full used x.port_range.start
            (x.port_range.start + (suc x.port_range.end - x.port_range.start))
        → FirstFit used xs r
        → FirstFit used (x ∷ xs) r
    later none full rest = λ q h. elim h [
      | inl here ↦ full q here.0 (omega (arith, here.0, here.1))
      | inr there ↦ rest q there
    ]
    later (some (p, y)) full (before, after, cut, sooner, from, to, free, first) = (
      x ∷ before,
      after,
      ap (◌∷◌ x) cut,
      (λ q h. elim h [
        | inl here ↦ full q here.0 (omega (arith, here.0, here.1))
        | inr there ↦ sooner q there
      ]),
      from,
      to,
      free,
      first,
    )

    go :
        (r : Option ℕ)
        → Whole r
        → (s : Option (ℕ × Allocation)) → FirstFit used xs s
        → FirstFit used (x ∷ xs) (elim r [ some port ↦ some (port, x) | none ↦ s ])
    go none full s rest = later s full rest
    go (some p) found s rest =
        ([], xs, refl, (λ q h. absurd h), found.0, omega (arith, found.1), found.2, found.3)
