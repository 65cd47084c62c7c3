-- ===== src/RemoveAll/Batches.antt =====
-- The loops of removeContentsFrom in daemon/internal/ufs/removeall_unix.go end, whatever entries cannot
-- be removed.
use sls.Shared.{
  ℕ, zero, suc, ◌+◌, ◌<◌, ◌≤◌, ◌≡◌, refl, Bool, true, false, ◌==◌, leb, none, some, [], ◌∷◌, ◌++◌,
  if◌then◌else◌, arith, length, take, drop, length-append, length-take, length-drop, All,
  All-append, Bool-cases, inl, inr, ==_iff,
}
use sls.Shared.Outcome.{ok}
use sls.Shared.Text.{Text}
use sls.RemoveAll.{Entry, Left, Listing, Rounds, remove_names, remove_batches, remove_rounds}

module _ (P : Entry → Type 0) where
  -- An entry is gone without an error, or left with one.
  abbrev pub Settled : Left → Type 0
  Settled (none, none) = Unit
  Settled (some t, some e) = P t
  Settled _ = ⊥

  abbrev pub AllEntries : Listing → Type 0
  AllEntries = All (λ p. P p.1)

  -- What removes an entry ends, on the entries of a kind.
  abbrev pub Removes : (Entry → Rounds Left) → Type 0
  Removes remove = (t : Entry) → P t → (r : Left) × (remove t ≡ ok r) × Settled r

  pub AllEntries-take-drop :
      (n : ℕ) (es : Listing) → AllEntries es → AllEntries (take n es) × AllEntries (drop n es)
  AllEntries-take-drop zero es h = (tt, h)
  AllEntries-take-drop (suc n) [] h = (tt, tt)
  AllEntries-take-drop (suc n) (e ∷ es) (h, hs) =
      let (a, b) = AllEntries-take-drop n es hs in ((h, a), b)

  module _ (remove : Entry → Rounds Left) (removes : Removes remove) where
    record Named (es : Listing) : Type 0 where
      left : Listing
      errors : ℕ
      ends : remove_names remove es ≡ ok (left, errors)
      kind : AllEntries left
      each : length left ≡ errors
      bound : errors ≤ length es

    Named-cons :
        (name : Text) (t : Entry) (es : Listing) (r : Left)
        → remove t ≡ ok r
        → Settled r
        → Named es
        → Named ((name, t) ∷ es)
    unfolding remove_names
    Named-cons name t es (none, none) e s n = record {
      left = n.left;
      errors = n.errors;
      ends = rw (e, n.ends) refl;
      kind = n.kind;
      each = n.each;
      bound = omega (arith, n.bound);
    }
    Named-cons name t es (some u, some f) e s n = record {
      left = (name, u) ∷ n.left;
      errors = suc n.errors;
      ends = rw (e, n.ends) refl;
      kind = (s, n.kind);
      each = omega (arith, n.each);
      bound = omega (arith, n.bound);
    }
    Named-cons name t es (none, some f) e s n = absurd s
    Named-cons name t es (some u, none) e s n = absurd s

    named : (es : Listing) → AllEntries es → Named es
    unfolding remove_names
    named [] h = record {
      left = [];
      errors = 0;
      ends = refl;
      kind = tt;
      each = refl;
      bound = omega arith;
    }
    named ((name, t) ∷ es) (h, hs) =
        let (r, e, s) = removes t h in Named-cons name t es r e s (named es hs)

    -- The loop over the batches ends; if its last batch was full, fewer entries are left.
    record Batched (size rounds : ℕ) (before es : Listing) : Type 0 where
      left : Listing
      full : Bool
      ends : remove_batches remove size rounds before es ≡ ok (left, full)
      kind : AllEntries left
      fewer : full ≡ true → length left < length before + length es

    batched :
        (size rounds : ℕ) (before es : Listing)
        → 0 < size
        → length es < rounds
        → AllEntries before
        → AllEntries es
        → Batched size rounds before es
    unfolding remove_batches
    batched size zero before es p q b h = absurd (omega arith)
    batched size (suc rounds) before es p q b h = elim (Bool-cases (n.errors == size)) [
      | inl same ↦
          let e : n.errors ≡ size = (==_iff n.errors size).0 same in
          let r =
            batched size rounds (before ++ n.left) (drop size es) p
              (omega (arith, p, q, e, n.bound, length-take size es, length-drop size es))
              (All-append (λ t. P t.1) before n.left b n.kind) halves.1 in
          record {
            left = r.left;
            full = r.full;
            ends = rw (n.ends, same, if◌then◌else◌) r.ends;
            kind = r.kind;
            fewer = λ f. omega (
              arith,
              r.fewer f,
              n.bound,
              n.each,
              e,
              length-append before n.left,
              length-take size es,
              length-drop size es,
            );
          }
      | inr other ↦ record {
        left = before ++ n.left ++ drop size es;
        full = leb size (length (take size es));
        ends = rw (n.ends, other, if◌then◌else◌) refl;
        kind =
            All-append (λ t. P t.1) (before ++ n.left) (drop size es)
              (All-append (λ t. P t.1) before n.left b n.kind) halves.1;
        fewer = λ f. fewer_left other f;
      }
    ]
      where
        n : Named (take size es)
        n = named (take size es) (AllEntries-take-drop size es h).0

        halves : AllEntries (take size es) × AllEntries (drop size es)
        halves = AllEntries-take-drop size es h

        fewer_left :
            (n.errors == size) ≡ false
            → leb size (length (take size es)) ≡ true
            → length (before ++ n.left ++ drop size es) < length before + length es
        fewer_left other f = ground (
          arith,
          n.bound,
          n.each,
          other,
          f,
          length-append (before ++ n.left) (drop size es),
          length-append before n.left,
          length-take size es,
          length-drop size es,
        )

    -- The loop that opens the directory again ends, in at most one round more than there are entries.
    pub remove_rounds-ends :
        (size rounds : ℕ) (es : Listing)
        → 0 < size
        → length es < rounds
        → AllEntries es
        → (es' : Listing) × (remove_rounds remove size rounds es ≡ ok es') × AllEntries es'
    unfolding remove_rounds
    remove_rounds-ends size zero es p q h = absurd (omega arith)
    remove_rounds-ends size (suc rounds) es p q h = elim (Bool-cases b.full) [
      | inl full ↦
          let (es', e, k) =
            remove_rounds-ends size rounds b.left p (omega (arith, q, b.fewer full)) b.kind in
          (es', rw (b.ends, full, if◌then◌else◌) e, k)
      | inr last ↦ (b.left, rw (b.ends, last, if◌then◌else◌) refl, b.kind)
    ]
      where
        b : Batched size (suc (length es)) [] es
        b = batched size (suc (length es)) [] es p (omega arith) tt h
