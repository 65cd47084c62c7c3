-- ===== src/InstallLock/Exclusion.antt =====
-- Only one server installs a base of daemon/server/install_lock.go at a time.
use sls.Shared.{
  ℕ, ◌==◌, ==_iff, ◌≡◌, refl, sym, ◌∙◌, subst, inl, inr, Bool, true, false, ◌&&◌, some, List, [],
  ◌∷◌, All, arith, Bool-cases,
}
use sls.InstallLock.{
  Base, Stage, checking, making, creating, listing, installing, releasing, unlocking, removing,
  waiting, ready, failed, Luck, is_base_installed, install_lock_exists, create_lock, list_base,
  wait_for_lock, next_call, Site, at, advance, run_site,
}

-- The server has made the lock file and not removed it.
abbrev pub holds : Stage → Bool
holds listing = true
holds installing = true
holds releasing = true
holds unlocking = true
holds _ = false

abbrev pub installs : Stage → Bool
installs installing = true
installs _ = false

-- What a server may rely on at its stage.
abbrev pub Keeps : ℕ → Base → Stage → Type 0
Keeps i b p = (holds p ≡ true → b.lock ≡ some i) × (installs p ≡ true → b.content ≡ false)

-- No server on its way out removes the folder.
abbrev pub removes : Stage → Bool
removes unlocking = true
removes removing = true
removes _ = false

-- The installation succeeds and no wait runs out.
abbrev pub Calm : Luck → Type 0
Calm w = (w.install_fails ≡ false) × (w.timed_out ≡ false)

pub record Inv (s : Site) : Type 0 where
  pub keeps : (i : ℕ) → Keeps i s.base (s.stages i)
  pub no_removal : (i : ℕ) → removes (s.stages i) ≡ false

-- The server that moves keeps its own.
next_call-Keeps :
    (w : Luck) (i : ℕ) (b : Base) (p : Stage)
    → Calm w
    → Keeps i b p
    → removes p ≡ false
    → Keeps i (next_call w i b p).0 (next_call w i b p).1 × (removes (next_call w i b p).1 ≡ false)
unfolding next_call is_base_installed create_lock list_base wait_for_lock install_lock_exists
next_call-Keeps w i b checking calm k n =
    (((λ h. ground (arith, h, k, calm)), λ h. ground (arith, h, k, calm)), ground (arith, calm))
next_call-Keeps w i b making calm k n =
    (((λ h. ground (arith, h, k, calm)), λ h. ground (arith, h, k, calm)), ground (arith, calm))
next_call-Keeps w i b creating calm k n =
    (((λ h. ground (arith, h, k, calm)), λ h. ground (arith, h, k, calm)), ground (arith, calm))
next_call-Keeps w i b listing calm k n =
    (((λ h. ground (arith, h, k, calm)), λ h. ground (arith, h, k, calm)), ground (arith, calm))
next_call-Keeps w i b installing calm k n =
    (((λ h. ground (arith, h, k, calm)), λ h. ground (arith, h, k, calm)), ground (arith, calm))
next_call-Keeps w i b releasing calm k n = (((λ h. cc), λ h. cc), refl)
next_call-Keeps w i b unlocking calm k n = absurd (ground (arith, n))
next_call-Keeps w i b removing calm k n = absurd (ground (arith, n))
next_call-Keeps w i b waiting calm k n =
    (((λ h. ground (arith, h, k, calm)), λ h. ground (arith, h, k, calm)), ground (arith, calm))
next_call-Keeps w i b ready calm k n = (k, n)
next_call-Keeps w i b failed calm k n = (k, n)

-- And so does any other one.
next_call-others :
    (w : Luck) (i j : ℕ) (b : Base) (p q : Stage)
    → j == i ≡ false
    → Calm w
    → Keeps i b p
    → removes p ≡ false
    → Keeps j b q
    → Keeps j (next_call w i b p).0 q
unfolding next_call is_base_installed create_lock list_base wait_for_lock install_lock_exists
next_call-others w i j b checking q ne calm k n o =
    ((λ h. ground (arith, h, k, n, o, ne, calm)), λ h. ground (arith, h, k, n, o, ne, calm))
next_call-others w i j b making q ne calm k n o =
    ((λ h. ground (arith, h, k, n, o, ne, calm)), λ h. ground (arith, h, k, n, o, ne, calm))
next_call-others w i j b creating q ne calm k n o =
    ((λ h. ground (arith, h, k, n, o, ne, calm)), λ h. ground (arith, h, k, n, o, ne, calm))
next_call-others w i j b listing q ne calm k n o =
    ((λ h. ground (arith, h, k, n, o, ne, calm)), λ h. ground (arith, h, k, n, o, ne, calm))
next_call-others w i j b installing q ne calm k n o =
    ((λ h. ground (arith, h, k, n, o, ne, calm)), λ h. ground (arith, h, k, n, o, ne, calm))
next_call-others w i j b releasing q ne calm k n o =
    ((λ h. ground (arith, h, k, n, o, ne, calm)), λ h. ground (arith, h, k, n, o, ne, calm))
next_call-others w i j b unlocking q ne calm k n o =
    ((λ h. ground (arith, h, k, n, o, ne, calm)), λ h. ground (arith, h, k, n, o, ne, calm))
next_call-others w i j b removing q ne calm k n o =
    ((λ h. ground (arith, h, k, n, o, ne, calm)), λ h. ground (arith, h, k, n, o, ne, calm))
next_call-others w i j b waiting q ne calm k n o =
    ((λ h. ground (arith, h, k, n, o, ne, calm)), λ h. ground (arith, h, k, n, o, ne, calm))
next_call-others w i j b ready q ne calm k n o =
    ((λ h. ground (arith, h, k, n, o, ne, calm)), λ h. ground (arith, h, k, n, o, ne, calm))
next_call-others w i j b failed q ne calm k n o =
    ((λ h. ground (arith, h, k, n, o, ne, calm)), λ h. ground (arith, h, k, n, o, ne, calm))

abbrev pub AllCalm : List (ℕ × Luck) → Type 0
AllCalm ms = All (λ m. Calm m.1) ms

advance-Inv : (s : Site) (i : ℕ) (w : Luck) → Calm w → Inv s → Inv (advance s i w)
unfolding advance
advance-Inv s i w calm v = record { keeps = keeps; no_removal = no_removal }
  where
    b : Base
    b = (next_call w i s.base (s.stages i)).0

    p : Stage
    p = (next_call w i s.base (s.stages i)).1

    own : Keeps i b p × (removes p ≡ false)
    own = next_call-Keeps w i s.base (s.stages i) calm (v.keeps i) (v.no_removal i)

    keeps : (j : ℕ) → Keeps j b (at i p s.stages j)
    keeps j = elim (Bool-cases (j == i)) [
      | inl same ↦ rw same (subst (λ k. Keeps k b p) (sym ((==_iff j i).0 same)) own.0)
      | inr other ↦ rw other (
          next_call-others w i j s.base (s.stages i) (s.stages j) other calm (v.keeps i)
            (v.no_removal i) (v.keeps j))
    ]

    no_removal : (j : ℕ) → removes (at i p s.stages j) ≡ false
    no_removal j = elim (Bool-cases (j == i)) [
      | inl same ↦ rw same own.1
      | inr other ↦ rw other (v.no_removal j)
    ]

run_site-Inv : (s : Site) (ms : List (ℕ × Luck)) → AllCalm ms → Inv s → Inv (run_site s ms)
unfolding run_site
run_site-Inv s [] calm v = v
run_site-Inv s ((i, w) ∷ ms) (c, calm) v =
    run_site-Inv (advance s i w) ms calm (advance-Inv s i w c v)

-- Any number of servers at the beginning, over whatever stands in the folder.
abbrev pub all_checking : Base → Site
all_checking b = record { base = b; stages = λ i. checking }

-- From there, in any order of the calls of the servers, and whatever other calls fail: as long as no
-- installation fails and no wait runs out, two servers that have the lock are one, and it installs
-- only while the folder has no entries but the lock.
pub run_site-exclusive :
    (b : Base) (ms : List (ℕ × Luck)) (i j : ℕ)
    → AllCalm ms
    → holds ((run_site (all_checking b) ms).stages i) ≡ true
    → holds ((run_site (all_checking b) ms).stages j) ≡ true
    → (i ≡ j)
      × (installs ((run_site (all_checking b) ms).stages i)
            && (run_site (all_checking b) ms).base.content
          ≡ false)
run_site-exclusive b ms i j calm h g =
    let v = run_site-Inv (all_checking b) ms calm (record {
      keeps = λ k. ((λ h. absurd (ground (arith, h))), λ h. absurd (ground (arith, h)));
      no_removal = λ k. refl;
    }) in
    (
      owners (sym ((v.keeps i).0 h) ∙ (v.keeps j).0 g),
      bare (installs ((run_site (all_checking b) ms).stages i))
          (run_site (all_checking b) ms).base.content (v.keeps i).1,
    )
  where
    owners : some i ≡ some j → i ≡ j
    owners e = ground (arith, e)

    bare : (x y : Bool) → (x ≡ true → y ≡ false) → x && y ≡ false
    bare true y f = f refl
    bare false y f = refl
