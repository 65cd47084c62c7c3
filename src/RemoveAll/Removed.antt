-- ===== src/RemoveAll/Removed.antt =====
-- removeAllFrom of daemon/internal/ufs/removeall_unix.go, where the system refuses nothing.
use sls.Shared.{
  ℕ, zero, suc, ◌<◌, ◌≤◌, ◌≡◌, refl, ap, false, ◌==◌, leb, none, [], ◌∷◌, if◌then◌else◌, arith,
  length, take, drop, length-take, length-drop, Bool-cases, inl, inr,
}
use sls.Shared.Outcome.{ok}
use sls.RemoveAll.{
  Answers, Entry, file, dir, to_list, Left, Listing, Rounds, remove_names, remove_batches,
  remove_rounds, remove_contents_from, remove_all_from,
}
use sls.RemoveAll.Batches.{AllEntries, AllEntries-take-drop}

-- No call on the entry fails.
pub record IsFree (a : Answers) : Type 0 where
  pub unlinks : a.cannot_unlink ≡ none
  pub stats : a.cannot_stat ≡ none
  pub opens : a.cannot_open ≡ none
  pub reads : a.cannot_read ≡ none
  pub rmdirs : a.cannot_rmdir ≡ none

-- A tree of at most so many levels, on which no call fails.
abbrev pub Free : ℕ → Entry → Type 0
Free zero t = ⊥
Free (suc n) (file a) = IsFree a
Free (suc n) (dir a es) = IsFree a × AllEntries (Free n) (to_list es)

module _ (P : Entry → Type 0) (remove : Entry → Rounds Left)
    (removes : (t : Entry) → P t → remove t ≡ ok (none, none)) where
  remove_names-all : (es : Listing) → AllEntries P es → remove_names remove es ≡ ok ([], 0)
  unfolding remove_names
  remove_names-all [] h = refl
  remove_names-all ((name, t) ∷ es) (h, hs) = rw (removes t h, remove_names-all es hs) refl

  remove_rounds-all :
      (size rounds : ℕ) (es : Listing)
      → 0 < size
      → length es < rounds
      → AllEntries P es
      → remove_rounds remove size rounds es ≡ ok []
  unfolding remove_rounds remove_batches
  remove_rounds-all size zero es p q h = absurd (omega arith)
  remove_rounds-all size (suc rounds) es p q h =
      elim (Bool-cases (leb size (length (take size es)))) [
        | inl full ↦
            rw (remove_names-all (take size es) halves.0, no_error, full, if◌then◌else◌)
              (remove_rounds-all size rounds (drop size es) p
                (ground (arith, p, q, full, length-take size es, length-drop size es)) halves.1)
        | inr last ↦
            rw (remove_names-all (take size es) halves.0, no_error, last, if◌then◌else◌)
              (ap ok (
                none_left (drop size es)
                  (ground (arith, last, length-take size es, length-drop size es))))
      ]
    where
      halves : AllEntries P (take size es) × AllEntries P (drop size es)
      halves = AllEntries-take-drop P size es h

      no_error : (0 == size) ≡ false
      no_error = ground (arith, p)

      none_left : (xs : Listing) → length xs ≤ 0 → xs ≡ []
      none_left [] h = refl
      none_left (x ∷ xs) h = absurd (omega arith)

-- With batches of any size but 0, on any tree of at most as many levels as nested calls, where no call
-- of the system fails: removeAllFrom ends, without an error, and nothing of the tree is left.
pub remove_all_from-all :
    (size n : ℕ) (t : Entry) → 0 < size → Free n t → remove_all_from size n t ≡ ok (none, none)
unfolding remove_all_from remove_contents_from
remove_all_from-all size zero t p h = absurd h
remove_all_from-all size (suc n) (file a) p h = rw (h.unlinks) refl
remove_all_from-all size (suc n) (dir a es) p (h, hs) =
    rw
      (
        h.unlinks,
        h.stats,
        h.opens,
        h.reads,
        remove_rounds-all (Free n) (remove_all_from size n)
            (λ t f. remove_all_from-all size n t p f) size (suc (length (to_list es))) (to_list es)
            p (omega arith) hs,
        h.rmdirs,
      )
      refl
