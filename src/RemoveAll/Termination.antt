-- ===== src/RemoveAll/Termination.antt =====
-- removeAllFrom of daemon/internal/ufs/removeall_unix.go ends on every tree, and a removal without an
-- error has removed the entry.
use sls.Shared.{
  ℕ, zero, suc, ◌<◌, ◌≡◌, refl, sym, ap, subst, Bool, true, false, Option, none, some, [], ◌∷◌,
  arith, length,
}
use sls.Shared.Outcome.{ok}
use sls.RemoveAll.{
  Errno, Answers, Entry, file, dir, to_list, from_list, Left, Listing, PathError, Rounds,
  may_be_directory, directory_error, rmdir_error, after_rmdir, recurse_or, unlink_file,
  read_directory, open_directory, failure, remove_contents_from, remove_all_from, readdirnames,
  unlinkat, fstatat,
}
use sls.RemoveAll.Batches.{Settled, Removes, AllEntries, remove_rounds-ends}

-- A tree of at most so many levels.
abbrev pub Within : ℕ → Entry → Type 0
Within zero t = ⊥
Within (suc n) (file a) = Unit
Within (suc n) (dir a es) = AllEntries (Within n) (to_list es)

to_list-from_list : (es : Listing) → to_list (from_list es) ≡ es
unfolding to_list from_list
to_list-from_list [] = refl
to_list-from_list ((name, t) ∷ es) = ap (◌∷◌ (name, t)) (to_list-from_list es)

module _ (size : ℕ) (positive : 0 < size) where
  abbrev Contents : ℕ → Rounds (Listing × Option PathError) → Type 0
  Contents n r =
      (es : Listing) × (e : Option PathError) × (r ≡ ok (es, e)) × AllEntries (Within n) es

  remove_contents_from-Contents :
      (n : ℕ) (remove : Entry → Rounds Left) (a : Answers) (es : Listing)
      → Removes (Within n) remove
      → AllEntries (Within n) es
      → Contents n (remove_contents_from remove size a es)
  unfolding remove_contents_from
  remove_contents_from-Contents n remove a es removes h = by_open a.cannot_open
    where
      by_read : (r : Option Errno) → Contents n (read_directory remove size es r)
      by_read (some e) = (es, failure readdirnames e, refl, h)
      by_read none =
          let (es', e, k) =
            remove_rounds-ends (Within n) remove removes size (suc (length es)) es positive
              (omega arith) h in
          (es', none, rw e refl, k)

      by_open : (o : Option Errno) → Contents n (open_directory remove size a es o)
      by_open (some e) = (es, none, refl, h)
      by_open none = by_read a.cannot_read

  abbrev Ends : ℕ → Rounds Left → Type 0
  Ends n o = (r : Left) × (o ≡ ok r) × Settled (Within n) r

  after_rmdir-Settled :
      (n : ℕ) (a : Answers) (e : Errno) (es : Listing) (recurse : Option PathError)
      (r : Option Errno)
      → AllEntries (Within n) es
      → Settled (Within (suc n)) (after_rmdir a e es recurse r)
  after_rmdir-Settled n a e es recurse none h = tt
  after_rmdir-Settled n a e es none (some f) h =
      subst (AllEntries (Within n)) (sym (to_list-from_list es)) h
  after_rmdir-Settled n a e es (some r) (some f) h =
      subst (AllEntries (Within n)) (sym (to_list-from_list es)) h

  recurse_or-Ends :
      (n : ℕ) (t : Entry) (e : Errno) (b : Bool) (stat : Option Errno) (next : Rounds Left)
      → Within n t
      → Ends n next
      → Ends n (recurse_or t e b stat next)
  recurse_or-Ends n t e false stat next h k = ((some t, failure unlinkat e), refl, h)
  recurse_or-Ends n t e true (some f) next h k = ((some t, failure fstatat f), refl, h)
  recurse_or-Ends n t e true none next h k = k

  unlink_file-Ends : (n : ℕ) (a : Answers) (o : Option Errno) → Ends (suc n) (unlink_file a o)
  unlink_file-Ends n a none = ((none, none), refl, tt)
  unlink_file-Ends n a (some e) =
      recurse_or-Ends (suc n) (file a) e (may_be_directory e) a.cannot_stat _ tt
        ((some (file a), failure unlinkat e), refl, tt)

  -- removeAllFrom, with batches of any size but 0, on any tree and with any answers of the system: it
  -- ends, with at most as many nested calls as the tree has levels. Then the entry is gone and there
  -- is no error, or the entry is left, with no more levels than before, and there is an error.
  pub remove_all_from-ends :
      (n : ℕ) (t : Entry)
      → Within n t
      → (r : Left) × (remove_all_from size n t ≡ ok r) × Settled (Within n) r
  unfolding remove_all_from
  remove_all_from-ends zero t h = absurd h
  remove_all_from-ends (suc n) (file a) h = unlink_file-Ends n a a.cannot_unlink
  remove_all_from-ends (suc n) (dir a es) h =
      let e = directory_error a.cannot_unlink in
      let (left, recurse, ends, k) =
        remove_contents_from-Contents n (remove_all_from size n) a (to_list es)
          (remove_all_from-ends n) h in
      recurse_or-Ends (suc n) (dir a es) e (may_be_directory e) a.cannot_stat _ h (
        after_rmdir a e left recurse (rmdir_error a left),
        rw ends refl,
        after_rmdir-Settled n a e left recurse (rmdir_error a left) k,
      )
