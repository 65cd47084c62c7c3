-- ===== src/RemoveAll/Examples.antt =====
-- Removal of trees: tests, and the theorems at a concrete tree.
use sls.Shared.{◌≡◌, refl, none, some, [], ◌∷◌, arith}
use sls.Shared.Outcome.{ok}
use sls.Shared.Text.{codes}
use sls.RemoveAll.{
  Answers, Entry, file, dir, nil, entry, to_list, from_list, Left, eisdir, eio, unlinkat, failure,
  remove_names, remove_batches, remove_rounds, remove_contents_from, remove_all_from,
}
use sls.RemoveAll.Batches.{Settled}
use sls.RemoveAll.Termination.{Within, remove_all_from-ends}
use sls.RemoveAll.Removed.{IsFree, remove_all_from-all}

abbrev free : Answers
free = record {
  cannot_unlink = none;
  cannot_stat = none;
  cannot_open = none;
  cannot_read = none;
  cannot_rmdir = none;
}

abbrev busy : Entry
busy = file (record free { cannot_unlink = some eio })

-- A directory of three entries, one of which cannot be removed.
abbrev world : Entry
world =
    dir free
      (entry (codes "a") (file free) (entry (codes "b") busy (entry (codes "c") (file free) nil)))

-- With batches of one name, and of more names than there are.
leaves_one :
    (remove_all_from 1 2 world
      ≡ ok (some (dir free (entry (codes "b") busy nil)), failure unlinkat eisdir))
    × (remove_all_from 1024 2 world ≡ remove_all_from 1 2 world)
unfolding remove_all_from remove_contents_from remove_rounds remove_batches remove_names to_list
    from_list
leaves_one = (refl, refl)

-- The removal of the contents reports no error, with an entry that is left.
silent :
    remove_contents_from (remove_all_from 1024 1) 1024 free ((codes "b", busy) ∷ [])
    ≡ ok ((codes "b", busy) ∷ [], none)
unfolding remove_all_from remove_contents_from remove_rounds remove_batches remove_names to_list
silent = refl

remove_all_from-ends_example :
    (r : Left) × (remove_all_from 2 2 world ≡ ok r) × Settled (Within 2) r
unfolding to_list
remove_all_from-ends_example = remove_all_from-ends 2 (omega arith) 2 world (tt, (tt, (tt, tt)))

free-IsFree : IsFree free
free-IsFree = record { unlinks = refl; stats = refl; opens = refl; reads = refl; rmdirs = refl }

remove_all_from-all_example :
    remove_all_from 1 2
      (dir free (entry (codes "a") (file free) (entry (codes "c") (file free) nil)))
    ≡ ok (none, none)
unfolding to_list
remove_all_from-all_example =
    remove_all_from-all 1 2
      (dir free (entry (codes "a") (file free) (entry (codes "c") (file free) nil))) (omega arith)
      (free-IsFree, (free-IsFree, (free-IsFree, tt)))
