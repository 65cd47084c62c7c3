-- ===== src/RemoveAll.antt =====
-- daemon/internal/ufs/removeall_unix.go: the removal of a directory with all that is in it. What the
-- system answers to each call on an entry stands with the entry, and nothing else changes the tree while
-- it is removed. An error is the call and its number; its path is left out.
pub mod Batches
pub mod Termination
pub mod Removed
mod Examples
use sls.Shared.{
  ℕ, zero, suc, Bool, true, false, ◌==◌, leb, Option, none, some, List, [], ◌∷◌, ◌++◌,
  if◌then◌else◌, length, take, drop,
}
use sls.Shared.Outcome.{Outcome, ok, err, ◌>>=◌}
use sls.Shared.Text.{Text}

pub data Errno : Type 0 where
  eisdir eperm eacces enotempty einval eio : Errno

pub data Op : Type 0 where
  unlinkat fstatat readdirnames openfdat : Op

pub record PathError : Type 0 where
  pub op : Op
  pub errno : Errno

-- The error that each call on the entry gives, if any.
pub record Answers : Type 0 where
  pub cannot_unlink : Option Errno
  pub cannot_stat : Option Errno
  pub cannot_open : Option Errno
  pub cannot_read : Option Errno
  pub cannot_rmdir : Option Errno

mutual
  pub data Entry : Type 0 where
    file : Answers → Entry
    dir : Answers → Entries → Entry

  pub data Entries : Type 0 where
    nil : Entries
    entry : Text → Entry → Entries → Entries

unfoldable pub to_list : Entries → List (Text × Entry)
to_list nil = []
to_list (entry name e es) = (name, e) ∷ to_list es

unfoldable pub from_list : List (Text × Entry) → Entries
from_list [] = nil
from_list ((name, e) ∷ es) = entry name e (from_list es)

abbrev pub Listing : Type 0
Listing = List (Text × Entry)

-- What is left of an entry, and the error.
abbrev pub Left : Type 0
Left = Option Entry × Option PathError

abbrev pub failure : Op → Errno → Option PathError
failure op e = some (record { op = op; errno = e })

-- Without a flag, a directory cannot be unlinked.
abbrev pub directory_error : Option Errno → Errno
directory_error none = eisdir
directory_error (some e) = e

abbrev pub may_be_directory : Errno → Bool
may_be_directory eisdir = true
may_be_directory eperm = true
may_be_directory eacces = true
may_be_directory _ = false

abbrev pub rmdir_error : Answers → Listing → Option Errno
rmdir_error a [] = a.cannot_rmdir
rmdir_error a (e ∷ es) = some enotempty

abbrev pub keep : Text → Left → Listing → Listing
keep name (none, e) es = es
keep name (some t, e) es = (name, t) ∷ es

abbrev pub count : Left → ℕ → ℕ
count (t, none) n = n
count (t, some e) n = suc n

-- The rounds that are given are used up.
pub data Exhausted : Type 0 where
  exhausted : Exhausted

abbrev pub Rounds : Type 0 → Type 0
Rounds = Outcome Exhausted

-- The loop over the names of one batch, with what removes an entry: what is left, and numErr.
unfoldable pub remove_names : (Entry → Rounds Left) → Listing → Rounds (Listing × ℕ)
remove_names remove [] = ok ([], 0)
remove_names remove ((name, e) ∷ es) = do
  left ← remove e
  (es', errs) ← remove_names remove es
  ok (keep name left es', count left errs)

-- The loop over the batches of an open directory: what is left, and whether the last batch was full.
-- The entries before the batch could not be removed.
unfoldable pub remove_batches :
    (Entry → Rounds Left) → ℕ → ℕ → Listing → Listing → Rounds (Listing × Bool)
unfolding remove_names
remove_batches remove size zero before es = err exhausted
remove_batches remove size (suc rounds) before es = do
  (batch, errs) ← remove_names remove (take size es)
  let later = remove_batches remove size rounds (before ++ batch) (drop size es)
  if errs == size
      then later
      else ok (before ++ batch ++ drop size es, leb size (length (take size es)))

-- The loop that opens the directory again until the end of it is reached.
unfoldable pub remove_rounds : (Entry → Rounds Left) → ℕ → ℕ → Listing → Rounds Listing
unfolding remove_batches
remove_rounds remove size zero es = err exhausted
remove_rounds remove size (suc rounds) es = do
  (es', full) ← remove_batches remove size (suc (length es)) [] es
  let again = remove_rounds remove size rounds es'
  if full then again else ok es'

abbrev pub read_directory :
    (Entry → Rounds Left) → ℕ → Listing → Option Errno → Rounds (Listing × Option PathError)
read_directory remove size es (some e) = ok (es, failure readdirnames e)
read_directory remove size es none =
    remove_rounds remove size (suc (length es)) es >>= λ es'. ok (es', none)

-- Any error but that of reading the directory is lost.
abbrev pub open_directory :
    (Entry → Rounds Left)
    → ℕ
    → Answers
    → Listing
    → Option Errno
    → Rounds (Listing × Option PathError)
open_directory remove size a es (some e) = ok (es, none)
open_directory remove size a es none = read_directory remove size es a.cannot_read

unfoldable pub remove_contents_from :
    (Entry → Rounds Left) → ℕ → Answers → Listing → Rounds (Listing × Option PathError)
remove_contents_from remove size a es = open_directory remove size a es a.cannot_open

abbrev pub or_unlink : Errno → Option PathError → Option PathError
or_unlink e none = failure unlinkat e
or_unlink e (some recurse) = some recurse

-- The directory itself, once its contents are removed, with the error of its first unlink.
abbrev pub after_rmdir : Answers → Errno → Listing → Option PathError → Option Errno → Left
after_rmdir a e es recurse none = (none, none)
after_rmdir a e es recurse (some f) = (some (dir a (from_list es)), or_unlink e recurse)

-- What comes next if the entry may be a directory and its state can be read.
abbrev pub recurse_or : Entry → Errno → Bool → Option Errno → Rounds Left → Rounds Left
recurse_or t e false stat next = ok (some t, failure unlinkat e)
recurse_or t e true (some f) next = ok (some t, failure fstatat f)
recurse_or t e true none next = next

abbrev pub unlink_file : Answers → Option Errno → Rounds Left
unlink_file a none = ok (none, none)
unlink_file a (some e) =
    recurse_or (file a) e (may_be_directory e) a.cannot_stat
      (ok (some (file a), failure unlinkat e))

unfoldable pub remove_all_from : ℕ → ℕ → Entry → Rounds Left
unfolding remove_contents_from to_list
remove_all_from size zero t = err exhausted
remove_all_from size (suc rounds) (file a) = unlink_file a a.cannot_unlink
remove_all_from size (suc rounds) (dir a es) =
    let e = directory_error a.cannot_unlink in
    recurse_or (dir a es) e (may_be_directory e) a.cannot_stat (
      remove_contents_from (remove_all_from size rounds) size a (to_list es) >>= λ (es', recurse).
      ok (after_rmdir a e es' recurse (rmdir_error a es')))
