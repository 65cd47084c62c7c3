-- ===== src/InstallLock.antt =====
-- daemon/server/install_lock.go, and the loop of onBeforeStart in daemon/server/power.go: several
-- servers on one base folder, of which one is to install it. Each call of the operating system is a
-- step of one of them, so that the steps of the others come between.
pub mod Exclusion
mod Examples
use sls.Shared.{
  ℕ, ◌==◌, Bool, true, false, not, ◌&&◌, ◌||◌, Option, none, some, List, [], ◌∷◌, if◌then◌else◌,
}

-- The folder of the base: whether it is there, who made its lock file, and whether it has entries
-- besides the lock.
pub record Base : Type 0 where
  pub dir : Bool
  pub lock : Option ℕ
  pub content : Bool

-- Where a server stands: at the calls of AcquireInstallLock, in the installation and what follows
-- it, or in WaitForInstallLockReleased.
pub data Stage : Type 0 where
  checking making creating listing : Stage
  installing releasing unlocking removing : Stage
  waiting : Stage
  -- onBeforeStart is past its loop, or has returned an error.
  ready failed : Stage

-- What the step meets: a call that fails, an installation that fails, or a wait whose time is over.
pub record Luck : Type 0 where
  pub fails : Bool
  pub install_fails : Bool
  pub timed_out : Bool
  -- The installation makes entries in the folder.
  pub fills : Bool

abbrev pub Step : Type 0
Step = Base × Stage

unfoldable pub is_base_installed : Base → Bool
is_base_installed b = b.dir

unfoldable pub install_lock_exists : Base → Bool
install_lock_exists b = elim b.lock [ none ↦ false | some owner ↦ true ]

-- `os.Remove(lp)`
abbrev pub remove_lock : Base → Base
remove_lock b = record b { lock = none }

-- `os.RemoveAll(serverPath)`
abbrev pub no_base : Base
no_base = record { dir = false; lock = none; content = false }

-- One call of AcquireInstallLock; the folder has no entries when it is made.
unfoldable pub create_lock : Luck → ℕ → Base → Step
unfolding install_lock_exists
create_lock w i b =
    if install_lock_exists b
    then (b, checking)
    else if b.dir && not w.fails
    then (record b { lock = some i }, listing)
    else (b, failed)

unfoldable pub list_base : Luck → Base → Step
list_base w b =
    if w.fails
    then (remove_lock b, failed)
    else if b.content
    then (remove_lock b, waiting)
    else (b, installing)

-- One look of WaitForInstallLockReleased. When the time is over it looks once more, and takes a lock
-- that is still there for a stale one.
unfoldable pub wait_for_lock : Luck → Base → Step
unfolding install_lock_exists
wait_for_lock w b =
    if not (install_lock_exists b)
    then (b, ready)
    else if w.timed_out
    then (no_base, checking)
    else (b, waiting)

-- The next call of server i.
unfoldable pub next_call : Luck → ℕ → Base → Stage → Step
unfolding is_base_installed create_lock list_base wait_for_lock
next_call w i b checking = if is_base_installed b then (b, waiting) else (b, making)
next_call w i b making = if w.fails then (b, failed) else (record b { dir = true }, creating)
next_call w i b creating = create_lock w i b
next_call w i b listing = list_base w b
-- `s.Install`
next_call w i b installing =
    (record b { content = b.content || w.fills }, if w.install_fails then unlocking else releasing)
next_call w i b releasing = (remove_lock b, waiting)
-- After an installation that failed: `release()`, then the removal of the folder.
next_call w i b unlocking = (remove_lock b, removing)
next_call w i b removing = (no_base, failed)
next_call w i b waiting = wait_for_lock w b
next_call w i b ready = (b, ready)
next_call w i b failed = (b, failed)

-- The base, and where each server stands.
pub record Site : Type 0 where
  pub base : Base
  pub stages : ℕ → Stage

abbrev pub at : ℕ → Stage → (ℕ → Stage) → ℕ → Stage
at i p stages j = if j == i then p else stages j

unfoldable pub advance : Site → ℕ → Luck → Site
unfolding next_call
advance s i w =
    let (b, p) = next_call w i s.base (s.stages i) in record { base = b; stages = at i p s.stages }

unfoldable pub run_site : Site → List (ℕ × Luck) → Site
unfolding advance
run_site s [] = s
run_site s ((i, w) ∷ ms) = run_site (advance s i w) ms
