-- ===== src/InstallLock/Examples.antt =====
-- Servers that start on one base folder: tests, and the theorem at one of them.
use sls.Shared.{ℕ, ◌≡◌, refl, false, true, List, [], ◌∷◌, ◌&&◌}
use sls.InstallLock.{
  installing, ready, Luck, no_base, next_call, advance, run_site, is_base_installed,
  install_lock_exists, create_lock, list_base, wait_for_lock,
}
use sls.InstallLock.Exclusion.{holds, installs, AllCalm, all_checking, run_site-exclusive}

abbrev good : Luck
good = record { fails = false; install_fails = false; timed_out = false; fills = true }

abbrev broken : Luck
broken = record good { install_fails = true; fills = false }

abbrev two_servers : List (ℕ × Luck)
two_servers = (1, good) ∷ (1, good) ∷ (1, good) ∷ (1, good) ∷ (2, good) ∷ []

installs_first : (run_site (all_checking no_base) two_servers).stages 1 ≡ installing
unfolding run_site advance next_call is_base_installed install_lock_exists create_lock list_base
installs_first = refl

-- Server 1 has made the folder and not yet its lock: server 2 takes the base for an installed one.
abbrev too_early : List (ℕ × Luck)
too_early = (1, good) ∷ (1, good) ∷ (2, good) ∷ (2, good) ∷ []

starts_without_base :
    ((run_site (all_checking no_base) too_early).stages 2 ≡ ready)
    × ((run_site (all_checking no_base) too_early).base.content ≡ false)
unfolding run_site advance next_call is_base_installed install_lock_exists wait_for_lock
starts_without_base = (refl, refl)

-- Server 1 fails to install and removes its lock; server 2, which was about to make the lock, makes
-- it and installs; then server 1 removes the folder with it, and server 3 installs as well.
abbrev removed_below : List (ℕ × Luck)
removed_below =
    (1, good)
    ∷ (2, good)
    ∷ (1, good)
    ∷ (2, good)
    ∷ (1, good)
    ∷ (1, good)
    ∷ (1, broken)
    ∷ (1, good)
    ∷ (2, good)
    ∷ (2, good)
    ∷ (1, good)
    ∷ (3, good)
    ∷ (3, good)
    ∷ (3, good)
    ∷ (3, good)
    ∷ []

both_install :
    ((run_site (all_checking no_base) removed_below).stages 2 ≡ installing)
    × ((run_site (all_checking no_base) removed_below).stages 3 ≡ installing)
unfolding run_site advance next_call is_base_installed install_lock_exists create_lock list_base
both_install = (refl, refl)

two_servers-AllCalm : AllCalm two_servers
two_servers-AllCalm =
    ((refl, refl), ((refl, refl), ((refl, refl), ((refl, refl), ((refl, refl), tt)))))

one_holds : holds ((run_site (all_checking no_base) two_servers).stages 1) ≡ true
unfolding run_site advance next_call is_base_installed install_lock_exists create_lock list_base
one_holds = refl

abbrev first : ℕ
first = 1

run_site-exclusive_example :
    (first ≡ first)
    × (installs ((run_site (all_checking no_base) two_servers).stages 1)
          && (run_site (all_checking no_base) two_servers).base.content
        ≡ false)
run_site-exclusive_example =
    run_site-exclusive no_base two_servers 1 1 two_servers-AllCalm one_holds one_holds
