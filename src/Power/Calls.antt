-- ===== src/Power/Calls.antt =====
-- Which calls a power action makes, as tests on the list of its calls.
use sls.Shared.{Bool, true, false, not, ◌||◌, List, [], ◌∷◌}
use sls.Shared.Int.{ℤ}
use sls.Locker.{Locker}
use sls.Power.{
  World, ProcessState, offline, PowerAction, Call, delete, env_start, overlay_reset, failed, passes,
  take_lock,
}

abbrev pub has : (Call → Bool) → List Call → Bool
has p [] = false
has p (c ∷ cs) = p c || has p cs

abbrev pub is_delete : Call → Bool
is_delete delete = true
is_delete _ = false

abbrev pub is_offline : ProcessState → Bool
is_offline offline = true
is_offline _ = false

abbrev pub is_env_start : Call → Bool
is_env_start env_start = true
is_env_start _ = false

abbrev pub is_overlay_reset : Call → Bool
is_overlay_reset overlay_reset = true
is_overlay_reset _ = false

-- The action goes on after its attempt to take the lock.
abbrev pub goes_on : World → PowerAction → List ℤ → Locker → Bool
goes_on w action seconds l = passes action || not (failed (take_lock w seconds action l).1)
