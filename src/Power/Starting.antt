-- ===== src/Power/Starting.antt =====
-- When the power actions of daemon/server/power.go start a server, and what a turned away action does.
use sls.Shared.{if◌then◌else◌, ◌≡◌, Bool, false, not, ◌&&◌, List, [], arith, some}
use sls.Shared.Int.{ℤ}
use sls.Locker.{Locker, full, acquire}
use sls.Power.{
  World, PowerAction, perform, boot, failed, handle_power_action, start, stop, restart, terminate,
  pause, unpause, other, passes, take_lock, lock_failed, waits,
}
use sls.Power.Calls.{has, is_env_start, is_offline, goes_on}

-- The server does not run: it is offline, or a restart has stopped it.
abbrev pub is_stopped : World → PowerAction → Bool
is_stopped w start = is_offline w.state
is_stopped w restart = not (failed w.wait_error)
is_stopped w _ = false

perform-starts :
    (w : World) (save : Bool) (action : PowerAction)
    → has is_env_start (perform w save action).calls
      ≡ not (failed w.preflight) && is_stopped w action
unfolding perform boot
perform-starts w save start = ground arith
perform-starts w save stop = ground arith
perform-starts w save restart = ground arith
perform-starts w save terminate = ground arith
perform-starts w save pause = ground arith
perform-starts w save unpause = ground arith
perform-starts w save (other s) = ground arith

-- The environment is told to start exactly if the action has the lock, or needs none, the preflight
-- succeeded, and the action is a start of an offline server or a restart of one that has stopped.
pub handle_power_action-starts :
    (w : World) (save : Bool) (action : PowerAction) (seconds : List ℤ) (l : Locker)
    → has is_env_start (handle_power_action w save action seconds l).1.calls
      ≡ goes_on w action seconds l && not (failed w.preflight) && is_stopped w action
unfolding handle_power_action
handle_power_action-starts w save action seconds l = ground (arith, perform-starts w save action)

-- While another caller holds the lock, start, stop and restart that do not wait fail without a call
-- to the environment; kill, pause and unpause do what they do with the lock. Both leave it held.
pub handle_power_action-held :
    (w : World) (save : Bool) (action : PowerAction) (seconds : List ℤ)
    → waits seconds ≡ false
    → handle_power_action w save action seconds full ≡ (
      full,
      if passes action
          then perform w save action
          else record { calls = []; error = some lock_failed },
    )
unfolding handle_power_action take_lock acquire
handle_power_action-held w save action seconds now = ground (arith, now)
