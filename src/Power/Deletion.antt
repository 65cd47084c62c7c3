-- ===== src/Power/Deletion.antt =====
-- When the power actions of daemon/server/power.go delete a server.
use sls.Shared.{◌≡◌, Bool, false, not, ◌&&◌, ◌||◌, List, arith}
use sls.Shared.Int.{ℤ}
use sls.Locker.{Locker}
use sls.Power.Calls.{has, is_delete, is_offline, goes_on}
use sls.Power.{
  World, PowerAction, perform, boot, failed, handle_power_action, start, stop, restart, terminate,
  pause, unpause, other,
}

abbrev pub boot_fails : World → Bool
boot_fails w = failed w.preflight || failed w.start_error

-- Whether an action ends the server for good, were it not saved.
abbrev pub ends : World → PowerAction → Bool
ends w start = is_offline w.state && boot_fails w
ends w stop = not (failed w.wait_error)
ends w restart = not (failed w.wait_error) && boot_fails w
ends w terminate = not (failed w.terminate_error)
ends w _ = false

perform-deletes :
    (w : World) (save : Bool) (action : PowerAction)
    → has is_delete (perform w save action).calls ≡ not save && ends w action
unfolding perform boot
perform-deletes w save start = ground arith
perform-deletes w save stop = ground arith
perform-deletes w save restart = ground arith
perform-deletes w save terminate = ground arith
perform-deletes w save pause = ground arith
perform-deletes w save unpause = ground arith
perform-deletes w save (other s) = ground arith

-- A power action deletes the server exactly if the server is not saved, the action was not turned
-- away for want of the lock, and it ends the server: a stop or a kill that succeeds, or a start from
-- the offline state, or a restart after the stop, that fails in the preflight or in the start.
pub handle_power_action-deletes :
    (w : World) (save : Bool) (action : PowerAction) (seconds : List ℤ) (l : Locker)
    → has is_delete (handle_power_action w save action seconds l).1.calls
      ≡ not save && goes_on w action seconds l && ends w action
unfolding handle_power_action
handle_power_action-deletes w save action seconds l = ground (arith, perform-deletes w save action)
