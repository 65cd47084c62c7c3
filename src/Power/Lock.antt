-- ===== src/Power/Lock.antt =====
-- The power lock of a server before and after an action or a reset of daemon/server/power.go.
use sls.Shared.{◌≡◌, Bool, not, ◌&&◌, List, if◌then◌else◌, arith}
use sls.Shared.Int.{ℤ}
use sls.Locker.{Locker, nil_channel, empty, full, acquire, release}
use sls.Power.{
  World, PowerAction, waits, passes, try_acquire, take_lock, handle_power_action, start_again,
  reset_stopped, reset_running, handle_reset,
}

-- An action that waits for the lock until it gets it leaves the lock released. Any other action
-- leaves it as it found it: held if another caller holds it, free if it was free.
pub handle_power_action-lock :
    (w : World) (save : Bool) (action : PowerAction) (seconds : List ℤ) (l : Locker)
    → (handle_power_action w save action seconds l).0
      ≡ (if not (passes action) && waits seconds && not w.gives_up then release l else l)
unfolding handle_power_action take_lock try_acquire acquire release
handle_power_action-lock w save action seconds nil_channel = ground arith
handle_power_action-lock w save action seconds empty = ground arith
handle_power_action-lock w save action seconds full = ground arith

-- A reset leaves the lock as it found it, on every branch: also when it stops a running server,
-- fails in the middle, or starts the server again.
pub handle_reset-lock :
    (w again : World) (save : Bool) (l : Locker) → (handle_reset w again save l).0 ≡ l
unfolding handle_reset reset_running reset_stopped start_again handle_power_action take_lock acquire
    release
handle_reset-lock w again save nil_channel = ground arith
handle_reset-lock w again save empty = ground arith
handle_reset-lock w again save full = ground arith
