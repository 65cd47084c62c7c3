-- ===== src/Power/Examples.antt =====
-- A server that is stopped, started and reset: tests, and the theorems at inputs that meet their
-- conditions.
use sls.Shared.{◌≡◌, refl, true, false, not, ◌&&◌, none, some, [], ◌∷◌}
use sls.Locker.{empty, full, acquire, release}
use sls.Power.{
  World, offline, perform, boot, take_lock, handle_power_action, handle_reset, start, restart,
  on_before_start, env_start, delete, reported, lock_failed, failed,
}
use sls.Power.Calls.{has, is_delete, is_env_start, goes_on}
use sls.Power.Lock.{handle_reset-lock}
use sls.Power.Deletion.{ends, handle_power_action-deletes}
use sls.Power.Starting.{is_stopped, handle_power_action-starts}

abbrev quiet : World
quiet = record {
  gives_up = false;
  state = offline;
  running_error = false;
  found_running = true;
  synced_state = offline;
  preflight = none;
  start_error = none;
  stop_error = none;
  wait_error = none;
  terminate_error = none;
  pause_error = none;
  unpause_error = none;
  reset_error = none;
}

abbrev broken : World
broken = record quiet { start_error = some (reported 7) }

failed_start : handle_power_action broken false start [] empty ≡ (
  empty,
  record { calls = on_before_start ∷ env_start ∷ delete ∷ []; error = some (reported 7) },
)
unfolding handle_power_action take_lock perform boot acquire release
failed_start = refl

turned_away :
    handle_power_action quiet true restart [] full
    ≡ (full, record { calls = []; error = some lock_failed })
unfolding handle_power_action take_lock acquire
turned_away = refl

handle_power_action-deletes_example :
    has is_delete (handle_power_action broken false start [] empty).1.calls
    ≡ not false && goes_on broken start [] empty && ends broken start
handle_power_action-deletes_example = handle_power_action-deletes broken false start [] empty

handle_power_action-starts_example :
    has is_env_start (handle_power_action quiet true restart [] empty).1.calls
    ≡ goes_on quiet restart [] empty && not (failed quiet.preflight) && is_stopped quiet restart
handle_power_action-starts_example = handle_power_action-starts quiet true restart [] empty

handle_reset-lock_example : (handle_reset quiet quiet true empty).0 ≡ empty
handle_reset-lock_example = handle_reset-lock quiet quiet true empty
