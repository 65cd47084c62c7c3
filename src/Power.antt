-- ===== src/Power.antt =====
-- daemon/server/power.go: what a power action does to the lock, to the environment of the server and
-- to the server, and the reset of a server. The environment (daemon/environment) is a World that says
-- how it answers; the calls are listed in their order.
pub mod Calls
pub mod Lock
pub mod Deletion
pub mod Starting
mod Examples
use sls.Shared.{
  ℕ, Bool, true, false, not, ◌&&◌, ◌||◌, Option, none, some, List, [], ◌∷◌, ◌++◌, if◌then◌else◌,
}
use sls.Shared.Int.{ℤ, pos, ltb_ℤ}
use sls.Shared.Text.{Text}
use sls.Locker.{Locker, Error as LockerError, nil_channel, full, locker_locked, acquire, release}

pub data PowerAction : Type 0 where
  start stop restart terminate pause unpause : PowerAction
  other : Text → PowerAction

unfoldable pub is_valid : PowerAction → Bool
is_valid start = true
is_valid stop = true
is_valid terminate = true
is_valid restart = true
is_valid pause = true
is_valid unpause = true
is_valid (other s) = false

unfoldable pub is_start : PowerAction → Bool
is_start start = true
is_start restart = true
is_start _ = false

pub data ProcessState : Type 0 where
  offline starting running stopping paused : ProcessState

abbrev pub is_paused : ProcessState → Bool
is_paused paused = true
is_paused _ = false

abbrev pub is_process_running : ProcessState → Bool
is_process_running running = true
is_process_running _ = false

pub data Error : Type 0 where
  is_running lock_timeout lock_failed unknown_action : Error
  check_failed reset_locked stop_failed wait_failed reset_failed : Error
  -- An error of the environment, or of the preflight.
  reported : ℕ → Error

-- What the calls of a power action answer.
pub record World : Type 0 where
  -- TryAcquire returns since the context is done.
  pub gives_up : Bool
  pub state : ProcessState
  -- IsRunning, and the state that it leaves behind.
  pub running_error : Bool
  pub found_running : Bool
  pub synced_state : ProcessState
  pub preflight : Option Error
  pub start_error : Option Error
  pub stop_error : Option Error
  pub wait_error : Option Error
  pub terminate_error : Option Error
  pub pause_error : Option Error
  pub unpause_error : Option Error
  pub reset_error : Option Error

pub data Call : Type 0 where
  on_before_start env_start env_stop wait_for_stop env_terminate env_pause env_unpause : Call
  env_is_running overlay_reset : Call
  -- `go s.Delete()`
  delete : Call

pub record Answer : Type 0 where
  pub calls : List Call
  pub error : Option Error

abbrev pub failed : Option Error → Bool
failed none = false
failed (some e) = true

abbrev pub delete_if : Bool → List Call
delete_if true = delete ∷ []
delete_if false = []

-- Preflight and start, as start and restart have them.
unfoldable pub boot : World → Bool → Answer
boot w save = elim w.preflight [
  | some e ↦ record { calls = on_before_start ∷ delete_if (not save); error = some e }
  | none ↦ record {
    calls = on_before_start ∷ env_start ∷ delete_if (failed w.start_error && not save);
    error = w.start_error;
  }
]

abbrev pub start_in : World → Bool → ProcessState → Answer
start_in w save paused = record { calls = env_unpause ∷ []; error = w.unpause_error }
start_in w save offline = boot w save
start_in w save _ = record { calls = []; error = some is_running }

abbrev pub then_calls : List Call → Answer → Answer
then_calls cs a = record { calls = cs ++ a.calls; error = a.error }

abbrev pub pausing : World → Answer
pausing w = record { calls = env_pause ∷ []; error = w.pause_error }

abbrev pub unpausing : World → Answer
unpausing w = record { calls = env_unpause ∷ []; error = w.unpause_error }

abbrev pub nothing : Answer
nothing = record { calls = []; error = none }

-- The switch of HandlePowerAction.
unfoldable pub perform : World → Bool → PowerAction → Answer
unfolding boot
perform w save start = start_in w save w.state
perform w save stop = elim w.wait_error [
  | some e ↦ record { calls = wait_for_stop ∷ []; error = some e }
  | none ↦ record { calls = wait_for_stop ∷ delete_if (not save); error = none }
]
perform w save restart = elim w.wait_error [
  | some e ↦ record { calls = wait_for_stop ∷ []; error = some e }
  | none ↦ then_calls (wait_for_stop ∷ []) (boot w save)
]
perform w save terminate = record {
  calls = env_terminate ∷ delete_if (not (failed w.terminate_error) && not save);
  error = w.terminate_error;
}
perform w save pause =
    if is_paused w.state
    then nothing
    else if is_process_running w.state
    then pausing w
    else if w.found_running
    then then_calls (env_is_running ∷ []) (pausing w)
    else then_calls (env_is_running ∷ []) nothing
perform w save unpause =
    if is_paused w.state
    then unpausing w
    else if w.found_running
    then then_calls (env_is_running ∷ []) nothing
    else if is_paused w.synced_state
    then then_calls (env_is_running ∷ []) (unpausing w)
    else then_calls (env_is_running ∷ []) nothing
perform w save (other s) = record { calls = []; error = some unknown_action }

-- `var wait int`: the argument if it is there and positive, else 0.
abbrev pub waits : List ℤ → Bool
waits [] = false
waits (s ∷ ss) = ltb_ℤ (pos 0) s

-- Terminate, pause and unpause go on without the lock.
abbrev pub passes : PowerAction → Bool
passes terminate = true
passes pause = true
passes unpause = true
passes _ = false

-- The lock of a caller that waits: when its context is done first it gives up, else the lock has
-- become free and is taken. A channel that is nil keeps it waiting until it gives up.
unfoldable pub try_acquire : World → Locker → Locker × Option Error
try_acquire w nil_channel = (nil_channel, some lock_timeout)
try_acquire w l = if w.gives_up then (l, some lock_timeout) else (full, none)

abbrev pub acquired : Locker × Option LockerError → Locker × Option Error
acquired (l, none) = (l, none)
acquired (l, some e) = (l, some lock_failed)

unfoldable pub take_lock : World → List ℤ → PowerAction → Locker → Locker × Option Error
unfolding try_acquire
take_lock w seconds action l =
    if not (passes action) && waits seconds then try_acquire w l else acquired (acquire l)

-- With the lock after the action; the deferred cleanup releases it when it was acquired.
unfoldable pub handle_power_action : World → Bool → PowerAction → List ℤ → Locker → Locker × Answer
unfolding take_lock perform
handle_power_action w save action seconds l =
    let (m, e) = take_lock w seconds action l in
    elim e [
      | none ↦ (release m, perform w save action)
      | some e ↦
          if passes action
          then (m, perform w save action)
          else (m, record { calls = []; error = some e })
    ]

-- What a reset leaves behind: the lock, the calls and the error.
abbrev pub Reset : Type 0
Reset = Locker × List Call × Option Error

abbrev pub then_reset : List Call → Reset → Reset
then_reset cs (l, ds, e) = (l, cs ++ ds, e)

-- HandleReset of a server that ran: the lock is released first, for HandlePowerAction to take it.
unfoldable pub start_again : World → Bool → Locker → Reset
unfolding handle_power_action
start_again w save l =
    let (m, a) = handle_power_action w save start [] (release l) in (m, a.calls, a.error)

-- HandleReset once the server does not run. `again` is how the environment answers then.
unfoldable pub reset_stopped : World → World → Bool → Bool → Locker → Reset
unfolding start_again
reset_stopped w again save was_running l = elim w.reset_error [
  | some e ↦ (if was_running then release l else l, overlay_reset ∷ [], some reset_failed)
  | none ↦
      then_reset (overlay_reset ∷ [])
        (if was_running then start_again again save l else (l, [], none))
]

-- HandleReset of a server that runs, with the lock acquired.
unfoldable pub reset_running : World → World → Bool → Locker → Reset
unfolding reset_stopped
reset_running w again save l = elim w.stop_error [
  | some e ↦ (release l, env_stop ∷ [], some stop_failed)
  | none ↦ elim w.wait_error [
    | some e ↦ (release l, env_stop ∷ wait_for_stop ∷ [], some wait_failed)
    | none ↦ then_reset (env_stop ∷ wait_for_stop ∷ []) (reset_stopped w again save true l)
  ]
]

unfoldable pub handle_reset : World → World → Bool → Locker → Reset
unfolding reset_running
handle_reset w again save l =
    if w.running_error
    then (l, env_is_running ∷ [], some check_failed)
    else if not w.found_running
    then then_reset (env_is_running ∷ []) (reset_stopped w again save false l)
    else let (m, e) = acquire l in
      elim e [
        | some e ↦ (m, env_is_running ∷ [], some reset_locked)
        | none ↦ then_reset (env_is_running ∷ []) (reset_running w again save m)
      ]
