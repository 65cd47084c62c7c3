-- ===== src/Warmup/Examples.antt =====
-- A warmup that succeeds at the second attempt: tests, and the theorems at it.
use sls.Shared.{ℕ, zero, suc, ◌≡◌, refl, true, none, some, []}
use sls.Shared.Int.{int64, pos, negsuc, ◌+ℤ◌}
use sls.Shared.Text.{codes, trim_space}
use sls.InstallState.{new_install_state}
use sls.Warmup.{
  Engine, Server, Script, warmup_attempts, run_warmup, try_warmup, after_warmup, run_script,
}

abbrev server : Server
server = record { id = codes "a1"; log_base = codes "paper"; now = 9 }

abbrev ready : Engine
ready = record {
  remove_error = none;
  create_error = none;
  container = codes "c1";
  start_error = none;
  wait_error = none;
  exit_status = pos 0;
}

abbrev late : Engine
late = record ready { wait_error = some (codes "timed out") }

abbrev late_once : ℕ → Engine
late_once (suc zero) = late
late_once _ = ready

abbrev script : Script
script = record {
  warmup = true;
  warmup_timeout = pos 0;
  warmup_failure_policy = codes "retry";
  warmup_retries = pos 1;
  post_warmup_script = [];
  post_warmup_timeout = pos 0;
}

two_attempts : warmup_attempts script ≡ pos 2
unfolding warmup_attempts trim_space ◌+ℤ◌ int64
two_attempts = refl

-- With a negative number of retries there is no attempt, and no error.
no_attempt :
    (run_warmup server
      (λ i. late)
      ready
      (record script { warmup_retries = negsuc 0 })
      new_install_state).1
    ≡ none
unfolding run_warmup warmup_attempts try_warmup after_warmup run_script trim_space ◌+ℤ◌ int64
no_attempt = refl
