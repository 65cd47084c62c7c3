-- ===== src/InstallState.antt =====
-- daemon/server/install_state.go: the state of an installation that the API reports. The clock is an
-- argument.
use sls.Shared.{ℕ, Option, none, some, []}
use sls.Shared.Int.{ℤ, pos}
use sls.Shared.Text.{Text, codes}

pub data InstallPhase : Type 0 where
  idle installing warming post_warmup install_failed warmup_failed post_warmup_failed completed :
      InstallPhase

pub record InstallState : Type 0 where
  pub phase : InstallPhase
  pub container_id : Text
  pub container_name : Text
  pub status : Text
  pub exit_code : Option ℤ
  pub started_at : Option ℕ
  pub finished_at : Option ℕ
  pub failure_reason : Text
  pub log_path : Text

unfoldable pub new_install_state : InstallState
new_install_state = record {
  phase = idle;
  container_id = [];
  container_name = [];
  status = [];
  exit_code = none;
  started_at = none;
  finished_at = none;
  failure_reason = [];
  log_path = [];
}

unfoldable pub start_install_phase : ℕ → InstallPhase → Text → Text → InstallState → InstallState
start_install_phase now phase container_name log_path s = record {
  phase = phase;
  container_id = [];
  container_name = container_name;
  status = [];
  exit_code = none;
  started_at = some now;
  finished_at = none;
  failure_reason = [];
  log_path = log_path;
}

unfoldable pub set_install_container : Text → InstallState → InstallState
set_install_container id s = record s { container_id = id; status = codes "created" }

unfoldable pub set_install_status : Text → InstallState → InstallState
set_install_status status s = record s { status = status }

unfoldable pub set_install_exit_code : ℤ → InstallState → InstallState
set_install_exit_code code s = record s { exit_code = some code }

-- The exit code of a phase that is finished as completed is 0 unless one is set.
abbrev pub exit_code_of : InstallPhase → Option ℤ → Option ℤ
exit_code_of completed none = some (pos 0)
exit_code_of _ code = code

unfoldable pub finish_install_phase : ℕ → InstallPhase → Text → InstallState → InstallState
finish_install_phase now phase failure_reason s = record s {
  phase = phase;
  finished_at = some now;
  failure_reason = failure_reason;
  exit_code = exit_code_of phase s.exit_code;
}

-- The value that installInfoSnapshot copies out: all but the path of the log.
pub record InstallInfo : Type 0 where
  pub phase : InstallPhase
  pub container_id : Text
  pub container_name : Text
  pub status : Text
  pub exit_code : Option ℤ
  pub started_at : Option ℕ
  pub finished_at : Option ℕ
  pub failure_reason : Text

unfoldable pub install_info_snapshot : InstallState → InstallInfo
install_info_snapshot s = record {
  phase = s.phase;
  container_id = s.container_id;
  container_name = s.container_name;
  status = s.status;
  exit_code = s.exit_code;
  started_at = s.started_at;
  finished_at = s.finished_at;
  failure_reason = s.failure_reason;
}
