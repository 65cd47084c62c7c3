-- ===== src/InstallLogs/Live.antt =====
-- The logs that the API returns, in daemon/server/install_state.go: those of the containers while a
-- phase runs, else those on the disk. The containers' logs are an argument, where a container that is
-- not there has no lines; so are the phase, the owner of the lock and the configured directory.
use sls.Shared.{ℕ, Bool, true, false, ◌&&◌, ◌||◌, not, List, [], ◌∷◌, Option, if◌then◌else◌, ◌++◌}
use sls.Shared.Equality.{nat_eq, list_eq, list_beq}
use sls.Shared.Outcome.{Outcome, ok, ◌>>=◌}
use sls.Shared.Text.{Text, codes}
use sls.InstallState.{InstallPhase, installing, warming, post_warmup, idle, completed, InstallState}
use sls.InstallLogs.{
  install_log_disk_path, read_tail_lines, read_stored_install_logs, add_logs, or_text,
}

-- What the functions read beside the state of the installation.
pub record Surroundings : Type 0 where
  pub id : Text
  pub base_path : Text
  pub directory : Text
  pub owner : Text
  pub disk : Text → Option (List Text)
  pub containers : Text → ℕ → Outcome Text (List Text)

pub record InstallLogSource : Type 0 where
  pub phase : InstallPhase
  pub disk_path : Text
  pub container_name : Text

unfoldable pub install_log_sources : Surroundings → List InstallLogSource
install_log_sources r =
    record {
      phase = installing;
      disk_path = install_log_disk_path r.directory r.base_path [];
      container_name = r.id ++ codes "_installer";
    }
    ∷ record {
      phase = warming;
      disk_path = install_log_disk_path r.directory r.base_path (codes "-warmup");
      container_name = r.id ++ codes "_warmup";
    }
    ∷ record {
      phase = post_warmup;
      disk_path = install_log_disk_path r.directory r.base_path (codes "-post-warmup");
      container_name = r.id ++ codes "_post_warmup";
    }
    ∷ []

abbrev pub is_phase : InstallPhase → InstallPhase → Bool
is_phase installing installing = true
is_phase warming warming = true
is_phase post_warmup post_warmup = true
is_phase idle idle = true
is_phase completed completed = true
is_phase _ _ = false

unfoldable pub read_install_logs_from_docker : Surroundings → Text → ℕ → Outcome Text (List Text)
read_install_logs_from_docker r [] lines = ok []
read_install_logs_from_docker r (c ∷ reference) lines = r.containers (c ∷ reference) lines

-- The logs if there are any, else what comes next.
abbrev pub or_logs : List Text → Outcome Text (List Text) → Outcome Text (List Text)
or_logs [] next = next
or_logs (l ∷ logs) next = ok (l ∷ logs)

-- Another server installs the same files, and its installer writes the logs.
abbrev pub another_owns : Surroundings → Bool
another_owns r = not (list_beq r.owner [] || list_beq r.owner r.id)

abbrev pub owner_logs : Surroundings → Bool → ℕ → Outcome Text (List Text)
owner_logs r false lines = ok []
owner_logs r true lines = read_install_logs_from_docker r (r.owner ++ codes "_installer") lines

abbrev pub disk_or_owner : Surroundings → InstallLogSource → Outcome Text (List Text)
disk_or_owner r src =
    or_logs (read_tail_lines r.disk src.disk_path 0)
      (owner_logs r (is_phase src.phase installing && another_owns r) 0)

abbrev pub state_logs : Surroundings → Text → Text → List Text
state_logs r log_path disk_path =
    if list_beq log_path disk_path then read_tail_lines r.disk log_path 0 else []

abbrev pub live_logs : Surroundings → Text → InstallLogSource → Bool → Outcome Text (List Text)
live_logs r log_path src false = disk_or_owner r src
live_logs r log_path src true = read_install_logs_from_docker r src.container_name 0 >>= λ logs.
    or_logs logs (or_logs (state_logs r log_path src.disk_path) (disk_or_owner r src))

unfoldable pub install_phase_logs :
    Surroundings → InstallState → InstallLogSource → Outcome Text (List Text)
install_phase_logs r s src = live_logs r s.log_path src (is_phase s.phase src.phase)

-- The loop of InstallLogsAll, with the lines so far.
unfoldable pub all_logs :
    Surroundings → InstallState → List InstallLogSource → List Text → Outcome Text (List Text)
all_logs r s [] out = ok out
all_logs r s (src ∷ sources) out =
    install_phase_logs r s src >>= λ logs. all_logs r s sources (add_logs out logs)

unfoldable pub install_logs_all : Surroundings → InstallState → Outcome Text (List Text)
install_logs_all r s = all_logs r s (install_log_sources r) []

abbrev pub log_paths : Surroundings → List Text
log_paths r =
    install_log_disk_path r.directory r.base_path []
    ∷ install_log_disk_path r.directory r.base_path (codes "-warmup")
    ∷ install_log_disk_path r.directory r.base_path (codes "-post-warmup")
    ∷ []

abbrev pub stored_logs : Surroundings → ℕ → List Text
stored_logs r lines = read_stored_install_logs r.disk (log_paths r) lines []

abbrev pub install_container_ref : InstallState → Text
install_container_ref s = or_text s.container_name s.container_id

unfoldable pub read_install_logfile : Surroundings → InstallState → ℕ → Outcome Text (List Text)
read_install_logfile r s lines =
    read_install_logs_from_docker r (install_container_ref s) lines >>= λ logs.
    or_logs logs (or_logs (read_tail_lines r.disk s.log_path lines) (ok (stored_logs r lines)))

unfoldable pub install_logs_for_server : Surroundings → InstallState → ℕ → Outcome Text (List Text)
install_logs_for_server r s lines =
    if not (is_phase s.phase idle) && not (is_phase s.phase completed)
    then read_install_logfile r s lines
    else or_logs (stored_logs r lines) (owner_logs r (another_owns r) lines)
