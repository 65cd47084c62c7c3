-- ===== src/InstallLogs/Sources.antt =====
-- What the logs of the API are made of when no phase runs, in daemon/server/install_state.go.
use sls.Shared.{
  ℕ, ◌<◌, ◌≡◌, refl, ap, ◌∙◌, Bool, true, false, ◌&&◌, ◌||◌, not, List, [], ◌∷◌, map, All,
  if◌then◌else◌,
}
use sls.Shared.Outcome.{Outcome, ok, ◌>>=◌}
use sls.Shared.Text.{Text}
use sls.InstallState.{
  InstallPhase, idle, installing, warming, post_warmup, install_failed, warmup_failed,
  post_warmup_failed, completed, InstallState,
}
use sls.InstallLogs.{read_tail_lines, read_stored_install_logs, add_logs}
use sls.InstallLogs.Tail.{tail}
use sls.InstallLogs.Stored.{read_stored_install_logs-tail}
use sls.InstallLogs.Live.{
  Surroundings, InstallLogSource, install_log_sources, install_phase_logs, log_paths, is_phase,
  or_logs, another_owns, live_logs, owner_logs, all_logs, install_logs_all, stored_logs,
  install_logs_for_server,
}

abbrev pub is_at_rest : InstallPhase → Bool
is_at_rest phase = is_phase phase idle || is_phase phase completed

record AtRest (phase : InstallPhase) : Type 0 where
  no_install : is_phase phase installing ≡ false
  no_warmup : is_phase phase warming ≡ false
  no_post_warmup : is_phase phase post_warmup ≡ false
  at_rest : (not (is_phase phase idle) && not (is_phase phase completed)) ≡ false

is_at_rest-AtRest : (phase : InstallPhase) → is_at_rest phase ≡ true → AtRest phase
is_at_rest-AtRest idle h = record {
  no_install = refl;
  no_warmup = refl;
  no_post_warmup = refl;
  at_rest = refl;
}
is_at_rest-AtRest completed h = record {
  no_install = refl;
  no_warmup = refl;
  no_post_warmup = refl;
  at_rest = refl;
}
is_at_rest-AtRest installing h = cc
is_at_rest-AtRest warming h = cc
is_at_rest-AtRest post_warmup h = cc
is_at_rest-AtRest install_failed h = cc
is_at_rest-AtRest warmup_failed h = cc
is_at_rest-AtRest post_warmup_failed h = cc

or_logs-none : (logs : List Text) → or_logs logs (ok []) ≡ ok logs
or_logs-none [] = refl
or_logs-none (l ∷ logs) = refl

live_logs-none :
    (r : Surroundings) (path : Text) (src : InstallLogSource)
    → another_owns r ≡ false
    → live_logs r path src false ≡ ok (read_tail_lines r.disk src.disk_path 0)
live_logs-none r path src alone = by_phase (is_phase src.phase installing)
  where
    logs : List Text
    logs = read_tail_lines r.disk src.disk_path 0

    by_phase : (b : Bool) → or_logs logs (owner_logs r (b && another_owns r) 0) ≡ ok logs
    by_phase false = or_logs-none logs
    by_phase true = rw (alone) (or_logs-none logs)

all_logs-stored :
    (r : Surroundings) (s : InstallState) (sources : List InstallLogSource) (out : List Text)
    → another_owns r ≡ false
    → All (λ src. is_phase s.phase src.phase ≡ false) sources
    → all_logs r s sources out
      ≡ ok (read_stored_install_logs r.disk (map (λ src. src.disk_path) sources) 0 out)
unfolding all_logs install_phase_logs read_stored_install_logs
all_logs-stored r s [] out alone rest = refl
all_logs-stored r s (src ∷ sources) out alone (h, rest) =
    ap (λ b. live_logs r s.log_path src b >>= next) h
    ∙ ap (λ o. o >>= next) (live_logs-none r s.log_path src alone)
    ∙ all_logs-stored r s sources (add_logs out (read_tail_lines r.disk src.disk_path 0)) alone rest
  where
    next : List Text → Outcome Text (List Text)
    next logs = all_logs r s sources (add_logs out logs)

install_logs_all-stored :
    (r : Surroundings) (s : InstallState)
    → AtRest s.phase
    → another_owns r ≡ false
    → install_logs_all r s ≡ ok (stored_logs r 0)
unfolding install_logs_all install_log_sources
install_logs_all-stored r s rest alone =
    all_logs-stored r s (install_log_sources r) [] alone
      (rest.no_install, (rest.no_warmup, (rest.no_post_warmup, tt)))

-- In the phases idle and completed, with no other server that holds the lock of the installation:
-- InstallLogsAll gives the stored logs of all phases, without an error, and installLogsForServer with a
-- number of lines that is not 0 gives as many last lines of the same logs.
pub install_logs_for_server-tail :
    (r : Surroundings) (s : InstallState) (lines : ℕ)
    → is_at_rest s.phase ≡ true
    → another_owns r ≡ false
    → 0 < lines
    → (install_logs_all r s ≡ ok (stored_logs r 0))
      × (install_logs_for_server r s lines ≡ ok (tail lines (stored_logs r 0)))
unfolding install_logs_for_server
install_logs_for_server-tail r s lines h alone some_lines =
    let rest = is_at_rest-AtRest s.phase h in
    (
      install_logs_all-stored r s rest alone,
      rw (rest.at_rest, alone, if◌then◌else◌)
          (or_logs-none (stored_logs r lines)
            ∙ ap ok (read_stored_install_logs-tail r.disk (log_paths r) lines some_lines)),
    )
