-- ===== src/InstallLogs/Examples.antt =====
-- Logs of an installation: tests, and the theorems at concrete logs.
use sls.Shared.{◌≡◌, refl, Option, none, some, List, [], ◌∷◌, if◌then◌else◌, arith}
use sls.Shared.Equality.{nat_eq, list_beq}
use sls.Shared.Outcome.{ok}
use sls.Shared.Paths.{clean_parts, clean_from, clean, path_join}
use sls.Shared.Text.{Text, codes, split}
use sls.Shared.Text.Joined.{join}
use sls.Shared.Text.Affixes.{trim_left_char, trim_char}
use sls.InstallState.{installing, start_install_phase, new_install_state}
use sls.InstallLogs.{
  sanitize_install_log_key, install_log_disk_path, scan_tail, read_tail_lines,
  read_stored_install_logs,
}
use sls.InstallLogs.Tail.{tail}
use sls.InstallLogs.Live.{
  Surroundings, stored_logs, install_logs_all, install_logs_for_server, all_logs,
  install_log_sources, install_phase_logs, read_install_logs_from_docker,
}
use sls.InstallLogs.Sources.{install_logs_for_server-tail}

cleans : sanitize_install_log_key (codes "paper/./1.20.1/") ≡ codes "paper-1.20.1"
unfolding sanitize_install_log_key trim_char trim_left_char clean clean_from clean_parts split join
cleans = refl

-- Two servers of different folders write the same file.
collides : sanitize_install_log_key (codes "a/b") ≡ sanitize_install_log_key (codes "a-b")
unfolding sanitize_install_log_key trim_char trim_left_char clean clean_from clean_parts split join
collides = refl

nothing_left : sanitize_install_log_key (codes "/..") ≡ codes "root"
unfolding sanitize_install_log_key trim_char trim_left_char clean clean_from clean_parts split join
nothing_left = refl

abbrev line : Text → List Text
line l = l ∷ []

-- The files of the installation and of the warmup.
abbrev disk : Text → Option (List Text)
disk path =
    if list_beq path (codes "/l/paper.log")
    then some (codes "one" ∷ codes "two" ∷ codes "three" ∷ [])
    else if list_beq path (codes "/l/paper-warmup.log")
    then some (codes "four" ∷ codes "five" ∷ [])
    else none

abbrev surroundings : Surroundings
surroundings = record {
  id = codes "s1";
  base_path = codes "paper";
  directory = codes "/l";
  owner = [];
  disk = disk;
  containers = λ reference lines. ok (line reference);
}

four_lines : stored_logs surroundings 4 ≡ codes "three" ∷ [] ∷ codes "four" ∷ codes "five" ∷ []
unfolding read_stored_install_logs read_tail_lines scan_tail install_log_disk_path path_join
    sanitize_install_log_key trim_char trim_left_char clean clean_from clean_parts split join
four_lines = refl

-- While the installer runs, its container takes the place of the file.
runs :
    install_logs_all surroundings
      (start_install_phase 0 installing (codes "s1_installer") [] new_install_state)
    ≡ ok (codes "s1_installer" ∷ [] ∷ codes "four" ∷ codes "five" ∷ [])
unfolding install_logs_all all_logs install_log_sources install_phase_logs start_install_phase
    read_install_logs_from_docker read_tail_lines scan_tail install_log_disk_path path_join
    sanitize_install_log_key trim_char trim_left_char clean clean_from clean_parts split join
runs = refl

install_logs_for_server-tail_example :
    (install_logs_all surroundings new_install_state ≡ ok (stored_logs surroundings 0))
    × (install_logs_for_server surroundings new_install_state 4
        ≡ ok (tail 4 (stored_logs surroundings 0)))
unfolding new_install_state
install_logs_for_server-tail_example =
    install_logs_for_server-tail surroundings new_install_state 4 refl refl (omega arith)
