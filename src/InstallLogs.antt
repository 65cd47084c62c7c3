-- ===== src/InstallLogs.antt =====
-- The logs of an installation in daemon/server/install_state.go: the files on the disk, one for each
-- phase, and the output of the containers. The number of lines is a number, where 0 stands for all, as
-- a negative one does.
pub mod Tail
pub mod Stored
pub mod Keys
pub mod Live
pub mod Sources
mod Examples
use sls.Shared.{
  ℕ, ◌-◌, ltb, leb, ◌==◌, Bool, true, false, ◌&&◌, ◌||◌, Option, none, some, List, [], ◌∷◌, ◌++◌,
  map, if◌then◌else◌, length, drop,
}
use sls.Shared.Equality.{nat_eq, list_eq, list_beq}
use sls.Shared.Outcome.{Outcome, ok, err, ◌>>=◌}
use sls.Shared.Paths.{slash, clean, path_join}
use sls.Shared.Text.{Text, codes}
use sls.Shared.Text.Affixes.{trim_char}

-- The characters that stay in the loop of sanitizeInstallLogKey.
abbrev pub is_key_char : ℕ → Bool
is_key_char c =
    (leb b'a' c && leb c b'z')
    || (leb b'A' c && leb c b'Z')
    || (leb b'0' c && leb c b'9')
    || c == b'-'
    || c == b'_'
    || c == b'.'

abbrev pub key_char : ℕ → ℕ
key_char c = if is_key_char c then c else b'-'

abbrev pub or_text : Text → Text → Text
or_text other [] = other
or_text other (c ∷ s) = c ∷ s

abbrev pub key_of : Text → Text
key_of [] = codes "root"
key_of (c ∷ p) = or_text (codes "unknown") (trim_char b'-' (map key_char (c ∷ p)))

unfoldable pub sanitize_install_log_key : Text → Text
sanitize_install_log_key [] = codes "unknown"
sanitize_install_log_key (c ∷ path) = key_of (trim_char slash (clean (c ∷ path)))

abbrev pub log_name : Text → Text → Text
log_name path suffix = sanitize_install_log_key path ++ suffix ++ codes ".log"

unfoldable pub install_log_disk_path : Text → Text → Text → Text
install_log_disk_path directory path suffix = path_join directory (log_name path suffix)

-- The loop of readTailLines, with the lines so far.
abbrev pub cut : ℕ → List Text → List Text
cut max lines =
    if ltb 0 max && ltb max (length lines) then drop (length lines - max) lines else lines

unfoldable pub scan_tail : ℕ → List Text → List Text → List Text
scan_tail max lines [] = lines
scan_tail max lines (l ∷ file) = scan_tail max (cut max (lines ++ l ∷ [])) file

-- The disk: the lines that a scanner gives of a file, if it can be opened.
unfoldable pub read_tail_lines : (Text → Option (List Text)) → Text → ℕ → List Text
unfolding scan_tail
read_tail_lines disk [] max = []
read_tail_lines disk (c ∷ path) max = elim (disk (clean (c ∷ path))) [
  | none ↦ []
  | some file ↦ scan_tail max [] file
]

-- A blank line stands between the logs of two phases.
abbrev pub add_logs : List Text → List Text → List Text
add_logs out [] = out
add_logs [] (l ∷ logs) = l ∷ logs
add_logs (o ∷ out) (l ∷ logs) = o ∷ out ++ [] ∷ l ∷ logs

unfoldable pub read_stored_install_logs :
    (Text → Option (List Text)) → List Text → ℕ → List Text → List Text
unfolding read_tail_lines
read_stored_install_logs disk [] lines out = cut lines out
read_stored_install_logs disk (path ∷ paths) lines out =
    read_stored_install_logs disk paths lines (add_logs out (read_tail_lines disk path lines))
