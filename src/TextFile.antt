-- ===== src/TextFile.antt =====
-- parseTextFile of daemon/parser/parser.go, from the bytes of the file to those that are written. The
-- lines are shorter than 64 KiB, and reads and writes succeed.
pub mod Lines
mod Examples
use sls.Shared.{
  ℕ, Bool, true, false, not, ◌&&◌, Option, none, some, List, [], ◌∷◌, ◌++◌, ◌==◌, map,
  if◌then◌else◌,
}
use sls.Shared.Equality.{nat_eq, list_eq, list_beq}
use sls.Shared.Text.{Text, codes}
use sls.Shared.Text.Affixes.{has_prefix, trim_suffix_char}

-- `ConfigurationFileReplacement`, with the bytes of its value.
pub record Replacement : Type 0 where
  pub match : Text
  pub if_value : Text
  pub replace_with : Text

-- The loop over the replacements of a line: what is written of it, and whether one matched.
unfoldable pub replace_line : List Replacement → Text → Text × Bool
unfolding has_prefix
replace_line [] line = ([], false)
replace_line (r ∷ rs) line =
    let (written, replaced) = replace_line rs line in
    if has_prefix r.match line then (r.replace_with ++ written, true) else (written, replaced)

abbrev pub written_or : Text → Text × Bool → Text
written_or line (written, true) = written
written_or line (written, false) = line

-- The lines of bufio.ScanLines: a line break ends a line, one carriage return in front of it is taken
-- off, and what is behind the last break is a line unless it is empty.
abbrev pub drop_cr : Text → Text
drop_cr = trim_suffix_char 13

abbrev pub last_line : Text → List Text
last_line [] = []
last_line (c ∷ line) = drop_cr (c ∷ line) ∷ []

unfoldable pub scan_from : Text → Text → List Text
scan_from line [] = last_line line
scan_from line (c ∷ s) =
    let ended = scan_from [] s in
    let longer = scan_from (line ++ c ∷ []) s in if c == 10 then drop_cr line ∷ ended else longer

unfoldable pub written_line : List Replacement → Text → Text
unfolding replace_line
written_line rs line = written_or line (replace_line rs line)

-- Each line with a line break behind it.
unfoldable pub write_lines : List Text → Text
write_lines [] = []
write_lines (line ∷ lines) = line ++ 10 ∷ write_lines lines

-- The bytes of a file, and those that are written in their place.
unfoldable pub parse_text_file : List Replacement → Text → Text
unfolding scan_from written_line write_lines
parse_text_file rs file = write_lines (map (written_line rs) (scan_from [] file))
