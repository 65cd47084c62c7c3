-- ===== src/TextFile/Examples.antt =====
-- Text files: tests, and the theorem at a concrete file.
use sls.Shared.{◌≡◌, refl, inl, inr, length, true, [], ◌∷◌, ◌++◌}
use sls.Shared.Text.{Text, codes}
use sls.Shared.Text.Affixes.{has_prefix, strip, trim_suffix_char}
use sls.TextFile.{Replacement, replace_line, scan_from, written_line, write_lines, parse_text_file}
use sls.TextFile.Lines.{OnlyOne, parse_text_file-again}

abbrev port : Replacement
port = record { match = codes "port="; if_value = []; replace_with = codes "port=25565" }

abbrev short : Replacement
short = record { match = codes "po"; if_value = []; replace_with = codes "po=1" }

abbrev two_lines : Replacement
two_lines = record { match = codes "a"; if_value = []; replace_with = codes "a" ++ 10 ∷ codes "b" }

abbrev file : Text
file = codes "# port" ++ 13 ∷ 10 ∷ codes "port=1"

replaces : parse_text_file (port ∷ []) file ≡ codes "# port" ++ 10 ∷ codes "port=25565" ++ 10 ∷ []
unfolding parse_text_file scan_from written_line write_lines replace_line has_prefix strip
    trim_suffix_char
replaces = refl

-- Two replacements that match one line are written one behind the other.
runs_together :
    parse_text_file (port ∷ short ∷ []) (codes "port=1") ≡ codes "port=25565po=1" ++ 10 ∷ []
unfolding parse_text_file scan_from written_line write_lines replace_line has_prefix strip
    trim_suffix_char
runs_together = refl

-- A value of two lines is written once more by each run.
grows :
    parse_text_file (two_lines ∷ []) (parse_text_file (two_lines ∷ []) (codes "a"))
    ≡ codes "a" ++ 10 ∷ codes "b" ++ 10 ∷ codes "b" ++ 10 ∷ []
unfolding parse_text_file scan_from written_line write_lines replace_line has_prefix strip
    trim_suffix_char
grows = refl

only_port : (line : Text) → has_prefix port.match line ≡ true → OnlyOne (port ∷ []) line port
only_port line h = record {
  before = [];
  after = [];
  is_between = refl;
  matches = h;
  not_before = tt;
  not_after = tt;
}

parse_text_file-again_example :
    (length (scan_from [] (parse_text_file (port ∷ []) file)) ≡ length (scan_from [] file))
    × (parse_text_file (port ∷ []) (parse_text_file (port ∷ []) file)
        ≡ parse_text_file (port ∷ []) file)
unfolding has_prefix strip scan_from trim_suffix_char
parse_text_file-again_example = parse_text_file-again (port ∷ []) file (
  inl ((refl, tt), refl),
  (
    inr (
      port,
      only_port (codes "port=1") refl,
      only_port (codes "port=25565") refl,
      (refl, (refl, (refl, (refl, (refl, (refl, (refl, (refl, (refl, (refl, tt)))))))))),
      refl,
    ),
    tt,
  ),
)
