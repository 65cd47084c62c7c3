-- ===== src/OutputMatcher/Examples.antt =====
-- A matcher with a toy expression, a text that the line must be: tests, and the theorem at a signal.
use sls.Shared.{◌≡◌, refl, Bool, true, false, Option, some, []}
use sls.Shared.Equality.{nat_eq, list_beq}
use sls.Shared.Text.{Text, codes}
use sls.Shared.Text.Affixes.{has_prefix, trim_prefix, strip}
use sls.OutputMatcher.{
  OutputLineMatcher, new_output_line_matcher, marshal, unmarshal, matches, contains,
}
use sls.OutputMatcher.Wire.{matches-unmarshal}

abbrev whole : Text → Option Text
whole pattern = some pattern

abbrev is_whole : Text → Text → Bool
is_whole pattern line = list_beq line pattern

abbrev online : OutputLineMatcher whole is_whole
online = record { raw = []; reg = some (codes "Done") }

compiles : new_output_line_matcher whole is_whole (codes "regex:Done") ≡ some online
unfolding new_output_line_matcher has_prefix trim_prefix strip
compiles = refl

-- The server is not online yet.
abbrev loading : Text
loading = codes "Loading"

not_online : matches whole is_whole online loading ≡ false
unfolding matches
not_online = refl

online_at_once :
    matches whole is_whole (unmarshal whole is_whole (marshal whole is_whole online)) loading ≡ true
unfolding matches unmarshal marshal contains has_prefix strip
online_at_once = refl

matches-unmarshal_example :
    matches whole is_whole (unmarshal whole is_whole (marshal whole is_whole online)) loading ≡ true
unfolding has_prefix strip
matches-unmarshal_example =
    matches-unmarshal whole is_whole (codes "regex:Done") loading online compiles
