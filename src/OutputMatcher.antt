-- ===== src/OutputMatcher.antt =====
-- OutputLineMatcher of protocube/models/process.go: the line by which a server says that it is online.
-- The package regexp is an argument; a JSON text is the text that it encodes.
pub mod Wire
mod Examples
use sls.Shared.{ℕ, ltb, Bool, true, ◌&&◌, ◌||◌, Option, none, some, [], ◌∷◌, if◌then◌else◌, length}
use sls.Shared.Text.{Text, codes}
use sls.Shared.Text.Affixes.{has_prefix, trim_prefix}

abbrev pub regex_prefix : Text
regex_prefix = codes "regex:"

-- `bytes.Contains(s, sub)`
unfoldable pub contains : Text → Text → Bool
contains [] sub = has_prefix sub []
contains (c ∷ s) sub = has_prefix sub (c ∷ s) || contains s sub

module _ {R : Type 0} (compile : Text → Option R) (match : R → Text → Bool) where
  pub record OutputLineMatcher : Type 0 where
    pub raw : Text
    pub reg : Option R

  unfoldable pub matches : OutputLineMatcher → Text → Bool
  unfolding contains
  matches olm s = elim olm.reg [ none ↦ contains s olm.raw | some r ↦ match r s ]

  -- `none` is the error of an expression that does not compile.
  unfoldable pub new_output_line_matcher : Text → Option OutputLineMatcher
  new_output_line_matcher done =
      if has_prefix regex_prefix done
      then elim (compile (trim_prefix regex_prefix done)) [
        | none ↦ none
        | some r ↦ some (record { raw = []; reg = some r })
      ]
      else some (record { raw = done; reg = none })

  unfoldable pub marshal : OutputLineMatcher → Text
  marshal olm = olm.raw

  unfoldable pub unmarshal : Text → OutputLineMatcher
  unmarshal r = record {
    raw = r;
    reg =
        if has_prefix regex_prefix r && ltb 6 (length r)
        then compile (trim_prefix regex_prefix r)
        else none;
  }
