-- ===== src/Blueprint/Shorthand.antt =====
-- The shorthand of a volume in protocube/blueprint/parser.go reads what it spells.
use sls.Shared.{ℕ, ◌≡◌, ap, [], ◌∷◌, All}
use sls.Shared.Text.{Text, Lacks}
use sls.Shared.Text.Joined.{join, split-join}
use sls.Shared.Outcome.{ok}
use sls.Blueprint.{Volume, cow, volume_of, unmarshal_shorthand}

abbrev pub colon : ℕ
colon = b':'

-- A volume that is written as a shorthand, with its mode or without.
abbrev pub long_form : Volume → Text
long_form v = join colon (v.name ∷ v.source ∷ v.target ∷ v.mode ∷ [])

abbrev pub short_form : Volume → Text
short_form v = join colon (v.name ∷ v.source ∷ v.target ∷ [])

-- A volume without colons in its parts is read back from its shorthand with the mode, and from the one
-- without it if it is copied on write.
pub unmarshal_shorthand-roundtrip :
    (v : Volume)
    → All (Lacks colon) (v.name ∷ v.source ∷ v.target ∷ v.mode ∷ [])
    → (unmarshal_shorthand (long_form v) ≡ ok v)
      × (unmarshal_shorthand (short_form v) ≡ ok (record v { mode = cow }))
unfolding unmarshal_shorthand
unmarshal_shorthand-roundtrip v (n, (s, (t, (m, _)))) = (
  ap volume_of (split-join colon v.name (v.source ∷ v.target ∷ v.mode ∷ []) (n, (s, (t, (m, tt))))),
  ap volume_of (split-join colon v.name (v.source ∷ v.target ∷ []) (n, (s, (t, tt)))),
)
