-- ===== src/Registry/Examples.antt =====
-- A registry of named numbers, of which two have one id.
use sls.Shared.{ℕ, ltb, ◌≡◌, refl, some, List, [], ◌∷◌}
use sls.Shared.Table.{lookup, insert}
use sls.Shared.Text.{Text, codes}
use sls.Registry.{register, register_all, replace_all, get, find, all}

abbrev name_of : Text × ℕ → Text
name_of x = x.0

abbrev twice : List (Text × ℕ)
twice = (codes "lobby", 1) ∷ (codes "game", 2) ∷ (codes "lobby", 3) ∷ []

last_one_wins :
    (get name_of (codes "lobby") (replace_all name_of twice []) ≡ some (codes "lobby", 3))
    × (find name_of (λ x. ltb 2 x.1) (replace_all name_of twice []) ≡ (codes "lobby", 3) ∷ [])
    × (all name_of (replace_all name_of twice []) ≡ (codes "lobby", 3) ∷ (codes "game", 2) ∷ [])
unfolding get replace_all register_all register lookup insert find all
last_one_wins = (refl, refl, refl)
