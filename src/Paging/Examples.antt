-- ===== src/Paging/Examples.antt =====
-- Servers on pages, and tests.
use mathlib.Core.List.Permᴰ
use mathlib.Core.List.{Permᴰ}
use sls.Shared.{ℕ, suc, ◌+◌, ◌^◌, ◌≡◌, refl, none, some, List, [], ◌∷◌, ◌++◌, arith}
use sls.Shared.Int.{ℤ, pos, negsuc, ◌+ℤ◌, int64}
use sls.Shared.Outcome.{ok}
use sls.Paging.{
  get_all_server_configurations, get_all_blueprints, log_pagination_params, get_servers,
}
use sls.Paging.Fetching.{serve, get_servers-Permᴰ}

abbrev no_answer : ℕ
no_answer = 0

abbrev five : List ℕ
five = 11 ∷ 12 ∷ 13 ∷ 14 ∷ 15 ∷ []

-- The answer of the second page arrives last.
abbrev first_last : List ℕ → List ℕ
first_last [] = []
first_last (page ∷ pages) = pages ++ (page ∷ [])

first_last-Permᴰ : (pages : List ℕ) → Permᴰ pages (first_last pages)
first_last-Permᴰ [] = Permᴰ.nil
first_last-Permᴰ (page ∷ pages) = Permᴰ.append_comm (page ∷ []) pages

fetches : get_servers (serve no_answer five) first_last (pos 2) ≡ ok (11 ∷ 12 ∷ 15 ∷ 13 ∷ 14 ∷ [])
unfolding get_servers get_all_server_configurations int64 ◌+ℤ◌
fetches = refl

-- A page that is not a number asks for the first.
first_page : get_all_blueprints (pos 0) (pos 2) five ≡ some ((11 ∷ 12 ∷ []), pos 3)
unfolding get_all_blueprints int64 ◌+ℤ◌
first_page = refl

limited_page : log_pagination_params (negsuc 0) (pos 500) ≡ (1, 100)
unfolding log_pagination_params
limited_page = refl

-- The start of a page far behind the last is negative, and the handler panics.
overflows : get_all_server_configurations (pos (2 ^ 62 + 2)) (pos 50) five ≡ none
unfolding get_all_server_configurations int64
overflows = refl

abbrev in_order : ℤ → List ℕ
in_order (pos (suc (suc n))) = 15 ∷ 14 ∷ 13 ∷ 12 ∷ 11 ∷ []
in_order page = five

-- The second page is cut from another order of the same servers: the last two are missed.
missed :
    get_servers (λ page limit. serve no_answer (in_order page) page limit) first_last (pos 3)
    ≡ ok (11 ∷ 12 ∷ 13 ∷ 12 ∷ 11 ∷ [])
unfolding get_servers get_all_server_configurations int64 ◌+ℤ◌
missed = refl

get_servers-Permᴰ_example :
    (servers : List ℕ) × (get_servers (serve no_answer five) first_last (pos 2) ≡ ok servers)
    × Permᴰ five servers
get_servers-Permᴰ_example =
    get_servers-Permᴰ no_answer five first_last (pos 2) (omega arith) first_last-Permᴰ
