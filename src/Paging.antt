-- ===== src/Paging.antt =====
-- The pages of the API: getAllServerConfigurations of protocube/api/router/router_node.go,
-- getAllBlueprints of router_system.go and logPaginationParams of router_server.go, and GetServers of
-- daemon/remote/servers.go, which asks for the pages. A number of a query is what Atoi returns; the
-- items are in the order of one range over the map. A panic is none.
pub mod Bounds
pub mod Chunks
pub mod Fetching
mod Examples
use sls.Shared.{
  ℕ, zero, suc, ◌+◌, ◌-◌, ◌*◌, ◌/◌, ◌^◌, Bool, true, false, ◌&&◌, ltb, leb, Option, none, some,
  List, [], ◌∷◌, ◌++◌, if◌then◌else◌, length, take, drop,
}
use sls.Shared.Int.{ℤ, pos, negsuc, ◌+ℤ◌, neg, ltb_ℤ, int64}
use sls.Shared.Outcome.{Outcome, ok, err, ◌>>=◌}

-- `if page < 1 { page = … }`
abbrev pub or_default : ℕ → ℤ → ℕ
or_default default (pos zero) = default
or_default default (pos (suc n)) = suc n
or_default default (negsuc n) = default

-- `start := (page - 1) * perPage`
abbrev pub start_of : ℕ → ℕ → ℤ
start_of page per_page = int64 (pos ((page - 1) * per_page))

-- `end := start + perPage`
abbrev pub end_of : ℕ → ℕ → ℤ
end_of page per_page = int64 (start_of page per_page +ℤ pos per_page)

abbrev pub at_most : ℕ → ℤ → ℤ
at_most total i = if ltb_ℤ (pos total) i then pos total else i

-- The quotient of int, cut towards 0.
abbrev pub quotient : ℤ → ℕ → ℤ
quotient (pos n) d = pos (n / d)
quotient (negsuc n) d = neg (pos (suc n / d))

abbrev pub to_uint : ℤ → ℕ
to_uint (pos n) = n
to_uint (negsuc n) = 2 ^ 64 - 1 - n

abbrev pub total_pages : ℕ → ℕ → ℤ
total_pages per_page total =
    if ltb 0 per_page && ltb 0 total
    then quotient (int64 (int64 (pos (total + per_page)) +ℤ negsuc 0)) per_page
    else pos 0

abbrev pub from_of : ℕ → ℤ → ℕ
from_of total start = if ltb 0 total then to_uint (start +ℤ pos 1) else 0

abbrev pub to_of : ℕ → ℤ → ℕ
to_of total end = if ltb 0 total then to_uint end else 0

pub record Page (A : Type 0) : Type 0 where
  pub items : List A
  pub current_page : ℕ
  pub from : ℕ
  pub last_page : ℕ
  pub per_page : ℕ
  pub to : ℕ
  pub total : ℕ

module _ {A : Type 0} where
  -- `items[start:end]`
  abbrev pub slice : ℤ → ℤ → List A → Option (List A)
  slice (pos start) (pos end) items =
      if leb start end && leb end (length items)
      then some (take (end - start) (drop start items))
      else none
  slice start end items = none

  -- `if start < total { paged = configurations[start:end] } else { … }`
  abbrev pub paged : ℤ → ℤ → List A → Option (List A)
  paged start end items =
      if ltb_ℤ start (pos (length items)) then slice start end items else some []

  abbrev pub page_answer : ℕ → ℕ → ℤ → ℤ → ℕ → Option (List A) → Option (Page A)
  page_answer page per_page start end total none = none
  page_answer page per_page start end total (some items) = some (record {
    items = items;
    current_page = page;
    from = from_of total start;
    last_page = to_uint (total_pages per_page total);
    per_page = per_page;
    to = to_of total end;
    total = total;
  })

  abbrev pub page_at : ℕ → ℕ → List A → Option (Page A)
  page_at page per_page configurations =
      let total = length configurations in
      let start = at_most total (start_of page per_page) in
      let end = at_most total (end_of page per_page) in
      page_answer page per_page start end total (paged start end configurations)

  unfoldable pub get_all_server_configurations : ℤ → ℤ → List A → Option (Page A)
  get_all_server_configurations page per_page configurations =
      page_at (or_default 1 page) (or_default 50 per_page) configurations

  -- The page of getAllBlueprints, and the number of pages.
  unfoldable pub get_all_blueprints : ℤ → ℤ → List A → Option (List A × ℤ)
  get_all_blueprints page per_page items =
      let p = or_default 1 page in
      let per = or_default 20 per_page in
      let total = length items in
      elim (slice (at_most total (start_of p per)) (at_most total (end_of p per)) items) [
        | none ↦ none
        | some paged ↦ some (paged, total_pages per total)
      ]

-- `logPaginationParams`, once the texts are read
unfoldable pub log_pagination_params : ℤ → ℤ → ℕ × ℕ
log_pagination_params page per_page =
    let per = or_default 100 per_page in (or_default 1 page, if ltb 100 per then 100 else per)

-- The pages behind the current one: so many from the given one on.
unfoldable pub pages_from : ℕ → ℕ → List ℕ
pages_from page zero = []
pages_from page (suc n) = page ∷ pages_from (suc page) n

module _ {A E : Type 0} (get_servers_paged : ℤ → ℤ → Outcome E (Page A)) where
  -- The answers in the order in which they arrive, each appended to the servers.
  unfoldable pub append_pages : ℤ → List ℕ → List A → Outcome E (List A)
  append_pages limit [] servers = ok servers
  append_pages limit (page ∷ pages) servers = do
    p ← get_servers_paged (pos page) limit
    append_pages limit pages (servers ++ p.items)

  -- With the order in which the answers of the other pages arrive.
  unfoldable pub get_servers : (List ℕ → List ℕ) → ℤ → Outcome E (List A)
  unfolding append_pages pages_from
  get_servers arrive limit = do
    first ← get_servers_paged (pos 0) limit
    if ltb 1 first.last_page
        then append_pages limit
            (arrive (pages_from (first.current_page + 1) (first.last_page - first.current_page)))
            first.items
        else ok first.items
