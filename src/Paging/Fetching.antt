-- ===== src/Paging/Fetching.antt =====
-- GetServers of daemon/remote/servers.go against getAllServerConfigurations of
-- protocube/api/router/router_node.go.
use mathlib.Core.List.Permᴰ
use mathlib.Core.List.{Permᴰ}
use native.Mathlib.Nat.{lt-div-mul-add, mul-le-mul_right, div-mul-le_self}
use sls.Shared.{
  ℕ, zero, suc, ◌+◌, ◌-◌, ◌*◌, ◌/◌, ◌^◌, ◌≤◌, ◌<◌, ◌≡◌, refl, sym, ap, ◌∙◌, subst, Bool-cases, ltb,
  Option, none, some, List, [], ◌∷◌, ◌++◌, append_assoc, append-nil, if◌then◌else◌, arith, length,
  take, inl, inr,
}
use sls.Shared.Int.{ℤ, pos, negsuc}
use sls.Shared.Outcome.{Outcome, ok, err, ◌>>=◌}
use sls.Paging.{
  Page, or_default, page_at, get_all_server_configurations, append_pages, pages_from, get_servers,
}
use sls.Paging.Bounds.{part, take-cap, IsPage, page_at-IsPage}
use sls.Paging.Chunks.{parts, parts-pages_from, Permᴰ-parts}

-- What a request gives: the page, or an error when the handler panics.
abbrev pub response : {A E : Type 0} → E → Option (Page A) → Outcome E (Page A)
response failure none = err failure
response failure (some page) = ok page

-- A page that can be asked for without an overflow.
abbrev IsAsked : ℕ → ℕ → Type 0
IsAsked per page = (0 < page) × (page * per < 2 ^ 63)

abbrev AreAsked : ℕ → List ℕ → Type 0
AreAsked per [] = Unit {0}
AreAsked per (page ∷ pages) = IsAsked per page × AreAsked per pages

Permᴰ-AreAsked : (per : ℕ) {ps qs : List ℕ} → Permᴰ ps qs → AreAsked per ps → AreAsked per qs
Permᴰ-AreAsked per Permᴰ.nil w = tt
Permᴰ-AreAsked per (Permᴰ.cons e p) (a, w) = (subst (IsAsked per) e a, Permᴰ-AreAsked per p w)
Permᴰ-AreAsked per (Permᴰ.swap e f) (a, (b, w)) =
    (subst (IsAsked per) f b, (subst (IsAsked per) e a, w))
Permᴰ-AreAsked per (Permᴰ.trans p q) w = Permᴰ-AreAsked per q (Permᴰ-AreAsked per p w)

asked_page : (page : ℕ) → 0 < page → or_default 1 (pos page) ≡ page
asked_page zero h = absurd (omega (arith, h))
asked_page (suc n) h = refl

start_below : (page per : ℕ) → IsAsked per page → (page - 1) * per + per < 2 ^ 63
start_below zero per (h, k) = absurd (omega (arith, h))
start_below (suc n) per (h, k) =
    let previous : suc n - 1 ≡ n = omega arith in rw previous (ground (arith, k))

or_default_positive : (limit : ℤ) → 0 < or_default 50 limit
or_default_positive (pos zero) = ground arith
or_default_positive (pos (suc n)) = omega arith
or_default_positive (negsuc n) = ground arith

pages_from-AreAsked :
    (per top page n : ℕ)
    → 0 < page
    → page + n ≤ suc top
    → top * per < 2 ^ 63
    → AreAsked per (pages_from page n)
unfolding pages_from
pages_from-AreAsked per top page zero h k l = tt
pages_from-AreAsked per top page (suc n) h k l =
    let below : page * per ≤ top * per = mul-le-mul_right per (omega (arith, k)) in
    (
      (h, omega (arith, below, l)),
      pages_from-AreAsked per top (suc page) n (omega arith) (omega (arith, k)) l,
    )

module _ {A E : Type 0} (failure : E) (xs : List A) where
  abbrev pub serve : ℤ → ℤ → Outcome E (Page A)
  serve page limit = response failure (get_all_server_configurations page limit xs)

  serve-IsPage :
      (page per : ℕ) (asked limit : ℤ)
      → or_default 1 asked ≡ page
      → or_default 50 limit ≡ per
      → 0 < per
      → (page - 1) * per + per < 2 ^ 63
      → length xs + per < 2 ^ 63
      → (p : Page A) × (serve asked limit ≡ ok p) × IsPage page per xs p
  unfolding get_all_server_configurations
  serve-IsPage page per asked limit d e h k l =
      let r = page_at-IsPage page per xs h k l in
      let given : page_at (or_default 1 asked) (or_default 50 limit) xs ≡ page_at page per xs =
        rw (d, e) in
      (r.0, ap (response failure) (given ∙ r.1), r.2)

  append_pages-parts :
      (per : ℕ) (limit : ℤ)
      → or_default 50 limit ≡ per
      → 0 < per
      → length xs + per < 2 ^ 63
      → (pages : List ℕ) → AreAsked per pages
      → (servers : List A)
      → append_pages serve limit pages servers ≡ ok (servers ++ parts per xs pages)
  unfolding append_pages
  append_pages-parts per limit e h l [] w servers = ap ok (sym (append-nil servers))
  append_pages-parts per limit e h l (page ∷ pages) (a, w) servers =
      let r =
        serve-IsPage page per (pos page) limit (asked_page page a.0) e h (start_below page per a)
          l in
      let rest = append_pages-parts per limit e h l pages w in
      ap (λ o. o >>= λ p. append_pages serve limit pages (servers ++ p.items)) r.1
      ∙ rest (servers ++ r.0.items)
      ∙ ap (λ ys. ok ((servers ++ ys) ++ parts per xs pages)) r.2.items
      ∙ ap ok (append_assoc servers (part ((page - 1) * per) per xs) (parts per xs pages))

  -- The servers behind those of the first page.
  abbrev behind_first : (List ℕ → List ℕ) → ℕ → ℕ → List A
  behind_first arrive per last =
      if ltb 1 last then parts per xs (arrive (pages_from 2 (last - 1))) else []

  after_first :
      (arrive : List ℕ → List ℕ) (per last : ℕ) (limit : ℤ)
      → or_default 50 limit ≡ per
      → 0 < per
      → length xs + per < 2 ^ 63
      → ((pages : List ℕ) → Permᴰ pages (arrive pages))
      → last * per < 2 ^ 63
      → (if ltb 1 last
          then append_pages serve limit (arrive (pages_from 2 (last - 1))) (part (0 * per) per xs)
          else ok (part (0 * per) per xs))
        ≡ ok (part (0 * per) per xs ++ behind_first arrive per last)
  after_first arrive per last limit e h l all_arrive k = elim (Bool-cases (ltb 1 last)) [
    | inl more ↦
        let asked =
          pages_from-AreAsked per last 2 (last - 1) (omega arith) (ground (arith, more)) k in
        rw more (
          append_pages-parts per limit e h l (arrive (pages_from 2 (last - 1)))
            (Permᴰ-AreAsked per (all_arrive (pages_from 2 (last - 1))) asked)
            (part (0 * per) per xs))
    | inr only ↦ rw only (ap ok (sym (append-nil (part (0 * per) per xs))))
  ]

  get_servers-parts :
      (arrive : List ℕ → List ℕ) (per last : ℕ) (limit : ℤ)
      → or_default 50 limit ≡ per
      → 0 < per
      → length xs + per < 2 ^ 63
      → ((pages : List ℕ) → Permᴰ pages (arrive pages))
      → (length xs + per - 1) / per ≡ last
      → last * per < 2 ^ 63
      → get_servers serve arrive limit ≡ ok (part (0 * per) per xs ++ behind_first arrive per last)
  unfolding get_servers
  get_servers-parts arrive per last limit e h l all_arrive d k =
      let r = serve-IsPage 1 per (pos 0) limit refl e h (omega (arith, l)) l in
      rw (r.1, r.2.current_page, r.2.last_page, r.2.items, d)
        (after_first arrive per last limit e h l all_arrive k)

  first_part : (per : ℕ) → part (0 * per) per xs ≡ take (1 * per) xs
  first_part per =
      let start : 0 * per ≡ 0 = omega arith in
      let size : 1 * per ≡ per = omega arith in rw (start, size)

  Permᴰ-behind_first :
      (arrive : List ℕ → List ℕ) (per last : ℕ)
      → ((pages : List ℕ) → Permᴰ pages (arrive pages))
      → length xs ≤ last * per
      → Permᴰ xs (part (0 * per) per xs ++ behind_first arrive per last)
  Permᴰ-behind_first arrive per last all_arrive k =
      let first = first_part per in
      elim (Bool-cases (ltb 1 last)) [
        | inl more ↦
            let pages = pages_from 2 (last - 1) in
            let size : (1 + (last - 1)) * per ≡ last * per =
              ap (λ n. n * per) (let n : 1 + (last - 1) ≡ last = ground (arith, more) in n) in
            let whole : take (1 * per) xs ++ parts per xs pages ≡ xs =
              parts-pages_from per xs 1 (last - 1)
              ∙ ap (λ n. take n xs) size
              ∙ take-cap (last * per) xs k in
            rw (more, first)
              (subst (λ ys. Permᴰ ys (take (1 * per) xs ++ parts per xs (arrive pages))) whole
                (Permᴰ.append_left (take (1 * per) xs) (Permᴰ-parts per xs (all_arrive pages))))
        | inr only ↦
            let few = mul-le-mul_right {m = last} {n = 1} per (ground (arith, only)) in
            let whole =
              append-nil (take (1 * per) xs) ∙ take-cap (1 * per) xs (omega (arith, k, few)) in
            rw (only, first)
              (subst (λ ys. Permᴰ ys (take (1 * per) xs ++ [])) whole
                (Permᴰ.refl (take (1 * per) xs ++ [])))
      ]

  -- With servers and servers to a page that together are fewer than 2^63, and the servers of a node the
  -- same and in one order for all requests: the calls of GetServers, answered by
  -- getAllServerConfigurations and in whatever order the answers of the other pages arrive, fetch every
  -- server, and none twice.
  pub get_servers-Permᴰ :
      (arrive : List ℕ → List ℕ) (limit : ℤ)
      → length xs + or_default 50 limit < 2 ^ 63
      → ((pages : List ℕ) → Permᴰ pages (arrive pages))
      → (servers : List A) × (get_servers serve arrive limit ≡ ok servers) × Permᴰ xs servers
  get_servers-Permᴰ arrive limit l all_arrive =
      let per = or_default 50 limit in
      let last = (length xs + per - 1) / per in
      let h = or_default_positive limit in
      let below = div-mul-le_self (length xs + per - 1) per in
      let above = lt-div-mul-add {a = length xs + per - 1} {b = per} h in
      (
        part (0 * per) per xs ++ behind_first arrive per last,
        get_servers-parts arrive per last limit refl h l all_arrive refl (omega (arith, below, l)),
        Permᴰ-behind_first arrive per last all_arrive (omega (arith, above, h)),
      )
