-- ===== src/Rate/Window.antt =====
-- How many calls the limiter of daemon/system/rate.go lets through.
use sls.Shared.{
  ℕ, ◌+◌, ◌-◌, ◌*◌, ◌^◌, ◌%◌, ◌≤◌, ◌<◌, ◌≡◌, refl, sym, ap, subst, ◌∙◌, inl, inr, Bool, true, false,
  List, [], ◌∷◌, if◌then◌else◌, All, All-mono, arith, Bool-cases, ltb,
}
use sls.Rate.{Rate, renew, count_hit, try}

-- The number of successful calls of Try at the given times, in their order.
unfoldable pub granted : Rate → List ℕ → ℕ
unfolding try
granted r [] = 0
granted r (t ∷ ts) = (if (try r t).1 then 1 else 0) + granted (try r t).0 ts

-- A limit that leaves room for the count of one more.
abbrev pub IsValid : Rate → Type 0
IsValid r = (r.count ≤ r.limit) × (r.limit < 2 ^ 64 - 1)

abbrev pub hits : Bool → ℕ
hits true = 1
hits false = 0

count_hit_lem :
    (r : Rate)
    → IsValid r
    → IsValid (count_hit r).0
      × ((count_hit r).0.count ≡ r.count + hits (count_hit r).1)
      × ((count_hit r).0.limit ≡ r.limit)
      × ((count_hit r).0.duration ≡ r.duration)
      × ((count_hit r).0.last ≡ r.last)
unfolding count_hit
count_hit_lem r v = elim (Bool-cases (ltb r.limit ((r.count + 1) % 2 ^ 64))) [
  | inl full ↦ rw full (v, omega arith, refl, refl, refl)
  | inr room ↦
      rw room ((ground (arith, v, room), ground (arith, v)), ground (arith, v), refl, refl, refl)
]

-- The time lies in the current window.
abbrev pub InWindow : Rate → ℕ → Type 0
InWindow r t = t ≤ r.last + r.duration

renew_within : (r : Rate) (t : ℕ) → InWindow r t → renew r t ≡ r
unfolding renew
renew_within r t h =
    let in_time : ltb r.duration (t - r.last) ≡ false = ground (arith, h) in rw in_time refl

try_within : (r : Rate) (t : ℕ) → InWindow r t → try r t ≡ count_hit r
unfolding try
try_within r t h = ap count_hit (renew_within r t h)

-- A call that leaves the window as it is, before others.
granted_cons :
    (r : Rate) (t : ℕ) (ts : List ℕ)
    → try r t ≡ count_hit r
    → granted r (t ∷ ts) ≡ hits (count_hit r).1 + granted (count_hit r).0 ts
unfolding granted
granted_cons r t ts h =
    ap (λ (x : Rate × Bool). (if x.1 then 1 else 0) + granted x.0 ts) h ∙ go (count_hit r).1
  where
    go :
        (b : Bool)
        → (if b then 1 else 0) + granted (count_hit r).0 ts ≡ hits b + granted (count_hit r).0 ts
    go true = refl
    go false = refl

InWindow-count_hit : (r : Rate) (t : ℕ) → IsValid r → InWindow r t → InWindow (count_hit r).0 t
InWindow-count_hit r t v h =
    let (_, _, _, same_duration, same_last) = count_hit_lem r v in
    ground (arith, same_duration, same_last, h)

-- In one window, no more calls succeed than the limit leaves.
pub granted-window :
    (r : Rate) (ts : List ℕ) → IsValid r → All (InWindow r) ts → granted r ts + r.count ≤ r.limit
granted-window r [] v h = unfold granted in ground (arith, v)
granted-window r (t ∷ ts) v (h, hs) =
    let (valid, more, same_limit, _, _) = count_hit_lem r v in
    ground (
      arith,
      granted_cons r t ts (try_within r t h),
      granted-window (count_hit r).0 ts valid (All-mono ts (λ u. InWindow-count_hit r u v) hs),
      more,
      same_limit,
    )

-- A time that lies in an interval of the length of the duration.
abbrev pub Between : ℕ → ℕ → ℕ → Type 0
Between a d t = (a ≤ t) × (t ≤ a + d)

renew_over :
    (r : Rate) (t : ℕ)
    → ltb r.duration (t - r.last) ≡ true
    → renew r t ≡ record r { count = 0; last = t }
unfolding renew
renew_over r t h = rw h refl

renew_in_time : (r : Rate) (t : ℕ) → ltb r.duration (t - r.last) ≡ false → renew r t ≡ r
unfolding renew
renew_in_time r t h = rw h refl

granted_same :
    (r q : Rate) (t : ℕ) (ts : List ℕ) → try r t ≡ try q t → granted r (t ∷ ts) ≡ granted q (t ∷ ts)
unfolding granted
granted_same r q t ts h = ap (λ (x : Rate × Bool). (if x.1 then 1 else 0) + granted x.0 ts) h

-- A window that begins with a call, and the calls after it.
granted-renewed :
    (r : Rate) (t : ℕ) (ts : List ℕ) (a : ℕ)
    → IsValid r
    → ltb r.duration (t - r.last) ≡ true
    → a ≤ t
    → All (Between a r.duration) ts
    → granted r (t ∷ ts) ≤ r.limit
unfolding try
granted-renewed r t ts a v over begun hs = ground (
  arith,
  granted_same r q t ts (ap count_hit (renew_over r t over) ∙ sym (try_within q t (omega arith))),
  granted-window q (t ∷ ts) (omega arith, v.1)
      (omega arith, All-mono ts (λ u b. within u b.0 b.1) hs),
)
  where
    q : Rate
    q = record r { count = 0; last = t }

    within : (u : ℕ) → a ≤ u → u ≤ a + r.duration → u ≤ t + r.duration
    within u lo hi = omega (arith, hi, begun)

granted-from :
    (r : Rate) (ts : List ℕ) (a : ℕ)
    → IsValid r
    → All (Between a r.duration) ts
    → granted r ts + r.count ≤ 2 * r.limit
granted-from r [] a v h = unfold granted in ground (arith, v)
granted-from r (t ∷ ts) a v (h, hs) = elim (Bool-cases (ltb r.duration (t - r.last))) [
  | inl over ↦ ground (arith, granted-renewed r t ts a v over h.0 hs, v)
  | inr in_time ↦
      let (valid, more, same_limit, same_duration, _) = count_hit_lem r v in
      ground (
        arith,
        granted_cons r t ts (unfold try in ap count_hit (renew_in_time r t in_time)),
        granted-from (count_hit r).0 ts a valid
            (subst (λ d. All (Between a d) ts) (sym same_duration) hs),
        more,
        same_limit,
      )
]

-- Of any calls within an interval as long as the duration, wherever it begins and in whatever order
-- the clock gives their times, no more than twice the limit succeed.
pub granted-interval :
    (r : Rate) (ts : List ℕ) (a : ℕ)
    → IsValid r
    → All (Between a r.duration) ts
    → granted r ts ≤ 2 * r.limit
granted-interval r ts a v h = ground (arith, granted-from r ts a v h)
