-- ===== src/Paging/Bounds.antt =====
-- One page of getAllServerConfigurations in protocube/api/router/router_node.go.
use native.Mathlib.Nat.{div-eq_of_lt}
use sls.Shared.{
  ℕ, zero, suc, ◌+◌, ◌-◌, ◌*◌, ◌/◌, ◌^◌, min, ◌≤◌, ◌<◌, ◌≡◌, refl, sym, ap, ◌∙◌, Bool, true, false,
  ltb, leb, some, List, [], ◌∷◌, if◌then◌else◌, arith, length, take, drop, length-drop, Bool-cases,
  inl, inr,
}
use sls.Shared.Int.{ℤ, pos, negsuc, ◌+ℤ◌, int64}
use sls.Paging.{
  start_of, end_of, at_most, total_pages, from_of, to_of, to_uint, Page, paged, page_answer,
  page_at,
}

pub int64-pos : (n : ℕ) → n < 2 ^ 63 → int64 (pos n) ≡ pos n
unfolding int64
int64-pos n h = ground arith

at_most-pos : (n i : ℕ) → at_most n (pos i) ≡ pos (min n i)
at_most-pos n i = ground arith

add_pos : (a b : ℕ) → pos a +ℤ pos b ≡ pos (a + b)
unfolding ◌+ℤ◌
add_pos a b = ground arith

pred_pos : (n : ℕ) → 0 < n → pos n +ℤ negsuc 0 ≡ pos (n - 1)
unfolding ◌+ℤ◌
pred_pos n h = ground (arith, h)

last_page_lem :
    (per n : ℕ) → 0 < per → n + per < 2 ^ 63 → to_uint (total_pages per n) ≡ (n + per - 1) / per
last_page_lem per n h k = elim (Bool-cases (ltb 0 n)) [
  | inl some_items ↦
      let e : int64 (int64 (pos (n + per)) +ℤ negsuc 0) ≡ pos (n + per - 1) =
        ap (λ i. int64 (i +ℤ negsuc 0)) (int64-pos (n + per) k)
        ∙ ap int64 (pred_pos (n + per) (omega (arith, h)))
        ∙ int64-pos (n + per - 1) (omega (arith, k)) in
      let t : ltb 0 per ≡ true = ground (arith, h) in rw (t, some_items, e, if◌then◌else◌) refl
  | inr no_items ↦
      let t : ltb 0 per ≡ true = ground (arith, h) in
      rw (t, no_items, if◌then◌else◌) (sym (div-eq_of_lt (ground (arith, h, no_items))))
]

module _ {A : Type 0} where
  pub take-cap : (n : ℕ) (xs : List A) → length xs ≤ n → take n xs ≡ xs
  take-cap zero [] h = refl
  take-cap zero (x ∷ xs) h = absurd (omega arith)
  take-cap (suc n) [] h = refl
  take-cap (suc n) (x ∷ xs) h = ap (◌∷◌ x) (take-cap n xs (omega arith))

  pub drop-cap : (n : ℕ) (xs : List A) → length xs ≤ n → drop n xs ≡ []
  drop-cap zero [] h = refl
  drop-cap zero (x ∷ xs) h = absurd (omega arith)
  drop-cap (suc n) [] h = refl
  drop-cap (suc n) (x ∷ xs) h = drop-cap n xs (omega arith)

  -- The part of the items that belongs to a page.
  abbrev pub part : ℕ → ℕ → List A → List A
  part start per_page xs = take per_page (drop start xs)

  take_empty : (n : ℕ) (xs : List A) → xs ≡ [] → take n xs ≡ []
  take_empty zero xs e = refl
  take_empty (suc n) [] e = refl
  take_empty (suc n) (x ∷ xs) e = cc

  take_up_to :
      (s per : ℕ) (xs : List A)
      → s < length xs
      → take (min (length xs) (s + per) - s) (drop s xs) ≡ part s per xs
  take_up_to s per xs h = elim (Bool-cases (leb (s + per) (length xs))) [
    | inl fits ↦
        let e : min (length xs) (s + per) - s ≡ per = ground (arith, fits) in
        ap (λ k. take k (drop s xs)) e
    | inr over ↦
        take-cap (min (length xs) (s + per) - s) (drop s xs)
          (ground (arith, over, length-drop s xs))
        ∙ sym (take-cap per (drop s xs) (ground (arith, over, length-drop s xs)))
  ]

  paged-pos :
      (a b : ℕ) (xs : List A)
      → a < length xs
      → a ≤ b
      → b ≤ length xs
      → paged (pos a) (pos b) xs ≡ some (take (b - a) (drop a xs))
  paged-pos a b xs h k l = ground (arith, h, k, l)

  paged-part :
      (s per : ℕ) (xs : List A)
      → paged (at_most (length xs) (pos s)) (at_most (length xs) (pos (s + per))) xs
        ≡ some (part s per xs)
  paged-part s per xs =
      ap (λ i. paged i (at_most (length xs) (pos (s + per))) xs) (at_most-pos (length xs) s)
      ∙ ap (λ i. paged (pos (min (length xs) s)) i xs) (at_most-pos (length xs) (s + per))
      ∙ by_start (ltb s (length xs)) refl
    where
      by_start :
          (b : Bool)
          → ltb s (length xs) ≡ b
          → paged (pos (min (length xs) s)) (pos (min (length xs) (s + per))) xs
            ≡ some (part s per xs)
      by_start true e =
          let start : min (length xs) s ≡ s = ground (arith, e) in
          ap (λ a. paged (pos a) (pos (min (length xs) (s + per))) xs) start
          ∙ paged-pos s (min (length xs) (s + per)) xs (ground (arith, e)) (ground (arith, e))
              (omega arith)
          ∙ ap some (take_up_to s per xs (ground (arith, e)))
      by_start false e =
          let start : min (length xs) s ≡ length xs = ground (arith, e) in
          ap (λ a. paged (pos a) (pos (min (length xs) (s + per))) xs) start
          ∙ ground (arith, drop-cap s xs (ground (arith, e)), take_empty per (drop s xs))

  -- A page that starts and ends at an int has the items that belong to it, and the number of pages is
  -- that of pages of the size that hold all items.
  pub record IsPage (page per : ℕ) (xs : List A) (p : Page A) : Type 0 where
    pub items : p.items ≡ part ((page - 1) * per) per xs
    pub current_page : p.current_page ≡ page
    pub per_page : p.per_page ≡ per
    pub total : p.total ≡ length xs
    pub last_page : p.last_page ≡ (length xs + per - 1) / per

  pub page_at-IsPage :
      (page per : ℕ) (xs : List A)
      → 0 < per
      → (page - 1) * per + per < 2 ^ 63
      → length xs + per < 2 ^ 63
      → (p : Page A) × (page_at page per xs ≡ some p) × IsPage page per xs p
  page_at-IsPage page per xs h k l =
      let s = (page - 1) * per in
      let start : start_of page per ≡ pos s = int64-pos s (omega (arith, k)) in
      let end : end_of page per ≡ pos (s + per) =
        ap (λ i. int64 (i +ℤ pos per)) start ∙ ap int64 (add_pos s per) ∙ int64-pos (s + per) k in
      (
        record {
          items = part s per xs;
          current_page = page;
          from = from_of (length xs) (at_most (length xs) (start_of page per));
          last_page = to_uint (total_pages per (length xs));
          per_page = per;
          to = to_of (length xs) (at_most (length xs) (end_of page per));
          total = length xs;
        },
        ap
            (page_answer page per (at_most (length xs) (start_of page per))
              (at_most (length xs) (end_of page per)) (length xs))
            (ap2 start end ∙ paged-part s per xs),
        record {
          items = refl;
          current_page = refl;
          per_page = refl;
          total = refl;
          last_page = last_page_lem per (length xs) h l;
        },
      )
    where
      ap2 :
          {i j k l : ℤ}
          → i ≡ k
          → j ≡ l
          → paged (at_most (length xs) i) (at_most (length xs) j) xs
            ≡ paged (at_most (length xs) k) (at_most (length xs) l) xs
      ap2 e f = rw (e, f)
