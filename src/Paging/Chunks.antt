-- ===== src/Paging/Chunks.antt =====
-- The parts of a list that the pages have are the list, in whatever order they come up to a permutation.
use mathlib.Core.List.Permᴰ
use mathlib.Core.List.{Permᴰ}
use sls.Shared.{
  ℕ, zero, suc, ◌+◌, ◌-◌, ◌*◌, ◌≡◌, refl, sym, ap, ◌∙◌, List, [], ◌∷◌, ◌++◌, append_assoc,
  append-nil, arith, take, drop,
}
use sls.Paging.{pages_from}
use sls.Paging.Bounds.{part}

zero_add : (b : ℕ) → 0 + b ≡ b
zero_add b = omega arith

suc_add : (a b : ℕ) → suc a + b ≡ suc (a + b)
suc_add a b = omega arith

pred_suc : (a : ℕ) → suc a - 1 ≡ a
pred_suc a = omega arith

module _ {A : Type 0} where
  -- The parts of some pages, one behind the other.
  abbrev pub parts : ℕ → List A → List ℕ → List A
  parts per xs [] = []
  parts per xs (page ∷ pages) = part ((page - 1) * per) per xs ++ parts per xs pages

  abbrev empty : List A
  empty = []

  take_nil : (n : ℕ) → take n empty ≡ []
  take_nil zero = refl
  take_nil (suc n) = refl

  take_more : (a b : ℕ) (xs : List A) → take (a + b) xs ≡ take a xs ++ take b (drop a xs)
  take_more zero b xs = ap (λ n. take n xs) (zero_add b)
  take_more (suc a) b [] = take_nil (suc a + b) ∙ sym (take_nil b)
  take_more (suc a) b (x ∷ xs) =
      ap (λ n. take n (x ∷ xs)) (suc_add a b) ∙ ap (◌∷◌ x) (take_more a b xs)

  -- The pages from one on complete those before it.
  pub parts-pages_from :
      (per : ℕ) (xs : List A) (a n : ℕ)
      → take (a * per) xs ++ parts per xs (pages_from (suc a) n) ≡ take ((a + n) * per) xs
  unfolding pages_from
  parts-pages_from per xs a zero =
      append-nil (take (a * per) xs) ∙ ap (λ k. take (k * per) xs) (omega arith)
  parts-pages_from per xs a (suc n) =
      ap
        (λ k.
          take (a * per) xs ++ (part (k * per) per xs ++ parts per xs (pages_from (suc (suc a)) n)))
        (pred_suc a)
      ∙ sym (
          append_assoc (take (a * per) xs) (part (a * per) per xs)
            (parts per xs (pages_from (suc (suc a)) n)))
      ∙ ap (λ ys. ys ++ parts per xs (pages_from (suc (suc a)) n))
          (sym (take_more (a * per) per xs) ∙ ap (λ k. take k xs) (next a))
      ∙ parts-pages_from per xs (suc a) n
      ∙ ap (λ k. take (k * per) xs) (omega arith)
    where
      next : (a : ℕ) → a * per + per ≡ suc a * per
      next a = ground arith

  Permᴰ-swap : (ys zs rest : List A) → Permᴰ (ys ++ (zs ++ rest)) (zs ++ (ys ++ rest))
  Permᴰ-swap ys zs rest =
      rw (sym (append_assoc ys zs rest), sym (append_assoc zs ys rest))
        (Permᴰ.append_right rest (Permᴰ.append_comm ys zs))

  pub Permᴰ-parts :
      (per : ℕ) (xs : List A) {ps qs : List ℕ}
      → Permᴰ ps qs
      → Permᴰ (parts per xs ps) (parts per xs qs)
  Permᴰ-parts per xs Permᴰ.nil = Permᴰ.nil
  Permᴰ-parts per xs (Permᴰ.cons {b = b} e p) =
      rw e (Permᴰ.append_left (part ((b - 1) * per) per xs) (Permᴰ-parts per xs p))
  Permᴰ-parts per xs (Permᴰ.swap {a' = a'} {b' = b'} {l = l} e f) =
      rw (e, f)
        (Permᴰ-swap (part ((b' - 1) * per) per xs) (part ((a' - 1) * per) per xs) (parts per xs l))
  Permᴰ-parts per xs (Permᴰ.trans p q) = Permᴰ.trans (Permᴰ-parts per xs p) (Permᴰ-parts per xs q)
