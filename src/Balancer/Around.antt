-- ===== src/Balancer/Around.antt =====
-- Going round a slice from an index, against the slice cut at the index.
use sls.Shared.{
  ℕ, zero, suc, ◌+◌, ◌%◌, ◌<◌, ◌≡◌, refl, sym, ap, ◌∙◌, subst, none, some, List, [], ◌∷◌, ◌++◌,
  append_assoc, arith, length, get_elem?, take, drop, length-append, length-take, take-append-drop,
  drop_cons, get_elem?-append_length,
}
use native.Mathlib.Nat.{mod-eq_of_lt, mod_self}

-- `k` elements from position `i` on, round the end.
unfoldable pub around {ℓ} : {A : Type ℓ} → ℕ → ℕ → List A → List A
around zero i xs = []
around (suc k) i xs = elim (get_elem? xs i) [
  | none ↦ []
  | some x ↦ x ∷ around k ((i + 1) % length xs) xs
]

module _ {ℓ} {A : Type ℓ} where
  pub around_step :
      (k i : ℕ) (xs : List A) {x : A}
      → get_elem? xs i ≡ some x
      → around (suc k) i xs ≡ x ∷ around k ((i + 1) % length xs) xs
  unfolding around
  around_step k i xs h = rw (h, around)

  next_index :
      (pre : List A) (x y : A) (post : List A)
      → (length pre + 1) % length (pre ++ x ∷ y ∷ post) ≡ length (pre ++ x ∷ [])
  next_index pre x y post =
      let fits : length pre + 1 < length (pre ++ x ∷ y ∷ post) =
        omega (arith, length-append pre (x ∷ y ∷ post)) in
      mod-eq_of_lt fits ∙ sym (length-append pre (x ∷ []))

  -- One step inside the list: the element behind `pre`, and the next index behind that.
  around_next :
      (k : ℕ) (pre : List A) (x y : A) (post : List A)
      → around (suc k) (length pre) (pre ++ x ∷ y ∷ post)
        ≡ x ∷ around k (length (pre ++ x ∷ [])) ((pre ++ x ∷ []) ++ y ∷ post)
  around_next k pre x y post =
      around_step k (length pre) (pre ++ x ∷ y ∷ post) (get_elem?-append_length pre (y ∷ post) x)
      ∙ rw (next_index pre x y post, append_assoc pre (x ∷ []) (y ∷ post)) refl

  around_mid :
      (pre mid post : List A) → around (length mid) (length pre) (pre ++ (mid ++ post)) ≡ mid
  around_mid pre [] post = unfold around in refl
  around_mid pre (x ∷ []) post =
      around_step 0 (length pre) (pre ++ x ∷ post) (get_elem?-append_length pre post x)
      ∙ unfold around in refl
  around_mid pre (x ∷ y ∷ mid) post =
      around_next (length (y ∷ mid)) pre x y (mid ++ post)
      ∙ ap (◌∷◌ x) (around_mid (pre ++ x ∷ []) (y ∷ mid) post)

  around_wrap :
      (pre : List A) (x : A) (post : List A) (m : ℕ)
      → around (length (x ∷ post) + m) (length pre) (pre ++ x ∷ post)
        ≡ x ∷ (post ++ around m 0 (pre ++ x ∷ post))
  around_wrap pre x [] m =
      let size : length (pre ++ x ∷ []) ≡ length pre + 1 = length-append pre (x ∷ []) in
      let one : 1 + m ≡ suc m = omega arith in
      let home : (length pre + 1) % length (pre ++ x ∷ []) ≡ 0 = rw size (mod_self _) in
      rw one (
        around_step m (length pre) (pre ++ x ∷ []) (get_elem?-append_length pre [] x)
        ∙ rw home refl)
  around_wrap pre x (y ∷ post) m =
      let more : length (x ∷ y ∷ post) + m ≡ suc (length (y ∷ post) + m) = omega arith in
      rw more (
        around_next (length (y ∷ post) + m) pre x y post
        ∙ ap (◌∷◌ x)
            (around_wrap (pre ++ x ∷ []) y post m ∙ rw (append_assoc pre (x ∷ []) (y ∷ post)) refl))

-- The nodes from the current index on and round to it.
abbrev pub rotation {ℓ} : {A : Type ℓ} → ℕ → List A → List A
rotation i xs = drop i xs ++ take i xs

module _ {ℓ} {A : Type ℓ} where
  around-parts :
      (i : ℕ) (pre : List A) (x : A) (post : List A)
      → length pre ≡ i
      → around (length (pre ++ x ∷ post)) i (pre ++ x ∷ post) ≡ (x ∷ post) ++ pre
  around-parts i pre x post at =
      let size : length (pre ++ x ∷ post) ≡ length (x ∷ post) + length pre =
        omega (arith, length-append pre (x ∷ post)) in
      rw (size, ← at)
        (around_wrap pre x post (length pre)
          ∙ ap (λ ys. x ∷ (post ++ ys)) (around_mid [] pre (x ∷ post)))

  pub around-rotation :
      (i : ℕ) (xs : List A) → i < length xs → around (length xs) i xs ≡ rotation i xs
  around-rotation i xs h =
      let (x, post, cut) = drop_cons i xs h in
      let whole : take i xs ++ x ∷ post ≡ xs = rw (← cut) (take-append-drop i xs) in
      let size : length (take i xs) ≡ i = omega (arith, length-take i xs) in
      rw cut (
        subst (λ ys. around (length ys) i ys ≡ (x ∷ post) ++ take i xs) whole
          (around-parts i (take i xs) x post size))
