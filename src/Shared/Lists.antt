-- ===== src/Shared/Lists.antt =====
-- Lists measured and indexed by native numbers, under the library's names; Go slices.
use Prim.Native.Nat.{ℕ, zero, suc, ◌+◌, ◌-◌, ◌<◌, min}
use mathlib.Core.Path.{◌≡◌, refl, ap, subst}
use mathlib.Core.Logic.{◌≢◌, ◌⊎◌, inl, inr}
use mathlib.Core.List.{List, [], ◌∷◌, ◌++◌, reverse_aux}
use mathlib.Core.Option.{Option, none, some}
use native.Mathlib.Omega.{arith}

module _ {ℓ} {A : Type ℓ} where
  abbrev pub length : List A → ℕ
  length [] = 0
  length (x ∷ xs) = suc (length xs)

  abbrev pub get_elem? : List A → ℕ → Option A
  get_elem? [] i = none
  get_elem? (x ∷ xs) zero = some x
  get_elem? (x ∷ xs) (suc i) = get_elem? xs i

  -- A write out of bounds changes nothing.
  abbrev pub set : List A → ℕ → A → List A
  set [] i v = []
  set (x ∷ xs) zero v = v ∷ xs
  set (x ∷ xs) (suc i) v = x ∷ set xs i v

  abbrev pub take : ℕ → List A → List A
  take zero xs = []
  take (suc n) [] = []
  take (suc n) (x ∷ xs) = x ∷ take n xs

  abbrev pub drop : ℕ → List A → List A
  drop zero xs = xs
  drop (suc n) [] = []
  drop (suc n) (x ∷ xs) = drop n xs

  -- A property of all elements, by recursion.
  abbrev pub All {κ} : (A → Type κ) → List A → Type κ
  All P [] = Unit
  All P (x ∷ xs) = P x × All P xs

module _ {ℓ} {A : Type ℓ} where
  pub length-append : (xs ys : List A) → length (xs ++ ys) ≡ length xs + length ys
  length-append [] ys = omega arith
  length-append (x ∷ xs) ys = omega (arith, length-append xs ys)

  pub length-set : (xs : List A) (i : ℕ) (v : A) → length (set xs i v) ≡ length xs
  length-set [] i v = refl
  length-set (x ∷ xs) zero v = refl
  length-set (x ∷ xs) (suc i) v = ap suc (length-set xs i v)

  pub length-take : (n : ℕ) (xs : List A) → length (take n xs) ≡ min n (length xs)
  length-take zero xs = omega arith
  length-take (suc n) [] = omega arith
  length-take (suc n) (x ∷ xs) = omega (arith, length-take n xs)

  pub length-drop : (n : ℕ) (xs : List A) → length (drop n xs) ≡ length xs - n
  length-drop zero xs = omega arith
  length-drop (suc n) [] = omega arith
  length-drop (suc n) (x ∷ xs) = omega (arith, length-drop n xs)

  pub get_elem?-some_lt : (xs : List A) (i : ℕ) {a : A} → get_elem? xs i ≡ some a → i < length xs
  get_elem?-some_lt [] i h = absurd (none≢some h)
    where
      none≢some : {a : A} → none ≡ some a → ⊥
      none≢some e = cc
  get_elem?-some_lt (x ∷ xs) zero h = omega arith
  get_elem?-some_lt (x ∷ xs) (suc i) h = omega (arith, get_elem?-some_lt xs i h)

  pub get_elem?-lt_some :
      (xs : List A) (i : ℕ) → i < length xs → (a : A) × (get_elem? xs i ≡ some a)
  get_elem?-lt_some [] i h = elim h [ ]
  get_elem?-lt_some (x ∷ xs) zero h = (x, refl)
  get_elem?-lt_some (x ∷ xs) (suc i) h = get_elem?-lt_some xs i (omega arith)

  pub get_elem?-set_self :
      (xs : List A) (i : ℕ) (v : A) → i < length xs → get_elem? (set xs i v) i ≡ some v
  get_elem?-set_self [] i v h = elim h [ ]
  get_elem?-set_self (x ∷ xs) zero v h = refl
  get_elem?-set_self (x ∷ xs) (suc i) v h = get_elem?-set_self xs i v (omega arith)

  pub get_elem?-set_ne :
      (xs : List A) (i j : ℕ) (v : A) → i ≢ j → get_elem? (set xs i v) j ≡ get_elem? xs j
  get_elem?-set_ne [] i j v h = refl
  get_elem?-set_ne (x ∷ xs) zero zero v h = absurd (h refl)
  get_elem?-set_ne (x ∷ xs) zero (suc j) v h = refl
  get_elem?-set_ne (x ∷ xs) (suc i) zero v h = refl
  get_elem?-set_ne (x ∷ xs) (suc i) (suc j) v h = get_elem?-set_ne xs i j v (λ e. h (ap suc e))

  pub get_elem?-take :
      (n : ℕ) (xs : List A) (i : ℕ) → i < n → get_elem? (take n xs) i ≡ get_elem? xs i
  get_elem?-take zero xs i h = elim h [ ]
  get_elem?-take (suc n) [] i h = refl
  get_elem?-take (suc n) (x ∷ xs) zero h = refl
  get_elem?-take (suc n) (x ∷ xs) (suc i) h = get_elem?-take n xs i (omega arith)

  pub get_elem?-append_left :
      (xs ys : List A) (i : ℕ) → i < length xs → get_elem? (xs ++ ys) i ≡ get_elem? xs i
  get_elem?-append_left [] ys i h = elim h [ ]
  get_elem?-append_left (x ∷ xs) ys zero h = refl
  get_elem?-append_left (x ∷ xs) ys (suc i) h = get_elem?-append_left xs ys i (omega arith)

  pub get_elem?-append_length :
      (xs ys : List A) (y : A) → get_elem? (xs ++ y ∷ ys) (length xs) ≡ some y
  get_elem?-append_length [] ys y = refl
  get_elem?-append_length (x ∷ xs) ys y = get_elem?-append_length xs ys y

-- Membership, by recursion.
module _ {A : Type 0} where
  abbrev pub Among : A → List A → Type 0
  Among a [] = ⊥
  Among a (x ∷ xs) = (a ≡ x) ⊎ Among a xs

  pub Among-get_elem? : (xs : List A) (i : ℕ) {a : A} → get_elem? xs i ≡ some a → Among a xs
  Among-get_elem? [] i h = cc
  Among-get_elem? (x ∷ xs) zero h = inl (cc)
  Among-get_elem? (x ∷ xs) (suc i) h = inr (Among-get_elem? xs i h)

-- What a read of an appended, written or cut slice says of the slice.
module _ {ℓ} {A : Type ℓ} where
  pub get_elem?-append_inv :
      (xs : List A) (y : A) (i : ℕ) {a : A}
      → get_elem? (xs ++ y ∷ []) i ≡ some a
      → (get_elem? xs i ≡ some a) ⊎ (i ≡ length xs) × (y ≡ a)
  get_elem?-append_inv [] y zero h = inr (refl, cc)
  get_elem?-append_inv [] y (suc i) h = cc
  get_elem?-append_inv (x ∷ xs) y zero h = inl h
  get_elem?-append_inv (x ∷ xs) y (suc i) h = elim (get_elem?-append_inv xs y i h) [
    | inl old ↦ inl old
    | inr (at, e) ↦ inr (ap suc at, e)
  ]

  pub get_elem?-set_inv :
      (xs : List A) (i j : ℕ) (v : A) {a : A}
      → get_elem? (set xs i v) j ≡ some a
      → (i ≡ j) × (v ≡ a) ⊎ (i ≢ j) × (get_elem? xs j ≡ some a)
  get_elem?-set_inv [] i j v h = cc
  get_elem?-set_inv (x ∷ xs) zero zero v h = inl (refl, cc)
  get_elem?-set_inv (x ∷ xs) zero (suc j) v h = inr ((λ e. omega arith), h)
  get_elem?-set_inv (x ∷ xs) (suc i) zero v h = inr ((λ e. omega arith), h)
  get_elem?-set_inv (x ∷ xs) (suc i) (suc j) v h = elim (get_elem?-set_inv xs i j v h) [
    | inl (at, e) ↦ inl (ap suc at, e)
    | inr (off, e) ↦ inr ((λ (p : suc i ≡ suc j). off (omega arith)), e)
  ]

  pub get_elem?-take_inv :
      (n : ℕ) (xs : List A) (i : ℕ) {a : A}
      → get_elem? (take n xs) i ≡ some a
      → (i < n) × (get_elem? xs i ≡ some a)
  get_elem?-take_inv zero xs i h = cc
  get_elem?-take_inv (suc n) [] i h = cc
  get_elem?-take_inv (suc n) (x ∷ xs) zero h = (omega arith, h)
  get_elem?-take_inv (suc n) (x ∷ xs) (suc i) h =
      let (lt, e) = get_elem?-take_inv n xs i h in (omega arith, e)

  pub take-append-drop : (n : ℕ) (xs : List A) → take n xs ++ drop n xs ≡ xs
  take-append-drop zero xs = refl
  take-append-drop (suc n) [] = refl
  take-append-drop (suc n) (x ∷ xs) = rw (take-append-drop n xs)

  pub drop_cons :
      (n : ℕ) (xs : List A) → n < length xs → (x : A) × (rest : List A) × (drop n xs ≡ x ∷ rest)
  drop_cons n [] h = elim h [ ]
  drop_cons zero (x ∷ xs) h = (x, xs, refl)
  drop_cons (suc n) (x ∷ xs) h = drop_cons n xs (omega arith)

module _ {ℓ κ} {A : Type ℓ} (P : A → Type κ) where
  pub All-append : (xs ys : List A) → All P xs → All P ys → All P (xs ++ ys)
  All-append [] ys hx hy = hy
  All-append (x ∷ xs) ys (h, hx) hy = (h, All-append xs ys hx hy)

  pub All-reverse_aux : (xs acc : List A) → All P xs → All P acc → All P (reverse_aux xs acc)
  All-reverse_aux [] acc h a = a
  All-reverse_aux (x ∷ xs) acc (h, hs) a = All-reverse_aux xs (x ∷ acc) hs (h, a)

  pub All-append_inv : (xs ys : List A) → All P (xs ++ ys) → All P xs × All P ys
  All-append_inv [] ys h = (tt, h)
  All-append_inv (x ∷ xs) ys (h, rest) = let (hx, hy) = All-append_inv xs ys rest in ((h, hx), hy)

  pub All-get_elem? : (xs : List A) (i : ℕ) {a : A} → get_elem? xs i ≡ some a → All P xs → P a
  All-get_elem? [] i h all = cc
  All-get_elem? (x ∷ xs) zero {a} h (p, all) = let e : x ≡ a = cc in subst P e p
  All-get_elem? (x ∷ xs) (suc i) h (p, all) = All-get_elem? xs i h all

module _ {ℓ κ ι} {A : Type ℓ} {P : A → Type κ} {Q : A → Type ι} where
  pub All-mono : (xs : List A) → ((a : A) → P a → Q a) → All P xs → All Q xs
  All-mono [] f h = tt
  All-mono (x ∷ xs) f (h, hs) = (f x h, All-mono xs f hs)

module _ {A : Type 0} where
  -- No element stands twice.
  abbrev pub Distinct : List A → Type 0
  Distinct [] = Unit
  Distinct (x ∷ xs) = All (λ y. x ≢ y) xs × Distinct xs

module _ {ℓ κ ι ν} {A : Type ℓ} {P : A → Type κ} {Q : A → Type ι} {R : A → Type ν} where
  pub All-zip : (xs : List A) → ((a : A) → P a → Q a → R a) → All P xs → All Q xs → All R xs
  All-zip [] f h g = tt
  All-zip (x ∷ xs) f (h, hs) (g, gs) = (f x h g, All-zip xs f hs gs)
