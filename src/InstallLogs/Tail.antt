-- ===== src/InstallLogs/Tail.antt =====
-- The last lines of a list, and what readTailLines of daemon/server/install_state.go keeps of a file.
use sls.Shared.{
  ℕ, zero, suc, ◌+◌, ◌-◌, ◌≤◌, ◌<◌, ltb, ◌==◌, ◌≡◌, refl, sym, ◌∙◌, ap, inl, inr, List, [], ◌∷◌,
  ◌++◌, append_assoc, append-nil, arith, if◌then◌else◌, length, drop, length-append, length-drop,
  Bool-cases,
}
use sls.Shared.Text.{Text}
use sls.InstallLogs.{cut, scan_tail}

-- The last lines; 0 stands for all of them.
abbrev pub last_lines : ℕ → List Text → List Text
last_lines max lines = if max == 0 then lines else drop (length lines - max) lines

drop-all : (n : ℕ) (xs : List Text) → length xs ≤ n → drop n xs ≡ []
drop-all zero [] h = refl
drop-all zero (x ∷ xs) h = absurd (omega arith)
drop-all (suc n) [] h = refl
drop-all (suc n) (x ∷ xs) h = drop-all n xs (omega arith)

drop-append : (n : ℕ) (xs ys : List Text) → n ≤ length xs → drop n (xs ++ ys) ≡ drop n xs ++ ys
drop-append zero xs ys h = refl
drop-append (suc n) [] ys h = absurd (omega arith)
drop-append (suc n) (x ∷ xs) ys h = drop-append n xs ys (omega arith)

drop-append_past :
    (n : ℕ) (xs ys : List Text) → length xs ≤ n → drop n (xs ++ ys) ≡ drop (n - length xs) ys
drop-append_past n [] ys h = ap (λ k. drop k ys) (omega arith)
drop-append_past zero (x ∷ xs) ys h = absurd (omega arith)
drop-append_past (suc n) (x ∷ xs) ys h =
    drop-append_past n xs ys (omega arith) ∙ ap (λ k. drop k ys) (omega arith)

drop-drop : (m n : ℕ) (xs : List Text) → drop m (drop n xs) ≡ drop (n + m) xs
drop-drop m zero xs = ap (λ k. drop k xs) (omega arith)
drop-drop m (suc n) [] = drop-all m [] (omega arith) ∙ sym (drop-all (suc n + m) [] (omega arith))
drop-drop m (suc n) (x ∷ xs) =
    let e : suc (n + m) ≡ suc n + m = omega arith in drop-drop m n xs ∙ ap (λ k. drop k (x ∷ xs)) e

-- The last n lines.
abbrev pub tail : ℕ → List Text → List Text
tail n xs = drop (length xs - n) xs

-- Cutting before more is appended changes nothing of the tail.
pub tail-before : (n : ℕ) (xs ys : List Text) → tail n (tail n xs ++ ys) ≡ tail n (xs ++ ys)
tail-before n xs ys =
    ap (tail n) (sym (drop-append k xs ys (omega arith)))
    ∙ ap (λ j. drop (j - n) (drop k (xs ++ ys))) (length-drop k (xs ++ ys))
    ∙ drop-drop (length (xs ++ ys) - k - n) k (xs ++ ys)
    ∙ ap (λ j. drop j (xs ++ ys)) (omega (arith, length-append xs ys))
  where
    k : ℕ
    k = length xs - n

-- What stands before enough lines is not in the tail.
tail-append : (n : ℕ) (xs ys : List Text) → n ≤ length ys → tail n (xs ++ ys) ≡ tail n ys
tail-append n xs ys h =
    let past : length xs ≤ length (xs ++ ys) - n = omega (arith, length-append xs ys) in
    let rest : length (xs ++ ys) - n - length xs ≡ length ys - n =
      omega (arith, length-append xs ys) in
    drop-append_past (length (xs ++ ys) - n) xs ys past ∙ ap (λ k. drop k ys) rest

-- Neither does cutting what is appended.
pub tail-after : (n : ℕ) (xs ys : List Text) → tail n (xs ++ tail n ys) ≡ tail n (xs ++ ys)
tail-after n xs ys = elim (Bool-cases (ltb n (length ys))) [
  | inl long ↦
      let size : length (tail n ys) ≡ n = ground (arith, long, length-drop (length ys - n) ys) in
      let whole : length (tail n ys) - n ≡ 0 = omega (arith, size) in
      let enough : n ≤ length ys = ground (arith, long) in
      tail-append n xs (tail n ys) (omega (arith, size))
      ∙ ap (λ k. drop k (tail n ys)) whole
      ∙ sym (tail-append n xs ys enough)
  | inr short ↦
      let none_cut : length ys - n ≡ 0 = ground (arith, short) in
      ap (λ k. tail n (xs ++ drop k ys)) none_cut
]

-- The cut of the loop is the tail, also where there is nothing to cut.
pub cut-tail : (n : ℕ) (lines : List Text) → 0 < n → cut n lines ≡ tail n lines
cut-tail n lines h = elim (Bool-cases (ltb n (length lines))) [
  | inl long ↦ ground (arith, long, h)
  | inr short ↦
      let none_cut : 0 ≡ length lines - n = ground (arith, short) in
      rw (short, cut) (ground arith ∙ ap (λ k. drop k lines) none_cut)
]

length-cut : (n : ℕ) (lines : List Text) → 0 < n → length (cut n lines) ≤ n
length-cut n lines h = rw (cut-tail n lines h) (omega (arith, length-drop (length lines - n) lines))

-- The loop over a file keeps its last lines, behind those that it has.
pub scan_tail-tail :
    (n : ℕ) (lines file : List Text)
    → 0 < n
    → tail n (scan_tail n lines file) ≡ tail n (lines ++ file)
unfolding scan_tail
scan_tail-tail n lines [] h = ap (tail n) (sym (append-nil lines))
scan_tail-tail n lines (l ∷ file) h =
    scan_tail-tail n (cut n (lines ++ l ∷ [])) file h
    ∙ ap (λ t. tail n (t ++ file)) (cut-tail n (lines ++ l ∷ []) h)
    ∙ tail-before n (lines ++ l ∷ []) file
    ∙ ap (tail n) (append_assoc lines (l ∷ []) file)

length-scan_tail :
    (n : ℕ) (lines file : List Text)
    → 0 < n
    → length lines ≤ n
    → length (scan_tail n lines file) ≤ n
unfolding scan_tail
length-scan_tail n lines [] h le = le
length-scan_tail n lines (l ∷ file) h le =
    length-scan_tail n (cut n (lines ++ l ∷ [])) file h (length-cut n (lines ++ l ∷ []) h)

scan_tail-all : (lines file : List Text) → scan_tail 0 lines file ≡ lines ++ file
unfolding scan_tail
scan_tail-all lines [] = sym (append-nil lines)
scan_tail-all lines (l ∷ file) =
    scan_tail-all (lines ++ l ∷ []) file ∙ append_assoc lines (l ∷ []) file

-- The loop is the tail of the file, or the file.
pub scan_tail-last_lines :
    (max : ℕ) (file : List Text) → scan_tail max [] file ≡ last_lines max file
scan_tail-last_lines zero file = scan_tail-all [] file
scan_tail-last_lines (suc n) file =
    let short = length-scan_tail (suc n) [] file (omega arith) (omega arith) in
    let none_cut : 0 ≡ length (scan_tail (suc n) [] file) - suc n = omega (arith, short) in
    ap (λ k. drop k (scan_tail (suc n) [] file)) none_cut
    ∙ scan_tail-tail (suc n) [] file (omega arith)
    ∙ ground arith
