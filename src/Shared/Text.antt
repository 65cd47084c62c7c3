-- ===== src/Shared/Text.antt =====
-- Text as its code points, and what the source uses of the packages strings, strconv and unicode.
pub mod Joined
pub mod Affixes
use Prim.Native.Nat.{ℕ, ◌+◌, ◌-◌, ◌*◌, ◌^◌, ◌≤◌}
use Prim.Native.Char.{code}
use Prim.Native.String.{String}
use mathlib.Core.Bool.{Bool, true, false, ◌&&◌, ◌||◌}
use mathlib.Core.List.{List, [], ◌∷◌, ◌++◌, reverse, append-nil, append_assoc}
use mathlib.Core.Option.{Option, none, some}
use sls.Shared.Tests.{ltb, leb, ◌==◌, if◌then◌else◌, ==_iff}
use sls.Shared.Lists.{All}
use mathlib.Core.Path.{◌≡◌, refl, sym, ap, ◌∙◌}
use native.Mathlib.Omega.{arith}

abbrev pub Text : Type 0
Text = List ℕ

-- The code points of a literal.
abbrev pub codes : String → Text
codes String.[] = []
codes (String.◌∷◌ c s) = code c ∷ codes s

-- `unicode.IsSpace`
unfoldable pub is_space : ℕ → Bool
is_space c =
    (leb 9 c && leb c 13)
    || c == 32
    || c == 0x85
    || c == 0xa0
    || c == 0x1680
    || (leb 0x2000 c && leb c 0x200a)
    || c == 0x2028
    || c == 0x2029
    || c == 0x202f
    || c == 0x205f
    || c == 0x3000

unfoldable pub trim_left : Text → Text
trim_left [] = []
trim_left (c ∷ s) = let rest = trim_left s in if is_space c then rest else c ∷ s

-- `strings.TrimSpace`
unfoldable pub trim_space : Text → Text
unfolding trim_left is_space
trim_space s = reverse (trim_left (reverse (trim_left s)))

-- `strings.Split(s, sep)` at one code point: the parts behind the current one, `cur`.
unfoldable pub split_from : ℕ → Text → Text → List Text
split_from sep cur [] = cur ∷ []
split_from sep cur (c ∷ s) = elim (c == sep) [
  | true ↦ cur ∷ split_from sep [] s
  | false ↦ split_from sep (cur ++ c ∷ []) s
]

unfoldable pub split : Text → ℕ → List Text
unfolding split_from
split s sep = split_from sep [] s

-- `strings.Fields`: the runs of code points that are no space; `cur` is the current run.
abbrev pub close_field : Text → List Text → List Text
close_field [] rest = rest
close_field (c ∷ cur) rest = (c ∷ cur) ∷ rest

unfoldable pub fields_from : Text → Text → List Text
fields_from cur [] = close_field cur []
fields_from cur (c ∷ s) = elim (is_space c) [
  | true ↦ close_field cur (fields_from [] s)
  | false ↦ fields_from (cur ++ c ∷ []) s
]

unfoldable pub fields : Text → List Text
unfolding fields_from is_space
fields s = fields_from [] s

abbrev pub is_digit : ℕ → Bool
is_digit c = leb b'0' c && leb c b'9'

-- The digits of `strconv.Atoi` behind the number read so far; `none` is its error, also when the
-- number does not fit an int.
abbrev pub max_int : ℕ
max_int = 2 ^ 63 - 1

unfoldable pub atoi_from : ℕ → Text → Option ℕ
atoi_from n [] = if ltb max_int n then none else some n
atoi_from n (c ∷ s) =
    let rest = atoi_from (n * 10 + (c - b'0')) s in if is_digit c then rest else none

-- `strconv.Atoi` of a text without a sign.
unfoldable pub atoi_unsigned : Text → Option ℕ
unfolding atoi_from
atoi_unsigned [] = none
atoi_unsigned (c ∷ s) = atoi_from 0 (c ∷ s)

-- `strconv.Atoi` of a text that does not begin with a minus sign.
unfoldable pub atoi : Text → Option ℕ
unfolding atoi_unsigned
atoi [] = none
atoi (c ∷ s) = if c == b'+' then atoi_unsigned s else atoi_unsigned (c ∷ s)

-- The number that digits spell behind `n`.
unfoldable pub decimal : ℕ → Text → ℕ
decimal n [] = n
decimal n (c ∷ s) = decimal (n * 10 + (c - b'0')) s

pub le-decimal : (n : ℕ) (s : Text) → n ≤ decimal n s
unfolding decimal
le-decimal n [] = omega arith
le-decimal n (c ∷ s) = omega (arith, le-decimal (n * 10 + (c - b'0')) s)

abbrev pub AllDigits : Text → Type 0
AllDigits = All (λ c. is_digit c ≡ true)

pub atoi_from-decimal :
    (n : ℕ) (s : Text) → AllDigits s → decimal n s ≤ max_int → atoi_from n s ≡ some (decimal n s)
unfolding atoi_from decimal
atoi_from-decimal n [] _ fits = ground arith
atoi_from-decimal n (c ∷ s) (d, ds) fits =
    ground (arith, d, atoi_from-decimal (n * 10 + (c - b'0')) s ds fits)

-- Digits are read as the number that they spell, if it fits an int.
pub atoi-decimal :
    (c : ℕ) (s : Text)
    → AllDigits (c ∷ s)
    → decimal 0 (c ∷ s) ≤ max_int
    → atoi (c ∷ s) ≡ some (decimal 0 (c ∷ s))
unfolding atoi
atoi-decimal c s (d, ds) fits = ground (arith, d, atoi_from-decimal 0 (c ∷ s) (d, ds) fits)

abbrev pub Lacks : ℕ → Text → Type 0
Lacks sep = All (λ c. (c == sep) ≡ false)

pub split_from-append :
    (sep : ℕ) (cur p rest : Text)
    → Lacks sep p
    → split_from sep cur (p ++ rest) ≡ split_from sep (cur ++ p) rest
unfolding split_from
split_from-append sep cur [] rest _ = rw append-nil
split_from-append sep cur (c ∷ p) rest (h, hs) =
    rw (h, split_from)
      (split_from-append sep (cur ++ c ∷ []) p rest hs
        ∙ ap (λ t. split_from sep t rest) (append_assoc cur (c ∷ []) p))

split_from_at : (sep : ℕ) (cur s : Text) → split_from sep cur (sep ∷ s) ≡ cur ∷ split_from sep [] s
unfolding split_from
split_from_at sep cur s = ground (arith, ==_iff sep sep)

-- A text cut at a separator that stands in neither part.
pub split_pair :
    (sep : ℕ) (a b : Text) → Lacks sep a → Lacks sep b → split (a ++ sep ∷ b) sep ≡ a ∷ b ∷ []
unfolding split
split_pair sep a b ha hb =
    split_from-append sep [] a (sep ∷ b) ha
    ∙ split_from_at sep a b
    ∙ ap (◌∷◌ a) (
        ap (split_from sep []) (sym (append-nil b))
        ∙ split_from-append sep [] b [] hb
        ∙ unfold split_from in refl)
