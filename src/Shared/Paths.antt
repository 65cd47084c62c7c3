-- ===== src/Shared/Paths.antt =====
-- What the source uses of the package path/filepath, on Unix: Clean, Join and Split.
use Prim.Native.Nat.{ℕ}
use mathlib.Core.Path.{◌≡◌}
use mathlib.Core.Logic.{inl, inr}
use mathlib.Core.Bool.{Bool, true, false, ◌||◌}
use mathlib.Core.List.{List, [], ◌∷◌, ◌++◌, reverse}
use native.Mathlib.Omega.{arith}
use sls.Shared.Tests.{◌==◌, if◌then◌else◌, Bool-cases, ==_iff}
use sls.Shared.Lists.{All, All-reverse_aux}
use sls.Shared.Equality.{nat_eq, list_beq}
use sls.Shared.Text.{Text, codes, split, Lacks}
use sls.Shared.Text.Joined.{join, split-Lacks}

abbrev pub slash : ℕ
slash = b'/'

abbrev pub dot : Text
dot = codes "."

abbrev pub dot_dot : Text
dot_dot = codes ".."

-- `..` takes the last name away; above the root it has no effect, and at the front of a relative path
-- it stays.
abbrev pub go_up : Bool → List Text → List Text
go_up rooted [] = if rooted then [] else dot_dot ∷ []
go_up rooted (top ∷ stack) = if list_beq top dot_dot then dot_dot ∷ top ∷ stack else stack

-- The names so far, the last one first, behind one more element of the path.
abbrev pub clean_part : Bool → List Text → Text → List Text
clean_part rooted stack part =
    if list_beq part [] || list_beq part dot
    then stack
    else if list_beq part dot_dot
    then go_up rooted stack
    else part ∷ stack

unfoldable pub clean_parts : Bool → List Text → List Text → List Text
clean_parts rooted stack [] = stack
clean_parts rooted stack (part ∷ parts) = clean_parts rooted (clean_part rooted stack part) parts

abbrev pub or_dot : Text → Text
or_dot [] = dot
or_dot (c ∷ s) = c ∷ s

-- The path behind its first slash, if it has one.
unfoldable pub clean_from : Bool → Text → Text
unfolding clean_parts
clean_from rooted s = join slash (reverse (clean_parts rooted [] (split s slash)))

-- `filepath.Clean`
unfoldable pub clean : Text → Text
unfolding clean_from
clean [] = dot
clean (c ∷ s) = if c == slash then slash ∷ clean_from true s else or_dot (clean_from false (c ∷ s))

-- `filepath.Join` of two elements
unfoldable pub path_join : Text → Text → Text
unfolding clean
path_join [] [] = []
path_join [] (d ∷ t) = clean (d ∷ t)
path_join (c ∷ s) t = clean (c ∷ s ++ slash ∷ t)

-- A name of a cleaned path.
pub record IsName (t : Text) : Type 0 where
  pub not_empty : list_beq t [] ≡ false
  pub not_dot : list_beq t dot ≡ false
  pub not_dot_dot : list_beq t dot_dot ≡ false
  pub no_slash : Lacks slash t

clean_part-IsName :
    (stack : List Text) (part : Text)
    → All IsName stack
    → Lacks slash part
    → All IsName (clean_part true stack part)
clean_part-IsName stack part h no_slash =
    elim (Bool-cases (list_beq part [] || list_beq part dot)) [
      | inl skip ↦ rw (skip, if◌then◌else◌) h
      | inr other ↦ elim (Bool-cases (list_beq part dot_dot)) [
        | inl up ↦ rw (other, up, if◌then◌else◌) (below stack h)
        | inr name ↦
            rw (other, name, if◌then◌else◌)
              (
                record {
                  not_empty = ground (arith, other);
                  not_dot = ground (arith, other);
                  not_dot_dot = name;
                  no_slash = no_slash;
                },
                h,
              )
      ]
    ]
  where
    below : (stack : List Text) → All IsName stack → All IsName (go_up true stack)
    below [] h = tt
    below (top ∷ stack) (h, hs) = rw (h.not_dot_dot, if◌then◌else◌) hs

clean_parts-IsName :
    (stack parts : List Text)
    → All IsName stack
    → All (Lacks slash) parts
    → All IsName (clean_parts true stack parts)
unfolding clean_parts
clean_parts-IsName stack [] h _ = h
clean_parts-IsName stack (part ∷ parts) h (p, ps) =
    clean_parts-IsName (clean_part true stack part) parts (clean_part-IsName stack part h p) ps

-- A cleaned absolute path is the root, or a slash and names between slashes.
pub clean-rooted :
    (s : Text) → (ps : List Text) × (clean (slash ∷ s) ≡ slash ∷ join slash ps) × All IsName ps
unfolding clean clean_from
clean-rooted s = (
  reverse (clean_parts true [] (split s slash)),
  ground (arith, ==_iff slash slash),
  All-reverse_aux IsName (clean_parts true [] (split s slash)) []
      (clean_parts-IsName [] (split s slash) tt (split-Lacks slash s)) tt,
)
