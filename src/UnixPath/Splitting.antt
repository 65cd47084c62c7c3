-- ===== src/UnixPath/Splitting.antt =====
-- The directory and the name that safePath of daemon/internal/ufs/fs_unix.go makes of a path.
use sls.Shared.{
  ℕ, ◌==◌, ==_iff, ◌≡◌, refl, sym, ◌∙◌, ap, subst, ◌⊎◌, inl, inr, true, Option, none, some, [], ◌∷◌,
  ◌++◌, All, All-append_inv, if◌then◌else◌, arith, Bool-cases, Option-cases,
}
use sls.Shared.Paths.{slash, dot, IsName}
use sls.Shared.Text.{Text, split, Lacks}
use sls.Shared.Text.Joined.{join, split-join, split_rest}
use sls.Shared.Text.Affixes.{trim_suffix_char, trim_suffix_char-append}
use sls.UnixPath.{unsafe_path, split_file, open_dir, safe_path}
use sls.UnixPath.Confined.{AreNames, IsConfined, unsafe_path-IsConfined}

-- `filepath.Split` at the last slash, or at none.
abbrev SplitsAt : Text → Text × Text → Type 0
SplitsAt s (dir, file) =
    Lacks slash file
    × (((dir ≡ []) × (file ≡ s)) ⊎ ((d : Text) × (dir ≡ d ++ slash ∷ []) × (s ≡ d ++ slash ∷ file)))

no_end : (d : Text) → [] ≡ d ++ slash ∷ [] → ⊥
no_end [] e = cc
no_end (x ∷ d) e = cc

abbrev first : Text → ℕ
first [] = 0
first (c ∷ s) = c

no_slash : (t file : Text) → dot ≡ t ++ slash ∷ file → ⊥
no_slash [] file e = let e' : ◌≡◌ {A = ℕ} 46 47 = ap first e in omega arith
no_slash (x ∷ []) file e = cc
no_slash (x ∷ y ∷ t) file e = cc

split_file-SplitsAt : (s : Text) → SplitsAt s (split_file s)
unfolding split_file
split_file-SplitsAt [] = (tt, inl (refl, refl))
split_file-SplitsAt (c ∷ s) = more (split_file s) (split_file-SplitsAt s)
  where
    no_dir :
        (file : Text)
        → ((◌≡◌ {A = Text} [] []) × (file ≡ s))
          ⊎ ((d : Text) × ([] ≡ d ++ slash ∷ []) × (s ≡ d ++ slash ∷ file))
        → file ≡ s
    no_dir file (inl (_, e)) = e
    no_dir file (inr (d, e, _)) = absurd (no_end d e)

    whole : {file : Text} → (c == slash) ≡ true → file ≡ s → c ∷ s ≡ slash ∷ file
    whole here e = ap (λ x. x ∷ s) ((==_iff c slash).0 here) ∙ ap (◌∷◌ slash) (sym e)

    more :
        (x : Text × Text)
        → SplitsAt s x
        → SplitsAt (c ∷ s) (elim x.0 [
          | [] ↦ if c == slash then (slash ∷ [], x.1) else ([], c ∷ x.1)
          | d ∷ ds ↦ (c ∷ d ∷ ds, x.1)
        ])
    more ([], file) (lacks, at) = elim (Bool-cases (c == slash)) [
      | inl here ↦ rw (here, if◌then◌else◌) (lacks, inr ([], refl, whole here (no_dir file at)))
      | inr other ↦
          rw (other, if◌then◌else◌) ((other, lacks), inl (refl, ap (◌∷◌ c) (no_dir file at)))
    ]
    more (d ∷ ds, file) (lacks, inl (e, _)) = absurd (cc)
    more (d ∷ ds, file) (lacks, inr (t, e, f)) = (lacks, inr (c ∷ t, ap (◌∷◌ c) e, ap (◌∷◌ c) f))

-- The directory to open is confined as well, and the name in it is one name, or the directory itself.
abbrev pub OpensBelow : Option Text × Text → Type 0
OpensBelow (none, file) = (file ≡ dot) ⊎ IsName file
OpensBelow (some dir, file) = AreNames dir × IsName file

file-IsName : (file : Text) → Lacks slash file → AreNames file → IsName file
unfolding join
file-IsName file lacks names = (subst (All IsName) (split-join slash file [] (lacks, tt)) names).0

below : (s : Text) (x : Text × Text) → IsConfined s → SplitsAt s x → OpensBelow (open_dir x)
below s ([], file) (inl is_dot) (lacks, inl (_, e)) = inl (e ∙ is_dot)
below s ([], file) (inr names) (lacks, inl (_, e)) =
    inr (file-IsName file lacks (subst AreNames (sym e) names))
below s ([], file) c (lacks, inr (d, e, f)) = absurd (no_end d e)
below s (d ∷ ds, file) c (lacks, inl (e, _)) = absurd (cc)
below s (d ∷ ds, file) (inl is_dot) (lacks, inr (t, e, f)) =
    absurd (no_slash t file (sym is_dot ∙ f))
below s (d ∷ ds, file) (inr names) (lacks, inr (t, e, f)) =
    let (dir, name) =
      All-append_inv IsName (split t slash) (split file slash)
        (subst (All IsName) (ap (λ x. split x slash) f ∙ split_rest slash t file) names) in
    (
      subst AreNames (sym (ap (trim_suffix_char slash) e ∙ trim_suffix_char-append slash t)) dir,
      file-IsName file lacks name,
    )

-- Whatever path is asked for, below an absolute base path: the directory that safePath opens from the
-- base directory consists of names of which none is empty, `.` or `..`, and the name that it returns
-- has no slash and is such a name, or `.` for the base directory itself.
pub safe_path-OpensBelow :
    (b path : Text) (x : Option Text × Text) → safe_path (slash ∷ b) path ≡ some x → OpensBelow x
unfolding safe_path
safe_path-OpensBelow b path x h = elim (Option-cases (unsafe_path (slash ∷ b) path)) [
  | inl rejected ↦ absurd (none_some (rw (rejected, safe_path) at h))
  | inr (name, at) ↦ subst OpensBelow (same name (rw (at, safe_path) at h)) (
      below name (split_file name) (unsafe_path-IsConfined b path name at)
        (split_file-SplitsAt name))
]
  where
    none_some : none ≡ some x → ⊥
    none_some e = cc

    same :
        (name : Text) → some (open_dir (split_file name)) ≡ some x → open_dir (split_file name) ≡ x
    same name e = cc
