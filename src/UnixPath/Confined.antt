-- ===== src/UnixPath/Confined.antt =====
-- What unsafePath of daemon/internal/ufs/fs_unix.go lets through stays below the base path.
use sls.Shared.{
  ◌≡◌, refl, sym, ◌∙◌, ap, subst, ◌⊎◌, inl, inr, true, none, some, List, [], ◌∷◌, ◌++◌,
  append_assoc, append-nil, All, All-append_inv, All-mono, if◌then◌else◌, arith, Bool-cases,
}
use sls.Shared.Paths.{slash, dot, or_dot, clean, path_join, clean-rooted, IsName}
use sls.Shared.Text.{Text, split}
use sls.Shared.Text.Joined.{join, split-join, split_rest}
use sls.Shared.Text.Affixes.{
  has_prefix-append, trim_prefix, trim_prefix-append, trim_suffix_char, trim_suffix_char-cases,
}
use sls.UnixPath.{is_inside_of_base, resolve, unsafe_path}

-- The cut of a text at a separator, behind which one more separator was written.
cut_at :
    (r base u : Text)
    → r ++ slash ∷ [] ≡ base ++ slash ∷ u
    → (r ≡ base) ⊎ ((t : Text) × (r ≡ base ++ slash ∷ t))
cut_at [] [] u h = inl refl
cut_at (c ∷ r) [] u h = inr (r, cc)
cut_at [] (b ∷ base) u h = absurd (not_nil base (cc))
  where
    not_nil : (base : Text) → [] ≡ base ++ slash ∷ u → ⊥
    not_nil [] e = cc
    not_nil (b ∷ base) e = cc
cut_at (c ∷ r) (b ∷ base) u h =
    let head : c ≡ b = cc in
    elim (cut_at r base u (cc)) [ inl same ↦ inl (cc) | inr (t, e) ↦ inr (t, cc) ]

-- The path that is tested, with a slash at its end or not, is the base path or continues it.
inside-cases :
    (base r : Text)
    → is_inside_of_base base r ≡ true
    → (r ≡ base) ⊎ ((t : Text) × (r ≡ base ++ slash ∷ t))
unfolding is_inside_of_base
inside-cases base r h =
    let (u, e) =
      has_prefix-append (base ++ slash ∷ []) (trim_suffix_char slash r ++ slash ∷ []) h in
    let e' : trim_suffix_char slash r ++ slash ∷ [] ≡ base ++ slash ∷ u =
      e ∙ append_assoc base (slash ∷ []) u in
    elim (trim_suffix_char-cases slash r) [
      | inl whole ↦ cut_at r base u (subst (λ x. x ++ slash ∷ [] ≡ base ++ slash ∷ u) whole e')
      | inr ends ↦ inr (u, ends ∙ e')
    ]

abbrev pub AreNames : Text → Type 0
AreNames s = All IsName (split s slash)

-- The names behind the base path of a cleaned path.
names_behind :
    (b t : Text) (ps : List Text)
    → All IsName ps
    → slash ∷ join slash ps ≡ (slash ∷ b) ++ slash ∷ t
    → AreNames t
unfolding join
names_behind b t [] h e = absurd (too_short b cc)
  where
    too_short : (b : Text) → [] ≡ b ++ slash ∷ t → ⊥
    too_short [] e = cc
    too_short (c ∷ b) e = cc
names_behind b t (p ∷ ps) h e =
    let e' : join slash (p ∷ ps) ≡ b ++ slash ∷ t = cc in
    (All-append_inv IsName (split b slash) (split t slash) (
      subst (All IsName)
        (sym (split-join slash p ps (All-mono (p ∷ ps) (λ a n. n.no_slash) h))
          ∙ ap (λ s. split s slash) e'
          ∙ split_rest slash b t)
        h)).1

-- The path is the base directory itself, or names between slashes: it is not empty, does not begin
-- with a slash, and no element of it is `..`.
abbrev pub IsConfined : Text → Type 0
IsConfined r = (r ≡ dot) ⊎ AreNames r

AreNames-or_dot : (t : Text) → AreNames t → IsConfined (or_dot t)
AreNames-or_dot [] h = inl refl
AreNames-or_dot (c ∷ t) h = inr h

-- A cleaned path in the base, without the base.
relative-IsConfined :
    (b r : Text) (ps : List Text)
    → r ≡ slash ∷ join slash ps
    → All IsName ps
    → is_inside_of_base (slash ∷ b) r ≡ true
    → IsConfined (or_dot (trim_prefix (slash ∷ []) (trim_prefix (slash ∷ b) r)))
unfolding trim_prefix
relative-IsConfined b r ps e names h = elim (inside-cases (slash ∷ b) r h) [
  | inl base ↦ inl (ap (λ x. or_dot (trim_prefix (slash ∷ []) x)) (nothing base))
  | inr (t, at) ↦
      subst (λ x. IsConfined (or_dot x)) (sym (rest t at))
        (AreNames-or_dot t (names_behind b t ps names (sym e ∙ at)))
]
  where
    nothing : r ≡ slash ∷ b → trim_prefix (slash ∷ b) r ≡ []
    nothing base =
        ap (trim_prefix (slash ∷ b)) (base ∙ sym (append-nil (slash ∷ b)))
        ∙ trim_prefix-append (slash ∷ b) []

    rest :
        (t : Text)
        → r ≡ slash ∷ b ++ slash ∷ t
        → trim_prefix (slash ∷ []) (trim_prefix (slash ∷ b) r) ≡ t
    rest t at =
        ap (λ x. trim_prefix (slash ∷ []) (trim_prefix (slash ∷ b) x)) at
        ∙ ap (trim_prefix (slash ∷ [])) (trim_prefix-append (slash ∷ b) (slash ∷ t))
        ∙ trim_prefix-append (slash ∷ []) t

-- Whatever path is asked for, below an absolute base path: a path that unsafePath returns is the base
-- directory, or consists of names between slashes, of which none is empty, `.` or `..`.
pub unsafe_path-IsConfined :
    (b path r : Text) → unsafe_path (slash ∷ b) path ≡ some r → IsConfined r
unfolding unsafe_path
unsafe_path-IsConfined b path r h =
    let (ps, e, names) = resolved in
    elim (Bool-cases (is_inside_of_base (slash ∷ b) (resolve (slash ∷ b) path))) [
      | inl inside ↦
          subst IsConfined (same inside h)
            (relative-IsConfined b (resolve (slash ∷ b) path) ps e names inside)
      | inr outside ↦ absurd (ground (arith, outside, h))
    ]
  where
    resolved : (ps : List Text) × (resolve (slash ∷ b) path ≡ slash ∷ join slash ps) × All IsName ps
    resolved =
        unfold path_join in
        let (qs, e, _) = clean-rooted (b ++ slash ∷ trim_prefix (slash ∷ b) path) in
        let (ps, e', names) = clean-rooted (join slash qs) in (ps, ap clean e ∙ e', names)

    same :
        {t : Text}
        → is_inside_of_base (slash ∷ b) (resolve (slash ∷ b) path) ≡ true
        → (if is_inside_of_base (slash ∷ b) (resolve (slash ∷ b) path) then some t else none)
          ≡ some r
        → t ≡ r
    same inside e = ground (arith, inside, e)
