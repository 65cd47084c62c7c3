-- ===== src/Mounts/Within.antt =====
-- WithinPath of daemon/server/filesystem/path.go, by the names of the two paths.
use sls.Shared.{
  ℕ, ◌≡◌, refl, sym, ap, ◌∙◌, subst, true, false, ◌||◌, List, [], ◌∷◌, ◌++◌, append_assoc,
  append-nil, if◌then◌else◌, arith, Bool-cases, ==_iff, inl, inr, All, All-mono,
}
use sls.Shared.Equality.{nat_eq, list_eq, list_beq, list_beq_iff}
use sls.Shared.Paths.{slash, clean, clean-rooted, IsName}
use sls.Shared.Text.{Text, split, Lacks}
use sls.Shared.Text.Joined.{join, split-join, split_rest}
use sls.Shared.Text.Affixes.{has_prefix, has_prefix-append}
use sls.Mounts.{has_suffix_char, with_slash, is_within, within_path}

-- Both paths are absolute, and the names of the path begin with those of the root; no name is empty,
-- `.` or `..`.
pub record IsBelow (root path : Text) : Type 0 where
  pub root_names : List Text
  pub more_names : List Text
  pub root_is : root ≡ slash ∷ join slash root_names
  pub path_is : path ≡ slash ∷ join slash (root_names ++ more_names)
  pub are_names : All IsName (root_names ++ more_names)

has_suffix_char-append :
    (c d : ℕ) (p s : Text) → has_suffix_char c (p ++ d ∷ s) ≡ has_suffix_char c (d ∷ s)
unfolding has_suffix_char
has_suffix_char-append c d [] s = refl
has_suffix_char-append c d (e ∷ []) s = refl
has_suffix_char-append c d (e ∷ f ∷ p) s = has_suffix_char-append c d (f ∷ p) s

has_suffix_char-Lacks : (c : ℕ) (s : Text) → Lacks c s → has_suffix_char c s ≡ false
unfolding has_suffix_char
has_suffix_char-Lacks c [] h = refl
has_suffix_char-Lacks c (d ∷ []) (h, hs) = ground (arith, h, ==_iff c d, ==_iff d c)
has_suffix_char-Lacks c (d ∷ e ∷ s) (h, hs) = has_suffix_char-Lacks c (e ∷ s) hs

-- A path of names does not end with a slash.
names_end :
    (r : Text) (rs : List Text)
    → All IsName (r ∷ rs)
    → (c : ℕ) × (s : Text) × (join slash (r ∷ rs) ≡ c ∷ s) × (has_suffix_char slash (c ∷ s) ≡ false)
unfolding join
names_end [] rs (h, hs) = absurd (not_empty h.not_empty)
  where
    not_empty : true ≡ false → ⊥
    not_empty e = cc
names_end (c ∷ r) [] (h, hs) = (c, r, refl, has_suffix_char-Lacks slash (c ∷ r) h.no_slash)
names_end (c ∷ r) (q ∷ rs) (h, hs) =
    let (d, s, e, f) = names_end q rs hs in
    (
      c,
      r ++ slash ∷ join slash (q ∷ rs),
      refl,
      ap (λ x. has_suffix_char slash (c ∷ r ++ slash ∷ x)) e
          ∙ ap (has_suffix_char slash) (sym (append_assoc (c ∷ r) (slash ∷ []) (d ∷ s)))
          ∙ has_suffix_char-append slash d ((c ∷ r) ++ slash ∷ []) s
          ∙ f,
    )

IsBelow-root :
    (ps : List Text) → All IsName ps → IsBelow (slash ∷ join slash []) (slash ∷ join slash ps)
IsBelow-root ps h = record {
  root_names = [];
  more_names = ps;
  root_is = refl;
  path_is = refl;
  are_names = h;
}

-- A path of names that goes on behind a path of names and a slash.
IsBelow-prefix :
    (r : Text) (rs ps : List Text) (t : Text)
    → All IsName (r ∷ rs)
    → All IsName ps
    → join slash ps ≡ join slash (r ∷ rs) ++ slash ∷ t
    → IsBelow (slash ∷ join slash (r ∷ rs)) (slash ∷ join slash ps)
IsBelow-prefix r rs [] t h g e = absurd (too_short (join slash (r ∷ rs)) (unfold join in e))
  where
    too_short : (s : Text) → [] ≡ s ++ slash ∷ t → ⊥
    too_short [] f = cc
    too_short (c ∷ s) f = cc
IsBelow-prefix r rs (p ∷ ps) t h g e = record {
  root_names = r ∷ rs;
  more_names = split t slash;
  root_is = refl;
  path_is = ap (λ x. slash ∷ join slash x) parts;
  are_names = subst (All IsName) parts g;
}
  where
    lacks : (xs : List Text) → All IsName xs → All (Lacks slash) xs
    lacks xs names = All-mono xs (λ x n. n.no_slash) names

    parts : p ∷ ps ≡ r ∷ rs ++ split t slash
    parts =
        sym (split-join slash p ps (lacks (p ∷ ps) g))
        ∙ ap (λ x. split x slash) e
        ∙ split_rest slash (join slash (r ∷ rs)) t
        ∙ ap (λ x. x ++ split t slash) (split-join slash r rs (lacks (r ∷ rs) h))

is_within-IsBelow :
    (rs ps : List Text)
    → All IsName rs
    → All IsName ps
    → is_within (slash ∷ join slash ps) (slash ∷ join slash rs) ≡ true
    → IsBelow (slash ∷ join slash rs) (slash ∷ join slash ps)
is_within-IsBelow [] ps h g e = IsBelow-root ps g
is_within-IsBelow (r ∷ rs) ps h g e =
    elim (Bool-cases (list_beq (slash ∷ join slash ps) (slash ∷ join slash (r ∷ rs)))) [
      | inl same ↦
          subst (IsBelow (slash ∷ join slash (r ∷ rs))) (sym ((list_beq_iff _ _).0 same)) itself
      | inr other ↦
          let (t, f) =
            has_prefix-append (slash ∷ join slash (r ∷ rs) ++ slash ∷ []) (slash ∷ join slash ps) (
              ground (
                arith,
                other,
                subst
                    (λ x.
                      (list_beq (slash ∷ join slash ps) (slash ∷ join slash (r ∷ rs))
                        || has_prefix x (slash ∷ join slash ps))
                      ≡ true)
                    slashed e,
              )) in
          IsBelow-prefix r rs ps t h g
            (tail_of (f ∙ append_assoc (slash ∷ join slash (r ∷ rs)) (slash ∷ []) t))
    ]
  where
    itself : IsBelow (slash ∷ join slash (r ∷ rs)) (slash ∷ join slash (r ∷ rs))
    itself = record {
      root_names = r ∷ rs;
      more_names = [];
      root_is = refl;
      path_is = ap (λ x. slash ∷ join slash x) (sym (append-nil (r ∷ rs)));
      are_names = subst (All IsName) (sym (append-nil (r ∷ rs))) h;
    }

    no_suffix : has_suffix_char slash (slash ∷ join slash (r ∷ rs)) ≡ false
    no_suffix =
        let (c, s, f, k) = names_end r rs h in
        ap (λ x. has_suffix_char slash (slash ∷ x)) f
        ∙ has_suffix_char-append slash c (slash ∷ []) s
        ∙ k

    slashed : with_slash (slash ∷ join slash (r ∷ rs)) ≡ slash ∷ join slash (r ∷ rs) ++ slash ∷ []
    slashed = rw (no_suffix, if◌then◌else◌) refl

    tail_of : {x y : Text} → ◌≡◌ {A = Text} (slash ∷ x) (slash ∷ y) → x ≡ y
    tail_of f = cc

-- For absolute paths: a path that WithinPath accepts is below the root, once both are cleaned.
pub within_path-IsBelow :
    (path root : Text)
    → within_path (slash ∷ path) (slash ∷ root) ≡ true
    → IsBelow (clean (slash ∷ root)) (clean (slash ∷ path))
unfolding within_path
within_path-IsBelow path root h =
    let (ps, e, g) = clean-rooted path in
    let (rs, f, k) = clean-rooted root in
    let names = subst (λ x. is_within x (clean (slash ∷ root)) ≡ true) e h in
    subst (λ x. IsBelow x (clean (slash ∷ path))) (sym f)
      (subst (IsBelow (slash ∷ join slash rs)) (sym e) (
        is_within-IsBelow rs ps k g
          (subst (λ y. is_within (slash ∷ join slash ps) y ≡ true) f names)))
