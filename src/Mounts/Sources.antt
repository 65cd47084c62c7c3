-- ===== src/Mounts/Sources.antt =====
-- Where the mounts of a server come from, in daemon/server/mounts.go and daemon/server/manager.go.
use sls.Shared.{
  ◌≡◌, ◌⊎◌, refl, sym, subst, Bool, true, false, ◌==◌, Option, none, some, List, [], ◌∷◌, ◌++◌,
  if◌then◌else◌, arith, Bool-cases, ==_iff, inl, inr, Among, All, All-append, All-mono,
}
use sls.Shared.Outcome.{Outcome, ok, err, ok_injective}
use sls.Shared.Paths.{slash, clean, path_join, clean-rooted}
use sls.Shared.Text.{Text}
use sls.Shared.Text.Joined.{join}
use sls.Mounts.{
  Mount, Volume, VolumeMode, mode_cow, mode_ro, mode_rw, mode_unknown, Error, absolute, within_path,
  is_source_allowed, custom_mounts, checked, volume_source, bind_volume, volume_mounts, mounts,
  main_mount, outside_root,
}
use sls.Mounts.Within.{IsBelow, within_path-IsBelow}

-- Absolute paths.
abbrev IsRooted : Text → Type 0
IsRooted s = (t : Text) × (s ≡ slash ∷ t)

clean-IsRooted : (s : Text) → IsRooted (clean (slash ∷ s))
clean-IsRooted s = let (ps, e, h) = clean-rooted s in (join slash ps, e)

path_join-IsRooted : (s t : Text) → IsRooted (path_join (slash ∷ s) t)
unfolding path_join
path_join-IsRooted s t = clean-IsRooted (s ++ slash ∷ t)

absolute-IsRooted : (cwd s : Text) → IsRooted (absolute (slash ∷ cwd) s)
unfolding absolute
absolute-IsRooted cwd [] = path_join-IsRooted cwd []
absolute-IsRooted cwd (c ∷ s) = elim (Bool-cases (c == slash)) [
  | inl here ↦
      rw (here, if◌then◌else◌)
        (subst (λ d. IsRooted (clean (d ∷ s))) (sym ((==_iff c slash).0 here)) (clean-IsRooted s))
  | inr other ↦ rw (other, if◌then◌else◌) (path_join-IsRooted cwd (c ∷ s))
]

within-IsBelow :
    (path root : Text)
    → IsRooted path
    → IsRooted root
    → within_path path root ≡ true
    → IsBelow (clean root) (clean path)
within-IsBelow path root (p, e) (r, f) h =
    subst (λ x. IsBelow (clean x) (clean path)) (sym f)
      (subst (λ y. IsBelow (clean (slash ∷ r)) (clean y)) (sym e)
        (within_path-IsBelow p r (
          subst (λ x. within_path (slash ∷ p) x ≡ true) f
            (subst (λ y. within_path y root ≡ true) e h))))

-- The source is below one of the paths that the configuration allows.
abbrev pub IsAllowed : Text → List Text → Text → Type 0
IsAllowed cwd allowed source =
    (r : Text) × Among r allowed × IsBelow (clean (absolute (slash ∷ cwd) (clean r))) (clean source)

IsAllowed-cons :
    (cwd r : Text) (allowed : List Text) (source : Text)
    → IsAllowed cwd allowed source
    → IsAllowed cwd (r ∷ allowed) source
IsAllowed-cons cwd r allowed source (x, among, below) = (x, inr among, below)

is_source_allowed-IsAllowed :
    (cwd source : Text) (allowed : List Text)
    → IsRooted source
    → is_source_allowed (slash ∷ cwd) source allowed ≡ true
    → IsAllowed cwd allowed source
unfolding is_source_allowed
is_source_allowed-IsAllowed cwd source [] rooted h = cc
is_source_allowed-IsAllowed cwd source ([] ∷ allowed) rooted h =
    IsAllowed-cons cwd [] allowed source (is_source_allowed-IsAllowed cwd source allowed rooted h)
is_source_allowed-IsAllowed cwd source ((c ∷ r) ∷ allowed) rooted h =
    elim (Bool-cases (within_path source (absolute (slash ∷ cwd) (clean (c ∷ r))))) [
      | inl inside ↦ (
        c ∷ r,
        inl refl,
        within-IsBelow source (absolute (slash ∷ cwd) (clean (c ∷ r))) rooted
            (absolute-IsRooted cwd (clean (c ∷ r))) inside,
      )
      | inr outside ↦
          IsAllowed-cons cwd (c ∷ r) allowed source
            (is_source_allowed-IsAllowed cwd source allowed rooted (ground (arith, outside, h)))
    ]

custom_mounts-IsAllowed :
    (cwd : Text) (allowed : List Text) (ms : List Mount)
    → All (λ m. IsAllowed cwd allowed m.source) (custom_mounts (slash ∷ cwd) allowed ms)
unfolding custom_mounts
custom_mounts-IsAllowed cwd allowed [] = tt
custom_mounts-IsAllowed cwd allowed (m ∷ ms) =
    let source = absolute (slash ∷ cwd) (clean m.source) in
    elim (Bool-cases (is_source_allowed (slash ∷ cwd) source allowed)) [
      | inl allows ↦
          rw (allows, if◌then◌else◌)
            (
              is_source_allowed-IsAllowed cwd source allowed
                  (absolute-IsRooted cwd (clean m.source)) allows,
              custom_mounts-IsAllowed cwd allowed ms,
            )
      | inr rejects ↦ rw (rejects, if◌then◌else◌) (custom_mounts-IsAllowed cwd allowed ms)
    ]

module _ (dir_exists : Text → Option Bool) (cwd root : Text) where
  abbrev InVolumes : Text → Type 0
  InVolumes source = IsBelow (clean (slash ∷ root)) (clean source)

  volume_source-InVolumes :
      (v : Volume) (s : Text)
      → volume_source dir_exists (slash ∷ cwd) (slash ∷ root) v ≡ ok s
      → InVolumes s
  unfolding volume_source
  volume_source-InVolumes v s h = elim (Bool-cases (within_path source (slash ∷ root))) [
    | inl inside ↦ subst InVolumes (same (dir_exists source) (rw (inside, if◌then◌else◌) at h)) (
        within-IsBelow source (slash ∷ root)
          (absolute-IsRooted cwd (path_join (slash ∷ root) (clean v.source))) (root, refl) inside)
    | inr outside ↦ absurd (never (rw (outside, if◌then◌else◌) at h))
  ]
    where
      source : Text
      source = absolute (slash ∷ cwd) (path_join (slash ∷ root) (clean v.source))

      same : (o : Option Bool) → checked source o ≡ ok s → source ≡ s
      same none e = cc
      same (some false) e = cc
      same (some true) e = cc

      never : ◌≡◌ {A = Outcome Error Text} (err outside_root) (ok s) → ⊥
      never e = cc

  abbrev AllIn : List Mount → Type 0
  AllIn = All (λ m. InVolumes m.source)

  bind_volume-AllIn :
      (mode : VolumeMode) (source : Outcome Error Text) (v : Volume)
      (rest : Outcome Error (List Mount)) (ms : List Mount)
      → ((s : Text) → source ≡ ok s → InVolumes s)
      → ((ns : List Mount) → rest ≡ ok ns → AllIn ns)
      → bind_volume mode source v rest ≡ ok ms
      → AllIn ms
  bind_volume-AllIn mode_cow source v rest ms hs hr h = hr ms h
  bind_volume-AllIn mode_ro (ok s) v (ok ns) ms hs hr h =
      subst AllIn (ok_injective h) (hs s refl, hr ns refl)
  bind_volume-AllIn mode_ro (ok s) v (err e) ms hs hr h = cc
  bind_volume-AllIn mode_ro (err e) v rest ms hs hr h = cc
  bind_volume-AllIn mode_rw (ok s) v (ok ns) ms hs hr h =
      subst AllIn (ok_injective h) (hs s refl, hr ns refl)
  bind_volume-AllIn mode_rw (ok s) v (err e) ms hs hr h = cc
  bind_volume-AllIn mode_rw (err e) v rest ms hs hr h = cc
  bind_volume-AllIn mode_unknown source v rest ms hs hr h = cc

  volume_mounts-AllIn :
      (vs : List Volume) (ms : List Mount)
      → volume_mounts dir_exists (slash ∷ cwd) (slash ∷ root) vs ≡ ok ms
      → AllIn ms
  unfolding volume_mounts
  volume_mounts-AllIn [] ms h = subst AllIn (ok_injective h) tt
  volume_mounts-AllIn (v ∷ vs) ms h =
      bind_volume-AllIn v.mode (volume_source dir_exists (slash ∷ cwd) (slash ∷ root) v) v
        (volume_mounts dir_exists (slash ∷ cwd) (slash ∷ root) vs) ms (volume_source-InVolumes v)
        (volume_mounts-AllIn vs) h

  -- The file system of the server, a path that is allowed, or one below the root of the volumes.
  abbrev pub ComesFrom : Text → List Text → Mount → Type 0
  ComesFrom path allowed m =
      (m ≡ main_mount path)
      ⊎ IsAllowed cwd allowed m.source
      ⊎ IsBelow (clean (slash ∷ root)) (clean m.source)

  -- With an absolute working directory and an absolute root of the volumes, for any mounts and volumes
  -- of a server whose volumes are accepted: each mount of the container is the file system of the
  -- server, or its source lies, name by name, below a path that the configuration allows, or below the
  -- root of the volumes.
  pub mounts-ComesFrom :
      (path : Text) (allowed : List Text) (custom : List Mount) (vs : List Volume) (ms : List Mount)
      → volume_mounts dir_exists (slash ∷ cwd) (slash ∷ root) vs ≡ ok ms
      → All (ComesFrom path allowed) (mounts path (slash ∷ cwd) allowed custom ms)
  unfolding mounts
  mounts-ComesFrom path allowed custom vs ms h = (
    inl refl,
    All-append (ComesFrom path allowed) (custom_mounts (slash ∷ cwd) allowed custom) ms
        (All-mono (custom_mounts (slash ∷ cwd) allowed custom) (λ m from. inr (inl from))
          (custom_mounts-IsAllowed cwd allowed custom))
        (All-mono ms (λ m from. inr (inr from)) (volume_mounts-AllIn vs ms h)),
  )
