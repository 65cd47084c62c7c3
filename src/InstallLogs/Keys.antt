-- ===== src/InstallLogs/Keys.antt =====
-- sanitizeInstallLogKey of daemon/server/install_state.go: the name of the file of a phase.
use sls.Shared.{
  ℕ, ◌≤◌, ◌≡◌, refl, ◌==◌, inl, inr, true, false, [], ◌∷◌, ◌++◌, map, arith, if◌then◌else◌,
  Bool-cases, ==_iff, length, length-append, All, All-append, All-mono, All-reverse_aux,
}
use mathlib.Core.List.{reverse}
use sls.Shared.Equality.{nat_eq}
use sls.Shared.Paths.{slash, clean, IsName}
use sls.Shared.Text.{Text, codes}
use sls.Shared.Text.Affixes.{trim_char, trim_left_char}
use sls.InstallLogs.{is_key_char, key_char, or_text, key_of, sanitize_install_log_key, log_name}

abbrev pub IsKeyChar : ℕ → Type 0
IsKeyChar c = is_key_char c ≡ true

abbrev pub IsKey : Text → Type 0
IsKey s = All IsKeyChar s

key_char-IsKeyChar : (c : ℕ) → IsKeyChar (key_char c)
key_char-IsKeyChar c = elim (Bool-cases (is_key_char c)) [
  | inl key ↦ rw (key, if◌then◌else◌) key
  | inr other ↦ rw (other, if◌then◌else◌) refl
]

map-IsKey : (s : Text) → IsKey (map key_char s)
map-IsKey [] = tt
map-IsKey (c ∷ s) = (key_char-IsKeyChar c, map-IsKey s)

trim_left_char-IsKey : (s : Text) → IsKey s → IsKey (trim_left_char b'-' s)
unfolding trim_left_char
trim_left_char-IsKey [] h = tt
trim_left_char-IsKey (c ∷ s) (h, hs) = elim (Bool-cases (b'-' == c)) [
  | inl dash ↦ rw (dash, if◌then◌else◌) (trim_left_char-IsKey s hs)
  | inr other ↦ rw (other, if◌then◌else◌) (h, hs)
]

trim_char-IsKey : (s : Text) → IsKey s → IsKey (trim_char b'-' s)
unfolding trim_char
trim_char-IsKey s h =
    All-reverse_aux IsKeyChar (trim_left_char b'-' (reverse (trim_left_char b'-' s))) []
      (trim_left_char-IsKey (reverse (trim_left_char b'-' s))
        (All-reverse_aux IsKeyChar (trim_left_char b'-' s) [] (trim_left_char-IsKey s h) tt))
      tt

record IsLogKey (s : Text) : Type 0 where
  chars : IsKey s
  not_empty : 1 ≤ length s

or_text-IsLogKey : (s : Text) → IsKey s → IsLogKey (or_text (codes "unknown") s)
or_text-IsLogKey [] h = record {
  chars = (refl, (refl, (refl, (refl, (refl, (refl, (refl, tt)))))));
  not_empty = omega arith;
}
or_text-IsLogKey (c ∷ s) h = record { chars = h; not_empty = omega arith }

key_of-IsLogKey : (p : Text) → IsLogKey (key_of p)
key_of-IsLogKey [] = record { chars = (refl, (refl, (refl, (refl, tt)))); not_empty = omega arith }
key_of-IsLogKey (c ∷ p) =
    or_text-IsLogKey (trim_char b'-' (map key_char (c ∷ p)))
      (trim_char-IsKey (map key_char (c ∷ p)) (map-IsKey (c ∷ p)))

sanitize-IsLogKey : (path : Text) → IsLogKey (sanitize_install_log_key path)
unfolding sanitize_install_log_key
sanitize-IsLogKey [] = or_text-IsLogKey [] tt
sanitize-IsLogKey (c ∷ path) = key_of-IsLogKey (trim_char slash (clean (c ∷ path)))

no_slash : (c : ℕ) → IsKeyChar c → (c == slash) ≡ false
no_slash c h = elim (Bool-cases (c == slash)) [
  | inl same ↦ absurd (slash_is_no_key (rw ((==_iff c slash).0 same) at h))
  | inr other ↦ other
]
  where
    slash_is_no_key : is_key_char slash ≡ true → ⊥
    slash_is_no_key e = cc

IsKey-IsName : (s : Text) → IsKey s → 3 ≤ length s → IsName s
IsKey-IsName [] h p = absurd (omega arith)
IsKey-IsName (a ∷ []) h p = absurd (omega arith)
IsKey-IsName (a ∷ b ∷ []) h p = absurd (omega arith)
IsKey-IsName (a ∷ b ∷ c ∷ s) h p = record {
  not_empty = refl;
  not_dot = ground arith;
  not_dot_dot = ground arith;
  no_slash = All-mono (a ∷ b ∷ c ∷ s) no_slash h;
}

-- For any path of a server, and any suffix that has only the characters of a key: the name of the file
-- of its logs is one name of a path, not empty, neither . nor .. and without a slash, so that the file
-- is in the directory of the logs itself.
pub log_name-IsName : (path suffix : Text) → IsKey suffix → IsName (log_name path suffix)
log_name-IsName path suffix h =
    let key = sanitize-IsLogKey path in
    let name = sanitize_install_log_key path in
    IsKey-IsName (log_name path suffix)
      (All-append IsKeyChar (name ++ suffix) (codes ".log")
        (All-append IsKeyChar name suffix key.chars h) (refl, (refl, (refl, (refl, tt)))))
      (omega (arith, length-append (name ++ suffix) (codes ".log")))
