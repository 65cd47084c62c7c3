-- ===== src/InstallLogs/Stored.antt =====
-- readStoredInstallLogs of daemon/server/install_state.go with a number of lines: the last lines of
-- all the logs.
use sls.Shared.{
  ℕ, zero, suc, ◌-◌, ◌<◌, ◌≡◌, refl, sym, ◌∙◌, ap, Bool, true, false, Option, none, some, List, [],
  ◌∷◌, ◌++◌, append_assoc, arith, length, drop, length-drop,
}
use sls.Shared.Paths.{clean}
use sls.Shared.Text.{Text}
use sls.InstallLogs.{scan_tail, read_tail_lines, add_logs, read_stored_install_logs}
use sls.InstallLogs.Tail.{tail, tail-before, tail-after, cut-tail, scan_tail-last_lines}

abbrev has_lines : List Text → Bool
has_lines [] = false
has_lines (l ∷ ls) = true

tail_idem : (n : ℕ) (xs : List Text) → tail n (tail n xs) ≡ tail n xs
tail_idem n xs = tail-after n [] xs

has_lines-tail : (n : ℕ) (xs : List Text) → 0 < n → has_lines (tail n xs) ≡ has_lines xs
has_lines-tail n [] h = drop-nil (0 - n)
  where
    drop-nil : (k : ℕ) → has_lines (drop k []) ≡ false
    drop-nil zero = refl
    drop-nil (suc k) = refl
has_lines-tail n (x ∷ xs) h =
    by_length (tail n (x ∷ xs)) (omega (arith, length-drop (length (x ∷ xs) - n) (x ∷ xs)))
  where
    by_length : (ys : List Text) → 0 < length ys → has_lines ys ≡ true
    by_length [] p = absurd (omega arith)
    by_length (y ∷ ys) p = refl

-- Two lists that end alike.
pub record EndAlike (n : ℕ) (xs ys : List Text) : Type 0 where
  pub ends : tail n xs ≡ tail n ys
  pub both : has_lines xs ≡ has_lines ys

EndAlike-append :
    (n : ℕ) (xs ys zs : List Text) → EndAlike n xs ys → tail n (xs ++ zs) ≡ tail n (ys ++ zs)
EndAlike-append n xs ys zs a =
    sym (tail-before n xs zs) ∙ ap (λ t. tail n (t ++ zs)) a.ends ∙ tail-before n ys zs

-- The blank line and the log behind what is there.
tail-logs :
    (n : ℕ) (xs ys logs all : List Text)
    → EndAlike n xs ys
    → EndAlike n logs all
    → tail n (xs ++ [] ∷ logs) ≡ tail n (ys ++ [] ∷ all)
tail-logs n xs ys logs all a b =
    EndAlike-append n xs ys ([] ∷ logs) a
    ∙ ap (tail n) (sym (append_assoc ys ([] ∷ []) logs))
    ∙ sym (tail-after n (ys ++ [] ∷ []) logs)
    ∙ ap (λ t. tail n ((ys ++ [] ∷ []) ++ t)) b.ends
    ∙ tail-after n (ys ++ [] ∷ []) all
    ∙ ap (tail n) (append_assoc ys ([] ∷ []) all)

add_logs-EndAlike :
    (n : ℕ) (xs ys logs all : List Text)
    → EndAlike n xs ys
    → EndAlike n logs all
    → EndAlike n (add_logs xs logs) (add_logs ys all)
add_logs-EndAlike n xs ys [] [] a b = a
add_logs-EndAlike n xs ys [] (x ∷ all) a b = absurd (ground (arith, b.both))
add_logs-EndAlike n xs ys (l ∷ logs) [] a b = absurd (ground (arith, b.both))
add_logs-EndAlike n [] [] (l ∷ logs) (x ∷ all) a b = b
add_logs-EndAlike n [] (y ∷ ys) (l ∷ logs) (x ∷ all) a b = absurd (ground (arith, a.both))
add_logs-EndAlike n (z ∷ xs) [] (l ∷ logs) (x ∷ all) a b = absurd (ground (arith, a.both))
add_logs-EndAlike n (z ∷ xs) (y ∷ ys) (l ∷ logs) (x ∷ all) a b = record {
  ends = tail-logs n (z ∷ xs) (y ∷ ys) (l ∷ logs) (x ∷ all) a b;
  both = refl;
}

-- What is read of a file ends as the file.
read_tail_lines-EndAlike :
    (disk : Text → Option (List Text)) (path : Text) (n : ℕ)
    → 0 < n
    → EndAlike n (read_tail_lines disk path n) (read_tail_lines disk path 0)
unfolding read_tail_lines
read_tail_lines-EndAlike disk [] n h = record { ends = refl; both = refl }
read_tail_lines-EndAlike disk (c ∷ path) n h = by_file (disk (clean (c ∷ path)))
  where
    last : (file : List Text) → scan_tail n [] file ≡ tail n file
    last file = scan_tail-last_lines n file ∙ ground (arith, h)

    by_file :
        (o : Option (List Text))
        → EndAlike n
            (elim o [ none ↦ [] | some file ↦ scan_tail n [] file ])
            (elim o [ none ↦ [] | some file ↦ scan_tail 0 [] file ])
    by_file none = record { ends = refl; both = refl }
    by_file (some file) = record {
      ends =
          ap (tail n) (last file)
          ∙ tail_idem n file
          ∙ ap (tail n) (sym (scan_tail-last_lines 0 file));
      both =
          ap has_lines (last file)
          ∙ has_lines-tail n file h
          ∙ ap has_lines (sym (scan_tail-last_lines 0 file));
    }

read_stored-tail :
    (disk : Text → Option (List Text)) (paths : List Text) (n : ℕ) (xs ys : List Text)
    → 0 < n
    → EndAlike n xs ys
    → read_stored_install_logs disk paths n xs ≡ tail n (read_stored_install_logs disk paths 0 ys)
unfolding read_stored_install_logs
read_stored-tail disk [] n xs ys h a = cut-tail n xs h ∙ a.ends
read_stored-tail disk (path ∷ paths) n xs ys h a =
    read_stored-tail disk paths n (add_logs xs (read_tail_lines disk path n))
      (add_logs ys (read_tail_lines disk path 0)) h
      (add_logs-EndAlike n xs ys (read_tail_lines disk path n) (read_tail_lines disk path 0) a
        (read_tail_lines-EndAlike disk path n h))

-- For any files and any number of lines that is not 0: the stored logs with that number of lines are
-- the last lines of all the stored logs, although each file is cut before they are put together.
pub read_stored_install_logs-tail :
    (disk : Text → Option (List Text)) (paths : List Text) (n : ℕ)
    → 0 < n
    → read_stored_install_logs disk paths n [] ≡ tail n (read_stored_install_logs disk paths 0 [])
read_stored_install_logs-tail disk paths n h =
    read_stored-tail disk paths n [] [] h (record { ends = refl; both = refl })
