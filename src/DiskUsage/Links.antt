-- ===== src/DiskUsage/Links.antt =====
-- DirectorySize of daemon/server/filesystem/disk_space.go counts each file once, however many names
-- it has.
use sls.Shared.{
  All-zip, ℕ, ◌+◌, ◌^◌, ◌<◌, ◌==◌, ltb, ◌≡◌, refl, sym, ap, ◌∙◌, inl, inr, Bool, true, false, not,
  ◌&&◌, ◌||◌, none, List, [], ◌∷◌, if◌then◌else◌, All, arith, Bool-cases,
}
use sls.Shared.Int.{pos, ◌+ℤ◌, int64}
use sls.DiskUsage.{DirEntry, Walk, is_known, count_file, walk_dir, directory_size}

-- The size of the first entry of each file that is not among those seen.
unfoldable pub once : List ℕ → List DirEntry → ℕ
once seen [] = 0
once seen (d ∷ ds) =
    let rest = once (if d.is_regular then d.ino ∷ seen else seen) ds in
    if d.is_regular && not (is_known d.ino seen) then d.size + rest else rest

-- Two entries of one file: then its count of links is more than 1 at both.
abbrev pub linked : DirEntry → DirEntry → Bool
linked d e =
    not (d.is_regular && (e.is_regular && (d.ino == e.ino))) || (ltb 1 d.nlink && ltb 1 e.nlink)

abbrev pub AllLinked : List DirEntry → Type 0
AllLinked [] = Unit
AllLinked (d ∷ ds) = All (λ e. linked d e ≡ true) ds × AllLinked ds

abbrev pub AllRead : List DirEntry → Type 0
AllRead ds = All (λ d. d.walk_fails || d.lstat_fails ≡ false) ds

-- At the entry, the inodes with several links tell as much as all those seen.
abbrev pub tracks : List ℕ → List ℕ → DirEntry → Bool
tracks seen links e =
    not e.is_regular
    || ((is_known e.ino seen && (ltb 1 e.nlink && is_known e.ino links))
        || (not (is_known e.ino seen) && not (ltb 1 e.nlink && is_known e.ino links)))

counted : DirEntry → Walk → Walk
counted d w = if d.is_regular then count_file d w else w

abbrev pub noted : DirEntry → List ℕ → List ℕ
noted d seen = if d.is_regular then d.ino ∷ seen else seen

tracks-counted :
    (d e : DirEntry) (seen : List ℕ) (w : Walk)
    → linked d e ≡ true
    → tracks seen w.hard_links d ≡ true
    → tracks seen w.hard_links e ≡ true
    → tracks (noted d seen) (counted d w).hard_links e ≡ true
unfolding counted count_file is_known
tracks-counted d e seen w l td te = ground (arith, l, td, te)

-- What an entry adds.
abbrev pub adds : List ℕ → DirEntry → ℕ
adds seen d = if d.is_regular && not (is_known d.ino seen) then d.size else 0

once_cons :
    (seen : List ℕ) (d : DirEntry) (ds : List DirEntry)
    → once seen (d ∷ ds) ≡ adds seen d + once (noted d seen) ds
unfolding once
once_cons seen d ds = ground arith

int64-sum : (n m : ℕ) → n + m < 2 ^ 63 → int64 (pos n +ℤ pos m) ≡ pos (n + m)
unfolding int64 ◌+ℤ◌
int64-sum n m h = ground (arith, h)

counted-size :
    (d : DirEntry) (seen : List ℕ) (w : Walk) (n : ℕ)
    → tracks seen w.hard_links d ≡ true
    → w.size ≡ pos n
    → n + adds seen d < 2 ^ 63
    → (counted d w).size ≡ pos (n + adds seen d)
unfolding counted count_file
counted-size d seen w n td size small =
    elim (Bool-cases (d.is_regular && not (is_known d.ino seen))) [
      | inl new ↦
          let fits : n + d.size < 2 ^ 63 = ground (arith, small, new) in
          let sum : int64 (w.size +ℤ pos d.size) ≡ pos (n + d.size) =
            ap (λ s. int64 (s +ℤ pos d.size)) size ∙ int64-sum n d.size fits in
          ground (arith, td, new, sum)
      | inr old ↦ ground (arith, td, old, size)
    ]

fresh : (d : DirEntry) → tracks [] [] d ≡ true
unfolding is_known
fresh d = ground arith

walk_dir_cons :
    (w : Walk) (d : DirEntry) (ds : List DirEntry)
    → d.walk_fails || d.lstat_fails ≡ false
    → walk_dir w (d ∷ ds) ≡ walk_dir (counted d w) ds
unfolding walk_dir counted
walk_dir_cons w d ds read = ground (arith, read)

walk_dir-once :
    (seen : List ℕ) (w : Walk) (n : ℕ) (ds : List DirEntry)
    → AllLinked ds
    → AllRead ds
    → All (λ d. tracks seen w.hard_links d ≡ true) ds
    → w.size ≡ pos n
    → n + once seen ds < 2 ^ 63
    → walk_dir w ds ≡ (pos (n + once seen ds), none)
walk_dir-once seen w n [] l r t size small =
    unfold walk_dir once in ap (λ s. (s, none)) (size ∙ ap pos (omega arith))
walk_dir-once seen w n (d ∷ ds) (l, ls) (r, rs) (t, ts) size small =
    let sum : n + once seen (d ∷ ds) ≡ n + adds seen d + once (noted d seen) ds =
      omega (arith, once_cons seen d ds) in
    walk_dir_cons w d ds r
    ∙ walk_dir-once (noted d seen) (counted d w) (n + adds seen d) ds ls rs
        (All-zip ds (λ e le te. tracks-counted d e seen w le t te) l ts)
        (counted-size d seen w n t size (omega (arith, sum, small))) (omega (arith, sum, small))
    ∙ ap (λ s. (pos s, none)) (sym sum)

-- When every entry can be read and a file that has two names in the walk has a count of links above
-- 1 at both, DirectorySize is the sum of the sizes of the regular files, each counted once, as long
-- as that sum fits an int64.
pub directory_size-once :
    (ds : List DirEntry)
    → AllLinked ds
    → AllRead ds
    → once [] ds < 2 ^ 63
    → directory_size ds ≡ (pos (once [] ds), none)
unfolding directory_size
directory_size-once ds l r small =
    walk_dir-once [] (record { hard_links = []; size = pos 0 }) 0 ds l r (start ds) refl
      (omega (arith, small))
    ∙ ap (λ s. (pos s, none)) (omega arith)
  where
    start : (es : List DirEntry) → All (λ d. tracks [] [] d ≡ true) es
    start [] = tt
    start (e ∷ es) = (fresh e, start es)
