-- ===== src/TextFile/Lines.antt =====
-- What parseTextFile of daemon/parser/parser.go writes, when it is run again.
use sls.Shared.{
  ◌≡◌, refl, ◌⊎◌, suc, length, true, false, List, [], ◌∷◌, ◌++◌, append-nil, append_assoc, ap, sym,
  ◌∙◌, ◌==◌, Bool, map, if◌then◌else◌, All, All-append, All-append_inv, subst, inl, inr,
}
use sls.Shared.Text.{Text, Lacks}
use sls.Shared.Text.Affixes.{has_prefix, trim_suffix_char-cases}
use sls.TextFile.{
  Replacement, replace_line, written_or, drop_cr, scan_from, written_line, write_lines,
  parse_text_file,
}

-- No replacement of the list matches the line.
abbrev pub NoneMatches : List Replacement → Text → Type 0
NoneMatches rs line = All (λ r. has_prefix r.match line ≡ false) rs

-- One replacement matches the line, and no other.
pub record OnlyOne (rs : List Replacement) (line : Text) (r : Replacement) : Type 0 where
  pub before : List Replacement
  pub after : List Replacement
  pub is_between : rs ≡ before ++ r ∷ after
  pub matches : has_prefix r.match line ≡ true
  pub not_before : NoneMatches before line
  pub not_after : NoneMatches after line

replace_line-none :
    (rs : List Replacement) (line : Text) → NoneMatches rs line → replace_line rs line ≡ ([], false)
unfolding replace_line
replace_line-none [] line h = refl
replace_line-none (r ∷ rs) line (h, hs) = rw (h, replace_line-none rs line hs, if◌then◌else◌) refl

replace_line-one :
    (before after : List Replacement) (r : Replacement) (line : Text)
    → has_prefix r.match line ≡ true
    → NoneMatches before line
    → NoneMatches after line
    → replace_line (before ++ r ∷ after) line ≡ (r.replace_with, true)
unfolding replace_line
replace_line-one [] after r line h b a =
    rw (h, replace_line-none after line a, if◌then◌else◌, append-nil r.replace_with) refl
replace_line-one (q ∷ before) after r line h (n, b) a =
    rw (n, replace_line-one before after r line h b a, if◌then◌else◌) refl

OnlyOne-replace_line :
    (rs : List Replacement) (line : Text) (r : Replacement)
    → OnlyOne rs line r
    → replace_line rs line ≡ (r.replace_with, true)
OnlyOne-replace_line rs line r o =
    rw (o.is_between) (replace_line-one o.before o.after r line o.matches o.not_before o.not_after)

-- A line that a scanner gives back as it was written.
record IsLine (line : Text) : Type 0 where
  no_break : Lacks 10 line
  no_return : drop_cr line ≡ line

scan_from-append :
    (cur line rest : Text)
    → Lacks 10 line
    → scan_from cur (line ++ 10 ∷ rest) ≡ drop_cr (cur ++ line) ∷ scan_from [] rest
unfolding scan_from
scan_from-append cur [] rest h = rw append-nil
scan_from-append cur (c ∷ line) rest (h, hs) =
    rw (h, if◌then◌else◌)
      (scan_from-append (cur ++ c ∷ []) line rest hs
        ∙ ap (λ t. drop_cr t ∷ scan_from [] rest) (append_assoc cur (c ∷ []) line))

scan_from-write_lines :
    (lines : List Text) → All IsLine lines → scan_from [] (write_lines lines) ≡ lines
unfolding write_lines
scan_from-write_lines [] h = unfold scan_from in refl
scan_from-write_lines (line ∷ lines) (h, hs) =
    scan_from-append [] line (write_lines lines) h.no_break
    ∙ ap (λ t. t ∷ scan_from [] (write_lines lines)) h.no_return
    ∙ ap (◌∷◌ line) (scan_from-write_lines lines hs)

drop_cr-Lacks : (line : Text) → Lacks 10 line → Lacks 10 (drop_cr line)
drop_cr-Lacks line h = elim (trim_suffix_char-cases 13 line) [
  | inl same ↦ subst (Lacks 10) (sym same) h
  | inr cut ↦
      (All-append_inv (λ c. (c == 10) ≡ false) (drop_cr line) (13 ∷ []) (subst (Lacks 10) cut h)).0
]

-- What the scanner gives has no line break.
scan_from-Lacks : (cur s : Text) → Lacks 10 cur → All (Lacks 10) (scan_from cur s)
unfolding scan_from
scan_from-Lacks [] [] h = tt
scan_from-Lacks (c ∷ line) [] h = (drop_cr-Lacks (c ∷ line) h, tt)
scan_from-Lacks cur (c ∷ s) h = by_test (c == 10) refl (scan_from-Lacks [] s tt) (λ other.
    scan_from-Lacks (cur ++ c ∷ []) s
      (All-append (λ c. (c == 10) ≡ false) cur (c ∷ []) h (other, tt)))
  where
    by_test :
        (b : Bool)
        → (c == 10) ≡ b
        → All (Lacks 10) (scan_from [] s)
        → ((c == 10) ≡ false → All (Lacks 10) (scan_from (cur ++ c ∷ []) s))
        → All (Lacks 10) (if b then drop_cr cur ∷ scan_from [] s else scan_from (cur ++ c ∷ []) s)
    by_test true e ended longer = (drop_cr-Lacks cur h, ended)
    by_test false e ended longer = longer e

-- No replacement matches the line, which does not end with a carriage return, or one does, and that
-- one matches its own value, as no other does, and the value is one line.
abbrev pub IsClear : List Replacement → Text → Type 0
IsClear rs line =
    NoneMatches rs line × (drop_cr line ≡ line)
    ⊎ ((r : Replacement) × OnlyOne rs line r
        × OnlyOne rs r.replace_with r
        × Lacks 10 r.replace_with
        × (drop_cr r.replace_with ≡ r.replace_with))

written_line-again :
    (rs : List Replacement) (line : Text)
    → Lacks 10 line
    → IsClear rs line
    → IsLine (written_line rs line)
      × (written_line rs (written_line rs line) ≡ written_line rs line)
unfolding written_line
written_line-again rs line h (inl (none, last)) = rw (replace_line-none rs line none) (
  record { no_break = h; no_return = last },
  ap (written_or line) (replace_line-none rs line none),
)
written_line-again rs line h (inr (r, o, own, break, last)) =
    rw (OnlyOne-replace_line rs line r o) (
      record { no_break = break; no_return = last },
      ap (written_or r.replace_with) (OnlyOne-replace_line rs r.replace_with r own),
    )

map-again :
    (rs : List Replacement) (lines : List Text)
    → All (Lacks 10) lines
    → All (IsClear rs) lines
    → All IsLine (map (written_line rs) lines)
      × (map (written_line rs) (map (written_line rs) lines) ≡ map (written_line rs) lines)
map-again rs [] b h = (tt, refl)
map-again rs (line ∷ lines) (b, bs) (h, hs) =
    let (is_line, same) = written_line-again rs line b h in
    let (are_lines, rest) = map-again rs lines bs hs in ((is_line, are_lines), ap2 same rest)
  where
    ap2 : {a b : Text} {xs ys : List Text} → a ≡ b → xs ≡ ys → ◌≡◌ {A = List Text} (a ∷ xs) (b ∷ ys)
    ap2 e f = cc

length-map_written :
    (rs : List Replacement) (lines : List Text)
    → length (map (written_line rs) lines) ≡ length lines
length-map_written rs [] = refl
length-map_written rs (line ∷ lines) = ap suc (length-map_written rs lines)

-- With replacements of which at most one matches a line of the file, whose values are one line that
-- does not end with a carriage return and are matched by their own replacement alone, and with no
-- other line that ends with two carriage returns: the file that is written has as many lines, and
-- writing it again with the same replacements changes nothing.
pub parse_text_file-again :
    (rs : List Replacement) (file : Text)
    → All (IsClear rs) (scan_from [] file)
    → (length (scan_from [] (parse_text_file rs file)) ≡ length (scan_from [] file))
      × (parse_text_file rs (parse_text_file rs file) ≡ parse_text_file rs file)
unfolding parse_text_file
parse_text_file-again rs file h =
    let lines = scan_from [] file in
    let (are_lines, same) = map-again rs lines (scan_from-Lacks [] file tt) h in
    let scanned = scan_from-write_lines (map (written_line rs) lines) are_lines in
    (
      ap length scanned ∙ length-map_written rs lines,
      ap (λ ls. write_lines (map (written_line rs) ls)) scanned ∙ ap write_lines same,
    )
