-- ===== src/ApiKeys/Examples/Database.antt =====
-- A table of rows as the database of protocube/auth/repository.go, with the laws of its calls.
use sls.Shared.{
  ℕ, ◌==◌, ==_iff, ◌≡◌, refl, sym, ◌∙◌, subst, ap, ◌⊎◌, inl, inr, Bool, true, false, ◌||◌, ◌&&◌,
  Option, none, some, [], ◌∷◌, arith, if◌then◌else◌, Bool-cases,
}
use sls.Shared.Equality.{nat_eq, list_eq, list_beq, list_beq_iff}
use sls.Shared.Table.{Table, lookup, insert, delete, lookup-insert, lookup-delete}
use sls.Shared.Text.{Text}
use sls.ApiKeys.{StoredKey, First, found, no_record, Gorm}
use sls.ApiKeys.Rows.{updated, Renews, Laws}

abbrev pub Rows : Type 0
Rows = Table ℕ StoredKey

abbrev pub merge : StoredKey → StoredKey → StoredKey
merge row r = record {
  key = record row.key {
    id = r.key.id;
    prefix = updated row.key.prefix r.key.prefix;
    revoked = row.key.revoked || r.key.revoked;
  };
  hash = updated row.hash r.hash;
}

abbrev pub use_row : ℕ → Text → StoredKey → StoredKey
use_row now ip r = record r { key = record r.key { last_used_at = some now; last_used_ip = ip } }

-- A write of the row that is there.
unfoldable pub rewrite_found : (StoredKey → StoredKey) → ℕ → Option StoredKey → Rows → Rows
rewrite_found f i none d = d
rewrite_found f i (some r) d = insert i (f r) d

abbrev pub rewrite_row : (StoredKey → StoredKey) → ℕ → Rows → Rows
rewrite_row f i d = rewrite_found f i (lookup i d) d

abbrev is_match : Text → ℕ → Option StoredKey → First → First
is_match p i none rest = rest
is_match p i (some r) rest = if list_beq r.key.prefix p && r.key.id == i then found r else rest

abbrev first_match : Text → Rows → Rows → First
first_match p d [] = no_record
first_match p d ((i, _) ∷ m) = is_match p i (lookup i d) (first_match p d m)

abbrev by_id : ℕ → Option StoredKey → First
by_id i none = no_record
by_id i (some r) = if r.key.id == i then found r else no_record

abbrev add_row : StoredKey → Option StoredKey → Rows → Bool × Rows
add_row k none d = (true, insert k.key.id k d)
add_row k (some r) d = (false, d)

abbrev pub table : Gorm Rows
table = record {
  create = λ k d. add_row k (lookup k.key.id d) d;
  first_prefix = λ p d. (first_match p d d, d);
  first_id = λ i d. (by_id i (lookup i d), d);
  find_owner = λ owner d. (some [], d);
  find_organization = λ org d. (some [], d);
  updates = λ i row d. (true, rewrite_row (merge row) i d);
  updates_last_used = λ i now ip d. (true, rewrite_row (use_row now ip) i d);
  delete_id = λ i d. (true, delete i d);
}

is_match-found :
    (p : Text) (i : ℕ) (o : Option StoredKey) (rest : First) (r : StoredKey)
    → is_match p i o rest ≡ found r
    → ((o ≡ some r) × (r.key.id ≡ i) × (r.key.prefix ≡ p)) ⊎ (rest ≡ found r)
is_match-found p i none rest r h = inr h
is_match-found p i (some x) rest r h =
    elim (Bool-cases (list_beq x.key.prefix p && x.key.id == i)) [
      | inl hit ↦
          let x≡r : x ≡ r = ground (arith, rw (hit, if◌then◌else◌) at h) in
          let own : x.key.id ≡ i = ground (arith, hit) in
          let at : x.key.prefix ≡ p = (list_beq_iff x.key.prefix p).0 (ground (arith, hit)) in
          inl
            (ap some x≡r, ap (λ y. y.key.id) (sym x≡r) ∙ own, ap (λ y. y.key.prefix) (sym x≡r) ∙ at)
      | inr miss ↦ inr (rw (miss, if◌then◌else◌) at h)
    ]

pub first_match-found :
    (p : Text) (d m : Rows) (r : StoredKey)
    → first_match p d m ≡ found r
    → (lookup r.key.id d ≡ some r) × (r.key.prefix ≡ p)
first_match-found p d [] r h = cc
first_match-found p d ((i, _) ∷ m) r h =
    elim (is_match-found p i (lookup i d) (first_match p d m) r h) [
      | inl (at, own, rp) ↦ (subst (λ j. lookup j d ≡ some r) (sym own) at, rp)
      | inr rest ↦ first_match-found p d m r rest
    ]

pub by_id-found :
    (i : ℕ) (o : Option StoredKey) (r : StoredKey)
    → by_id i o ≡ found r
    → (o ≡ some r) × (r.key.id ≡ i)
by_id-found i none r h = cc
by_id-found i (some x) r h = ground (arith, h)

pub rewrite_row-lookup :
    (f : StoredKey → StoredKey) (i : ℕ) (o : Option StoredKey) (d : Rows) (r : StoredKey)
    → o ≡ some r
    → lookup i (rewrite_found f i o d) ≡ some (f r)
unfolding rewrite_found
rewrite_row-lookup f i none d r at = cc
rewrite_row-lookup f i (some x) d r at =
    lookup-insert i i (f x) d ∙ ground (arith, ==_iff i i, ap (λ y. some (f y)) (same at))
  where
    same : some x ≡ some r → x ≡ r
    same e = cc

pub rewrite_row-others :
    (f : StoredKey → StoredKey) (i : ℕ) (o : Option StoredKey) (d : Rows) (j : ℕ)
    → (i == j) ≡ false
    → lookup j (rewrite_found f i o d) ≡ lookup j d
unfolding rewrite_found
rewrite_row-others f i none d j ne = refl
rewrite_row-others f i (some r) d j ne = lookup-insert i j (f r) d ∙ ground (arith, ne)

pub add_row-ok :
    (k : StoredKey) (o : Option StoredKey) (d : Rows)
    → (add_row k o d).0 ≡ true
    → (o ≡ none)
      × ((j : ℕ) → lookup j (add_row k o d).1 ≡ (if k.key.id == j then some k else lookup j d))
add_row-ok k none d h = (refl, λ j. lookup-insert k.key.id j k d)
add_row-ok k (some x) d h = cc

pub add_row-err :
    (k : StoredKey) (o : Option StoredKey) (d : Rows) (j : ℕ)
    → (add_row k o d).0 ≡ false
    → lookup j (add_row k o d).1 ≡ lookup j d
add_row-err k none d j h = cc
add_row-err k (some x) d j h = refl

unfoldable pub table_laws : Laws table
table_laws = record {
  view = λ d j. lookup j d;
  create_ok = λ k d ok. add_row-ok k (lookup k.key.id d) d ok;
  create_err = λ k d j err. add_row-err k (lookup k.key.id d) d j err;
  first_prefix_found = λ p d r h. first_match-found p d d r h;
  first_prefix_keeps = λ p d j. refl;
  first_id_found = λ i d r h. by_id-found i (lookup i d) r h;
  first_id_keeps = λ i d j. refl;
  updates_ok = λ i row d r ok at.
      (merge row r, rewrite_row-lookup (merge row) i (lookup i d) d r at, (refl, refl, refl));
  updates_others = λ i row d j ne. rewrite_row-others (merge row) i (lookup i d) d j ne;
  updates_err = λ i row d j err. cc;
  last_used_renews = λ i now ip d j r at. last_used i now ip d j r at;
  delete_ok = λ i d j ok. lookup-delete i j d;
  delete_err = λ i d j err. cc;
}
  where
    last_used :
        (i now : ℕ) (ip : Text) (d : Rows) (j : ℕ) (r : StoredKey)
        → lookup j d ≡ some r
        → (r' : StoredKey) × (lookup j (rewrite_row (use_row now ip) i d) ≡ some r') × Renews r r'
    last_used i now ip d j r at = elim (Bool-cases (i == j)) [
      | inl same ↦
          let e = (==_iff i j).0 same in
          (
            use_row now ip r,
            subst (λ x. lookup x (rewrite_row (use_row now ip) i d) ≡ some (use_row now ip r)) e
                (rewrite_row-lookup (use_row now ip) i (lookup i d) d r
                  (ap (λ x. lookup x d) e ∙ at)),
            (refl, refl, refl),
          )
      | inr other ↦
          (r, rewrite_row-others (use_row now ip) i (lookup i d) d j other ∙ at, (refl, refl, refl))
    ]
