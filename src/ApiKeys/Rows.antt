-- ===== src/ApiKeys/Rows.antt =====
-- The rows of the database of protocube/auth/repository.go, what its calls do to them, and what an
-- entry of the cache of store.go relies on.
use sls.Shared.{
  ℕ, ◌==◌, ==_iff, ◌≡◌, refl, sym, ◌∙◌, subst, inl, inr, true, false, ◌||◌, Option, none, some, [],
  ◌∷◌, if◌then◌else◌, Bool-cases,
}
use sls.Shared.Equality.{nat_eq, list_eq}
use sls.Shared.Table.{Table, lookup, insert, lookup-insert_inv}
use sls.Shared.Text.{Text}
use sls.ApiKeys.{ApiKey, StoredKey, found, Gorm, CachedEntry}

-- The row under each id.
abbrev pub View : Type 0
View = ℕ → Option StoredKey

-- A row that another one takes the place of, when the key is not updated.
abbrev pub Renews : StoredKey → StoredKey → Type 0
Renews r r' = (r'.key.prefix ≡ r.key.prefix) × (r'.hash ≡ r.hash) × (r'.key.revoked ≡ r.key.revoked)

-- `Updates` with a struct skips the fields that are zero.
abbrev pub updated : Text → Text → Text
updated [] old = old
updated (c ∷ new) old = c ∷ new

abbrev pub Updates : StoredKey → StoredKey → StoredKey → Type 0
Updates row r r' =
    (r'.key.prefix ≡ updated row.key.prefix r.key.prefix)
    × (r'.hash ≡ updated row.hash r.hash)
    × (r'.key.revoked ≡ row.key.revoked || r.key.revoked)

-- What the calls of the database do to the rows. A call that fails leaves them as they are.
pub record Laws {D : Type 0} (g : Gorm D) : Type 0 where
  pub view : D → View
  pub create_ok :
      (k : StoredKey) (d : D)
      → (g.create k d).0 ≡ true
      → (view d k.key.id ≡ none)
        × ((j : ℕ) → view (g.create k d).1 j ≡ (if k.key.id == j then some k else view d j))
  pub create_err :
      (k : StoredKey) (d : D) (j : ℕ)
      → (g.create k d).0 ≡ false
      → view (g.create k d).1 j ≡ view d j
  pub first_prefix_found :
      (p : Text) (d : D) (r : StoredKey)
      → (g.first_prefix p d).0 ≡ found r
      → (view d r.key.id ≡ some r) × (r.key.prefix ≡ p)
  pub first_prefix_keeps : (p : Text) (d : D) (j : ℕ) → view (g.first_prefix p d).1 j ≡ view d j
  pub first_id_found :
      (i : ℕ) (d : D) (r : StoredKey)
      → (g.first_id i d).0 ≡ found r
      → (view d i ≡ some r) × (r.key.id ≡ i)
  pub first_id_keeps : (i : ℕ) (d : D) (j : ℕ) → view (g.first_id i d).1 j ≡ view d j
  pub updates_ok :
      (i : ℕ) (row : StoredKey) (d : D) (r : StoredKey)
      → (g.updates i row d).0 ≡ true
      → view d i ≡ some r
      → (r' : StoredKey) × (view (g.updates i row d).1 i ≡ some r') × Updates row r r'
  pub updates_others :
      (i : ℕ) (row : StoredKey) (d : D) (j : ℕ)
      → (i == j) ≡ false
      → view (g.updates i row d).1 j ≡ view d j
  pub updates_err :
      (i : ℕ) (row : StoredKey) (d : D) (j : ℕ)
      → (g.updates i row d).0 ≡ false
      → view (g.updates i row d).1 j ≡ view d j
  pub last_used_renews :
      (i now : ℕ) (ip : Text) (d : D) (j : ℕ) (r : StoredKey)
      → view d j ≡ some r
      → (r' : StoredKey) × (view (g.updates_last_used i now ip d).1 j ≡ some r') × Renews r r'
  pub delete_ok :
      (i : ℕ) (d : D) (j : ℕ)
      → (g.delete_id i d).0 ≡ true
      → view (g.delete_id i d).1 j ≡ (if i == j then none else view d j)
  pub delete_err :
      (i : ℕ) (d : D) (j : ℕ) → (g.delete_id i d).0 ≡ false → view (g.delete_id i d).1 j ≡ view d j

-- The row of a key with this hash under this prefix, which is revoked only if the key says so.
abbrev pub HasRow : View → Text → ApiKey → Text → Type 0
HasRow v p key hash =
    (r : StoredKey) × (v key.id ≡ some r)
    × (r.key.prefix ≡ p)
    × (key.prefix ≡ p)
    × (r.hash ≡ hash)
    × (r.key.revoked ≡ true → key.revoked ≡ true)

abbrev pub Coherent : View → Table Text CachedEntry → Type 0
Coherent v cache = (p : Text) (e : CachedEntry) → lookup p cache ≡ some e → HasRow v p e.key e.hash

-- Rows that are there stay, with what the cache relies on.
abbrev pub Stays : View → View → Type 0
Stays v v' =
    (j : ℕ) (r : StoredKey) → v j ≡ some r → (r' : StoredKey) × (v' j ≡ some r') × Renews r r'

pub Stays-same : (v v' : View) → ((j : ℕ) → v' j ≡ v j) → Stays v v'
Stays-same v v' same j r h = (r, same j ∙ h, (refl, refl, refl))

pub HasRow-Stays :
    (v v' : View) (p : Text) (key : ApiKey) (hash : Text)
    → Stays v v'
    → HasRow v p key hash
    → HasRow v' p key hash
HasRow-Stays v v' p key hash stays (r, at, rp, kp, rh, rv) =
    let (r', at', (ep, eh, ev)) = stays key.id r at in
    (r', at', ep ∙ rp, kp, eh ∙ rh, λ h. rv (sym ev ∙ h))

pub Coherent-Stays :
    (v v' : View) (cache : Table Text CachedEntry)
    → Stays v v'
    → Coherent v cache
    → Coherent v' cache
Coherent-Stays v v' cache stays c p e h = HasRow-Stays v v' p e.key e.hash stays (c p e h)

-- A write of an entry that has its row.
pub Coherent-insert :
    (v : View) (p : Text) (e : CachedEntry) (cache : Table Text CachedEntry)
    → HasRow v p e.key e.hash
    → Coherent v cache
    → Coherent v (insert p e cache)
Coherent-insert v p e cache new c q f h = elim (lookup-insert_inv p q e cache h) [
  | inl (same, e≡f) ↦ subst (λ x. HasRow v x.0 x.1.key x.1.hash) (pair same e≡f) new
  | inr (_, old) ↦ c q f old
]
  where
    pair : p ≡ q → e ≡ f → ◌≡◌ {A = Text × CachedEntry} (p, e) (q, f)
    pair a b = cc

pub Stays-new :
    (v v' : View) (i : ℕ) (row : StoredKey)
    → v i ≡ none
    → ((j : ℕ) → v' j ≡ (if i == j then some row else v j))
    → Stays v v'
Stays-new v v' i row free at j r h = elim (Bool-cases (i == j)) [
  | inl same ↦ absurd (not_there ((==_iff i j).0 same))
  | inr other ↦ (r, rw (other, if◌then◌else◌) at (at j) ∙ h, (refl, refl, refl))
]
  where
    not_there : i ≡ j → ⊥
    not_there e = let free' : v j ≡ none = subst (λ k. v k ≡ none) e free in cc
