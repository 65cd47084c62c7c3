-- ===== src/ApiKeys/Updates.antt =====
-- Updates and deletions of keys in protocube/auth/store.go keep the cache coherent.
use sls.Shared.{
  ℕ, ◌==◌, ==_iff, ◌≡◌, refl, ◌≢◌, sym, ◌∙◌, subst, ap, inl, inr, Bool, true, false, ◌||◌, ◌+◌,
  Option, none, some, [], ◌∷◌, arith, if◌then◌else◌, Bool-cases,
}
use sls.Shared.Equality.{nat_eq, list_eq}
use sls.Shared.Table.{Table, lookup, lookup-insert_inv, lookup-delete_inv}
use sls.Shared.Text.{Text}
use sls.ApiKeys.{
  ApiKey, StoredKey, Gorm, update_row, CachedEntry, CachedStore, find_by_id, update, update_entry,
  delete_found, delete_key,
}
use sls.ApiKeys.Rows.{View, updated, Laws, HasRow, Coherent, Coherent-Stays, Stays-same}
use sls.ApiKeys.Coherence.{IsCoherent, find_by_id-HasRow}

-- The update neither moves the key to another prefix nor takes its revocation back.
abbrev pub Fits : View → ApiKey → Type 0
Fits v key =
    (r : StoredKey)
    → v key.id ≡ some r
    → (r.key.prefix ≡ key.prefix) × (r.key.revoked ≡ true → key.revoked ≡ true)

updated_self : (t : Text) → updated t t ≡ t
updated_self [] = refl
updated_self (c ∷ t) = refl

module _ (v v' : View) (key : ApiKey) (fits : Fits v key)
    (others : (j : ℕ) → (key.id == j) ≡ false → v' j ≡ v j) where
  -- An entry of the key is the one under its prefix.
  entry_prefix :
      (q : Text) (f : CachedEntry) → HasRow v q f.key f.hash → f.key.id ≡ key.id → q ≡ key.prefix
  entry_prefix q f (r, at, rp, kp, rh, rv) same =
      sym rp ∙ (fits r (subst (λ j. v j ≡ some r) same at)).0

  other_row :
      (q : Text) (f : CachedEntry)
      → HasRow v q f.key f.hash
      → (key.id == f.key.id) ≡ false
      → HasRow v' q f.key f.hash
  other_row q f (r, at, rp, kp, rh, rv) ne = (r, others f.key.id ne ∙ at, rp, kp, rh, rv)

  -- The entries under other prefixes are of other keys.
  other_prefix :
      (q : Text) (f : CachedEntry)
      → HasRow v q f.key f.hash
      → q ≢ key.prefix
      → HasRow v' q f.key f.hash
  other_prefix q f row ne = elim (Bool-cases (key.id == f.key.id)) [
    | inl same ↦ absurd (ne (entry_prefix q f row (sym ((==_iff key.id f.key.id).0 same))))
    | inr other ↦ other_row q f row other
  ]

  update_entry-Coherent :
      {D : Type 0} (g : Gorm D) (ttl now : ℕ) (o : Option CachedEntry)
      (cache : Table Text CachedEntry)
      → lookup key.prefix cache ≡ o
      → ((hash : Text)
          → HasRow v key.prefix (record key { revoked = true }) hash
          → HasRow v' key.prefix key hash)
      → Coherent v cache
      → Coherent v' (update_entry g ttl now key o cache)
  update_entry-Coherent g ttl now none cache at moves c =
      λ q f h. other_prefix q f (c q f h) λ same. not_there q f same h
    where
      not_there : (q : Text) (f : CachedEntry) → q ≡ key.prefix → lookup q cache ≡ some f → ⊥
      not_there q f same h =
          let h' : lookup key.prefix cache ≡ some f = subst (λ p. lookup p cache ≡ some f) same h in
          cc
  update_entry-Coherent g ttl now (some e) cache at moves c =
      elim (Bool-cases (e.key.id == key.id)) [
        | inl hit ↦
            rw (hit, if◌then◌else◌)
              λ q f h. elim (lookup-insert_inv key.prefix q e' cache h) [
                | inl (same, e≡f) ↦
                    subst (λ x. HasRow v' x.0 x.1.key x.1.hash) (pair q f same e≡f)
                      (moves e.hash (own ((==_iff e.key.id key.id).0 hit) (c key.prefix e at)))
                | inr (ne, old) ↦ other_prefix q f (c q f old) λ same. ne (sym same)
              ]
        | inr miss ↦
            rw (miss, if◌then◌else◌)
              λ q f h. elim (Bool-cases (key.id == f.key.id)) [
                | inl same ↦
                    let id = sym ((==_iff key.id f.key.id).0 same) in
                    absurd (differs q f miss id (entry_prefix q f (c q f h) id) h)
                | inr other ↦ other_row q f (c q f h) other
              ]
      ]
    where
      e' : CachedEntry
      e' = record e { key = key; expires = now + ttl }

      pair :
          (q : Text) (f : CachedEntry)
          → key.prefix ≡ q
          → e' ≡ f
          → ◌≡◌ {A = Text × CachedEntry} (key.prefix, e') (q, f)
      pair q f a b = cc

      own :
          e.key.id ≡ key.id
          → HasRow v key.prefix e.key e.hash
          → HasRow v key.prefix (record key { revoked = true }) e.hash
      own same (r, there, rp, kp, rh, rv) =
          (r, subst (λ j. v j ≡ some r) same there, rp, refl, rh, λ x. refl)

      differs :
          (q : Text) (f : CachedEntry)
          → (e.key.id == key.id) ≡ false
          → f.key.id ≡ key.id
          → q ≡ key.prefix
          → lookup q cache ≡ some f
          → ⊥
      differs q f miss id same h =
          let h' : lookup key.prefix cache ≡ some f = subst (λ p. lookup p cache ≡ some f) same h in
          let e≡f : e ≡ f = cc in
          let id' : e.key.id ≡ key.id = ap (λ x. x.key.id) e≡f ∙ id in ground (arith, miss, id')

module _ {D : Type 0} (g : Gorm D) (l : Laws g) where
  pub update-IsCoherent :
      (ttl now : ℕ) (key : ApiKey) (s : CachedStore D)
      → Fits (l.view s.db) key
      → IsCoherent g l s
      → IsCoherent g l (update g ttl now key s).1
  unfolding update
  update-IsCoherent ttl now key s fits c =
      elim (Bool-cases (g.updates key.id (update_row now key) s.db).0) [
        | inl ok ↦
            rw (ok, if◌then◌else◌)
              (update_entry-Coherent (l.view s.db) _ key fits
                (λ j ne. l.updates_others key.id (update_row now key) s.db j ne) g ttl now
                (lookup key.prefix s.cache) s.cache refl (moves ok) c)
        | inr err ↦
            rw (err, if◌then◌else◌)
              (Coherent-Stays _ _ s.cache
                (Stays-same _ _ λ j. l.updates_err key.id (update_row now key) s.db j err) c)
      ]
    where
      revoked : (a b : Bool) → (b ≡ true → a ≡ true) → a || b ≡ true → a ≡ true
      revoked true b f h = refl
      revoked false b f h = f h

      moves :
          (g.updates key.id (update_row now key) s.db).0 ≡ true
          → (hash : Text) → HasRow (l.view s.db) key.prefix (record key { revoked = true }) hash
          → HasRow (l.view (g.updates key.id (update_row now key) s.db).1) key.prefix key hash
      moves ok hash (r, at, rp, kp, rh, rv) =
          let (r', at', (ep, eh, ev)) = l.updates_ok key.id (update_row now key) s.db r ok at in
          (
            r',
            at',
            ep ∙ ap (updated key.prefix) rp ∙ updated_self key.prefix,
            refl,
            eh ∙ rh,
            λ h. revoked key.revoked r.key.revoked (fits r at).1 (sym ev ∙ h),
          )

  -- What is left in the cache is of other keys, and those keep their rows.
  delete_found-IsCoherent :
      (id : ℕ) (o : Option (ApiKey × Text)) (d : D) (s : CachedStore D)
      → ((key : ApiKey) (hash : Text)
          → o ≡ some (key, hash)
          → HasRow (l.view s.db) key.prefix key hash × (key.id ≡ id))
      → ((j : ℕ) → l.view d j ≡ l.view s.db j)
      → IsCoherent g l s
      → IsCoherent g l (delete_found g id (o, d) s).1
  unfolding delete_found
  delete_found-IsCoherent id none d s row same c =
      Coherent-Stays _ _ s.cache (Stays-same _ _ same) c
  delete_found-IsCoherent id (some (key, hash)) d s row same c =
      elim (Bool-cases (g.delete_id id d).0) [
        | inl ok ↦
            rw (ok, if◌then◌else◌)
              λ q f h.
                let (ne, old) = lookup-delete_inv key.prefix q s.cache h in
                kept q f ok ne (row key hash refl) (c q f old)
        | inr err ↦
            rw (err, if◌then◌else◌)
              (Coherent-Stays _ _ s.cache (Stays-same _ _ λ j. l.delete_err id d j err ∙ same j) c)
      ]
    where
      same_row : (r k : StoredKey) → l.view s.db id ≡ some r → l.view s.db id ≡ some k → r ≡ k
      same_row r k a b = cc

      at_other : (j : ℕ) → (id == j) ≡ false → (if id == j then none else l.view d j) ≡ l.view d j
      at_other j ne = ground (arith, ne)

      kept :
          (q : Text) (f : CachedEntry)
          → (g.delete_id id d).0 ≡ true
          → key.prefix ≢ q
          → HasRow (l.view s.db) key.prefix key hash × (key.id ≡ id)
          → HasRow (l.view s.db) q f.key f.hash
          → HasRow (l.view (g.delete_id id d).1) q f.key f.hash
      kept q f ok ne ((k, kat, kp, _, _, _), kid) (r, at, rp, fp, rh, rv) =
          elim (Bool-cases (id == f.key.id)) [
            | inl hit ↦
                let e = sym ((==_iff id f.key.id).0 hit) in
                let r≡k =
                  same_row r k (subst (λ j. l.view s.db j ≡ some r) e at)
                    (subst (λ j. l.view s.db j ≡ some k) kid kat) in
                absurd (ne (sym kp ∙ ap (λ x. x.key.prefix) (sym r≡k) ∙ rp))
            | inr other ↦ (
              r,
              l.delete_ok id d f.key.id ok ∙ at_other f.key.id other ∙ same f.key.id ∙ at,
              rp,
              fp,
              rh,
              rv,
            )
          ]

  pub delete_key-IsCoherent :
      (id : ℕ) (s : CachedStore D) → IsCoherent g l s → IsCoherent g l (delete_key g id s).1
  unfolding delete_key find_by_id
  delete_key-IsCoherent id s c =
      delete_found-IsCoherent id (find_by_id g id s.db).0 (find_by_id g id s.db).1 s
        (find_by_id-HasRow g l id s.db) (l.first_id_keeps id s.db) c
