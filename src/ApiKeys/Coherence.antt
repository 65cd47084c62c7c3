-- ===== src/ApiKeys/Coherence.antt =====
-- Lookups, creations and uses of keys in protocube/auth/store.go keep the cache in agreement with the
-- rows of the database.
use sls.Shared.{
  ℕ, ◌==◌, ==_iff, ◌≡◌, refl, sym, ◌∙◌, subst, inl, inr, Bool, true, false, ◌&&◌, ◌+◌, ltb, Option,
  none, some, List, [], ◌∷◌, arith, if◌then◌else◌, Bool-cases, Option-cases,
}
use sls.Shared.Equality.{nat_eq, list_eq}
use sls.Shared.Table.{Table, lookup}
use sls.Shared.Text.{Text}
use sls.ApiKeys.{
  ApiKey, StoredKey, First, found, no_record, failed, found_key, Gorm, stored_key, CachedEntry,
  CachedStore, cached_by_id, use_first, find_by_prefix, find_by_id, create, get_by_prefix_db,
  cache_answer, check_entry, check_entry_by_id, get_by_prefix, get_by_id, used_entry,
  update_last_used,
}
use sls.ApiKeys.Rows.{
  View, Laws, HasRow, Coherent, Stays, Stays-same, HasRow-Stays, Coherent-Stays, Coherent-insert,
  Stays-new,
}

-- The first entry of a loop over the map is one of the map.
cached_by_id-HasRow :
    (v : View) (now id : ℕ) (order : List Text) (cache : Table Text CachedEntry) (e : CachedEntry)
    → Coherent v cache
    → cached_by_id now id order cache ≡ some e
    → HasRow v e.key.prefix e.key e.hash × (e.key.id ≡ id)
unfolding cached_by_id
cached_by_id-HasRow v now id [] cache e c h = cc
cached_by_id-HasRow v now id (p ∷ order) cache e c h = elim (Option-cases (lookup p cache)) [
  | inl missing ↦ cached_by_id-HasRow v now id order cache e c (rw (missing, cached_by_id) at h)
  | inr (f, at) ↦ elim (Bool-cases (f.key.id == id && ltb now f.expires)) [
    | inl hit ↦
        let e≡f : f ≡ e = ground (arith, rw (at, cached_by_id, hit) at h) in
        subst (λ x. HasRow v x.key.prefix x.key x.hash × (x.key.id ≡ id)) e≡f
          (own f (c p f at), (==_iff f.key.id id).0 (ground (arith, hit)))
    | inr miss ↦ cached_by_id-HasRow v now id order cache e c (rw (at, cached_by_id, miss) at h)
  ]
]
  where
    own : (f : CachedEntry) → HasRow v p f.key f.hash → HasRow v f.key.prefix f.key f.hash
    own f (r, at, rp, kp, rh, rv) = (r, at, rp ∙ sym kp, refl, rh, rv)

use_first-Coherent :
    (v : View) (f : CachedEntry → CachedEntry) (id : ℕ) (order : List Text)
    (cache : Table Text CachedEntry)
    → ((p : Text) (e : CachedEntry) → HasRow v p e.key e.hash → HasRow v p (f e).key (f e).hash)
    → Coherent v cache
    → Coherent v (use_first f id order cache)
unfolding use_first
use_first-Coherent v f id [] cache keeps c = c
use_first-Coherent v f id (p ∷ order) cache keeps c = elim (Option-cases (lookup p cache)) [
  | inl missing ↦ rw (missing, use_first) (use_first-Coherent v f id order cache keeps c)
  | inr (e, at) ↦ elim (Bool-cases (e.key.id == id)) [
    | inl hit ↦ rw (at, use_first, hit) (Coherent-insert v p (f e) cache (keeps p e (c p e at)) c)
    | inr miss ↦ rw (at, use_first, miss) (use_first-Coherent v f id order cache keeps c)
  ]
]

found_key-some :
    (a : First) (key : ApiKey) (hash : Text)
    → found_key a ≡ some (key, hash)
    → a ≡ found (record { key = key; hash = hash })
found_key-some (found sk) key hash h = cc
found_key-some no_record key hash h = cc
found_key-some failed key hash h = cc

module _ {D : Type 0} (g : Gorm D) (l : Laws g) where
  -- Every entry of the cache has its row in the database.
  abbrev pub IsCoherent : CachedStore D → Type 0
  IsCoherent s = Coherent (l.view s.db) s.cache

  find_by_prefix-Stays : (p : Text) (d : D) → Stays (l.view d) (l.view (find_by_prefix g p d).1)
  unfolding find_by_prefix
  find_by_prefix-Stays p d = Stays-same _ _ (l.first_prefix_keeps p d)

  find_by_prefix-HasRow :
      (p : Text) (d : D) (key : ApiKey) (hash : Text)
      → (find_by_prefix g p d).0 ≡ some (key, hash)
      → HasRow (l.view d) p key hash
  unfolding find_by_prefix
  find_by_prefix-HasRow p d key hash h =
      let a = found_key-some (g.first_prefix p d).0 key hash h in
      let (at, rp) = l.first_prefix_found p d (record { key = key; hash = hash }) a in
      (record { key = key; hash = hash }, at, rp, rp, refl, λ r. r)

  pub find_by_id-Stays : (i : ℕ) (d : D) → Stays (l.view d) (l.view (find_by_id g i d).1)
  unfolding find_by_id
  find_by_id-Stays i d = Stays-same _ _ (l.first_id_keeps i d)

  pub find_by_id-HasRow :
      (i : ℕ) (d : D) (key : ApiKey) (hash : Text)
      → (find_by_id g i d).0 ≡ some (key, hash)
      → HasRow (l.view d) key.prefix key hash × (key.id ≡ i)
  unfolding find_by_id
  find_by_id-HasRow i d key hash h =
      let a = found_key-some (g.first_id i d).0 key hash h in
      let (at, own) = l.first_id_found i d (record { key = key; hash = hash }) a in
      (
        (
          record { key = key; hash = hash },
          subst (λ j. l.view d j ≡ some (record { key = key; hash = hash })) (sym own) at,
          refl,
          refl,
          refl,
          λ r. r,
        ),
        own,
      )

  module _ (ttl now : ℕ) where
    pub create-IsCoherent :
        (key : ApiKey) (hash : Text) (s : CachedStore D)
        → IsCoherent s
        → IsCoherent (create g ttl now key hash s).1
    unfolding create
    create-IsCoherent key hash s c = elim (Bool-cases (g.create row s.db).0) [
      | inl ok ↦
          let (free, at) = l.create_ok row s.db ok in
          rw (ok, if◌then◌else◌)
            (Coherent-insert (l.view (g.create row s.db).1) key.prefix
              (record { key = key; hash = hash; expires = now + ttl }) s.cache
              (row, at key.id ∙ own key.id, refl, refl, refl, λ h. h)
              (Coherent-Stays (l.view s.db) _ s.cache (Stays-new _ _ key.id row free at) c))
      | inr err ↦
          rw (err, if◌then◌else◌)
            (Coherent-Stays (l.view s.db) _ s.cache
              (Stays-same _ _ λ j. l.create_err row s.db j err) c)
    ]
      where
        row : StoredKey
        row = stored_key key hash

        own : (i : ℕ) → (if i == i then some row else l.view s.db i) ≡ some row
        own i = ground (arith, ==_iff i i)

    -- A lookup finds a key that has its row, and the cache stays coherent.
    abbrev pub Finds : View → (ApiKey → Text) → Option (ApiKey × Text) × CachedStore D → Type 0
    Finds v p (none, s') = IsCoherent s'
    Finds v p (some (key, hash), s') = HasRow v (p key) key hash × IsCoherent s'

    Finds-if :
        (v : View) (p : ApiKey → Text) (b : Bool) (x y : Option (ApiKey × Text) × CachedStore D)
        → Finds v p x
        → Finds v p y
        → Finds v p (if b then x else y)
    Finds-if v p true x y fx fy = fx
    Finds-if v p false x y fx fy = fy

    cache_answer-Finds :
        (p : ApiKey → Text) (a : Option (ApiKey × Text)) (d : D) (s : CachedStore D)
        → Stays (l.view s.db) (l.view d)
        → ((key : ApiKey) (hash : Text)
            → a ≡ some (key, hash)
            → HasRow (l.view s.db) (p key) key hash)
        → IsCoherent s
        → Finds (l.view s.db) p (cache_answer g ttl now p (a, d) s)
    unfolding cache_answer
    cache_answer-Finds p none d s stays row c = Coherent-Stays _ _ s.cache stays c
    cache_answer-Finds p (some (key, hash)) d s stays row c = (
      row key hash refl,
      Coherent-insert _ (p key) (record { key = key; hash = hash; expires = now + ttl }) s.cache
          (HasRow-Stays _ _ (p key) key hash stays (row key hash refl))
          (Coherent-Stays _ _ s.cache stays c),
    )

    get_by_prefix_db-Finds :
        (p : Text) (s : CachedStore D)
        → IsCoherent s
        → Finds (l.view s.db) (λ key. p) (get_by_prefix_db g ttl now p s)
    unfolding get_by_prefix_db
    get_by_prefix_db-Finds p s c =
        cache_answer-Finds (λ key. p) (find_by_prefix g p s.db).0 (find_by_prefix g p s.db).1 s
          (find_by_prefix-Stays p s.db) (find_by_prefix-HasRow p s.db) c

    check_entry-Finds :
        (p : Text) (o : Option CachedEntry) (s : CachedStore D)
        → lookup p s.cache ≡ o
        → IsCoherent s
        → Finds (l.view s.db) (λ key. p) (check_entry g ttl now p o s)
    unfolding check_entry
    check_entry-Finds p none s at c = get_by_prefix_db-Finds p s c
    check_entry-Finds p (some e) s at c =
        Finds-if (l.view s.db) (λ key. p) (ltb now e.expires) (some (e.key, e.hash), s)
          (get_by_prefix_db g ttl now p s) (c p e at, c) (get_by_prefix_db-Finds p s c)

    pub get_by_prefix-Finds :
        (p : Text) (s : CachedStore D)
        → IsCoherent s
        → Finds (l.view s.db) (λ key. p) (get_by_prefix g ttl now p s)
    unfolding get_by_prefix
    get_by_prefix-Finds p s c = check_entry-Finds p (lookup p s.cache) s refl c

    check_entry_by_id-Finds :
        (id : ℕ) (o : Option CachedEntry) (s : CachedStore D)
        → ((e : CachedEntry) → o ≡ some e → HasRow (l.view s.db) e.key.prefix e.key e.hash)
        → IsCoherent s
        → Finds (l.view s.db) (λ key. key.prefix) (check_entry_by_id g ttl now id o s)
    unfolding check_entry_by_id
    check_entry_by_id-Finds id (some e) s row c = (row e refl, c)
    check_entry_by_id-Finds id none s row c =
        cache_answer-Finds (λ key. key.prefix) (find_by_id g id s.db).0 (find_by_id g id s.db).1 s
          (find_by_id-Stays id s.db) (λ key hash h. (find_by_id-HasRow id s.db key hash h).0) c

    pub Finds-IsCoherent :
        (v : View) (p : ApiKey → Text) (x : Option (ApiKey × Text) × CachedStore D)
        → Finds v p x
        → IsCoherent x.1
    Finds-IsCoherent v p (none, s) f = f
    Finds-IsCoherent v p (some (key, hash), s) f = f.1

    pub Finds-HasRow :
        (v : View) (p : ApiKey → Text) (x : Option (ApiKey × Text) × CachedStore D)
        → Finds v p x
        → (key : ApiKey) (hash : Text) → x.0 ≡ some (key, hash)
        → HasRow v (p key) key hash
    Finds-HasRow v p (none, s) f key hash h = cc
    Finds-HasRow v p (some (k, t), s) f key hash h =
        subst (λ x. HasRow v (p x.0) x.0 x.1) (same h) f.0
      where
        same :
            ◌≡◌ {A = Option (ApiKey × Text)} (some (k, t)) (some (key, hash))
            → ◌≡◌ {A = ApiKey × Text} (k, t) (key, hash)
        same e = cc

    pub get_by_id-IsCoherent :
        (order : List Text) (id : ℕ) (s : CachedStore D)
        → IsCoherent s
        → IsCoherent (get_by_id g ttl now order id s).1
    unfolding get_by_id
    get_by_id-IsCoherent order id s c =
        Finds-IsCoherent (l.view s.db) (λ key. key.prefix) _
          (check_entry_by_id-Finds id (cached_by_id now id order s.cache) s
            (λ e h. (cached_by_id-HasRow (l.view s.db) now id order s.cache e c h).0) c)

    pub update_last_used-IsCoherent :
        (order : List Text) (id : ℕ) (ip : Text) (s : CachedStore D)
        → IsCoherent s
        → IsCoherent (update_last_used g ttl now order id ip s).1
    unfolding update_last_used
    update_last_used-IsCoherent order id ip s c =
        elim (Bool-cases (g.updates_last_used id now ip s.db).0) [
          | inl ok ↦
              rw (ok, if◌then◌else◌)
                (use_first-Coherent _ (used_entry g ttl now ip) id order s.cache (λ p e h. h) c')
          | inr err ↦ rw (err, if◌then◌else◌) c'
        ]
      where
        c' : Coherent (l.view (g.updates_last_used id now ip s.db).1) s.cache
        c' = Coherent-Stays (l.view s.db) _ s.cache (l.last_used_renews id now ip s.db) c
