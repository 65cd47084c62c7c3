-- ===== src/ApiKeys.antt =====
-- The API keys of the control plane: protocube/auth/repository.go, over the database, and the store
-- with a cache of protocube/auth/store.go. The operations of the database are a record, and so is
-- the key of the package apikey; a time is a number.
pub mod Rows
pub mod Coherence
pub mod Updates
pub mod Calls
mod Examples
use sls.Shared.{
  ℕ, ltb, ◌==◌, Bool, true, false, ◌&&◌, Option, none, some, List, [], ◌∷◌, ◌+◌, map, if◌then◌else◌,
}
use sls.Shared.Equality.{nat_eq, list_eq}
use sls.Shared.Table.{Table, lookup, insert, delete}
use sls.Shared.Text.{Text}

-- `apikey.APIKey`
pub record ApiKey : Type 0 where
  pub id : ℕ
  pub name : Text
  pub prefix : Text
  pub owner_id : ℕ
  pub organization_id : Option ℕ
  pub scopes : List Text
  pub description : Text
  pub environment : Text
  pub expires_at : Option ℕ
  pub last_used_at : Option ℕ
  pub last_used_ip : Text
  pub revoked : Bool
  pub revoked_at : Option ℕ
  pub revoked_reason : Text
  pub metadata : Table Text Text
  pub created_at : ℕ
  pub updated_at : ℕ

-- The fields of a key, and the hash.
pub record StoredKey : Type 0 where
  pub key : ApiKey
  pub hash : Text

-- The answer of `First`.
pub data First : Type 0 where
  found : StoredKey → First
  no_record failed : First

-- The calls of the database on the table of stored keys; a Boolean says whether the call succeeds.
pub record Gorm (D : Type 0) : Type 0 where
  pub create : StoredKey → D → Bool × D
  pub first_prefix : Text → D → First × D
  pub first_id : ℕ → D → First × D
  pub find_owner : ℕ → D → Option (List StoredKey) × D
  pub find_organization : ℕ → D → Option (List StoredKey) × D
  -- `Where("id = ?", id).Updates(row)`, with a struct and with the two columns of the last use.
  pub updates : ℕ → StoredKey → D → Bool × D
  pub updates_last_used : ℕ → ℕ → Text → D → Bool × D
  pub delete_id : ℕ → D → Bool × D

abbrev pub to_api_key : StoredKey → ApiKey
to_api_key sk = sk.key

-- The row that StoreKey writes; it does not take the time of the revocation.
abbrev pub stored_key : ApiKey → Text → StoredKey
stored_key key hash = record { key = record key { revoked_at = none }; hash = hash }

-- The row that UpdateKey passes to `Updates`.
abbrev pub update_row : ℕ → ApiKey → StoredKey
update_row now key = record {
  key = record key { id = 0; created_at = 0; updated_at = now };
  hash = [];
}

-- An entry of the cache.
pub record CachedEntry : Type 0 where
  pub key : ApiKey
  pub hash : Text
  pub expires : ℕ

-- `CachedStore`, with the database that it stands before.
pub record CachedStore (D : Type 0) : Type 0 where
  pub cache : Table Text CachedEntry
  pub db : D

-- The first entry of the key with this id that is not expired; the map is ranged over in the order
-- of the prefixes.
unfoldable pub cached_by_id : ℕ → ℕ → List Text → Table Text CachedEntry → Option CachedEntry
cached_by_id now id [] cache = none
cached_by_id now id (p ∷ order) cache =
    let rest = cached_by_id now id order cache in
    elim (lookup p cache) [
      | none ↦ rest
      | some e ↦ if e.key.id == id && ltb now e.expires then some e else rest
    ]

-- The loop of UpdateLastUsed ends at the first entry of the key.
unfoldable pub use_first :
    (CachedEntry → CachedEntry) → ℕ → List Text → Table Text CachedEntry → Table Text CachedEntry
use_first f id [] cache = cache
use_first f id (p ∷ order) cache =
    let rest = use_first f id order cache in
    elim (lookup p cache) [
      | none ↦ rest
      | some e ↦ if e.key.id == id then insert p (f e) cache else rest
    ]

-- Both an error of the query and a key that is not there are errors.
abbrev pub found_key : First → Option (ApiKey × Text)
found_key (found sk) = some (to_api_key sk, sk.hash)
found_key no_record = none
found_key failed = none

module _ {D : Type 0} (g : Gorm D) where
  unfoldable pub find_by_prefix : Text → D → Option (ApiKey × Text) × D
  find_by_prefix prefix d = let (answer, d') = g.first_prefix prefix d in (found_key answer, d')

  unfoldable pub find_by_id : ℕ → D → Option (ApiKey × Text) × D
  find_by_id id d = let (answer, d') = g.first_id id d in (found_key answer, d')

  -- A new store, over the database as it is.
  abbrev pub new_cached_store : D → CachedStore D
  new_cached_store d = record { cache = []; db = d }

  -- The time to live of an entry, and the time of the call.
  module _ (ttl : ℕ) (now : ℕ) where
    abbrev pub remember : Text → ApiKey → Text → CachedStore D → CachedStore D
    remember prefix key hash s = record s {
      cache = insert prefix (record { key = key; hash = hash; expires = now + ttl }) s.cache;
    }

    unfoldable pub create : ApiKey → Text → CachedStore D → Bool × CachedStore D
    create key hash s =
        let (ok, d) = g.create (stored_key key hash) s.db in
        if ok
        then (ok, remember key.prefix key hash (record s { db = d }))
        else (false, record s { db = d })

    -- What the query of the database has found is cached under the prefix.
    unfoldable pub cache_answer :
        (ApiKey → Text)
        → Option (ApiKey × Text) × D
        → CachedStore D
        → Option (ApiKey × Text) × CachedStore D
    cache_answer prefix (none, d) s = (none, record s { db = d })
    cache_answer prefix (some (key, hash), d) s =
        (some (key, hash), remember (prefix key) key hash (record s { db = d }))

    unfoldable pub get_by_prefix_db : Text → CachedStore D → Option (ApiKey × Text) × CachedStore D
    unfolding find_by_prefix cache_answer
    get_by_prefix_db prefix s = cache_answer (λ key. prefix) (find_by_prefix prefix s.db) s

    -- An entry that is not expired answers without the database.
    unfoldable pub check_entry :
        Text → Option CachedEntry → CachedStore D → Option (ApiKey × Text) × CachedStore D
    unfolding get_by_prefix_db
    check_entry prefix none s = get_by_prefix_db prefix s
    check_entry prefix (some e) s =
        if ltb now e.expires then (some (e.key, e.hash), s) else get_by_prefix_db prefix s

    unfoldable pub get_by_prefix : Text → CachedStore D → Option (ApiKey × Text) × CachedStore D
    unfolding check_entry
    get_by_prefix prefix s = check_entry prefix (lookup prefix s.cache) s

    unfoldable pub check_entry_by_id :
        ℕ → Option CachedEntry → CachedStore D → Option (ApiKey × Text) × CachedStore D
    unfolding find_by_id cache_answer
    check_entry_by_id id (some e) s = (some (e.key, e.hash), s)
    check_entry_by_id id none s = cache_answer (λ key. key.prefix) (find_by_id id s.db) s

    abbrev pub key_of : Option (ApiKey × Text) → Option ApiKey
    key_of none = none
    key_of (some (key, hash)) = some key

    unfoldable pub get_by_id : List Text → ℕ → CachedStore D → Option ApiKey × CachedStore D
    unfolding cached_by_id check_entry_by_id
    get_by_id order id s =
        let (answer, s') = check_entry_by_id id (cached_by_id now id order s.cache) s in
        (key_of answer, s')

    -- The entry of the updated key, if it is cached.
    abbrev pub update_entry :
        ApiKey → Option CachedEntry → Table Text CachedEntry → Table Text CachedEntry
    update_entry key none cache = cache
    update_entry key (some e) cache =
        if e.key.id == key.id
        then insert key.prefix (record e { key = key; expires = now + ttl }) cache
        else cache

    unfoldable pub update : ApiKey → CachedStore D → Bool × CachedStore D
    update key s =
        let (ok, d) = g.updates key.id (update_row now key) s.db in
        if ok
        then (ok, record { db = d; cache = update_entry key (lookup key.prefix s.cache) s.cache })
        else (false, record s { db = d })

    abbrev pub used_entry : Text → CachedEntry → CachedEntry
    used_entry ip e = record e {
      key = record e.key { last_used_at = some now; last_used_ip = ip };
      expires = now + ttl;
    }

    unfoldable pub update_last_used : List Text → ℕ → Text → CachedStore D → Bool × CachedStore D
    unfolding use_first
    update_last_used order id ip s =
        let (ok, d) = g.updates_last_used id now ip s.db in
        if ok
        then (ok, record { db = d; cache = use_first (used_entry ip) id order s.cache })
        else (false, record s { db = d })

  unfoldable pub delete_found :
      ℕ → Option (ApiKey × Text) × D → CachedStore D → Bool × CachedStore D
  -- Any error of the lookup is taken for a key that is not there.
  delete_found id (none, d) s = (true, record s { db = d })
  delete_found id (some (key, hash), d) s =
      let (ok, d') = g.delete_id id d in
      if ok
      then (ok, record { db = d'; cache = delete key.prefix s.cache })
      else (false, record s { db = d' })

  unfoldable pub delete_key : ℕ → CachedStore D → Bool × CachedStore D
  unfolding find_by_id delete_found
  delete_key id s = delete_found id (find_by_id id s.db) s

  abbrev pub list_keys : Option (List StoredKey) → Option (List ApiKey)
  list_keys none = none
  list_keys (some rows) = some (map to_api_key rows)

  unfoldable pub list_by_owner : ℕ → CachedStore D → Option (List ApiKey) × CachedStore D
  list_by_owner owner s =
      let (rows, d) = g.find_owner owner s.db in (list_keys rows, record s { db = d })

  unfoldable pub list_by_organization : ℕ → CachedStore D → Option (List ApiKey) × CachedStore D
  list_by_organization org s =
      let (rows, d) = g.find_organization org s.db in (list_keys rows, record s { db = d })

-- A call of the store, made at a time; the loops over the map of a call have an order.
pub data StoreCall : Type 0 where
  creates : ApiKey → Text → StoreCall
  looks_up : Text → StoreCall
  looks_up_id : List Text → ℕ → StoreCall
  updates : ApiKey → StoreCall
  uses : List Text → ℕ → Text → StoreCall
  deletes : ℕ → StoreCall

module _ {D : Type 0} (g : Gorm D) (ttl : ℕ) where
  unfoldable pub make_call : ℕ × StoreCall → CachedStore D → CachedStore D
  unfolding create get_by_prefix get_by_id update update_last_used delete_key
  make_call (now, creates key hash) s = (create g ttl now key hash s).1
  make_call (now, looks_up prefix) s = (get_by_prefix g ttl now prefix s).1
  make_call (now, looks_up_id order id) s = (get_by_id g ttl now order id s).1
  make_call (now, updates key) s = (update g ttl now key s).1
  make_call (now, uses order id ip) s = (update_last_used g ttl now order id ip s).1
  make_call (now, deletes id) s = (delete_key g id s).1

  unfoldable pub make_calls : List (ℕ × StoreCall) → CachedStore D → CachedStore D
  unfolding make_call
  make_calls [] s = s
  make_calls (c ∷ cs) s = make_calls cs (make_call c s)
