-- ===== src/ApiKeys/Examples.antt =====
-- API keys in a database that is a table of rows: tests, and the theorems at concrete keys.
mod Database
use sls.Shared.{
  ℕ, ◌==◌, ==_iff, ◌≡◌, refl, sym, ◌∙◌, subst, ap, ◌≢◌, ◌⊎◌, inl, inr, Bool, true, false, ◌||◌,
  ◌&&◌, Option, none, some, List, [], ◌∷◌, arith, if◌then◌else◌, Bool-cases,
}
use sls.Shared.Equality.{nat_eq, list_eq, list_beq, list_beq_iff}
use sls.Shared.Table.{Table, lookup, insert, delete, lookup-insert, lookup-delete}
use sls.Shared.Text.{Text, codes}
use sls.ApiKeys.{
  ApiKey, StoredKey, First, found, no_record, failed, Gorm, CachedStore, StoreCall, creates,
  updates, new_cached_store, create, get_by_prefix, find_by_prefix, find_by_id, delete_found,
  delete_key, make_call, make_calls, cache_answer, check_entry, update, stored_key,
}
use sls.ApiKeys.Rows.{updated, Renews, Laws, HasRow}
use sls.ApiKeys.Coherence.{IsCoherent}
use sls.ApiKeys.Calls.{AllFit, make_calls-IsCoherent, make_calls-HasRow, delete_key-get_by_prefix}
use sls.ApiKeys.Examples.Database.{
  Rows, merge, use_row, rewrite_found, rewrite_row, table, table_laws,
}

abbrev some_key : ApiKey
some_key = record {
  id = 7;
  name = codes "node";
  prefix = codes "sls_ab";
  owner_id = 1;
  organization_id = none;
  scopes = codes "node" ∷ [];
  description = [];
  environment = codes "live";
  expires_at = none;
  last_used_at = none;
  last_used_ip = [];
  revoked = false;
  revoked_at = none;
  revoked_reason = [];
  metadata = [];
  created_at = 1;
  updated_at = 1;
}

abbrev some_hash : Text
some_hash = codes "x1"

abbrev revoked_key : ApiKey
revoked_key = record some_key { revoked = true; revoked_at = some 20 }

abbrev empty_store : CachedStore Rows
empty_store = new_cached_store table []

abbrev revokes : List (ℕ × StoreCall)
revokes = (10, creates some_key some_hash) ∷ (20, updates revoked_key) ∷ []

-- The lookup at the end is answered by the cache, with the revoked key.
finds_revoked :
    (get_by_prefix table 300 30 (codes "sls_ab") (make_calls table 300 revokes empty_store)).0
    ≡ some (revoked_key, some_hash)
unfolding make_calls make_call create update get_by_prefix check_entry lookup insert rewrite_found
finds_revoked = refl

first_row : StoredKey
first_row = stored_key some_key some_hash

revokes-AllFit : AllFit table table_laws 300 revokes empty_store
unfolding make_call create lookup insert table_laws first_row
revokes-AllFit = (tt, ((λ r h. keeps r h), tt))
  where
    keeps :
        (r : StoredKey)
        → some first_row ≡ some r
        → (r.key.prefix ≡ revoked_key.prefix) × (r.key.revoked ≡ true → true ≡ true)
    keeps r h = let e : first_row ≡ r = cc in (ap (λ x. x.key.prefix) (sym e), λ _. refl)

make_calls-HasRow_example :
    HasRow
      (table_laws.view (make_calls table 300 revokes empty_store).db)
      (codes "sls_ab")
      revoked_key
      some_hash
make_calls-HasRow_example =
    make_calls-HasRow table table_laws 300 [] revokes 30 (codes "sls_ab") revoked_key some_hash
      revokes-AllFit finds_revoked

abbrev other_key : ApiKey
other_key = record some_key { id = 8; prefix = codes "sls_cd" }

abbrev two_keys : CachedStore Rows
two_keys =
    make_calls table 300 ((10, creates some_key some_hash) ∷ (11, creates other_key some_hash) ∷ [])
      empty_store

two_keys-IsCoherent : IsCoherent table table_laws two_keys
unfolding lookup
two_keys-IsCoherent =
    make_calls-IsCoherent table table_laws 300 _ empty_store (tt, (tt, tt)) (λ p e h. cc)

deletes_found : (find_by_id table 7 two_keys.db).0 ≡ some (first_row.key, some_hash)
unfolding find_by_id make_calls make_call create lookup insert first_row
deletes_found = refl

deletes_ok : (delete_key table 7 two_keys).0 ≡ true
unfolding delete_key delete_found find_by_id make_calls make_call create lookup insert
deletes_ok = refl

other_stays :
    (get_by_prefix table 300 12 (codes "sls_cd") (delete_key table 7 two_keys).1).0
    ≡ some (other_key, some_hash)
unfolding delete_key delete_found find_by_id make_calls make_call create lookup insert delete
    get_by_prefix check_entry
other_stays = refl

abbrev deleted_id : ℕ
deleted_id = 7

delete_key-get_by_prefix_example : other_key.id ≢ deleted_id
delete_key-get_by_prefix_example =
    delete_key-get_by_prefix table table_laws 300 two_keys 7 12 (codes "sls_cd") first_row.key
      other_key some_hash some_hash two_keys-IsCoherent deletes_found deletes_ok other_stays

-- A database whose query fails: the deletion reports success and the key can still be looked up.
abbrev failing : Gorm Rows
failing = record table { first_id = λ i d. (failed, d) }

not_deleted :
    ((delete_key failing 7 two_keys).0 ≡ true)
    × ((get_by_prefix failing 300 12 (codes "sls_ab") (delete_key failing 7 two_keys).1).0
        ≡ some (some_key, some_hash))
unfolding delete_key delete_found find_by_id make_calls make_call create lookup insert get_by_prefix
    check_entry
not_deleted = (refl, refl)

-- A deletion between the query of a lookup and the write of its entry: the key that is deleted is
-- cached.
abbrev cold : CachedStore Rows
cold = record two_keys { cache = [] }

abbrev late_answer : Option (ApiKey × Text)
late_answer = (find_by_prefix table (codes "sls_ab") cold.db).0

abbrev after_deletion : CachedStore Rows
after_deletion = (delete_key table 7 cold).1

cached_after_deletion :
    (get_by_prefix table 300 12
      (codes "sls_ab")
      (cache_answer table 300 11
        (λ key. codes "sls_ab")
        (late_answer, after_deletion.db)
        after_deletion).1).0
    ≡ some (first_row.key, some_hash)
unfolding find_by_prefix delete_key delete_found find_by_id make_calls make_call create lookup
    insert delete get_by_prefix check_entry cache_answer first_row
cached_after_deletion = refl

-- An update that takes a revocation back reaches the cache and not the row.
abbrev taken_back : CachedStore Rows
taken_back =
    make_calls table 300 ((10, creates revoked_key some_hash) ∷ (20, updates some_key) ∷ [])
      empty_store

abbrev row_revoked : Option StoredKey → Bool
row_revoked none = false
row_revoked (some r) = r.key.revoked

still_revoked :
    (row_revoked (lookup 7 taken_back.db) ≡ true)
    × ((get_by_prefix table 300 30 (codes "sls_ab") taken_back).0 ≡ some (some_key, some_hash))
unfolding make_calls make_call create update lookup insert rewrite_found get_by_prefix check_entry
still_revoked = (refl, refl)
