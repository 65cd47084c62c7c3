-- ===== src/ApiKeys/Calls.antt =====
-- Histories of calls of the store of protocube/auth/store.go: what a lookup finds at their end.
use sls.Shared.{
  ℕ, ==_iff, ◌≡◌, ◌≢◌, sym, ◌∙◌, subst, inl, inr, true, Option, none, some, List, [], ◌∷◌, arith,
  if◌then◌else◌, Bool-cases,
}
use sls.Shared.Table.{lookup}
use sls.Shared.Text.{Text}
use sls.ApiKeys.{
  ApiKey, Gorm, CachedStore, StoreCall, creates, looks_up, looks_up_id, updates, uses, deletes,
  new_cached_store, make_call, make_calls, get_by_prefix, find_by_id, delete_found, delete_key,
}
use sls.ApiKeys.Rows.{Laws, HasRow}
use sls.ApiKeys.Coherence.{
  IsCoherent, create-IsCoherent, get_by_prefix-Finds, Finds-HasRow, Finds-IsCoherent,
  get_by_id-IsCoherent, update_last_used-IsCoherent,
}
use sls.ApiKeys.Updates.{Fits, update-IsCoherent, delete_key-IsCoherent}

module _ {D : Type 0} (g : Gorm D) (l : Laws g) (ttl : ℕ) where
  -- Each update of a key keeps its prefix and its revocation.
  abbrev pub CallFits : ℕ × StoreCall → CachedStore D → Type 0
  CallFits (now, updates key) s = Fits (l.view s.db) key
  CallFits _ s = Unit

  abbrev pub AllFit : List (ℕ × StoreCall) → CachedStore D → Type 0
  AllFit [] s = Unit
  AllFit (c ∷ cs) s = CallFits c s × AllFit cs (make_call g ttl c s)

  make_call-IsCoherent :
      (c : ℕ × StoreCall) (s : CachedStore D)
      → CallFits c s
      → IsCoherent g l s
      → IsCoherent g l (make_call g ttl c s)
  unfolding make_call
  make_call-IsCoherent (now, creates key hash) s fits c = create-IsCoherent g l ttl now key hash s c
  make_call-IsCoherent (now, looks_up prefix) s fits c =
      Finds-IsCoherent g l ttl now _ (λ key. prefix) _ (get_by_prefix-Finds g l ttl now prefix s c)
  make_call-IsCoherent (now, looks_up_id order id) s fits c =
      get_by_id-IsCoherent g l ttl now order id s c
  make_call-IsCoherent (now, updates key) s fits c = update-IsCoherent g l ttl now key s fits c
  make_call-IsCoherent (now, uses order id ip) s fits c =
      update_last_used-IsCoherent g l ttl now order id ip s c
  make_call-IsCoherent (now, deletes id) s fits c = delete_key-IsCoherent g l id s c

  pub make_calls-IsCoherent :
      (cs : List (ℕ × StoreCall)) (s : CachedStore D)
      → AllFit cs s
      → IsCoherent g l s
      → IsCoherent g l (make_calls g ttl cs s)
  unfolding make_calls
  make_calls-IsCoherent [] s fits c = c
  make_calls-IsCoherent (x ∷ cs) s (fits, rest) c =
      make_calls-IsCoherent cs (make_call g ttl x s) rest (make_call-IsCoherent x s fits c)

  -- From an empty cache over any database, after any history of calls whose updates keep the prefix
  -- of the key and do not take its revocation back: a key that a lookup by its prefix finds, in the
  -- cache or not, is at that time a row of the database with this prefix and hash, and is revoked if
  -- the row is.
  pub make_calls-HasRow :
      (d : D) (cs : List (ℕ × StoreCall)) (now : ℕ) (prefix : Text) (key : ApiKey) (hash : Text)
      → AllFit cs (new_cached_store g d)
      → (get_by_prefix g ttl now prefix (make_calls g ttl cs (new_cached_store g d))).0
        ≡ some (key, hash)
      → HasRow (l.view (make_calls g ttl cs (new_cached_store g d)).db) prefix key hash
  unfolding lookup
  make_calls-HasRow d cs now prefix key hash fits h =
      let c = make_calls-IsCoherent cs (new_cached_store g d) fits (λ p e h. none_cached h) in
      Finds-HasRow g l ttl now _ (λ k. prefix) _ (get_by_prefix-Finds g l ttl now prefix _ c) key
        hash h
    where
      none_cached : {A : Type 0} {a : A} {X : Type 0} → none ≡ some a → X
      none_cached h = cc

  delete_found-gone :
      (id : ℕ) (o : Option (ApiKey × Text)) (d : D) (s : CachedStore D) (x : ApiKey × Text)
      → o ≡ some x
      → (delete_found g id (o, d) s).0 ≡ true
      → l.view (delete_found g id (o, d) s).1.db id ≡ none
  unfolding delete_found
  delete_found-gone id none d s x e h = cc
  delete_found-gone id (some (key, hash)) d s x e h = elim (Bool-cases (g.delete_id id d).0) [
    | inl ok ↦ rw (ok, if◌then◌else◌) (l.delete_ok id d id ok ∙ ground (arith, ==_iff id id))
    | inr err ↦ absurd (ground (arith, err, h))
  ]

  -- After a deletion that has found the key and reports success, a lookup finds no key of its id,
  -- under whatever prefix and at whatever time.
  pub delete_key-get_by_prefix :
      (s : CachedStore D) (id now : ℕ) (prefix : Text) (found key : ApiKey) (found_hash hash : Text)
      → IsCoherent g l s
      → (find_by_id g id s.db).0 ≡ some (found, found_hash)
      → (delete_key g id s).0 ≡ true
      → (get_by_prefix g ttl now prefix (delete_key g id s).1).0 ≡ some (key, hash)
      → key.id ≢ id
  delete_key-get_by_prefix s id now prefix found key found_hash hash c f ok h same =
      let c' = delete_key-IsCoherent g l id s c in
      let (r, at, _, _, _, _) =
        Finds-HasRow g l ttl now _ (λ k. prefix) _
          (get_by_prefix-Finds g l ttl now prefix (delete_key g id s).1 c') key hash h in
      none_some (sym (gone ok) ∙ subst (λ j. l.view (delete_key g id s).1.db j ≡ some r) same at)
    where
      gone : (delete_key g id s).0 ≡ true → l.view (delete_key g id s).1.db id ≡ none
      gone =
          unfold delete_key in
          delete_found-gone id (find_by_id g id s.db).0 (find_by_id g id s.db).1 s
            (found, found_hash) f

      none_some : {A : Type 0} {a : A} → none ≡ some a → ⊥
      none_some e = cc
