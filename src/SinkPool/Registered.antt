-- ===== src/SinkPool/Registered.antt =====
-- The sinks that are registered with the pool of daemon/system/sink_pool.go, and its calls on them.
use sls.Shared.{
  ℕ, length, ◌≤◌, ◌≡◌, ◌≢◌, refl, sym, ap, ◌∙◌, subst, inl, inr, ◌==◌, Bool, true, false, ◌||◌,
  none, some, List, [], ◌∷◌, if◌then◌else◌, All, All-mono, Distinct, arith, ==_iff, ◌⊎◌, Bool-cases,
}
use sls.SinkPool.Rolling.{Rolls, push_channel-Rolls}
use sls.SinkPool.{Channel, Sink, Pool, same_sink, update, push_channel, push_sink, push_all, push}

abbrev pub registered : Sink → List Sink → Bool
registered c [] = false
registered c (s ∷ ss) = same_sink c s || registered c ss

pub same_sink-eq : (c s : Sink) → same_sink c s ≡ true → c ≡ s
same_sink-eq none none h = refl
same_sink-eq none (some b) h = absurd (ground (arith, h))
same_sink-eq (some a) none h = absurd (ground (arith, h))
same_sink-eq (some a) (some b) h = ground (arith, h)

pub same_sink-ne : (c s : Sink) → s ≢ c → same_sink c s ≡ false
same_sink-ne c s n = elim (Bool-cases (same_sink c s)) [
  | inl same ↦ absurd (n (sym (same_sink-eq c s same)))
  | inr other ↦ other
]

registered-fresh : (s : Sink) (ss : List Sink) → All (λ y. s ≢ y) ss → registered s ss ≡ false
registered-fresh s [] h = refl
registered-fresh s (y ∷ ss) (n, h) =
    rw (same_sink-ne s y (λ e. n (sym e))) (registered-fresh s ss h)

module _ {A : Type 0} where
  -- The sink is a channel that is not closed.
  abbrev pub IsOpen : (ℕ → Channel A) → Sink → Type 0
  IsOpen store s = (r : ℕ) × (s ≡ some r) × ((store r).closed ≡ false)

  -- All sinks are open channels, and no two are the same.
  abbrev pub IsValid : Pool A → Type 0
  IsValid p = All (IsOpen p.store) p.sinks × Distinct p.sinks

  closed-push_channel :
      (b : List A) (n : ℕ) (shut : Bool) (m : A)
      → (push_channel (record { buffer = b; capacity = n; closed = shut }) m).closed ≡ shut
  unfolding push_channel
  closed-push_channel [] n shut m = ground arith
  closed-push_channel (x ∷ xs) n shut m = ground arith

  -- What a pushed message does to each channel of a store.
  abbrev pub pushed : (ℕ → Channel A) → A → List Sink → ℕ → Channel A
  pushed store m ss r = if registered (some r) ss then push_channel (store r) m else store r

  IsOpen-update :
      (store : ℕ → Channel A) (q : ℕ) (m : A) (s : Sink)
      → IsOpen store s
      → IsOpen (update q (push_channel (store q) m) store) s
  IsOpen-update store q m s (r, e, open_r) = (r, e, go (Bool-cases (r == q)))
    where
      go :
          (r == q ≡ true) ⊎ (r == q ≡ false)
          → (update q (push_channel (store q) m) store r).closed ≡ false
      go (inl same) = rw same (
          closed-push_channel (store q).buffer (store q).capacity (store q).closed m
          ∙ subst (λ k. (store k).closed ≡ false) ((==_iff r q).0 same) open_r)
      go (inr other) = rw other open_r

  IsOpen-pushed :
      (store after : ℕ → Channel A) (m : A) (ss : List Sink) (s : Sink)
      → ((r : ℕ) → after r ≡ pushed store m ss r)
      → IsOpen store s
      → IsOpen after s
  IsOpen-pushed store after m ss s each (r, e, open_r) =
      (r, e, ap (λ (c : Channel A). c.closed) (each r) ∙ go (registered (some r) ss) ∙ open_r)
    where
      go : (b : Bool) → (if b then push_channel (store r) m else store r).closed ≡ (store r).closed
      go true = closed-push_channel (store r).buffer (store r).capacity (store r).closed m
      go false = refl

  pushed-update :
      (store : ℕ → Channel A) (q : ℕ) (m : A) (s : Sink) (ss : List Sink) (r : ℕ)
      → s ≡ some q
      → All (λ y. s ≢ y) ss
      → pushed (update q (push_channel (store q) m) store) m ss r ≡ pushed store m (s ∷ ss) r
  pushed-update store q m s ss r e fresh = elim (Bool-cases (r == q)) [
    | inl same ↦
        let here : r ≡ q = (==_iff r q).0 same in
        let gone : registered (some r) ss ≡ false =
          subst (λ k. registered k ss ≡ false) (e ∙ ap some (sym here))
            (registered-fresh s ss fresh) in
        rw (gone, e, same) (ap (λ k. push_channel (store k) m) (sym here))
    | inr other ↦ rw (e, other) refl
  ]

  push_sink_open :
      (store : ℕ → Channel A) (q : ℕ) (m : A)
      → (store q).closed ≡ false
      → push_sink store m (some q) ≡ some (update q (push_channel (store q) m) store)
  unfolding push_sink
  push_sink_open store q m open_q = rw open_q refl

  push_all_cons :
      (store next after : ℕ → Channel A) (m : A) (s : Sink) (ss : List Sink)
      → push_sink store m s ≡ some next
      → push_all next m ss ≡ some after
      → push_all store m (s ∷ ss) ≡ some after
  unfolding push_all
  push_all_cons store next after m s ss first rest = rw (first, push_all) rest

  push_all-Delivers :
      (store : ℕ → Channel A) (m : A) (ss : List Sink)
      → All (IsOpen store) ss
      → Distinct ss
      → (after : ℕ → Channel A) × (push_all store m ss ≡ some after)
        × ((r : ℕ) → after r ≡ pushed store m ss r)
  unfolding push_all
  push_all-Delivers store m [] h d = (store, refl, λ r. refl)
  push_all-Delivers store m (s ∷ ss) ((q, e, open_q), hs) (fresh, ds) =
      let next = update q (push_channel (store q) m) store in
      let (after, runs, each) =
        push_all-Delivers next m ss (All-mono ss (λ y. IsOpen-update store q m y) hs) ds in
      (
        after,
        push_all_cons store next after m s ss
            (ap (push_sink store m) e ∙ push_sink_open store q m open_q) runs,
        λ r. each r ∙ pushed-update store q m s ss r e fresh,
      )

  -- A registered channel has the message at its end, without the oldest if there is no room for both,
  -- and is otherwise as before; any other channel does not change.
  abbrev pub Delivered : Bool → Channel A → A → Channel A → Type 0
  Delivered true c m d = Rolls c (m ∷ []) d
  Delivered false c m d = d ≡ c

  pushed-Delivered :
      (b : Bool) (c : Channel A) (m : A)
      → length c.buffer ≤ c.capacity
      → Delivered b c m (if b then push_channel c m else c)
  pushed-Delivered true c m h = push_channel-Rolls c.buffer c.capacity c.closed m h
  pushed-Delivered false c m h = refl

  -- Push on open channels, none registered twice, that hold no more than they can: it panics in no
  -- channel, and all stay open. In each registered channel the messages are the last, as many as the
  -- channel can hold, of those before and the new one, so one without a buffer does not get it; no
  -- other channel changes.
  pub push-Delivers :
      (p : Pool A) (m : A)
      → IsValid p
      → ((r : ℕ) → length (p.store r).buffer ≤ (p.store r).capacity)
      → (q : Pool A) × (push p m ≡ some q)
        × (q.sinks ≡ p.sinks)
        × ((r : ℕ) → Delivered (registered (some r) p.sinks) (p.store r) m (q.store r))
        × IsValid q
  unfolding push
  push-Delivers p m (h, d) holds =
      let (after, runs, each) = push_all-Delivers p.store m p.sinks h d in
      (
        record p { store = after },
        rw (runs, push) refl,
        refl,
        λ r.
            subst (Delivered (registered (some r) p.sinks) (p.store r) m) (sym (each r))
              (pushed-Delivered (registered (some r) p.sinks) (p.store r) m (holds r)),
        (All-mono p.sinks (λ s o. IsOpen-pushed p.store after m p.sinks s each o) h, d),
      )
