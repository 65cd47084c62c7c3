-- ===== src/SinkPool/Rolling.antt =====
-- A channel of daemon/system/sink_pool.go that is not drained is a rolling buffer.
use sls.Shared.{
  ℕ, zero, suc, ◌+◌, ◌-◌, ◌≤◌, ◌≡◌, refl, sym, ap, ◌∙◌, inl, inr, ltb, Bool, true, false, List, [],
  ◌∷◌, ◌++◌, length, drop, length-append, length-drop, append_assoc, append-nil, arith, Bool-cases,
  lt→ltb,
}
use sls.SinkPool.{Channel, push_channel, drop_oldest}

module _ {A : Type 0} where
  -- The last n elements.
  abbrev pub last : ℕ → List A → List A
  last n xs = drop (length xs - n) xs

  unfoldable pub pushes : Channel A → List A → Channel A
  pushes c [] = c
  pushes c (m ∷ ms) = pushes (push_channel c m) ms

  drop-append : (k : ℕ) (xs ys : List A) → k ≤ length xs → drop k xs ++ ys ≡ drop k (xs ++ ys)
  drop-append zero xs ys h = refl
  drop-append (suc k) [] ys h = absurd (omega arith)
  drop-append (suc k) (x ∷ xs) ys h = drop-append k xs ys (omega arith)

  drop-nil : (n : ℕ) → drop {A = A} n [] ≡ []
  drop-nil zero = refl
  drop-nil (suc n) = refl

  drop-drop : (j k : ℕ) (xs : List A) → drop j (drop k xs) ≡ drop (k + j) xs
  drop-drop j zero xs = ap (λ n. drop n xs) (omega arith)
  drop-drop j (suc k) [] = drop-nil j ∙ sym (drop-nil (suc k + j))
  drop-drop j (suc k) (x ∷ xs) = drop-drop j k xs ∙ ap (λ n. drop n (x ∷ xs)) more
    where
      more : suc (k + j) ≡ suc k + j
      more = omega arith

  last-last : (n : ℕ) (xs ys : List A) → last n (last n xs ++ ys) ≡ last n (xs ++ ys)
  last-last n xs ys =
      ap (last n) (drop-append (length xs - n) xs ys (omega arith))
      ∙ drop-drop (length (drop (length xs - n) (xs ++ ys)) - n) (length xs - n) (xs ++ ys)
      ∙ ap (λ k. drop k (xs ++ ys)) counts
    where
      counts :
          length xs - n + (length (drop (length xs - n) (xs ++ ys)) - n) ≡ length (xs ++ ys) - n
      counts = ground (arith, length-drop (length xs - n) (xs ++ ys), length-append xs ys)

  -- A channel that holds no more than it can, and is as open as another one.
  pub record Rolls (c : Channel A) (ms : List A) (d : Channel A) : Type 0 where
    pub buffer_last : d.buffer ≡ last c.capacity (c.buffer ++ ms)
    pub same_capacity : d.capacity ≡ c.capacity
    pub same_closed : d.closed ≡ c.closed

  pub push_channel-Rolls :
      (b : List A) (n : ℕ) (shut : Bool) (m : A)
      → length b ≤ n
      → (let c : Channel A = record { buffer = b; capacity = n; closed = shut } in
          Rolls c (m ∷ []) (push_channel c m))
  unfolding push_channel
  push_channel-Rolls b n shut m h = elim (Bool-cases (ltb (length b) n)) [
    | inl room ↦ rw room (record {
      buffer_last = ap (λ k. drop k (b ++ m ∷ [])) (none_dropped b room);
      same_capacity = refl;
      same_closed = refl;
    })
    | inr full ↦ rw full (go b h full)
  ]
    where
      none_dropped : (b : List A) → ltb (length b) n ≡ true → 0 ≡ length (b ++ m ∷ []) - n
      none_dropped b room = ground (arith, length-append b (m ∷ []), room)

      none_kept : 0 ≤ n → ltb 0 n ≡ false → 1 - n ≡ 1
      none_kept h full = ground (arith, h, full)

      go :
          (b : List A)
          → length b ≤ n
          → ltb (length b) n ≡ false
          → (let c : Channel A = record { buffer = b; capacity = n; closed = shut } in
              Rolls c (m ∷ []) (drop_oldest c m))
      go [] h full = record {
        buffer_last = sym (ap (λ k. drop k (m ∷ [])) (none_kept h full));
        same_capacity = refl;
        same_closed = refl;
      }
      go (x ∷ ms) h full = rw (lt→ltb (length ms) n (ground (arith, h))) (record {
        buffer_last = sym (ap (λ k. drop k (x ∷ ms ++ m ∷ [])) (one_dropped ms h full));
        same_capacity = refl;
        same_closed = refl;
      })
        where
          one_dropped :
              (ms : List A)
              → suc (length ms) ≤ n
              → ltb (suc (length ms)) n ≡ false
              → length (x ∷ ms ++ m ∷ []) - n ≡ 1
          one_dropped ms h full = ground (arith, length-append ms (m ∷ []), h, full)

  Rolls-trans :
      (c d e : Channel A) (m : A) (ms : List A)
      → Rolls c (m ∷ []) d
      → Rolls d ms e
      → Rolls c (m ∷ ms) e
  Rolls-trans c d e m ms one rest = record {
    buffer_last =
        rest.buffer_last
        ∙ ap (λ n. last n (d.buffer ++ ms)) one.same_capacity
        ∙ ap (λ b. last c.capacity (b ++ ms)) one.buffer_last
        ∙ last-last c.capacity (c.buffer ++ m ∷ []) ms
        ∙ ap (last c.capacity) (append_assoc c.buffer (m ∷ []) ms);
    same_capacity = rest.same_capacity ∙ one.same_capacity;
    same_closed = rest.same_closed ∙ one.same_closed;
  }

  Rolls-holds : (c d : Channel A) (ms : List A) → Rolls c ms d → length d.buffer ≤ d.capacity
  Rolls-holds c d ms r =
      rw (r.same_capacity, r.buffer_last)
        (ground (arith, length-drop (length (c.buffer ++ ms) - c.capacity) (c.buffer ++ ms)))

  -- A channel that nobody drains keeps the last messages, as many as it can hold, in the order in
  -- which they were pushed; it keeps its capacity and stays open.
  pub pushes-Rolls :
      (c : Channel A) (ms : List A) → length c.buffer ≤ c.capacity → Rolls c ms (pushes c ms)
  unfolding pushes
  pushes-Rolls c [] h = record {
    buffer_last =
        sym (ap (λ xs. last c.capacity xs) (append-nil c.buffer) ∙ ap (λ k. drop k c.buffer) fits);
    same_capacity = refl;
    same_closed = refl;
  }
    where
      fits : length c.buffer - c.capacity ≡ 0
      fits = omega (arith, h)
  pushes-Rolls c (m ∷ ms) h =
      let one = push_channel-Rolls c.buffer c.capacity c.closed m h in
      Rolls-trans c (push_channel c m) (pushes (push_channel c m) ms) m ms one
        (pushes-Rolls (push_channel c m) ms (Rolls-holds c (push_channel c m) (m ∷ []) one))
