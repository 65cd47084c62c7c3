-- ===== src/SinkPool.antt =====
-- daemon/system/sink_pool.go: the channels that get the console output of a server.
-- Channels lie in a store, from references to their state; nil is `none`. A run-time panic (a send to
-- or a close of a closed channel) is `none` in place of the state. The receivers of a channel are
-- other steps: while Push runs, none of them receives.
pub mod Rolling
pub mod Registered
mod Examples
use sls.Shared.{
  ℕ, suc, ◌==◌, Bool, true, false, Option, none, some, List, [], ◌∷◌, ◌++◌, if◌then◌else◌, ltb,
  length,
}

pub record Channel {ℓ} (A : Type ℓ) : Type ℓ where
  pub buffer : List A
  pub capacity : ℕ
  pub closed : Bool

abbrev pub Sink : Type 0
Sink = Option ℕ

pub record Pool (A : Type 0) : Type 0 where
  pub sinks : List Sink
  pub store : ℕ → Channel A

-- `c != sink` compares references.
abbrev pub same_sink : Sink → Sink → Bool
same_sink none none = true
same_sink none (some b) = false
same_sink (some a) none = false
same_sink (some a) (some b) = a == b

-- The first sink that is c is taken out, those behind it move up; `none` when no sink is c.
unfoldable pub without : Sink → List Sink → Option (List Sink)
without c [] = none
without c (s ∷ ss) = elim (same_sink c s) [
  | true ↦ some ss
  | false ↦ elim (without c ss) [ none ↦ none | some rest ↦ some (s ∷ rest) ]
]

module _ {A : Type 0} where
  abbrev pub update : ℕ → Channel A → (ℕ → Channel A) → ℕ → Channel A
  update r c store q = if q == r then c else store q

  -- A pool of the zero value, over the channels that there are.
  unfoldable pub new_sink_pool : (ℕ → Channel A) → Pool A
  new_sink_pool store = record { sinks = []; store = store }

  unfoldable pub on : Pool A → Sink → Pool A
  on p c = record p { sinks = p.sinks ++ c ∷ [] }

  -- `close(c)`
  unfoldable pub close_channel : (ℕ → Channel A) → ℕ → Option (ℕ → Channel A)
  close_channel store r =
      if (store r).closed then none else some (update r (record (store r) { closed = true }) store)

  abbrev pub close_sink : (ℕ → Channel A) → Sink → Option (ℕ → Channel A)
  close_sink store none = some store
  close_sink store (some r) = close_channel store r

  unfoldable pub off : Pool A → Sink → Option (Pool A)
  unfolding without close_channel
  off p c = elim (without c p.sinks) [
    | none ↦ some p
    | some rest ↦ elim (close_sink p.store c) [
      | none ↦ none
      | some store ↦ some (record { sinks = rest; store = store })
    ]
  ]

  unfoldable pub close_all : (ℕ → Channel A) → List Sink → Option (ℕ → Channel A)
  unfolding close_channel
  close_all store [] = some store
  close_all store (s ∷ ss) = elim (close_sink store s) [
    | none ↦ none
    | some store' ↦ close_all store' ss
  ]

  unfoldable pub destroy_pool : Pool A → Option (Pool A)
  unfolding close_all
  destroy_pool p = elim (close_all p.store p.sinks) [
    | none ↦ none
    | some store ↦ some (record { sinks = []; store = store })
  ]

  -- `case <-c` and then the send that does not wait.
  abbrev pub drop_oldest : Channel A → A → Channel A
  drop_oldest c msg = elim c.buffer [
    | [] ↦ c
    | m ∷ ms ↦
        if ltb (length ms) c.capacity
        then record c { buffer = ms ++ msg ∷ [] }
        else record c { buffer = ms }
  ]

  -- What the goroutine of Push does to an open channel.
  unfoldable pub push_channel : Channel A → A → Channel A
  push_channel c msg =
      if ltb (length c.buffer) c.capacity
      then record c { buffer = c.buffer ++ msg ∷ [] }
      else drop_oldest c msg

  -- A send to nil never goes on, nor does the receive.
  unfoldable pub push_sink : (ℕ → Channel A) → A → Sink → Option (ℕ → Channel A)
  unfolding push_channel
  push_sink store msg none = some store
  push_sink store msg (some r) =
      if (store r).closed then none else some (update r (push_channel (store r) msg) store)

  unfoldable pub push_all : (ℕ → Channel A) → A → List Sink → Option (ℕ → Channel A)
  unfolding push_sink
  push_all store msg [] = some store
  push_all store msg (s ∷ ss) = elim (push_sink store msg s) [
    | none ↦ none
    | some store' ↦ push_all store' msg ss
  ]

  unfoldable pub push : Pool A → A → Option (Pool A)
  unfolding push_all
  push p msg = elim (push_all p.store msg p.sinks) [
    | none ↦ none
    | some store ↦ some (record p { store = store })
  ]
