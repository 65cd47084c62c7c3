-- ===== src/SinkPool/Examples.antt =====
-- Two channels of a pool: tests, and the theorems at inputs that meet their conditions.
use sls.Shared.{ℕ, ◌≡◌, refl, false, some, [], ◌∷◌, arith}
use sls.SinkPool.{Channel, Pool, push, push_channel}
use sls.SinkPool.Rolling.{pushes, Rolls, pushes-Rolls}
use sls.SinkPool.Registered.{IsValid, registered, Delivered, push-Delivers}

-- Room for two messages, and one in it.
abbrev channel : Channel ℕ
channel = record { buffer = 7 ∷ []; capacity = 2; closed = false }

abbrev pool : Pool ℕ
pool = record { sinks = some 3 ∷ some 5 ∷ []; store = λ r. channel }

pool-IsValid : IsValid pool
pool-IsValid =
    (((3, refl, refl), ((5, refl, refl), tt)), (((λ e. absurd (ground (arith, e))), tt), (tt, tt)))

rolled : (pushes channel (8 ∷ 9 ∷ 10 ∷ [])).buffer ≡ 9 ∷ 10 ∷ []
unfolding pushes push_channel
rolled = refl

pushes-Rolls_example : Rolls channel (8 ∷ 9 ∷ []) (pushes channel (8 ∷ 9 ∷ []))
pushes-Rolls_example = pushes-Rolls channel (8 ∷ 9 ∷ []) (omega arith)

push-Delivers_example :
    (q : Pool ℕ) × (push pool 8 ≡ some q)
    × (q.sinks ≡ pool.sinks)
    × ((r : ℕ) → Delivered (registered (some r) pool.sinks) (pool.store r) 8 (q.store r))
    × IsValid q
push-Delivers_example = push-Delivers pool 8 pool-IsValid (λ r. omega arith)
