-- ===== src/Quota/Arithmetic.antt =====
-- What Add and CanFit of daemon/internal/ufs/fs_quota.go compute, where the sum wraps around too.
use sls.Shared.{ℕ, suc, ◌+◌, ◌-◌, ◌^◌, ◌≤◌, ◌<◌, ◌≡◌, ◌↔◌, ◌⊎◌, true, arith}
use sls.Shared.Int.{pos, ◌+ℤ◌, neg, int64}
use sls.Quota.{Quota, add, can_fit}

-- Growth that stays an int64 is added.
pub add-grows :
    (q : Quota) (u n : ℕ)
    → q.usage ≡ pos u
    → u + n < 2 ^ 63
    → (add q (pos n)).0 ≡ record q { usage = pos (u + n) }
unfolding add int64 ◌+ℤ◌
add-grows q u n h g = rw h (ground arith)

-- Shrinkage stops at 0.
pub add-shrinks :
    (q : Quota) (u n : ℕ)
    → q.usage ≡ pos u
    → u < 2 ^ 63
    → n ≤ 2 ^ 63
    → (add q (neg (pos n))).0 ≡ record q { usage = pos (u - n) }
unfolding add int64 ◌+ℤ◌
add-shrinks q u n h g k = rw h (ground arith)

-- `Add(n - currentSize)` for a part of the usage that is replaced.
pub add-replaces :
    (q : Quota) (u n current : ℕ)
    → q.usage ≡ pos u
    → current ≤ u
    → u + n < 2 ^ 63
    → (add q (int64 (pos n +ℤ neg (pos current)))).0 ≡ record q { usage = pos (u + n - current) }
unfolding add int64 ◌+ℤ◌
add-replaces q u n current h g k = rw h (ground arith)

-- `CanFit(newSize - currentSize)` where nothing wraps around.
pub can_fit-replaced :
    (q : Quota) (l u n current : ℕ)
    → q.limit ≡ pos (suc l)
    → q.usage ≡ pos u
    → current ≤ u
    → u + n < 2 ^ 63
    → suc l < 2 ^ 63
    → can_fit q (int64 (pos n +ℤ neg (pos current))) ≡ true
    → u + n ≤ suc l + current
unfolding can_fit int64 ◌+ℤ◌
can_fit-replaced q l u n current hl hu g k b = rw (hl, hu) (λ h. ground (arith, h))

-- With a limit and a known usage, a size of no less than 0 fits exactly if the usage with it is
-- within the limit, or is so large that the sum of the int64 values wraps around.
pub can_fit_iff :
    (q : Quota) (l u n : ℕ)
    → q.limit ≡ pos (suc l)
    → q.usage ≡ pos u
    → suc l < 2 ^ 63
    → u < 2 ^ 63
    → n < 2 ^ 63
    → (can_fit q (pos n) ≡ true) ↔ ((u + n ≤ suc l) ⊎ (2 ^ 63 ≤ u + n))
unfolding can_fit int64 ◌+ℤ◌
can_fit_iff q l u n hl hu bl bu bn = rw (hl, hu) ((λ h. ground (arith, h)), λ h. ground (arith, h))
