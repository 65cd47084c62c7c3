-- ===== src/Quota.antt =====
-- daemon/internal/ufs/fs_quota.go: the usage of a file system and its limit, two int64 values that
-- wrap around.
pub mod Arithmetic
use sls.Shared.{Bool, true, false, if◌then◌else◌}
use sls.Shared.Int.{ℤ, pos, negsuc, ◌+ℤ◌, neg, ltb_ℤ, leb_ℤ, ◌==ℤ◌, int64}

-- The limit -1 forbids writes and 0 lifts the limit; the usage -1 is one not known yet.
pub record Quota : Type 0 where
  pub limit : ℤ
  pub usage : ℤ

unfoldable pub new_quota : ℤ → Quota
new_quota limit = record { limit = limit; usage = pos 0 }

-- `Swap` gives the value before.
unfoldable pub set_limit : Quota → ℤ → Quota × ℤ
set_limit q new_limit = (record q { limit = new_limit }, q.limit)

unfoldable pub set_usage : Quota → ℤ → Quota × ℤ
set_usage q new_usage = (record q { usage = new_usage }, q.usage)

unfoldable pub add : Quota → ℤ → Quota × ℤ
add q i =
    let sum = int64 (q.usage +ℤ i) in
    if ltb_ℤ sum (pos 0)
    then (record q { usage = pos 0 }, pos 0)
    else (record q { usage = sum }, sum)

unfoldable pub can_fit : Quota → ℤ → Bool
can_fit q size =
    if q.limit ==ℤ negsuc 0
    then false
    else if q.limit ==ℤ pos 0
    then true
    else if q.usage ==ℤ negsuc 0
    then true
    else leb_ℤ (int64 (q.usage +ℤ size)) q.limit
