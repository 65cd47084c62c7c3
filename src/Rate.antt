-- ===== src/Rate.antt =====
-- daemon/system/rate.go: at most a number of calls in a duration. The count is a uint64 that wraps
-- around; times are numbers, and the clock is an argument.
pub mod Window
mod Examples
use sls.Shared.{ℕ, ◌+◌, ◌-◌, ◌%◌, ◌^◌, Bool, true, false, if◌then◌else◌, ltb}

pub record Rate : Type 0 where
  pub limit : ℕ
  pub duration : ℕ
  pub count : ℕ
  pub last : ℕ

unfoldable pub new_rate : ℕ → ℕ → ℕ → Rate
new_rate now limit duration = record { limit = limit; duration = duration; count = 0; last = now }

-- The reset of Try once the duration is over; a clock that goes back gives a negative difference.
unfoldable pub renew : Rate → ℕ → Rate
renew r now = if ltb r.duration (now - r.last) then record r { count = 0; last = now } else r

-- The rest of Try.
unfoldable pub count_hit : Rate → Rate × Bool
count_hit r =
    let next = (r.count + 1) % 2 ^ 64 in
    if ltb r.limit next then (r, false) else (record r { count = next }, true)

unfoldable pub try : Rate → ℕ → Rate × Bool
unfolding renew count_hit
try r now = count_hit (renew r now)

unfoldable pub reset : Rate → ℕ → Rate
reset r now = record r { count = 0; last = now }
