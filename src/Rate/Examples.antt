-- ===== src/Rate/Examples.antt =====
-- Two calls in ten units of time: a test, and the theorem at it.
use sls.Shared.{ℕ, ◌*◌, ◌≤◌, ◌≡◌, refl, List, [], ◌∷◌, arith}
use sls.Rate.{Rate, new_rate, renew, count_hit, try}
use sls.Rate.Window.{granted, granted-interval}

abbrev rate : Rate
rate = record { limit = 2; duration = 10; count = 0; last = 0 }

-- The old window lets two through at its end, and the new one two at its beginning.
abbrev burst : List ℕ
burst = 9 ∷ 10 ∷ 10 ∷ 11 ∷ 11 ∷ 12 ∷ []

all_four : granted rate burst ≡ 4
unfolding granted try renew count_hit
all_four = refl

fresh_rate : new_rate 0 2 10 ≡ rate
unfolding new_rate
fresh_rate = refl

granted-interval_example : granted rate burst ≤ 2 * 2
granted-interval_example =
    granted-interval rate burst 9 (omega arith, omega arith)
      (
        (omega arith, omega arith),
        (
          (omega arith, omega arith),
          (
            (omega arith, omega arith),
            (
              (omega arith, omega arith),
              ((omega arith, omega arith), ((omega arith, omega arith), tt)),
            ),
          ),
        ),
      )
