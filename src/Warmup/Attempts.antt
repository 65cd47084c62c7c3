-- ===== src/Warmup/Attempts.antt =====
-- The attempts of daemon/server/warmup.go: what one returns, and what the loop over them returns.
use sls.Shared.{
  ℕ, zero, suc, ◌+◌, ◌≡◌, refl, ap, ◌∙◌, inl, inr, Bool, true, false, ◌||◌, Option, none, some,
  if◌then◌else◌, ◌++◌, arith, Option-cases,
}
use sls.Shared.Int.{pos, ◌==ℤ◌}
use sls.Shared.Text.{Text, codes}
use sls.InstallState.{InstallState}
use sls.Warmup.{
  Engine, Server, show_integer, run_warmup_attempt, await_warmup, run_post_warmup,
  await_post_warmup, try_warmup,
}

abbrev pub or_else : Option Text → Option Text → Option Text
or_else none b = b
or_else (some e) b = some e

abbrev pub wrapped : Text → Option Text → Option Text
wrapped message none = none
wrapped message (some e) = some (message ++ e)

-- The first call of an attempt that fails gives its error.
abbrev pub attempt_error : Engine → Option Text
attempt_error g = or_else g.remove_error (
    or_else (wrapped (codes "warmup: create container: ") g.create_error)
      (or_else (wrapped (codes "warmup: start container: ") g.start_error) g.wait_error))

abbrev pub status_error : Engine → Option Text
status_error g =
    if g.exit_status ==ℤ pos 0
    then none
    else some (codes "post-warmup script exited with code " ++ show_integer g.exit_status)

abbrev pub post_error : Engine → Option Text
post_error g = or_else g.remove_error (
    or_else (wrapped (codes "post-warmup: create container: ") g.create_error) (
      or_else (wrapped (codes "post-warmup: start container: ") g.start_error)
        (or_else g.wait_error (status_error g))))

pub run_warmup_attempt_error :
    (v : Server) (g : Engine) (s : InstallState) → (run_warmup_attempt v g s).1 ≡ attempt_error g
unfolding run_warmup_attempt await_warmup
run_warmup_attempt_error v g s = ground arith

pub run_post_warmup_error :
    (v : Server) (g : Engine) (s : InstallState) → (run_post_warmup v g s).1 ≡ post_error g
unfolding run_post_warmup await_post_warmup
run_post_warmup_error v g s = ground arith

abbrev pub succeeds : Option Text → Bool
succeeds none = true
succeeds (some e) = false

-- One of k attempts from the given one on succeeds.
abbrev pub warmed : (ℕ → Engine) → ℕ → ℕ → Bool
warmed engines zero a = false
warmed engines (suc k) a = succeeds (attempt_error (engines a)) || warmed engines k (a + 1)

-- The error after k attempts that all fail, from the given one on.
abbrev pub last_error : (ℕ → Engine) → ℕ → ℕ → Option Text → Option Text
last_error engines zero a last = last
last_error engines (suc k) a last = last_error engines k (a + 1) (attempt_error (engines a))

-- The loop succeeds if one of its attempts does, and returns the error of the last one otherwise.
pub try_warmup_error :
    (v : Server) (engines : ℕ → Engine) (k a : ℕ) (last : Option Text) (s : InstallState)
    → (try_warmup v engines k a last s).1
      ≡ (if warmed engines k a then none else last_error engines k a last)
unfolding try_warmup
try_warmup_error v engines zero a last s = refl
try_warmup_error v engines (suc k) a last s = elim (Option-cases (attempt_error (engines a))) [
  | inl ok ↦ rw (run_warmup_attempt_error v (engines a) s, ok, try_warmup) refl
  | inr (e, failed) ↦
      rw (run_warmup_attempt_error v (engines a) s, failed, try_warmup)
        (try_warmup_error v engines k (a + 1) (some e) (run_warmup_attempt v (engines a) s).0)
]

pub last_error_lem :
    (engines : ℕ → Engine) (k a : ℕ) (last : Option Text)
    → last_error engines (suc k) a last ≡ attempt_error (engines (a + k))
last_error_lem engines zero a last = ap (λ n. attempt_error (engines n)) (omega arith)
last_error_lem engines (suc k) a last =
    last_error_lem engines k (a + 1) (attempt_error (engines a))
    ∙ ap (λ n. attempt_error (engines n)) (omega arith)
