-- ===== src/Warmup/Outcome.antt =====
-- What RunWarmup of daemon/server/warmup.go returns and what it leaves in the state of the
-- installation, to the end of install in daemon/server/install.go.
use sls.Shared.{
  ℕ, ◌≡◌, refl, sym, subst, inl, inr, ◌⊎◌, ◌||◌, not, Option, none, some, if◌then◌else◌,
  Option-cases, Bool-cases,
}
use sls.Shared.Int.{pos_part}
use sls.Shared.Text.{Text}
use sls.InstallState.{
  InstallState, warmup_failed, post_warmup_failed, completed, finish_install_phase,
}
use sls.Warmup.{
  Engine, Server, Attempt, Script, is_blank, continues, apply_warmup_defaults, warmup_attempts,
  try_warmup, run_script, after_warmup, run_prepared, run_warmup, keep_failure, end_install,
}
use sls.Warmup.Attempts.{post_error, run_post_warmup_error, warmed, last_error}

-- The number of attempts.
abbrev pub rounds : Script → ℕ
rounds t = pos_part (warmup_attempts t)

-- What the script after the warmup makes RunWarmup return.
abbrev pub script_error : Script → Engine → Option Text
script_error t post = if is_blank t.post_warmup_script || continues t then none else post_error post

-- An error is a failed warmup, or a failed script after it.
abbrev pub Reports : ℕ → Attempt → Type 0
Reports now (s, none) = Unit
Reports now (s, some e) =
    ((s.phase ≡ warmup_failed) ⊎ (s.phase ≡ post_warmup_failed))
    × (s.failure_reason ≡ e)
    × (s.finished_at ≡ some now)

run_script-Reports :
    (v : Server) (post : Engine) (t : Script) (s : InstallState)
    → Reports v.now (run_script v post t s)
unfolding run_script finish_install_phase
run_script-Reports v post t s = elim (Bool-cases (is_blank t.post_warmup_script)) [
  | inl blank ↦ rw (blank, run_script) tt
  | inr script ↦ elim (Option-cases (post_error post)) [
    | inl ok ↦ rw (script, run_post_warmup_error v post s, ok, run_script) tt
    | inr (e, failed) ↦ elim (Bool-cases (continues t)) [
      | inl on ↦ rw (script, run_post_warmup_error v post s, failed, on, run_script) tt
      | inr off ↦
          rw (script, run_post_warmup_error v post s, failed, off, run_script)
            (inr refl, refl, refl)
    ]
  ]
]

after_warmup-Reports :
    (v : Server) (post : Engine) (t : Script) (a : Attempt)
    → Reports v.now (after_warmup v post t a)
unfolding after_warmup finish_install_phase
after_warmup-Reports v post t (s, none) = run_script-Reports v post t s
after_warmup-Reports v post t (s, some e) = elim (Bool-cases (continues t)) [
  | inl on ↦ rw on (run_script-Reports v post t (finish_install_phase v.now warmup_failed e s))
  | inr off ↦ rw off (inl refl, refl, refl)
]

-- What an outcome of the attempts comes to.
abbrev pub handled : Script → Engine → Option Text → Option Text
handled t post none = script_error t post
handled t post (some e) = if continues t then none else some e

-- What RunWarmup is to return. Without an attempt, the warmup counts as done.
abbrev pub expected : (ℕ → Engine) → Engine → Script → Option Text
expected engines post t =
    if not t.warmup
    then none
    else if warmed engines (rounds t) 1
    then script_error t post
    else handled t post (last_error engines (rounds t) 1 none)

run_prepared-Reports :
    (v : Server) (engines : ℕ → Engine) (post : Engine) (t : Script) (s : InstallState)
    → Reports v.now (run_prepared v engines post t s)
unfolding run_prepared
run_prepared-Reports v engines post t s = elim (Bool-cases t.warmup) [
  | inr skipped ↦ rw (skipped, run_prepared) tt
  | inl asked ↦
      rw (asked, run_prepared)
        (after_warmup-Reports v post t (try_warmup v engines (rounds t) 1 none s))
]

-- The state at the end of an installation, by the error.
abbrev pub Ends : ℕ → InstallState → Option Text → Type 0
Ends now s none = s.phase ≡ completed
Ends now s (some e) = Reports now (s, some e)

end_install-Ends : (now : ℕ) (a : Attempt) → Reports now a → Ends now (end_install now a) a.1
unfolding end_install finish_install_phase
end_install-Ends now (s, none) r = refl
end_install-Ends now (s, some e) (failed, reason, time) =
    subst (λ t. Reports now (t, some e)) (sym (kept failed)) (failed, reason, time)
  where
    kept :
        (s.phase ≡ warmup_failed) ⊎ (s.phase ≡ post_warmup_failed)
        → keep_failure now e s.phase s ≡ s
    kept (inl h) = subst (λ q. keep_failure now e q s ≡ s) (sym h) refl
    kept (inr h) = subst (λ q. keep_failure now e q s ≡ s) (sym h) refl

-- At the end of an installation that got as far as the warmup, the state is completed if RunWarmup
-- returned nothing; if it returned an error, the state is a failed warmup or a failed script after it,
-- with that error as its reason and with the time of the end.
pub end_install-run_warmup :
    (v : Server) (engines : ℕ → Engine) (post : Engine) (script : Script) (s : InstallState)
    → Ends v.now
        (end_install v.now (run_warmup v engines post script s))
        (run_warmup v engines post script s).1
unfolding run_warmup
end_install-run_warmup v engines post script s =
    end_install-Ends v.now (run_prepared v engines post (apply_warmup_defaults script) s)
      (run_prepared-Reports v engines post (apply_warmup_defaults script) s)
