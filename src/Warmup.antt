-- ===== src/Warmup.antt =====
-- daemon/server/warmup.go: the warmup of a fresh installation in a container, with retries, and the
-- script after it; and how daemon/server/install.go ends an installation. What the container
-- engine answers is an argument for each attempt, errors are their texts, the clock stands still.
pub mod Attempts
pub mod Outcome
mod Examples
use sls.Shared.{
  ℕ, zero, suc, ◌+◌, ◌/◌, ◌%◌, ltb, Bool, true, false, Option, none, some, List, [], ◌∷◌, ◌++◌,
  if◌then◌else◌,
}
use sls.Shared.Equality.{nat_eq, list_eq, list_beq}
use sls.Shared.Int.{int64, ℤ, pos, negsuc, ◌+ℤ◌, pos_part, leb_ℤ, ◌==ℤ◌}
use sls.Shared.Text.{Text, codes, trim_space}
use sls.InstallState.{
  InstallPhase, idle, installing, warming, post_warmup, install_failed, warmup_failed,
  post_warmup_failed, completed, InstallState, start_install_phase, set_install_container,
  set_install_status, set_install_exit_code, finish_install_phase,
}

-- The fields of the installation script that the warmup reads.
pub record Script : Type 0 where
  pub warmup : Bool
  pub warmup_timeout : ℤ
  pub warmup_failure_policy : Text
  pub warmup_retries : ℤ
  pub post_warmup_script : Text
  pub post_warmup_timeout : ℤ

-- The decimal digits of a number, before a text; 20 rounds are enough for an int64.
abbrev pub digits : ℕ → ℕ → Text → Text
digits zero n s = s
digits (suc k) n s =
    let rest = digits k (n / 10) ((b'0' + n % 10) ∷ s) in if ltb n 10 then (b'0' + n) ∷ s else rest

-- `%d`
abbrev pub show_integer : ℤ → Text
show_integer (pos n) = digits 20 n []
show_integer (negsuc n) = b'-' ∷ digits 20 (suc n) []

abbrev pub is_blank : Text → Bool
is_blank s = list_beq (trim_space s) []

unfoldable pub apply_warmup_defaults : Script → Script
apply_warmup_defaults s = record s {
  warmup_timeout = if leb_ℤ s.warmup_timeout (pos 0) then pos 300 else s.warmup_timeout;
  post_warmup_timeout =
      if leb_ℤ s.post_warmup_timeout (pos 0) then pos 120 else s.post_warmup_timeout;
  warmup_failure_policy =
      if is_blank s.warmup_failure_policy then codes "fail" else s.warmup_failure_policy;
}

-- The number that the loop `attempt <= ip.warmupAttempts()` counts to.
unfoldable pub warmup_attempts : Script → ℤ
unfolding apply_warmup_defaults
warmup_attempts s =
    let t = apply_warmup_defaults s in
    if list_beq t.warmup_failure_policy (codes "retry")
    then int64 (pos 1 +ℤ t.warmup_retries)
    else pos 1

-- What the container engine answers in one attempt; `wait` is that of waitForWarmupSignal.
pub record Engine : Type 0 where
  pub remove_error : Option Text
  pub create_error : Option Text
  pub container : Text
  pub start_error : Option Text
  pub wait_error : Option Text
  -- The exit code that waitForContainerExit gives the script after the warmup.
  pub exit_status : ℤ

-- `log_base` is the path of the log of the server, before its suffix.
pub record Server : Type 0 where
  pub id : Text
  pub log_base : Text
  pub now : ℕ

abbrev pub Attempt : Type 0
Attempt = InstallState × Option Text

-- An attempt once its container is started.
unfoldable pub await_warmup : Engine → InstallState → Attempt
await_warmup g s = elim g.wait_error [
  | some e ↦ (s, some e)
  | none ↦ (set_install_exit_code (pos 0) (set_install_status (codes "exited") s), none)
]

unfoldable pub run_warmup_attempt : Server → Engine → InstallState → Attempt
unfolding await_warmup
run_warmup_attempt v g s =
    let begun =
      start_install_phase v.now warming (v.id ++ codes "_warmup")
        (v.log_base ++ codes "-warmup.log") s in
    elim g.remove_error [
      | some e ↦ (begun, some e)
      | none ↦ elim g.create_error [
        | some e ↦ (begun, some (codes "warmup: create container: " ++ e))
        | none ↦
            let created = set_install_container g.container begun in
            elim g.start_error [
              | some e ↦ (created, some (codes "warmup: start container: " ++ e))
              | none ↦ await_warmup g (set_install_status (codes "running") created)
            ]
      ]
    ]

-- The script after the warmup once its container is started.
unfoldable pub await_post_warmup : Engine → InstallState → Attempt
await_post_warmup g s = elim g.wait_error [
  | some e ↦ (s, some e)
  | none ↦ (
    set_install_status (codes "exited") (set_install_exit_code g.exit_status s),
    if g.exit_status ==ℤ pos 0
        then none
        else some (codes "post-warmup script exited with code " ++ show_integer g.exit_status),
  )
]

unfoldable pub run_post_warmup : Server → Engine → InstallState → Attempt
unfolding await_post_warmup
run_post_warmup v g s =
    let begun =
      start_install_phase v.now post_warmup (v.id ++ codes "_post_warmup")
        (v.log_base ++ codes "-post-warmup.log") s in
    elim g.remove_error [
      | some e ↦ (begun, some e)
      | none ↦ elim g.create_error [
        | some e ↦ (begun, some (codes "post-warmup: create container: " ++ e))
        | none ↦
            let created = set_install_container g.container begun in
            elim g.start_error [
              | some e ↦ (created, some (codes "post-warmup: start container: " ++ e))
              | none ↦ await_post_warmup g (set_install_status (codes "running") created)
            ]
      ]
    ]

-- The loop of RunWarmup over the rounds left, with lastErr so far; the engine answers by attempt.
unfoldable pub try_warmup : Server → (ℕ → Engine) → ℕ → ℕ → Option Text → InstallState → Attempt
unfolding run_warmup_attempt
try_warmup v engines zero attempt last s = (s, last)
try_warmup v engines (suc k) attempt last s =
    let (s', e) = run_warmup_attempt v (engines attempt) s in
    elim e [ none ↦ (s', none) | some e ↦ try_warmup v engines k (attempt + 1) (some e) s' ]

abbrev pub continues : Script → Bool
continues t = list_beq t.warmup_failure_policy (codes "continue")

-- RunWarmup behind its loop and its handling of lastErr.
unfoldable pub run_script : Server → Engine → Script → InstallState → Attempt
unfolding run_post_warmup
run_script v g t s =
    if is_blank t.post_warmup_script
    then (s, none)
    else let (s', e) = run_post_warmup v g s in
      elim e [
        | none ↦ (s', none)
        | some e ↦ (
          finish_install_phase v.now post_warmup_failed e s',
          if continues t then none else some e,
        )
      ]

unfoldable pub after_warmup : Server → Engine → Script → Attempt → Attempt
unfolding run_script
after_warmup v g t (s, none) = run_script v g t s
after_warmup v g t (s, some e) =
    let failed = finish_install_phase v.now warmup_failed e s in
    if continues t then run_script v g t failed else (failed, some e)

-- RunWarmup behind its first line.
unfoldable pub run_prepared : Server → (ℕ → Engine) → Engine → Script → InstallState → Attempt
unfolding try_warmup after_warmup warmup_attempts
run_prepared v engines post t s =
    if t.warmup
    then after_warmup v post t (try_warmup v engines (pos_part (warmup_attempts t)) 1 none s)
    else (s, none)

unfoldable pub run_warmup : Server → (ℕ → Engine) → Engine → Script → InstallState → Attempt
unfolding run_prepared apply_warmup_defaults
run_warmup v engines post script s = run_prepared v engines post (apply_warmup_defaults script) s

-- `switch s.installPhase()` of install, when the installation has failed.
abbrev pub keep_failure : ℕ → Text → InstallPhase → InstallState → InstallState
keep_failure now e warmup_failed s = s
keep_failure now e post_warmup_failed s = s
keep_failure now e _ s = finish_install_phase now install_failed e s

-- How install ends, after internalInstall.
unfoldable pub end_install : ℕ → Attempt → InstallState
end_install now (s, none) = finish_install_phase now completed [] s
end_install now (s, some e) = keep_failure now e s.phase s
