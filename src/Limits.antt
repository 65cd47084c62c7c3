-- ===== src/Limits.antt =====
-- protocube/environment (settings.go, helpers.go): the resource limits of a server. A pointer to a
-- number is an optional number; the limits that are merged into are a copy in every caller, so that
-- they are values.
pub mod Layers
use sls.Shared.{ℕ, ltb, ◌==◌, Bool, true, false, not, ◌&&◌, ◌||◌, Option, none, some}
use sls.Shared.Int.{ℤ}
use sls.Shared.Text.{Text}

pub record Limits : Type 0 where
  pub memory_limit : Option ℤ
  pub swap : Option ℤ
  pub io_weight : Option ℕ
  pub cpu_limit : Option ℤ
  pub disk_space : Option ℤ
  pub threads : Option Text
  pub oom_disabled : Option Bool

abbrev pub no_limits : Limits
no_limits = record {
  memory_limit = none;
  swap = none;
  io_weight = none;
  cpu_limit = none;
  disk_space = none;
  threads = none;
  oom_disabled = none;
}

-- `if orig.F != nil { c.F = &val }`
abbrev pub copy_field {ℓ} : {A : Type ℓ} → Option A → Option A
copy_field none = none
copy_field (some x) = some x

unfoldable pub copy_limits : Option Limits → Option Limits
copy_limits none = none
copy_limits (some l) = some (record {
  memory_limit = copy_field l.memory_limit;
  swap = copy_field l.swap;
  io_weight = copy_field l.io_weight;
  cpu_limit = copy_field l.cpu_limit;
  disk_space = copy_field l.disk_space;
  threads = copy_field l.threads;
  oom_disabled = copy_field l.oom_disabled;
})

-- `if override.F != nil { base.F = override.F }`
abbrev pub merge_field {ℓ} : {A : Type ℓ} → Option A → Option A → Option A
merge_field base none = base
merge_field base (some x) = some x

abbrev pub merge_fields : Limits → Limits → Limits
merge_fields base override = record {
  memory_limit = merge_field base.memory_limit override.memory_limit;
  swap = merge_field base.swap override.swap;
  io_weight = merge_field base.io_weight override.io_weight;
  cpu_limit = merge_field base.cpu_limit override.cpu_limit;
  disk_space = merge_field base.disk_space override.disk_space;
  threads = merge_field base.threads override.threads;
  oom_disabled = merge_field base.oom_disabled override.oom_disabled;
}

abbrev pub or_empty : Option Limits → Limits
or_empty none = no_limits
or_empty (some l) = l

unfoldable pub merge_limits : Option Limits → Option Limits → Option Limits
merge_limits base none = base
merge_limits base (some override) = some (merge_fields (or_empty base) override)

abbrev pub bad_weight : Option ℕ → Bool
bad_weight none = false
bad_weight (some w) = not (w == 0) && (ltb w 10 || ltb 1000 w)

-- `defaults.Set` of the package defaults is an argument; `none` is its error.
unfoldable pub validate_limits : (Limits → Option Limits) → Limits → Option Limits
validate_limits set_defaults limit = elim (set_defaults limit) [
  | none ↦ none
  | some l ↦ elim (bad_weight l.io_weight) [ true ↦ none | false ↦ some l ]
]
