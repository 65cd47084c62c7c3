-- ===== src/Limits/Layers.antt =====
-- Which of several layers of limits decides: protocube/environment/helpers.go.
use sls.Shared.{◌≡◌, refl, Option, none, some}
use sls.Limits.{Limits, copy_field, merge_field, or_empty, copy_limits, merge_limits}

-- The value of the last layer that has one.
abbrev pub topmost {ℓ} : {A : Type ℓ} → Option A → Option A → Option A
topmost base none = base
topmost base (some x) = some x

-- Field by field.
pub record IsOver (base over merged : Limits) : Type 0 where
  pub memory_limit : merged.memory_limit ≡ topmost base.memory_limit over.memory_limit
  pub swap : merged.swap ≡ topmost base.swap over.swap
  pub io_weight : merged.io_weight ≡ topmost base.io_weight over.io_weight
  pub cpu_limit : merged.cpu_limit ≡ topmost base.cpu_limit over.cpu_limit
  pub disk_space : merged.disk_space ≡ topmost base.disk_space over.disk_space
  pub threads : merged.threads ≡ topmost base.threads over.threads
  pub oom_disabled : merged.oom_disabled ≡ topmost base.oom_disabled over.oom_disabled

copy_field-eq {ℓ} : {A : Type ℓ} (o : Option A) → copy_field o ≡ o
copy_field-eq none = refl
copy_field-eq (some x) = refl

-- A copy has the same values.
pub copy_limits-eq : (o : Option Limits) → copy_limits o ≡ o
unfolding copy_limits
copy_limits-eq none = refl
copy_limits-eq (some l) = cc (
  copy_field-eq l.memory_limit,
  copy_field-eq l.swap,
  copy_field-eq l.io_weight,
  copy_field-eq l.cpu_limit,
  copy_field-eq l.disk_space,
  copy_field-eq l.threads,
  copy_field-eq l.oom_disabled,
)

pub merge_limits-IsOver :
    (base over : Option Limits)
    → IsOver (or_empty base) (or_empty over) (or_empty (merge_limits base over))
unfolding merge_limits
merge_limits-IsOver base none = record {
  memory_limit = refl;
  swap = refl;
  io_weight = refl;
  cpu_limit = refl;
  disk_space = refl;
  threads = refl;
  oom_disabled = refl;
}
merge_limits-IsOver base (some l) = record {
  memory_limit = field _ l.memory_limit;
  swap = field _ l.swap;
  io_weight = field _ l.io_weight;
  cpu_limit = field _ l.cpu_limit;
  disk_space = field _ l.disk_space;
  threads = field _ l.threads;
  oom_disabled = field _ l.oom_disabled;
}
  where
    field : {A : Type 0} (b o : Option A) → merge_field b o ≡ topmost b o
    field b none = refl
    field b (some x) = refl
