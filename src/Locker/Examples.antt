-- ===== src/Locker/Examples.antt =====
-- Two callers that share the lock: the theorem on its histories at one of them.
use sls.Shared.{refl, true, false, none, [], ◌∷◌}
use sls.Locker.{Locker, new_locker, acquire, release, sends, drain, close}
use sls.Locker.Exclusion.{
  Scene, Steps, acquires, tries, releases, drains, closes, ◌then◌, stays, Steps-exclusive, Excludes,
}

abbrev unlocked : Scene
unlocked = record { lock = new_locker; holders = []; destroyed = false }

abbrev one_holder : Scene
one_holder = record { lock = Locker.full; holders = 2 ∷ []; destroyed = false }

-- Caller 1 acquires and releases, then caller 2 waits and acquires.
handover : Steps unlocked one_holder
unfolding acquire release
handover = acquires 1 then releases 1 refl then tries 2 (sends {d = none}) then stays

-- Caller 2 gets the lock of caller 1 while Destroy has drained the channel and not closed it yet.
between :
    Steps unlocked (record { lock = Locker.nil_channel; holders = 2 ∷ 1 ∷ []; destroyed = true })
unfolding acquire drain close
between = acquires 1 then drains then tries 2 (sends {d = none}) then closes refl then stays

Steps-exclusive_example : Excludes one_holder.destroyed one_holder.lock one_holder.holders
Steps-exclusive_example = Steps-exclusive handover
