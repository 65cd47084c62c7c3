-- ===== src/Locker.antt =====
-- daemon/system/locker.go: a lock that is a channel of capacity 1. The calls under the mutex are one
-- step each, but that of Destroy, whose two operations on the channel are two: TryAcquire, which does
-- not take the mutex and is a relation between the lock before and after its select, may come between.
pub mod Exclusion
mod Examples
use sls.Shared.{Bool, true, false, Option, none, some}

-- The channel: nil after Destroy, else with 0 or 1 values in it.
pub data Locker : Type 0 where
  nil_channel empty full : Locker

pub data Error : Type 0 where
  locker_locked : Error

abbrev pub new_locker : Locker
new_locker = empty

unfoldable pub is_locked : Locker → Bool
is_locked nil_channel = false
is_locked empty = false
is_locked full = true

-- The send is chosen if it can go on, else the default.
unfoldable pub acquire : Locker → Locker × Option Error
acquire nil_channel = (nil_channel, some locker_locked)
acquire empty = (full, none)
acquire full = (full, some locker_locked)

-- How a context is done.
pub data Done : Type 0 where
  deadline_exceeded canceled : Done

-- The select of TryAcquire: the send goes on when the channel has room, and the other case once the
-- context is done.
pub data TryAcquire : Locker → Option Done → Option Error → Locker → Type 0 where
  sends : {d : Option Done} → TryAcquire empty d none full
  gives_up : {l : Locker} {d : Done} → TryAcquire l (some d) (some locker_locked) l

unfoldable pub release : Locker → Locker
release nil_channel = nil_channel
release empty = empty
release full = empty

-- The select of Destroy.
unfoldable pub drain : Locker → Locker
drain nil_channel = nil_channel
drain empty = empty
drain full = empty

-- `close(l.ch); l.ch = nil`
unfoldable pub close : Locker → Locker
close l = nil_channel

-- Destroy, when no TryAcquire comes between.
unfoldable pub destroy : Locker → Locker
unfolding drain close
destroy l = close (drain l)
