-- ===== src/Locker/Exclusion.antt =====
-- Histories of the lock of daemon/system/locker.go in which only a holder releases it.
use sls.Shared.{
  ℕ, ◌≡◌, refl, subst, Bool, true, false, Option, none, some, List, [], ◌∷◌, arith, length,
}
use sls.Locker.{
  new_locker, Locker, nil_channel, empty, full, Error, acquire, TryAcquire, sends, gives_up, Done,
  release, drain, close,
}

-- The lock, the callers that hold it, and whether Destroy has begun.
pub record Scene : Type 0 where
  pub lock : Locker
  pub holders : List ℕ
  pub destroyed : Bool

-- Caller i becomes a holder when its call gives no error.
abbrev pub enter : ℕ → Bool → List ℕ → Locker × Option Error → Scene
enter i b hs (l, none) = record { lock = l; holders = i ∷ hs; destroyed = b }
enter i b hs (l, some e) = record { lock = l; holders = hs; destroyed = b }

-- The steps of any number of callers.
pub data Step : Scene → Scene → Type 0 where
  acquires : {s : Scene} (i : ℕ) → Step s (enter i s.destroyed s.holders (acquire s.lock))
  tries :
      {s : Scene} {d : Option Done} {e : Option Error} {l : Locker} (i : ℕ)
      → TryAcquire s.lock d e l
      → Step s (enter i s.destroyed s.holders (l, e))
  releases :
      {s : Scene} {hs : List ℕ} (i : ℕ)
      → s.holders ≡ i ∷ hs
      → Step s (record s { lock = release s.lock; holders = hs })
  drains : {s : Scene} → Step s (record s { lock = drain s.lock; destroyed = true })
  closes : {s : Scene} → s.destroyed ≡ true → Step s (record s { lock = close s.lock })

infixr 55 ◌then◌
pub data Steps : Scene → Scene → Type 0 where
  stays : {s : Scene} → Steps s s
  ◌then◌ : {s t u : Scene} → Step s t → Steps t u → Steps s u

-- Until Destroy, the channel is there, and it is full exactly if there is a holder; there is never a
-- second one.
abbrev pub Excludes : Bool → Locker → List ℕ → Type 0
Excludes true l hs = Unit {0}
Excludes false nil_channel hs = ⊥
Excludes false empty hs = length hs ≡ 0
Excludes false full hs = length hs ≡ 1

abbrev pub Inv : Scene → Type 0
Inv s = Excludes s.destroyed s.lock s.holders

-- Nothing is said of a scene after Destroy.
enter-destroyed : (i : ℕ) (hs : List ℕ) (r : Locker × Option Error) → Inv (enter i true hs r)
enter-destroyed i hs (l, none) = tt
enter-destroyed i hs (l, some e) = tt

acquire-Excludes :
    (i : ℕ) (b : Bool) (l : Locker) (hs : List ℕ) → Excludes b l hs → Inv (enter i b hs (acquire l))
unfolding acquire
acquire-Excludes i true l hs h = enter-destroyed i hs (acquire l)
acquire-Excludes i false nil_channel hs h = absurd h
acquire-Excludes i false empty hs h = ground (arith, h)
acquire-Excludes i false full hs h = h

tries-Excludes :
    (i : ℕ) (b : Bool) (l l' : Locker) (d : Option Done) (e : Option Error) (hs : List ℕ)
    → TryAcquire l d e l'
    → Excludes b l hs
    → Inv (enter i b hs (l', e))
tries-Excludes i true _ l' _ e hs try h = enter-destroyed i hs (l', e)
tries-Excludes i false _ _ _ _ hs sends h = ground (arith, h)
tries-Excludes i false _ _ _ _ hs gives_up h = h

release-Excludes :
    (i : ℕ) (b : Bool) (l : Locker) (hs : List ℕ)
    → Excludes b l (i ∷ hs)
    → Excludes b (release l) hs
unfolding release
release-Excludes i true l hs h = tt
release-Excludes i false nil_channel hs h = absurd h
release-Excludes i false empty hs h = absurd (ground (arith, h))
release-Excludes i false full hs h = ground (arith, h)

Step-Inv : {s t : Scene} → Step s t → Inv s → Inv t
Step-Inv (acquires {s} i) h = acquire-Excludes i s.destroyed s.lock s.holders h
Step-Inv (tries {s} {d} {e} {l} i try) h = tries-Excludes i s.destroyed s.lock l d e s.holders try h
Step-Inv (releases {s} {hs} i e) h =
    release-Excludes i s.destroyed s.lock hs (subst (Excludes s.destroyed s.lock) e h)
Step-Inv (drains {s}) h = tt
Step-Inv (closes {s} e) h = rw e tt

Steps-Inv : {s t : Scene} → Steps s t → Inv s → Inv t
Steps-Inv stays h = h
Steps-Inv (x then xs) h = Steps-Inv xs (Step-Inv x h)

-- From a new lock, whatever callers acquire, try, and release what they hold, in whatever order, and
-- until Destroy is called: exactly one caller holds a lock that is locked, and none one that is not.
pub Steps-exclusive :
    {t : Scene}
    → Steps (record { lock = new_locker; holders = []; destroyed = false }) t
    → Excludes t.destroyed t.lock t.holders
Steps-exclusive xs = Steps-Inv xs refl
