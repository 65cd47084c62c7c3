-- ===== src/Shared/Outcome.antt =====
-- What a call returns beside its error: a value, or the error in its place, chained by `do`.
use mathlib.Core.Path.{◌≡◌, refl}
use mathlib.Core.Bool.{Bool, true, false}

pub data Outcome (E : Type 0) (A : Type 0) : Type 0 where
  ok : A → Outcome E A
  err : E → Outcome E A

module _ {E : Type 0} where
  infixl 5 ◌>>=◌ ◌>>◌
  abbrev pub ◌>>=◌ : {A B : Type 0} → Outcome E A → (A → Outcome E B) → Outcome E B
  err e >>= next = err e
  ok value >>= next = next value

  abbrev pub ◌>>◌ : {B : Type 0} → Outcome E (Unit {0}) → Outcome E B → Outcome E B
  first >> second = first >>= λ done. second

  -- `if test { return err }`
  abbrev pub fail_if : Bool → E → Outcome E (Unit {0})
  fail_if false e = ok tt
  fail_if true e = err e

  -- A chain that succeeds has succeeded in its first call.
  pub bind_ok :
      {A B : Type 0} {b : B} (first : Outcome E A) (next : A → Outcome E B)
      → (first >>= next) ≡ ok b
      → (value : A) × (first ≡ ok value) × (next value ≡ ok b)
  bind_ok (err e) next h = cc
  bind_ok (ok value) next h = (value, refl, h)

  pub fail_if-ok : (test : Bool) (e : E) (u : Unit {0}) → fail_if test e ≡ ok u → test ≡ false
  fail_if-ok false e u h = refl
  fail_if-ok true e u h = cc

  pub ok_injective : {A : Type 0} {a b : A} → ◌≡◌ {A = Outcome E A} (ok a) (ok b) → a ≡ b
  ok_injective e = cc
