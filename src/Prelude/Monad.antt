-- ===== src/Prelude/Monad.antt =====
-- A request handler over a state: it returns or throws, and what it wrote stays written unless it
-- ran in a transaction.
use mathlib.Core.Path.{◌≡◌}
use mathlib.Core.Bool.{Bool}
use mathlib.Core.Option.{Option, none, some}
use Prim.Native.String.{String}
use native.Mathlib.Omega.{arith}
use time_sync_be.Prelude.Tests.{if◌then◌else◌}

-- The HTTP exceptions of the handlers, with their messages; an interpolated value is left out.
pub data Error : Type 0 where
  bad_request forbidden not_found conflict : String → Error
  -- a unique index of the database refuses a row
  unique_violation : Error
  -- not an exception of the source: the fuel of a loop ran out
  out_of_fuel : Error

pub data Result {ℓ} (A : Type ℓ) : Type ℓ where
  ok : A → Result A
  err : Error → Result A

abbrev pub Handler : Type 0 → Type 0 → Type 0
Handler S A = S → Result A × S

module _ {S A : Type 0} where
  abbrev pub pure : A → Handler S A
  pure a s = (ok a, s)

  abbrev pub throw : Error → Handler S A
  throw e s = (err e, s)

  abbrev pub or_throw : Option A → Error → Handler S A
  or_throw none e s = (err e, s)
  or_throw (some a) e s = (ok a, s)

  abbrev pub gets : (S → A) → Handler S A
  gets f s = (ok (f s), s)

  abbrev pub liftr : Result A → Handler S A
  liftr r s = (r, s)

  -- `$transaction`: a throw takes back every write.
  abbrev pub transaction : Handler S A → Handler S A
  transaction m s = let (r, s') = m s in elim r [ ok a ↦ (ok a, s') | err e ↦ (err e, s) ]

infixl 5 ◌>>=◌ ◌>>◌
abbrev pub ◌>>=◌ : {S A B : Type 0} → Handler S A → (A → Handler S B) → Handler S B
◌>>=◌ m f s = let (r, s') = m s in elim r [ ok a ↦ f a s' | err e ↦ (err e, s') ]

abbrev pub ◌>>◌ : {S B : Type 0} → Handler S (Unit {0}) → Handler S B → Handler S B
m >> k = m >>= λ _. k

module _ {S : Type 0} where
  abbrev pub throw_if : Bool → Error → Handler S (Unit {0})
  throw_if c e s = (if c then err e else ok tt, s)

  abbrev pub modify : (S → S) → Handler S (Unit {0})
  modify f s = (ok tt, f s)

  -- A transaction that throws leaves the state as it was.
  pub transaction-err :
      {A : Type 0} (m : Handler S A) (s : S) {e : Error}
      → (transaction m s).0 ≡ err e
      → (transaction m s).1 ≡ s
  transaction-err m s h = ground arith
