-- ===== src/Prelude/Actions.antt =====
-- A service method: it reads and writes a state and may throw. The state comes back after a throw
-- too, since what was written stays written unless a transaction is rolled back.
use mathlib.Core.Path.{◌≡◌, refl}
use mathlib.Core.Bool.{Bool, true, false}
use mathlib.Core.Option.{Option, none, some}
use stellar_split.Prelude.Tests.{if◌then◌else◌}

-- The exceptions of the services by their class; messages are left out. `db_failure` is an exception
-- of the database driver, `upstream_failure` one of an HTTP request.
pub data Error : Type 0 where
  not_found bad_request conflict forbidden gone db_failure upstream_failure : Error

pub data Result (A : Type 0) : Type 0 where
  ok : A → Result A
  err : Error → Result A

abbrev pub is_ok : {A : Type 0} → Result A → Bool
is_ok (ok a) = true
is_ok (err e) = false

pub ok_value : {A : Type 0} (r : Result A) → is_ok r ≡ true → (a : A) × (r ≡ ok a)
ok_value (ok a) e = (a, refl)
ok_value (err x) e = cc

abbrev pub Action : Type 0 → Type 0 → Type 0
Action S A = S → Result A × S

module _ {S : Type 0} {A : Type 0} where
  abbrev pub return : A → Action S A
  return a s = (ok a, s)

  abbrev pub throw : Error → Action S A
  throw e s = (err e, s)

  abbrev pub gets : (S → A) → Action S A
  gets f s = (ok (f s), s)

  abbrev pub or_throw : Option A → Error → Action S A
  or_throw none e s = (err e, s)
  or_throw (some a) e s = (ok a, s)

  -- A database transaction: a throw before the commit undoes every write.
  abbrev pub transaction : Action S A → Action S A
  transaction m s = elim ((m s).0) [ ok a ↦ (ok a, (m s).1) | err e ↦ (err e, s) ]

module _ {S : Type 0} where
  abbrev pub throw_if : Bool → Error → Action S (Unit {0})
  throw_if b e s = (if b then err e else ok tt, s)

  abbrev pub modify : (S → S) → Action S (Unit {0})
  modify f s = (ok tt, f s)

infixl 5 ◌>>=◌ ◌>>◌
abbrev pub ◌>>=◌ : {S A B : Type 0} → Action S A → (A → Action S B) → Action S B
◌>>=◌ m f s = let (r, s') = m s in elim r [ ok a ↦ f a s' | err e ↦ (err e, s') ]

abbrev pub ◌>>◌ : {S B : Type 0} → Action S (Unit {0}) → Action S B → Action S B
m >> k = m >>= λ _. k
