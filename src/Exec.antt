-- ===== src/Exec.antt =====
-- A method call: it reads and writes the store, and returns or raises. What was written before a
-- raise stays written, so the store comes back beside the error too.
use identity_python.Base.{Bool, true, false, Option, none, some}
use identity_python.Errors.{Error}
use identity_python.Result.{Result, ok, raised}
use identity_python.Tables.{Store}

abbrev pub Exec : Type 0 → Type 0
Exec A = Store → Result A × Store

module _ {A : Type 0} where
  abbrev pub pure : A → Exec A
  pure a s = (ok a, s)

  abbrev pub raise : Error → Exec A
  raise e s = (raised e, s)

  abbrev pub gets : (Store → A) → Exec A
  gets f s = (ok (f s), s)

  abbrev pub lift : Result A → Exec A
  lift r s = (r, s)

  -- `if x is None: raise e`
  abbrev pub or_raise : Option A → Error → Exec A
  or_raise none e = raise e
  or_raise (some a) e = pure a

abbrev pub modify : (Store → Store) → Exec (Unit {0})
modify f s = (ok tt, f s)

-- `if c: raise e`
abbrev pub raise_if : Bool → Error → Exec (Unit {0})
raise_if true e = raise e
raise_if false e = pure tt

-- `if not c: raise e`
abbrev pub raise_unless : Bool → Error → Exec (Unit {0})
raise_unless true e = pure tt
raise_unless false e = raise e

-- `if a != b: raise e`
abbrev pub raise_unless_dec : {P : Type 0} → Dec P → Error → Exec (Unit {0})
raise_unless_dec (yes _) e = pure tt
raise_unless_dec (no _) e = raise e

infixl 5 ◌>>=◌ ◌>>◌
abbrev pub ◌>>=◌ : {A B : Type 0} → Exec A → (A → Exec B) → Exec B
◌>>=◌ m f s = let (r, s') = m s in elim r [ ok a ↦ f a s' | raised e ↦ raise e s' ]

abbrev pub ◌>>◌ : {B : Type 0} → Exec (Unit {0}) → Exec B → Exec B
m >> k = m >>= λ _. k
