-- ===== src/Postgres/Query.antt =====
-- The database, and a method of `PostgresIdentityStore` as a function from the database to what it
-- returns or raises and the database that it leaves.
use identity_python.Base.{Bool, true, false, Option, none, some, List, [], ◌∷◌, if◌then◌else◌}
use identity_python.Base.Text.{Str}
use identity_python.Errors.{Error, malformed_id}
use identity_python.Result.{Result, ok, raised}
use identity_python.Postgres.Rows.{UsrRow, CredRow, SesRow, MfaRow, PolicyRow, Ids}

pub record Database : Type 0 where
  pub usr : List UsrRow
  pub cred : List CredRow
  pub ses : List SesRow
  pub mfa : List MfaRow
  pub usr_mfa_policy : List PolicyRow

abbrev pub Query : Type 0 → Type 0
Query A = Database → Result A × Database

module _ {A : Type 0} where
  abbrev pub pure : A → Query A
  pure a db = (ok a, db)

  abbrev pub raise : Error → Query A
  raise e db = (raised e, db)

  abbrev pub gets : (Database → A) → Query A
  gets f db = (ok (f db), db)

  abbrev pub lift : Result A → Query A
  lift r db = (r, db)

  -- `if row is None: raise e`
  abbrev pub or_raise : Option A → Error → Query A
  or_raise none e = raise e
  or_raise (some a) e = pure a

abbrev pub modify : (Database → Database) → Query (Unit {0})
modify f db = (ok tt, f db)

-- `if c: raise e`
abbrev pub raise_if : Bool → Error → Query (Unit {0})
raise_if true e = raise e
raise_if false e = pure tt

-- `if not c: raise e`
abbrev pub raise_unless : Bool → Error → Query (Unit {0})
raise_unless true e = pure tt
raise_unless false e = raise e

infixl 5 ◌>>=◌ ◌>>◌
abbrev pub ◌>>=◌ : {A B : Type 0} → Query A → (A → Query B) → Query B
◌>>=◌ m f db = let (r, db') = m db in elim r [ ok a ↦ f a db' | raised e ↦ raise e db' ]

abbrev pub ◌>>◌ : {B : Type 0} → Query (Unit {0}) → Query B → Query B
m >> k = m >>= λ _. k

-- `with self._tx()` and `with self._conn.transaction()`: an error leaves the database as it was.
unfoldable pub transaction : {A : Type 0} → Query A → Query A
transaction m db = let (r, db') = m db in elim r [ ok a ↦ (ok a, db') | raised e ↦ (raised e, db) ]

-- `except Exception as exc: if _is_unique_violation(exc): raise e`
abbrev pub on_unique_violation : Error → Error → Error
on_unique_violation e Error.unique_violation = e
on_unique_violation e x = x

unfoldable pub with_duplicate : {A : Type 0} → Error → Query A → Query A
with_duplicate e m db =
    let (r, db') = m db in
    elim r [ ok a ↦ (ok a, db') | raised x ↦ (raised (on_unique_violation e x), db') ]

-- `SELECT ... WHERE p` and `fetchone()`
unfoldable pub fetchone {ℓ} : {A : Type ℓ} → (A → Bool) → List A → Option A
fetchone p [] = none
fetchone p (row ∷ rows) = if p row then some row else fetchone p rows

-- `_wire_to_uuid`
abbrev pub wire_to_uuid : Ids → Str → Query Str
wire_to_uuid ids wire_id = or_raise (ids.decode wire_id) malformed_id
