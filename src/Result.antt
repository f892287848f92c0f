-- ===== src/Result.antt =====
-- What a function returns, or the exception that it raises.
use identity_python.Base.{Bool, true, false, Option, none, some, ◌≡◌, ◌⊎◌, inl, inr, refl}
use identity_python.Errors.{Error}

pub data Result (A : Type 0) : Type 0 where
  ok : A → Result A
  raised : Error → Result A

infixl 5 ◌>>=◌ ◌>>◌
abbrev pub ◌>>=◌ : {A B : Type 0} → Result A → (A → Result B) → Result B
ok a >>= f = f a
raised e >>= f = raised e

abbrev pub ◌>>◌ : {B : Type 0} → Result (Unit {0}) → Result B → Result B
m >> k = m >>= λ _. k

-- `if c: raise e`
abbrev pub fail_if : Bool → Error → Result (Unit {0})
fail_if true e = raised e
fail_if false e = ok tt

-- `if not c: raise e`
abbrev pub fail_unless : Bool → Error → Result (Unit {0})
fail_unless true e = ok tt
fail_unless false e = raised e

abbrev pub or_fail : {A : Type 0} → Option A → Error → Result A
or_fail none e = raised e
or_fail (some a) e = ok a

-- To split on a result and keep the equation.
pub Result-cases :
    {A : Type 0} (r : Result A) → ((a : A) × (r ≡ ok a)) ⊎ ((e : Error) × (r ≡ raised e))
Result-cases (ok a) = inl (a, refl)
Result-cases (raised e) = inr (e, refl)
