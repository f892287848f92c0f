-- ===== src/Postgres/Authority/Apart.antt =====
-- Queries that are apart from the tables `usr`, `cred` and `ses`, and how they combine.
use identity_python.Base.{
  ℕ, ◌≡◌, refl, arith, Option, List, [], ◌∷◌, Bool, true, false, if◌then◌else◌, suc, ◌∙◌,
}
use identity_python.Base.Text.{Str}
use identity_python.Factors.Confirm.{Response}
use identity_python.Factors.Verify.{first_match}
use identity_python.Errors.{Error}
use identity_python.Postgres.Atomic.{IsReading, bind-IsReading}
use identity_python.Postgres.Credentials.{verify_hash}
use identity_python.Postgres.Factors.{check_pending_not_expired, verify_assertion}
use identity_python.Postgres.Proofs.{match_open_slots}
use identity_python.Postgres.Query.{
  Database, Query, pure, gets, lift, or_raise, raise_if, raise_unless, transaction, with_duplicate,
  ◌>>=◌,
}
use identity_python.Postgres.Rows.{MfaRow}
use identity_python.Postgres.Writes.{insert_mfa, update_mfa}
use identity_python.Primitives.{Hashes}
use identity_python.Result.{Result, ok, raised}
use identity_python.Types.{Time}
use identity_python.WebAuthn.{Libraries}

-- The accounts and the sessions of both databases are the same.
abbrev pub SameAccounts : Database → Database → Type 0
SameAccounts a b = (b.usr ≡ a.usr) × (b.cred ≡ a.cred) × (b.ses ≡ a.ses)

pub record IsApart {A : Type 0} (m : Query A) : Type 0 where
  pub apart : (db : Database) → SameAccounts db (m db).1

pub reading-IsApart : {A : Type 0} (m : Query A) → IsReading m → IsApart m
reading-IsApart m h = record { apart = λ db. rw (h db) (refl, refl, refl) }

pub bind-IsApart :
    {A B : Type 0} (m : Query A) (k : A → Query B)
    → IsApart m
    → ((a : A) → IsApart (k a))
    → IsApart (m >>= k)
bind-IsApart {A} m k f g = record { apart = λ db. go db (m db) (f.apart db) }
  where
    go :
        (db : Database) (r : Result A × Database)
        → SameAccounts db r.1
        → SameAccounts db (((λ _. r) >>= k) db).1
    go db (ok a, t) (p, q, r) = let (x, y, z) = (g a).apart t in (x ∙ p, y ∙ q, z ∙ r)
    go db (raised e, t) p = p

pub transaction-IsApart : {A : Type 0} (m : Query A) → IsApart m → IsApart (transaction m)
unfolding transaction
transaction-IsApart {A} m f = record { apart = λ db. go db (m db) (f.apart db) }
  where
    go :
        (db : Database) (r : Result A × Database)
        → SameAccounts db r.1
        → SameAccounts db (transaction (λ _. r) db).1
    go db (ok a, t) h = h
    go db (raised e, t) h = (refl, refl, refl)

pub with_duplicate-IsApart :
    {A : Type 0} (x : Error) (m : Query A) → IsApart m → IsApart (with_duplicate x m)
unfolding with_duplicate
with_duplicate-IsApart {A} x m f = record { apart = λ db. go db (m db) (f.apart db) }
  where
    go :
        (db : Database) (r : Result A × Database)
        → SameAccounts db r.1
        → SameAccounts db (with_duplicate x (λ _. r) db).1
    go db (ok a, t) h = h
    go db (raised e, t) h = h

pub insert_mfa-IsApart : (row : MfaRow) → IsApart (insert_mfa row)
unfolding insert_mfa
insert_mfa-IsApart row = record { apart = λ db. ground arith }

pub update_mfa-IsApart :
    (row : MfaRow) (f : MfaRow → MfaRow) (t : Time) → IsApart (update_mfa row f t)
unfolding update_mfa
update_mfa-IsApart row f t = record { apart = λ db. ground arith }

pub pure-IsApart : {A : Type 0} (a : A) → IsApart (pure a)
pure-IsApart a = record { apart = λ db. (refl, refl, refl) }

pub gets-IsApart : {A : Type 0} (f : Database → A) → IsApart (gets f)
gets-IsApart f = record { apart = λ db. (refl, refl, refl) }

pub lift-IsApart : {A : Type 0} (r : Result A) → IsApart (lift r)
lift-IsApart r = record { apart = λ db. (refl, refl, refl) }

pub or_raise-IsApart : {A : Type 0} (o : Option A) (e : Error) → IsApart (or_raise o e)
or_raise-IsApart o e = record { apart = λ db. ground arith }

pub raise_if-IsApart : (b : Bool) (e : Error) → IsApart (raise_if b e)
raise_if-IsApart b e = record { apart = λ db. ground arith }

pub raise_unless-IsApart : (b : Bool) (e : Error) → IsApart (raise_unless b e)
raise_unless-IsApart b e = record { apart = λ db. ground arith }

pub check_pending_not_expired-IsApart :
    (row : MfaRow) (now : Time) → IsApart (check_pending_not_expired row now)
unfolding check_pending_not_expired
check_pending_not_expired-IsApart row now = record { apart = λ db. ground arith }

pub verify_assertion-IsApart :
    (lib : Libraries) (row : MfaRow) (r : Response) → IsApart (verify_assertion lib row r)
verify_assertion-IsApart lib row r = lift-IsApart _

pub if-IsApart :
    {A : Type 0} (b : Bool) (m k : Query A) → IsApart m → IsApart k → IsApart (if b then m else k)
if-IsApart true m k f g = f
if-IsApart false m k f g = g

pub verify_hash-IsReading : (h : Hashes) (phc code : Str) → IsReading (verify_hash h phc code)
verify_hash-IsReading h phc code db = ground arith

pub match_open_slots-IsReading :
    (h : Hashes) (code : Str) (hashes : List Str) (consumed : List Bool) (i : ℕ) (m : Option ℕ)
    → IsReading (match_open_slots h code hashes consumed i m)
unfolding match_open_slots
match_open_slots-IsReading h code [] consumed i m = λ db. refl
match_open_slots-IsReading h code (phc ∷ hashes) [] i m =
    bind-IsReading (verify_hash h phc code)
      (λ b. match_open_slots h code hashes [] (suc i) (first_match b i m))
      (verify_hash-IsReading h phc code)
      (λ b. match_open_slots-IsReading h code hashes [] (suc i) (first_match b i m))
match_open_slots-IsReading h code (phc ∷ hashes) (true ∷ c) i m =
    match_open_slots-IsReading h code hashes c (suc i) m
match_open_slots-IsReading h code (phc ∷ hashes) (false ∷ c) i m =
    bind-IsReading (verify_hash h phc code)
      (λ b. match_open_slots h code hashes c (suc i) (first_match b i m))
      (verify_hash-IsReading h phc code)
      (λ b. match_open_slots-IsReading h code hashes c (suc i) (first_match b i m))
