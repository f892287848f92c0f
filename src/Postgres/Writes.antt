-- ===== src/Postgres/Writes.antt =====
-- The INSERT and UPDATE statements of postgres.py under the constraints, the partial unique indexes and
-- the triggers of tests/postgres-schema.sql. `db_now` is the database's `now()`. The reference of
-- `replaces` is not tested: the methods that write it hold the row that it names.
use identity_python.Base.{
  Bool, true, false, not, ◌&&◌, ◌||◌, Option, none, some, List, [], ◌∷◌, ◌++◌, ltb, leb, ◌==◌,
  if◌then◌else◌, decide, length,
}
use identity_python.Base.Text.{Str, Bytes, str_discrete}
use identity_python.Credentials.Entries.{type_eq}
use identity_python.Errors.{unique_violation, check_violation, foreign_key_violation}
use identity_python.Postgres.Query.{
  Database, Query, pure, modify, gets, raise_if, raise_unless, ◌>>=◌, ◌>>◌,
}
use identity_python.Postgres.Rows.{UsrRow, CredRow, SesRow, MfaRow}
use identity_python.Types.{
  Status, status_eq, FactorStatus, factor_status_eq, FactorType, totp, webauthn, recovery,
  CredentialType, password, passkey, oidc, Time,
}

-- `a = b` on texts
abbrev pub same : Str → Str → Bool
same a b = decide (str_discrete a b)

abbrev pub is_null {ℓ} : {A : Type ℓ} → Option A → Bool
is_null none = true
is_null (some _) = false

-- `a = b` where both may be NULL: NULL equals nothing
abbrev pub same_option : Option Str → Option Str → Bool
same_option (some a) (some b) = same a b
same_option _ _ = false

-- some row satisfies the test
unfoldable pub any {ℓ} : {A : Type ℓ} → (A → Bool) → List A → Bool
any p [] = false
any p (row ∷ rows) = p row || any p rows

-- `UPDATE ... SET f WHERE p`
unfoldable pub update {ℓ} : {A : Type ℓ} → (A → Bool) → (A → A) → List A → List A
update p f [] = []
update p f (row ∷ rows) = (if p row then f row else row) ∷ update p f rows

-- the rows that an UPDATE writes
unfoldable pub updated {ℓ} : {A : Type ℓ} → (A → Bool) → (A → A) → List A → List A
updated p f [] = []
updated p f (row ∷ rows) = if p row then f row ∷ updated p f rows else updated p f rows

abbrev pub has_user : Str → Database → Bool
has_user usr_id db = any (λ r. same r.id usr_id) db.usr

-- usr

abbrev pub usr_has_id : Str → UsrRow → Bool
usr_has_id uuid row = same row.id uuid

unfoldable pub insert_usr : UsrRow → Query (Unit {0})
insert_usr row = do
  taken ← gets (λ db. any (usr_has_id row.id) db.usr)
  raise_if taken unique_violation
  modify (λ db. record db { usr = db.usr ++ (row ∷ []) })

-- `UPDATE usr SET status = ... WHERE id = ...`, with `usr_touch`
abbrev pub set_usr_status : Status → Time → UsrRow → UsrRow
set_usr_status status db_now row = record row { status = status; updated_at = db_now }

abbrev pub update_usr : Str → (UsrRow → UsrRow) → Query (Unit {0})
update_usr uuid f = modify (λ db. record db { usr = update (usr_has_id uuid) f db.usr })

-- cred

abbrev pub cred_has_id : Str → CredRow → Bool
cred_has_id uuid row = same row.id uuid

-- the CHECK on the columns of each type
abbrev pub cred_columns : CredentialType → CredRow → Bool
cred_columns password row =
    not (is_null row.password_hash) && (is_null row.passkey_public_key && is_null row.oidc_issuer)
cred_columns passkey row =
    not (is_null row.passkey_public_key)
    && (not (is_null row.passkey_sign_count)
        && (is_null row.password_hash && is_null row.oidc_issuer))
cred_columns oidc row =
    not (is_null row.oidc_issuer)
    && (not (is_null row.oidc_subject)
        && (is_null row.password_hash && is_null row.passkey_public_key))

-- the key of `cred_unique_active_identifier`
abbrev pub same_key : CredRow → CredRow → Bool
same_key a b = type_eq a.type b.type && same a.identifier b.identifier

-- both rows are in `cred_unique_active_identifier`, under one key
unfoldable pub cred_conflict : CredRow → CredRow → Bool
cred_conflict a b =
    status_eq a.status Status.active && (status_eq b.status Status.active && same_key a b)

unfoldable pub insert_cred : CredRow → Query (Unit {0})
unfolding cred_conflict
insert_cred row = do
  raise_unless (cred_columns row.type row) check_violation
  taken ← gets (λ db. any (cred_has_id row.id) db.cred)
  raise_if taken unique_violation
  conflict ← gets (λ db. any (cred_conflict row) db.cred)
  raise_if conflict unique_violation
  user ← gets (has_user row.usr_id)
  raise_unless user foreign_key_violation
  modify (λ db. record db { cred = db.cred ++ (row ∷ []) })

-- `UPDATE cred SET status = ...`, with `cred_touch`
abbrev pub set_cred_status : Status → Time → CredRow → CredRow
set_cred_status status db_now row = record row { status = status; updated_at = db_now }

-- An UPDATE to another status than `active` leaves the index.
abbrev pub end_cred : (CredRow → Bool) → Status → Time → Query (Unit {0})
end_cred p status db_now =
    modify (λ db. record db { cred = update p (set_cred_status status db_now) db.cred })

-- `UPDATE cred SET status = 'active' WHERE id = ...` on a row: no other row may have its key.
unfoldable pub activate_cred : CredRow → Time → Query (Unit {0})
activate_cred row db_now = do
  conflict ← gets (λ db.
      any (λ r. not (cred_has_id row.id r) && (status_eq r.status Status.active && same_key row r))
        db.cred)
  raise_if conflict unique_violation
  modify (λ db. record db {
    cred = update (cred_has_id row.id) (set_cred_status Status.active db_now) db.cred;
  })

-- ses

abbrev pub ses_has_id : Str → SesRow → Bool
ses_has_id uuid row = same row.id uuid

-- `CHECK (revoked_at IS NULL OR revoked_at >= created_at)`
abbrev pub revoked_late : Option Time → Time → Bool
revoked_late none created_at = true
revoked_late (some revoked_at) created_at = leb created_at revoked_at

-- `CHECK (token_hash IS NULL OR octet_length(token_hash) = 32)`
abbrev pub hash_is_long : Option Bytes → Bool
hash_is_long none = true
hash_is_long (some hash) = length hash == 32

-- the CHECKs of `ses`, without those that NULL columns satisfy
unfoldable pub ses_check : SesRow → Bool
ses_check row =
    ltb row.created_at row.expires_at
    && (revoked_late row.revoked_at row.created_at && hash_is_long row.token_hash)

-- both rows are in `ses_token_hash_idx`, under one hash
unfoldable pub ses_conflict : SesRow → SesRow → Bool
ses_conflict a b =
    is_null a.revoked_at && (is_null b.revoked_at && same_option a.token_hash b.token_hash)

unfoldable pub insert_ses : SesRow → Query (Unit {0})
unfolding ses_check ses_conflict
insert_ses row = do
  raise_unless (ses_check row) check_violation
  taken ← gets (λ db. any (ses_has_id row.id) db.ses)
  raise_if taken unique_violation
  conflict ← gets (λ db. any (ses_conflict row) db.ses)
  raise_if conflict unique_violation
  user ← gets (has_user row.usr_id)
  raise_unless user foreign_key_violation
  cred ← gets (λ db. any (cred_has_id row.cred_id) db.cred)
  raise_unless cred foreign_key_violation
  modify (λ db. record db { ses = db.ses ++ (row ∷ []) })

abbrev pub set_revoked_at : Time → SesRow → SesRow
set_revoked_at now row = record row { revoked_at = some now }

-- `UPDATE ses SET revoked_at = ... WHERE p`: every row that is written must pass the CHECKs.
unfoldable pub revoke_ses : (SesRow → Bool) → Time → Query (Unit {0})
unfolding ses_check
revoke_ses p now = do
  bad ← gets (λ db. any (λ r. not (ses_check r)) (updated p (set_revoked_at now) db.ses))
  raise_if bad check_violation
  modify (λ db. record db { ses = update p (set_revoked_at now) db.ses })

-- `WHERE usr_id = ... AND revoked_at IS NULL`
abbrev pub live_of_user : Str → SesRow → Bool
live_of_user uuid row = same row.usr_id uuid && is_null row.revoked_at

-- `WHERE cred_id = ... AND revoked_at IS NULL`
abbrev pub live_of_cred : Str → SesRow → Bool
live_of_cred uuid row = same row.cred_id uuid && is_null row.revoked_at

-- mfa

abbrev pub mfa_has_id : Str → MfaRow → Bool
mfa_has_id uuid row = same row.id uuid

abbrev pub type_is : FactorType → FactorType → Bool
type_is totp totp = true
type_is webauthn webauthn = true
type_is recovery recovery = true
type_is _ _ = false

-- both rows are in `mfa_unique_active_singleton`, or in `mfa_webauthn_credential_id_idx`, under one key
abbrev pub same_slot : FactorType → MfaRow → MfaRow → Bool
same_slot totp a b = type_is b.type totp && same a.usr_id b.usr_id
same_slot recovery a b = type_is b.type recovery && same a.usr_id b.usr_id
same_slot webauthn a b = type_is b.type webauthn && same_option a.identifier b.identifier

unfoldable pub mfa_conflict : MfaRow → MfaRow → Bool
mfa_conflict a b =
    factor_status_eq a.status FactorStatus.active
    && (factor_status_eq b.status FactorStatus.active && same_slot a.type a b)

-- The CHECKs on the columns hold for the rows that the methods insert.
unfoldable pub insert_mfa : MfaRow → Query (Unit {0})
unfolding mfa_conflict
insert_mfa row = do
  taken ← gets (λ db. any (mfa_has_id row.id) db.mfa)
  raise_if taken unique_violation
  conflict ← gets (λ db. any (mfa_conflict row) db.mfa)
  raise_if conflict unique_violation
  user ← gets (has_user row.usr_id)
  raise_unless user foreign_key_violation
  modify (λ db. record db { mfa = db.mfa ++ (row ∷ []) })

-- `UPDATE mfa SET f WHERE id = ...` of a row, with `mfa_touch`: no other row may be in its slot.
unfoldable pub update_mfa : MfaRow → (MfaRow → MfaRow) → Time → Query MfaRow
unfolding mfa_conflict
update_mfa old f db_now = do
  let row = record (f old) { updated_at = db_now }
  conflict ← gets (λ db. any (λ r. not (mfa_has_id old.id r) && mfa_conflict row r) db.mfa)
  raise_if conflict unique_violation
  modify (λ db. record db {
    mfa = update (mfa_has_id old.id) (λ r. record (f r) { updated_at = db_now }) db.mfa;
  })
  pure row
