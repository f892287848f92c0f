-- ===== src/Postgres/Credentials.antt =====
-- The credentials of `PostgresIdentityStore` (postgres.py), without the rotations.
use identity_python.Base.{ℕ, Bool, ◌&&◌, Option, none, some, List, ltb, map, select}
use identity_python.Base.Text.{Str, Bytes, codes}
use identity_python.Credentials.Entries.{type_eq}
use identity_python.Credentials.Verify.{mfa_is_required}
use identity_python.Errors.{
  not_found, precondition, already_terminal, invalid_transition, cred_not_active,
  duplicate_credential, invalid_credential, assertion_error,
}
use identity_python.Paging.{sort_by}
use identity_python.Postgres.Query.{
  Query, pure, raise, gets, or_raise, raise_if, raise_unless, transaction, with_duplicate, fetchone,
  wire_to_uuid, ◌>>=◌, ◌>>◌,
}
use identity_python.Postgres.Rows.{Ids, CredRow, PolicyRow, row_to_cred, row_to_policy}
use identity_python.Postgres.Users.{ensure_user_active}
use identity_python.Postgres.Writes.{
  same, cred_has_id, insert_cred, end_cred, activate_cred, revoke_ses, live_of_cred,
}
use identity_python.Primitives.{Hashes, is_too_long}
use identity_python.Errors.{value_error}
use identity_python.Types.{
  Credential, CredentialType, VerifiedCredential, UserMfaPolicy, Status, Time, status_eq, password,
  passkey, oidc, pat_dummy_phc_hash,
}

module _ (h : Hashes) where
  -- `verify_password_hash` and `hash_password` of hashing.py
  abbrev pub verify_hash : Str → Str → Query Bool
  verify_hash phc candidate = do
    raise_if (is_too_long candidate) value_error
    pure (h.argon2_verify phc candidate)

  abbrev pub hash_text : Str → Str → Query Str
  hash_text salt plaintext = do
    raise_if (is_too_long plaintext) value_error
    pure (h.argon2_hash salt plaintext)

-- A row of the table's defaults, with no column of a type.
abbrev pub blank_cred : Str → Str → CredentialType → Str → Option Str → Time → CredRow
blank_cred uuid usr_uuid type identifier replaces db_now = record {
  id = uuid;
  usr_id = usr_uuid;
  type = type;
  identifier = identifier;
  status = Status.active;
  replaces = replaces;
  password_hash = none;
  passkey_public_key = none;
  passkey_sign_count = none;
  passkey_rp_id = none;
  oidc_issuer = none;
  oidc_subject = none;
  created_at = db_now;
  updated_at = db_now;
}

-- the INSERTs of the three types, in `create_*` and `rotate_*` alike
abbrev pub password_row : Str → Str → Str → Option Str → Str → Time → CredRow
password_row uuid usr_uuid identifier replaces phc db_now =
    record (blank_cred uuid usr_uuid password identifier replaces db_now) {
      password_hash = some phc;
    }

abbrev pub passkey_row : Str → Str → Str → Option Str → Bytes → ℕ → Str → Time → CredRow
passkey_row uuid usr_uuid identifier replaces key sign_count rp_id db_now =
    record (blank_cred uuid usr_uuid passkey identifier replaces db_now) {
      passkey_public_key = some key;
      passkey_sign_count = some sign_count;
      passkey_rp_id = some rp_id;
    }

abbrev pub oidc_row : Str → Str → Str → Option Str → Str → Str → Time → CredRow
oidc_row uuid usr_uuid identifier replaces issuer subject db_now =
    record (blank_cred uuid usr_uuid oidc identifier replaces db_now) {
      oidc_issuer = some issuer;
      oidc_subject = some subject;
    }

-- `SELECT ... FROM cred WHERE id = %s`, with `NotFoundError` for no row
abbrev pub require_cred : Str → Query CredRow
require_cred uuid =
    gets (λ db. fetchone (cred_has_id uuid) db.cred) >>= λ row. or_raise row not_found

-- the row that an UPDATE returns, and the assertion on it
abbrev pub returned_cred : Str → Query CredRow
returned_cred uuid =
    gets (λ db. fetchone (cred_has_id uuid) db.cred) >>= λ row. or_raise row assertion_error

-- `WHERE type = %s AND identifier = %s AND status = 'active'`
abbrev pub active_under : CredentialType → Str → CredRow → Bool
active_under type identifier row =
    type_eq row.type type && (same row.identifier identifier && status_eq row.status Status.active)

module _ (ids : Ids) where
  -- the INSERT in a transaction of its own, and the entity of the row
  unfoldable pub stored_cred : CredRow → Query Credential
  stored_cred row =
      with_duplicate duplicate_credential
        (transaction (do insert_cred row; pure (row_to_cred ids row)))

  unfoldable pub create_password_credential :
      Hashes
      → Str
      → (identifier password : Str) → (db_now : Time) (uuid salt : Str) → Query Credential
  unfolding ensure_user_active stored_cred
  create_password_credential h usr_id identifier plaintext db_now uuid salt = do
    usr_uuid ← ensure_user_active ids usr_id
    phc ← hash_text h salt plaintext
    stored_cred (password_row uuid usr_uuid identifier none phc db_now)

  unfoldable pub create_passkey_credential :
      Str → Str → Bytes → ℕ → Str → (db_now : Time) (uuid : Str) → Query Credential
  unfolding ensure_user_active stored_cred
  create_passkey_credential usr_id identifier key sign_count rp_id db_now uuid = do
    usr_uuid ← ensure_user_active ids usr_id
    stored_cred (passkey_row uuid usr_uuid identifier none key sign_count rp_id db_now)

  unfoldable pub create_oidc_credential :
      Str → Str → Str → Str → (db_now : Time) (uuid : Str) → Query Credential
  unfolding ensure_user_active stored_cred
  create_oidc_credential usr_id identifier issuer subject db_now uuid = do
    usr_uuid ← ensure_user_active ids usr_id
    stored_cred (oidc_row uuid usr_uuid identifier none issuer subject db_now)

  unfoldable pub get_credential : Str → Query Credential
  get_credential cred_id = do
    uuid ← wire_to_uuid ids cred_id
    row ← require_cred uuid
    pure (row_to_cred ids row)

  -- `ORDER BY created_at`: rows of one time keep the order of the table
  unfoldable pub list_credentials_for_user : Str → Query (List Credential)
  list_credentials_for_user usr_id = do
    uuid ← wire_to_uuid ids usr_id
    gets (λ db. map (row_to_cred ids) (
        sort_by (λ a b. ltb a.created_at b.created_at)
          (select (λ row. same row.usr_id uuid) db.cred)))

  unfoldable pub find_credential_by_identifier : CredentialType → Str → Query (Option Credential)
  find_credential_by_identifier type identifier = gets (λ db.
      elim (fetchone (active_under type identifier) db.cred) [
        | none ↦ none
        | some row ↦ some (row_to_cred ids row)
      ])

  unfoldable pub suspend_credential : Str → (now db_now : Time) → Query Credential
  suspend_credential cred_id now db_now = transaction (do
    uuid ← wire_to_uuid ids cred_id
    row ← require_cred uuid
    raise_unless (status_eq row.status Status.active) (precondition cred_not_active)
    end_cred (cred_has_id uuid) Status.suspended db_now
    changed ← returned_cred uuid
    revoke_ses (live_of_cred uuid) now
    pure (row_to_cred ids changed))

  unfoldable pub reinstate_credential : Str → (db_now : Time) → Query Credential
  reinstate_credential cred_id db_now = transaction (do
    uuid ← wire_to_uuid ids cred_id
    row ← require_cred uuid
    raise_unless (status_eq row.status Status.suspended) (precondition invalid_transition)
    with_duplicate duplicate_credential (activate_cred row db_now)
    changed ← returned_cred uuid
    pure (row_to_cred ids changed))

  unfoldable pub revoke_credential : Str → (now db_now : Time) → Query Credential
  revoke_credential cred_id now db_now = transaction (do
    uuid ← wire_to_uuid ids cred_id
    row ← require_cred uuid
    raise_if (status_eq row.status Status.revoked) already_terminal
    end_cred (cred_has_id uuid) Status.revoked db_now
    changed ← returned_cred uuid
    revoke_ses (live_of_cred uuid) now
    pure (row_to_cred ids changed))

-- `SELECT required, grace_until FROM usr_mfa_policy WHERE usr_id = %s`
abbrev pub select_policy : Str → Query (Option PolicyRow)
select_policy uuid = gets (λ db. fetchone (λ r. same r.usr_id uuid) db.usr_mfa_policy)

abbrev pub map_policy : Ids → Option PolicyRow → Option UserMfaPolicy
map_policy ids none = none
map_policy ids (some row) = some (row_to_policy ids row)

-- The active password row of an identifier with a hash, as the code asks for it.
abbrev pub password_hash_of : Option CredRow → Option (CredRow × Str)
password_hash_of none = none
password_hash_of (some row) = elim row.password_hash [ none ↦ none | some phc ↦ some (row, phc) ]

module _ (ids : Ids) (h : Hashes) where
  -- the dummy verification and the error
  abbrev pub or_dummy : {A : Type 0} → Option A → Str → Query A
  or_dummy none candidate = do
    verified ← verify_hash h pat_dummy_phc_hash candidate
    raise invalid_credential
  or_dummy (some a) candidate = pure a

  unfoldable pub verify_password : Str → (password : Str) (now : Time) → Query VerifiedCredential
  verify_password identifier candidate now = do
    found ← gets (λ db. fetchone (active_under password identifier) db.cred)
    (row, phc) ← or_dummy (password_hash_of found) candidate
    verified ← verify_hash h phc candidate
    raise_unless verified invalid_credential
    policy ← select_policy row.usr_id
    pure (record {
      usr_id = ids.encode (codes "usr") row.usr_id;
      cred_id = ids.encode (codes "cred") row.id;
      mfa_required = mfa_is_required (map_policy ids policy) now;
    })
