-- ===== src/Postgres/Factors.antt =====
-- The MFA factors and the policy of `PostgresIdentityStore` (postgres.py). Each new uuid, secret and
-- salt is an argument.
pub mod Enroll
pub mod Confirm
use identity_python.Base.{
  ℕ, ◌+◌, Bool, false, Option, none, some, List, [], ◌∷◌, ltb, if◌then◌else◌, map, length,
  replicate, ◌&&◌, ◌++◌, select,
}
use identity_python.Base.Text.{Str, Bytes, codes}
use identity_python.Errors.{
  not_found, precondition, active_singleton_exists, duplicate_webauthn_credential,
  factor_not_pending, pending_factor_expired, credential_type_mismatch, invalid_credential,
}
use identity_python.Factors.Confirm.{timestamp, Response, assertion_of}
use identity_python.Factors.Entries.{pending_factor_ttl_seconds}
use identity_python.Paging.{sort_by}
use identity_python.Postgres.Credentials.{hash_text, select_policy, map_policy}
use identity_python.Postgres.Query.{
  Query, pure, gets, lift, or_raise, modify, raise_if, raise_unless, transaction, with_duplicate,
  fetchone, wire_to_uuid, ◌>>=◌, ◌>>◌,
}
use identity_python.Postgres.Rows.{Ids, MfaRow, PolicyRow, or_default, row_to_factor, row_to_policy}
use identity_python.Postgres.Users.{require_usr, ensure_user_active}
use identity_python.Postgres.Writes.{same, any, update, mfa_has_id, type_is, insert_mfa, update_mfa}
use identity_python.Primitives.{Hashes}
use identity_python.Totp.{
  TotpLibraries, totp_verify, totp_otpauth_uri, default_totp_config, strip_padding,
}
use identity_python.Types.{
  Factor, FactorType, FactorStatus, factor_status_eq, Time, seconds, totp, webauthn, recovery,
  TotpEnrollmentResult, RecoveryEnrollmentResult, UserMfaPolicy,
}
use identity_python.WebAuthn.{Libraries, webauthn_verify_assertion}

-- a row with no column of a type
abbrev pub blank_mfa : Str → Str → FactorType → FactorStatus → Option Time → Time → MfaRow
blank_mfa uuid usr_uuid type status pending_expires_at now = record {
  id = uuid;
  usr_id = usr_uuid;
  type = type;
  status = status;
  replaces = none;
  identifier = none;
  totp_secret = none;
  totp_algorithm = none;
  totp_digits = none;
  totp_period = none;
  webauthn_public_key = none;
  webauthn_sign_count = none;
  webauthn_rp_id = none;
  webauthn_aaguid = none;
  webauthn_transports = none;
  recovery_hashes = none;
  recovery_consumed = none;
  pending_expires_at = pending_expires_at;
  created_at = now;
  updated_at = now;
}

-- `now + timedelta(seconds=PENDING_FACTOR_TTL_SECONDS)`
abbrev pub pending_expiry : Time → Option Time
pending_expiry now = some (now + seconds pending_factor_ttl_seconds)

-- `WHERE usr_id = %s AND type = %s AND status = 'active'`
abbrev pub active_mfa_of : Str → FactorType → MfaRow → Bool
active_mfa_of usr_uuid type row =
    same row.usr_id usr_uuid
    && (type_is row.type type && factor_status_eq row.status FactorStatus.active)

-- `[hash_password(c) for c in codes]`, with a salt for each code
unfoldable pub hash_texts : Hashes → List (Str × Str) → Query (List Str)
hash_texts h [] = pure []
hash_texts h ((salt, code) ∷ l) = do
  phc ← hash_text h salt code
  rest ← hash_texts h l
  pure (phc ∷ rest)

-- `SELECT ... FROM mfa WHERE id = %s`, with `NotFoundError` for no row
abbrev pub require_mfa : Str → Query MfaRow
require_mfa uuid = gets (λ db. fetchone (mfa_has_id uuid) db.mfa) >>= λ row. or_raise row not_found

-- `expires_at is not None and self._now() > expires_at`
abbrev pub is_over : Option Time → Time → Bool
is_over none now = false
is_over (some expires_at) now = ltb expires_at now

-- `_check_pending_not_expired`
unfoldable pub check_pending_not_expired : MfaRow → (now : Time) → Query (Unit {0})
check_pending_not_expired row now =
    if factor_status_eq row.status FactorStatus.pending
    then raise_if (is_over row.pending_expires_at now) (precondition pending_factor_expired)
    else pure tt

abbrev pub confirmed : MfaRow → MfaRow
confirmed row = record row { status = FactorStatus.active; pending_expires_at = none }

abbrev pub confirmed_at : ℕ → MfaRow → MfaRow
confirmed_at sign_count row = record row {
  status = FactorStatus.active;
  webauthn_sign_count = some sign_count;
  pending_expires_at = none;
}

abbrev pub revoked : MfaRow → MfaRow
revoked row = record row { status = FactorStatus.revoked; pending_expires_at = none }

-- the call of `webauthn_verify_assertion` for a row
abbrev pub verify_assertion : Libraries → MfaRow → Response → Query ℕ
verify_assertion lib row response = lift (
    webauthn_verify_assertion lib (
      assertion_of (or_default row.webauthn_public_key []) (or_default row.webauthn_rp_id [])
        (or_default row.webauthn_sign_count 0) response))

module _ (ids : Ids) where
  unfoldable pub get_mfa_factor : Str → Query Factor
  get_mfa_factor mfa_id = do
    uuid ← wire_to_uuid ids mfa_id
    row ← require_mfa uuid
    pure (row_to_factor ids row)

  -- `ORDER BY created_at`: rows of one time keep the order of the table
  unfoldable pub list_mfa_factors : Str → Query (List Factor)
  list_mfa_factors usr_id = do
    uuid ← wire_to_uuid ids usr_id
    gets (λ db. map (row_to_factor ids) (
        sort_by (λ a b. ltb a.created_at b.created_at)
          (select (λ row. same row.usr_id uuid) db.mfa)))

  -- `_lock_mfa`
  abbrev pub lock_mfa : Str → Query MfaRow
  lock_mfa mfa_id = wire_to_uuid ids mfa_id >>= require_mfa

  unfoldable pub get_mfa_policy : Str → Query (Option UserMfaPolicy)
  get_mfa_policy usr_id = do
    uuid ← wire_to_uuid ids usr_id
    user ← require_usr uuid
    row ← select_policy uuid
    pure (map_policy ids row)

  -- `INSERT ... ON CONFLICT (usr_id) DO UPDATE`: a new row takes the default time, an update
  -- touches it
  unfoldable pub set_mfa_policy :
      Str → (required : Bool) (grace_until : Option Time) (db_now : Time) → Query UserMfaPolicy
  set_mfa_policy usr_id required grace_until db_now = do
    uuid ← wire_to_uuid ids usr_id
    let row : PolicyRow = record {
      usr_id = uuid;
      required = required;
      grace_until = grace_until;
      updated_at = db_now;
    }
    transaction (do
      user ← require_usr uuid
      modify (λ db. record db {
        usr_mfa_policy =
            if any (λ r. same r.usr_id uuid) db.usr_mfa_policy
            then update (λ r. same r.usr_id uuid) (λ r. row) db.usr_mfa_policy
            else db.usr_mfa_policy ++ (row ∷ []);
      })
      pure (row_to_policy ids row))
