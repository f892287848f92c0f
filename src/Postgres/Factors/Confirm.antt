-- ===== src/Postgres/Factors/Confirm.antt =====
-- The confirmations and the revocation of factors of `PostgresIdentityStore` (postgres.py).
use identity_python.Base.{[], if◌then◌else◌}
use identity_python.Base.Text.{Str}
use identity_python.Errors.{
  precondition, factor_not_pending, credential_type_mismatch, invalid_credential,
}
use identity_python.Factors.Confirm.{timestamp, Response}
use identity_python.Postgres.Query.{Query, pure, lift, raise_unless, transaction, ◌>>=◌, ◌>>◌}
use identity_python.Postgres.Rows.{Ids, or_default, row_to_factor}
use identity_python.Postgres.Writes.{type_is, update_mfa}
use identity_python.Totp.{TotpLibraries, totp_verify, default_totp_config}
use identity_python.Types.{Factor, FactorStatus, factor_status_eq, Time, totp, webauthn}
use identity_python.WebAuthn.{Libraries}
use identity_python.Postgres.Factors.{
  check_pending_not_expired, confirmed, confirmed_at, revoked, verify_assertion, lock_mfa,
}

module _ (ids : Ids) where
  unfoldable pub confirm_totp_factor :
      TotpLibraries → Str → (code : Str) (expiry_now code_now db_now : Time) → Query Factor
  unfolding check_pending_not_expired
  confirm_totp_factor lib mfa_id code expiry_now code_now db_now = transaction (do
    row ← lock_mfa ids mfa_id
    raise_unless (type_is row.type totp) credential_type_mismatch
    raise_unless (factor_status_eq row.status FactorStatus.pending)
        (precondition factor_not_pending)
    check_pending_not_expired row expiry_now
    verified ← lift (
        totp_verify lib (or_default row.totp_secret []) code default_totp_config
          (timestamp code_now) 1)
    raise_unless verified invalid_credential
    changed ← update_mfa row confirmed db_now
    pure (row_to_factor ids changed))

  unfoldable pub confirm_webauthn_factor :
      Libraries → Str → Response → (expiry_now db_now : Time) → Query Factor
  unfolding check_pending_not_expired
  confirm_webauthn_factor lib mfa_id response expiry_now db_now = transaction (do
    row ← lock_mfa ids mfa_id
    raise_unless (type_is row.type webauthn) credential_type_mismatch
    raise_unless (factor_status_eq row.status FactorStatus.pending)
        (precondition factor_not_pending)
    check_pending_not_expired row expiry_now
    sign_count ← verify_assertion lib row response
    changed ← update_mfa row (confirmed_at sign_count) db_now
    pure (row_to_factor ids changed))

  unfoldable pub revoke_mfa_factor : Str → (db_now : Time) → Query Factor
  revoke_mfa_factor mfa_id db_now = transaction (do
    row ← lock_mfa ids mfa_id
    if factor_status_eq row.status FactorStatus.revoked
        then pure (row_to_factor ids row)
        else (do changed ← update_mfa row revoked db_now; pure (row_to_factor ids changed)))
