-- ===== src/Postgres/Factors/Enroll.antt =====
-- The enrollments of factors of `PostgresIdentityStore` (postgres.py).
use identity_python.Base.{ℕ, false, Option, none, some, List, map, length, replicate}
use identity_python.Base.Text.{Str, Bytes, codes}
use identity_python.Errors.{precondition, active_singleton_exists, duplicate_webauthn_credential}
use identity_python.Postgres.Query.{
  Query, pure, gets, raise_if, transaction, with_duplicate, ◌>>=◌, ◌>>◌,
}
use identity_python.Postgres.Rows.{Ids, MfaRow, row_to_factor}
use identity_python.Postgres.Users.{ensure_user_active}
use identity_python.Postgres.Writes.{any, insert_mfa}
use identity_python.Primitives.{Hashes}
use identity_python.Totp.{totp_otpauth_uri, default_totp_config, strip_padding}
use identity_python.Types.{
  Factor, FactorStatus, Time, totp, webauthn, recovery, TotpEnrollmentResult,
  RecoveryEnrollmentResult,
}
use identity_python.Postgres.Factors.{blank_mfa, pending_expiry, active_mfa_of, hash_texts}

module _ (ids : Ids) where
  module _ (b32encode : Bytes → Str) (quote upper : Str → Str) where
    unfoldable pub enroll_totp_factor :
        Str
        → (identifier : Str) (now : Time) (secret : Bytes) (uuid : Str) → Query TotpEnrollmentResult
    unfolding ensure_user_active
    enroll_totp_factor usr_id identifier now secret uuid = do
      usr_uuid ← ensure_user_active ids usr_id
      taken ← gets (λ db. any (active_mfa_of usr_uuid totp) db.mfa)
      raise_if taken (precondition active_singleton_exists)
      let row : MfaRow =
          record (blank_mfa uuid usr_uuid totp FactorStatus.pending (pending_expiry now) now) {
            identifier = some identifier;
            totp_secret = some secret;
            totp_algorithm = some default_totp_config.algorithm;
            totp_digits = some default_totp_config.digits;
            totp_period = some default_totp_config.period;
          }
      transaction (insert_mfa row)
      pure (record {
        factor = row_to_factor ids row;
        secret_b32 = strip_padding (b32encode secret);
        otpauth_uri =
            totp_otpauth_uri b32encode quote upper secret identifier (codes "Flametrench")
              default_totp_config;
      })

  unfoldable pub enroll_webauthn_factor :
      Str
      → (identifier : Str) → Bytes
      → ℕ
      → (rp_id : Str) → (aaguid : Option Str) → (transports : Option (List Str))
      → (now : Time) (uuid : Str) → Query Factor
  unfolding ensure_user_active
  enroll_webauthn_factor usr_id identifier key sign_count rp_id aaguid transports now uuid = do
    usr_uuid ← ensure_user_active ids usr_id
    let row : MfaRow =
        record (blank_mfa uuid usr_uuid webauthn FactorStatus.pending (pending_expiry now) now) {
          identifier = some identifier;
          webauthn_public_key = some key;
          webauthn_sign_count = some sign_count;
          webauthn_rp_id = some rp_id;
          webauthn_aaguid = aaguid;
          webauthn_transports = transports;
        }
    with_duplicate (precondition duplicate_webauthn_credential)
        (transaction (do insert_mfa row; pure (row_to_factor ids row)))

  -- The codes come with the salts of their hashes.
  unfoldable pub enroll_recovery_factor :
      Hashes
      → Str
      → (now : Time) (salted : List (Str × Str)) (uuid : Str) → Query RecoveryEnrollmentResult
  unfolding ensure_user_active hash_texts
  enroll_recovery_factor h usr_id now salted uuid = do
    usr_uuid ← ensure_user_active ids usr_id
    hashes ← hash_texts h salted
    let row : MfaRow = record (blank_mfa uuid usr_uuid recovery FactorStatus.active none now) {
      recovery_hashes = some hashes;
      recovery_consumed = some (replicate (length salted) false);
    }
    with_duplicate (precondition active_singleton_exists) (
        transaction (do
          insert_mfa row
          pure (record { factor = row_to_factor ids row; recovery_codes = map (λ c. c.1) salted })))
