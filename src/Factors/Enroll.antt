-- ===== src/Factors/Enroll.antt =====
-- `enroll_*_factor`, `list_mfa_factors`, `revoke_mfa_factor` and the policy of in_memory.py. Each
-- reading of the clock, each new id, secret and salt is an argument.
use identity_python.Base.{
  ℕ, Bool, false, Option, none, List, [], ◌∷◌, if◌then◌else◌, decide, map, length, select,
}
use identity_python.Base.Dict.{lookup, insert, values}
use identity_python.Base.Text.{Str, Bytes, codes, str_discrete}
use identity_python.Errors.{precondition, duplicate_webauthn_credential}
use identity_python.Exec.{Exec, pure, gets, modify, raise_if, ◌>>=◌, ◌>>◌}
use identity_python.Factors.Entries.{
  with_factors, singleton_key, is_present, check_user_active, enforce_no_active_singleton,
  put_factor, free_slot, with_factor_status,
}
use identity_python.Primitives.{Hashes, hash_password}
use identity_python.Requires.{require_factor, require_user}
use identity_python.Totp.{totp_otpauth_uri, strip_padding, default_totp_config}
use identity_python.Types.{
  Factor, FactorStatus, FactorDetails, Time, totp, recovery, totp_details, webauthn_details,
  recovery_details, TotpEnrollmentResult, RecoveryEnrollmentResult, UserMfaPolicy, factor_status_eq,
}

abbrev pub new_factor : Str → Str → FactorStatus → FactorDetails → Time → Factor
new_factor mfa_id usr_id status details now = record {
  id = mfa_id;
  usr_id = usr_id;
  status = status;
  replaces = none;
  details = details;
  created_at = now;
  updated_at = now;
}

module _ (b32encode : Bytes → Str) (quote upper : Str → Str) where
  unfoldable pub enroll_totp_factor :
      Str
      → (identifier : Str) (now : Time) (secret : Bytes) (mfa_id : Str) → Exec TotpEnrollmentResult
  unfolding check_user_active enforce_no_active_singleton
  enroll_totp_factor usr_id identifier now secret mfa_id = do
    check_user_active usr_id
    enforce_no_active_singleton usr_id totp
    let factor = new_factor mfa_id usr_id FactorStatus.pending (totp_details identifier) now
    modify (
        with_factors (λ t. record (put_factor factor t) {
          mfa_totp_secrets = insert mfa_id secret t.mfa_totp_secrets;
        }))
    pure (record {
      factor = factor;
      secret_b32 = strip_padding (b32encode secret);
      otpauth_uri =
          totp_otpauth_uri b32encode quote upper secret identifier (codes "Flametrench")
            default_totp_config;
    })

unfoldable pub enroll_webauthn_factor :
    Str
    → (identifier : Str) (public_key : Bytes) (sign_count : ℕ) (rp_id : Str) (now : Time)
      (mfa_id : Str)
    → Exec Factor
unfolding check_user_active
enroll_webauthn_factor usr_id identifier public_key sign_count rp_id now mfa_id = do
  check_user_active usr_id
  enrolled ← gets (λ s. is_present (lookup identifier s.mfa_webauthn_by_credential_id))
  raise_if enrolled (precondition duplicate_webauthn_credential)
  let factor =
      new_factor mfa_id usr_id FactorStatus.pending (webauthn_details identifier rp_id sign_count)
        now
  modify (
      with_factors (λ t. record (put_factor factor t) {
        mfa_webauthn_keys = insert mfa_id public_key t.mfa_webauthn_keys;
        mfa_webauthn_by_credential_id = insert identifier mfa_id t.mfa_webauthn_by_credential_id;
      }))
  pure factor

module _ (h : Hashes) where
  -- `[hash_password(code) for code in codes]`, each code with its salt
  unfoldable pub hash_codes : List (Str × Str) → Exec (List Str)
  hash_codes [] = pure []
  hash_codes ((salt, code) ∷ l) = do
    phc ← hash_password h salt code
    rest ← hash_codes l
    pure (phc ∷ rest)

  -- `salted` are the codes that were generated, each with the salt of its hash.
  unfoldable pub enroll_recovery_factor :
      Str → (now : Time) (salted : List (Str × Str)) (mfa_id : Str) → Exec RecoveryEnrollmentResult
  unfolding check_user_active enforce_no_active_singleton
  enroll_recovery_factor usr_id now salted mfa_id = do
    check_user_active usr_id
    enforce_no_active_singleton usr_id recovery
    hashes ← hash_codes salted
    let factor = new_factor mfa_id usr_id FactorStatus.active (recovery_details (length salted)) now
    modify (
        with_factors (λ t. record (put_factor factor t) {
          mfa_recovery_hashes = insert mfa_id hashes t.mfa_recovery_hashes;
          mfa_recovery_consumed = insert mfa_id (map (λ _. false) salted) t.mfa_recovery_consumed;
          mfa_active_singleton =
              insert (singleton_key usr_id recovery) mfa_id t.mfa_active_singleton;
        }))
    pure (record { factor = factor; recovery_codes = map (λ e. e.1) salted })

unfoldable pub list_mfa_factors : Str → Exec (List Factor)
list_mfa_factors usr_id =
    gets (λ s. select (λ f. decide (str_discrete f.usr_id usr_id)) (values s.mfa_factors))

unfoldable pub revoke_mfa_factor : Str → (now : Time) → Exec Factor
unfolding free_slot
revoke_mfa_factor mfa_id now = do
  factor ← require_factor mfa_id
  let revoked = with_factor_status factor FactorStatus.revoked now
  if factor_status_eq factor.status FactorStatus.revoked then pure factor else (do
    modify (
        with_factors (λ t.
          free_slot factor factor.details
            (record t { mfa_factors = insert mfa_id revoked t.mfa_factors })))
    pure revoked)

unfoldable pub get_mfa_policy : Str → Exec (Option UserMfaPolicy)
get_mfa_policy usr_id = do user ← require_user usr_id; gets (λ s. lookup usr_id s.mfa_policies)

unfoldable pub set_mfa_policy :
    Str → (required : Bool) → (grace_until : Option Time) → (now : Time) → Exec UserMfaPolicy
set_mfa_policy usr_id required grace_until now = do
  user ← require_user usr_id
  let policy : UserMfaPolicy = record {
    usr_id = usr_id;
    required = required;
    grace_until = grace_until;
    updated_at = now;
  }
  modify (with_factors (λ t. record t { mfa_policies = insert usr_id policy t.mfa_policies }))
  pure policy
