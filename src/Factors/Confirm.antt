-- ===== src/Factors/Confirm.antt =====
-- `confirm_totp_factor` and `confirm_webauthn_factor` of in_memory.py. The readings of the clock are
-- arguments, in the order of the calls: for the expiry test, the code's time, and the write.
use identity_python.Base.{ℕ, ◌/◌, Bool, true, false, Option, none, some}
use identity_python.Base.Dict.{lookup, insert}
use identity_python.Base.Text.{Str, Bytes}
use identity_python.Errors.{
  precondition, factor_not_pending, credential_type_mismatch, invalid_credential, key_error,
}
use identity_python.Exec.{Exec, pure, gets, lift, or_raise, modify, raise_unless, ◌>>=◌, ◌>>◌}
use identity_python.Factors.Entries.{
  with_factors, singleton_key, check_pending_not_expired, with_factor_status,
}
use identity_python.Requires.{require_factor}
use identity_python.Totp.{TotpLibraries, totp_verify, default_totp_config}
use identity_python.Types.{
  Factor, FactorStatus, FactorDetails, Time, totp, totp_details, webauthn_details, recovery_details,
  factor_status_eq, factor_type, FactorType,
}
use identity_python.WebAuthn.{Libraries, Assertion, webauthn_verify_assertion}

-- `int(now.timestamp())`
abbrev pub timestamp : Time → ℕ
timestamp now = now / 1_000_000

-- The bytes that a browser sends, and what the application expects.
pub record Response : Type 0 where
  pub authenticator_data : Bytes
  pub client_data_json : Bytes
  pub signature : Bytes
  pub expected_challenge : Bytes
  pub expected_origin : Str

-- The call of `webauthn_verify_assertion` for a factor, with its default flags.
abbrev pub assertion_of : Bytes → (rp_id : Str) (sign_count : ℕ) → Response → Assertion
assertion_of key rp_id sign_count r = record {
  cose_public_key = key;
  stored_sign_count = sign_count;
  stored_rp_id = rp_id;
  expected_challenge = r.expected_challenge;
  expected_origin = r.expected_origin;
  authenticator_data = r.authenticator_data;
  client_data_json = r.client_data_json;
  signature = r.signature;
  require_user_verified = true;
  require_user_present = true;
}

abbrev pub is_totp : FactorType → Bool
is_totp totp = true
is_totp _ = false

unfoldable pub confirm_totp_factor :
    TotpLibraries → Str → (code : Str) (expiry_now code_now now : Time) → Exec Factor
unfolding check_pending_not_expired
confirm_totp_factor lib mfa_id code expiry_now code_now now = do
  factor ← require_factor mfa_id
  raise_unless (is_totp (factor_type factor)) credential_type_mismatch
  raise_unless (factor_status_eq factor.status FactorStatus.pending)
      (precondition factor_not_pending)
  check_pending_not_expired factor expiry_now
  secret ← or_raise (← gets (λ s. lookup mfa_id s.mfa_totp_secrets)) key_error
  verified ← lift (totp_verify lib secret code default_totp_config (timestamp code_now) 1)
  raise_unless verified invalid_credential
  let active = with_factor_status factor FactorStatus.active now
  modify (
      with_factors (λ t. record t {
        mfa_factors = insert mfa_id active t.mfa_factors;
        mfa_active_singleton =
            insert (singleton_key factor.usr_id totp) mfa_id t.mfa_active_singleton;
      }))
  pure active

-- The RP id and the counter of a WebAuthn factor, or the error on another class.
abbrev pub as_webauthn : FactorDetails → Option (Str × Str × ℕ)
as_webauthn (totp_details _) = none
as_webauthn (recovery_details _) = none
as_webauthn (webauthn_details identifier rp_id sign_count) = some (identifier, rp_id, sign_count)

-- The WebAuthn factor with its new counter.
abbrev pub counted :
    Factor → FactorStatus → (identifier rp_id : Str) (sign_count : ℕ) → Time → Factor
counted factor status identifier rp_id sign_count now = record factor {
  status = status;
  details = webauthn_details identifier rp_id sign_count;
  updated_at = now;
}

unfoldable pub confirm_webauthn_factor :
    Libraries → Str → Response → (expiry_now now : Time) → Exec Factor
unfolding check_pending_not_expired
confirm_webauthn_factor lib mfa_id response expiry_now now = do
  factor ← require_factor mfa_id
  (identifier, rp_id, sign_count) ← or_raise (as_webauthn factor.details) credential_type_mismatch
  raise_unless (factor_status_eq factor.status FactorStatus.pending)
      (precondition factor_not_pending)
  check_pending_not_expired factor expiry_now
  key ← or_raise (← gets (λ s. lookup mfa_id s.mfa_webauthn_keys)) key_error
  new_sign_count ← lift (webauthn_verify_assertion lib (assertion_of key rp_id sign_count response))
  let active = counted factor FactorStatus.active identifier rp_id new_sign_count now
  modify (with_factors (λ t. record t { mfa_factors = insert mfa_id active t.mfa_factors }))
  pure active
