-- ===== src/Factors/Verify.antt =====
-- `verify_mfa` of in_memory.py with its three kinds of proof.
use identity_python.Base.{
  ℕ, zero, suc, Bool, true, false, Option, none, some, List, [], ◌∷◌, if◌then◌else◌,
}
use identity_python.Base.Dict.{lookup, insert}
use identity_python.Base.Text.{Str, str_discrete}
use identity_python.Errors.{invalid_credential, key_error}
use identity_python.Exec.{
  Exec, pure, gets, lift, or_raise, modify, raise_unless, raise_unless_dec, ◌>>=◌, ◌>>◌,
}
use identity_python.Factors.Confirm.{timestamp, Response, assertion_of, as_webauthn, counted}
use identity_python.Factors.Entries.{with_factors, singleton_key}
use identity_python.Primitives.{Hashes, verify_password_hash}
use identity_python.Recovery.{UnicodeTables, normalize_recovery_input, is_valid_recovery_code}
use identity_python.Totp.{TotpLibraries, totp_verify, default_totp_config}
use identity_python.Types.{
  Factor, FactorStatus, FactorDetails, Time, totp, webauthn, recovery, totp_details,
  webauthn_details, recovery_details, MfaProof, totp_proof, webauthn_proof, recovery_proof,
  WebAuthnProof, MfaVerifyResult, factor_status_eq,
}
use identity_python.WebAuthn.{Libraries, webauthn_verify_assertion}

-- `_verify_totp`
unfoldable pub verify_totp :
    TotpLibraries → Str → (code : Str) (code_now now : Time) → Exec MfaVerifyResult
verify_totp lib usr_id code code_now now = do
  mfa_id ←
      or_raise (← gets (λ s. lookup (singleton_key usr_id totp) s.mfa_active_singleton))
        invalid_credential
  secret ← or_raise (← gets (λ s. lookup mfa_id s.mfa_totp_secrets)) key_error
  verified ← lift (totp_verify lib secret code default_totp_config (timestamp code_now) 1)
  raise_unless verified invalid_credential
  pure (record { mfa_id = mfa_id; type = totp; mfa_verified_at = now; new_sign_count = none })

abbrev pub response_of : WebAuthnProof → Response
response_of proof = record {
  authenticator_data = proof.authenticator_data;
  client_data_json = proof.client_data_json;
  signature = proof.signature;
  expected_challenge = proof.expected_challenge;
  expected_origin = proof.expected_origin;
}

-- `_verify_webauthn`
unfoldable pub verify_webauthn :
    Libraries → Str → WebAuthnProof → (update_now now : Time) → Exec MfaVerifyResult
verify_webauthn lib usr_id proof update_now now = do
  mfa_id ←
      or_raise (← gets (λ s. lookup proof.credential_id s.mfa_webauthn_by_credential_id))
        invalid_credential
  factor ← or_raise (← gets (λ s. lookup mfa_id s.mfa_factors)) key_error
  (identifier, rp_id, sign_count) ← or_raise (as_webauthn factor.details) invalid_credential
  raise_unless_dec (str_discrete factor.usr_id usr_id) invalid_credential
  raise_unless (factor_status_eq factor.status FactorStatus.active) invalid_credential
  key ← or_raise (← gets (λ s. lookup mfa_id s.mfa_webauthn_keys)) key_error
  new_sign_count ←
      lift (webauthn_verify_assertion lib (assertion_of key rp_id sign_count (response_of proof)))
  let updated = counted factor factor.status identifier rp_id new_sign_count update_now
  modify (with_factors (λ t. record t { mfa_factors = insert mfa_id updated t.mfa_factors }))
  pure (record {
    mfa_id = mfa_id;
    type = webauthn;
    mfa_verified_at = now;
    new_sign_count = some new_sign_count;
  })

-- `if verify_password_hash(h, normalized) and matched_slot == -1: matched_slot = i`
abbrev pub first_match : Bool → ℕ → Option ℕ → Option ℕ
first_match verified i none = if verified then some i else none
first_match verified i (some j) = some j

module _ (h : Hashes) where
  -- The walk over `zip(hashes, consumed)` from index `i`, with the slot that matched before. Every
  -- slot that is not consumed is verified, also behind a match.
  unfoldable pub match_slots :
      (code : Str) → List Str → List Bool → (i : ℕ) → Option ℕ → Exec (Option ℕ)
  match_slots code [] consumed i matched s = pure matched s
  match_slots code (phc ∷ hashes) [] i matched s = pure matched s
  match_slots code (phc ∷ hashes) (true ∷ consumed) i matched s =
      match_slots code hashes consumed (suc i) matched s
  match_slots code (phc ∷ hashes) (false ∷ consumed) i matched s =
      (do
        verified ← verify_password_hash h phc code
        match_slots code hashes consumed (suc i) (first_match verified i matched))
        s

-- `consumed[slot] = True`
unfoldable pub consume : ℕ → List Bool → List Bool
consume i [] = []
consume zero (c ∷ cs) = true ∷ cs
consume (suc i) (c ∷ cs) = c ∷ consume i cs

-- `sum(1 for c in consumed if not c)`
unfoldable pub count_left : List Bool → ℕ
count_left [] = 0
count_left (true ∷ cs) = count_left cs
count_left (false ∷ cs) = suc (count_left cs)

-- the new `RecoveryFactor`; a factor of another class is left alone
abbrev pub with_remaining : Factor → FactorDetails → ℕ → Time → Factor
with_remaining factor (recovery_details _) remaining now = record factor {
  details = recovery_details remaining;
  updated_at = now;
}
with_remaining factor (totp_details _) remaining now = factor
with_remaining factor (webauthn_details _ _ _) remaining now = factor

module _ (h : Hashes) (u : UnicodeTables) where
  -- `_verify_recovery`
  unfoldable pub verify_recovery : Str → (code : Str) (update_now now : Time) → Exec MfaVerifyResult
  verify_recovery usr_id code update_now now = do
    mfa_id ←
        or_raise (← gets (λ s. lookup (singleton_key usr_id recovery) s.mfa_active_singleton))
          invalid_credential
    let normalized = normalize_recovery_input u code
    raise_unless (is_valid_recovery_code normalized) invalid_credential
    hashes ← or_raise (← gets (λ s. lookup mfa_id s.mfa_recovery_hashes)) key_error
    consumed ← or_raise (← gets (λ s. lookup mfa_id s.mfa_recovery_consumed)) key_error
    matched ← match_slots h normalized hashes consumed 0 none
    slot ← or_raise matched invalid_credential
    modify (
        with_factors (λ t. record t {
          mfa_recovery_consumed = insert mfa_id (consume slot consumed) t.mfa_recovery_consumed;
        }))
    factor ← or_raise (← gets (λ s. lookup mfa_id s.mfa_factors)) key_error
    let updated =
        with_remaining factor factor.details (count_left (consume slot consumed)) update_now
    modify (with_factors (λ t. record t { mfa_factors = insert mfa_id updated t.mfa_factors }))
    pure (record { mfa_id = mfa_id; type = recovery; mfa_verified_at = now; new_sign_count = none })

  -- The readings of the clock are those of the code's time or of the write, and of the result.
  unfoldable pub verify_mfa :
      TotpLibraries → Libraries → Str → MfaProof → (update_now now : Time) → Exec MfaVerifyResult
  unfolding verify_totp verify_webauthn verify_recovery
  verify_mfa totp_lib lib usr_id (totp_proof code) update_now now =
      verify_totp totp_lib usr_id code update_now now
  verify_mfa totp_lib lib usr_id (webauthn_proof proof) update_now now =
      verify_webauthn lib usr_id proof update_now now
  verify_mfa totp_lib lib usr_id (recovery_proof code) update_now now =
      verify_recovery usr_id code update_now now
