-- ===== src/Postgres/Proofs.antt =====
-- `verify_mfa` of `PostgresIdentityStore` (postgres.py) with its three kinds of proof.
use identity_python.Base.{ℕ, suc, Bool, true, false, ◌&&◌, Option, none, some, List, [], ◌∷◌}
use identity_python.Base.Text.{Str, codes}
use identity_python.Errors.{invalid_credential}
use identity_python.Factors.Confirm.{timestamp}
use identity_python.Factors.Verify.{first_match, consume, response_of}
use identity_python.Postgres.Credentials.{verify_hash}
use identity_python.Postgres.Factors.{active_mfa_of, verify_assertion}
use identity_python.Postgres.Query.{
  Query, pure, gets, lift, or_raise, raise_unless, transaction, fetchone, wire_to_uuid, ◌>>=◌, ◌>>◌,
}
use identity_python.Postgres.Rows.{Ids, MfaRow, or_default}
use identity_python.Postgres.Writes.{same, same_option, type_is, update_mfa}
use identity_python.Primitives.{Hashes}
use identity_python.Recovery.{UnicodeTables, normalize_recovery_input, is_valid_recovery_code}
use identity_python.Totp.{TotpLibraries, totp_verify, default_totp_config}
use identity_python.Types.{
  FactorStatus, factor_status_eq, Time, totp, webauthn, recovery, MfaProof, totp_proof,
  webauthn_proof, recovery_proof, WebAuthnProof, MfaVerifyResult,
}
use identity_python.WebAuthn.{Libraries}

-- `WHERE identifier = %s AND type = 'webauthn' AND status = 'active'`
abbrev pub active_webauthn : Str → MfaRow → Bool
active_webauthn identifier row =
    same_option row.identifier (some identifier)
    && (type_is row.type webauthn && factor_status_eq row.status FactorStatus.active)

-- The walk over the hashes from index `i`: a slot without a flag is open, and every open slot is
-- verified, also behind a match.
module _ (h : Hashes) where
  unfoldable pub match_open_slots :
      Str → List Str → List Bool → (i : ℕ) → Option ℕ → Query (Option ℕ)
  match_open_slots code [] consumed i matched db = pure matched db
  match_open_slots code (phc ∷ hashes) [] i matched db =
      (do
        verified ← verify_hash h phc code
        match_open_slots code hashes [] (suc i) (first_match verified i matched))
        db
  match_open_slots code (phc ∷ hashes) (true ∷ consumed) i matched db =
      match_open_slots code hashes consumed (suc i) matched db
  match_open_slots code (phc ∷ hashes) (false ∷ consumed) i matched db =
      (do
        verified ← verify_hash h phc code
        match_open_slots code hashes consumed (suc i) (first_match verified i matched))
        db

abbrev pub counted_row : ℕ → MfaRow → MfaRow
counted_row sign_count row = record row { webauthn_sign_count = some sign_count }

abbrev pub consumed_row : List Bool → MfaRow → MfaRow
consumed_row consumed row = record row { recovery_consumed = some consumed }

module _ (ids : Ids) where
  -- `_verify_totp_proof`
  unfoldable pub verify_totp_proof :
      TotpLibraries → Str → (code : Str) (code_now now : Time) → Query MfaVerifyResult
  verify_totp_proof lib usr_id code code_now now = do
    usr_uuid ← wire_to_uuid ids usr_id
    found ← gets (λ db. fetchone (active_mfa_of usr_uuid totp) db.mfa)
    row ← or_raise found invalid_credential
    verified ← lift (
        totp_verify lib (or_default row.totp_secret []) code default_totp_config
          (timestamp code_now) 1)
    raise_unless verified invalid_credential
    pure (record {
      mfa_id = ids.encode (codes "mfa") row.id;
      type = totp;
      mfa_verified_at = now;
      new_sign_count = none;
    })

  -- `_verify_webauthn_proof`
  unfoldable pub verify_webauthn_proof :
      Libraries → Str → WebAuthnProof → (now db_now : Time) → Query MfaVerifyResult
  verify_webauthn_proof lib usr_id proof now db_now = do
    (row, sign_count) ← transaction (do
      usr_uuid ← wire_to_uuid ids usr_id
      found ← gets (λ db. fetchone (active_webauthn proof.credential_id) db.mfa)
      row ← or_raise found invalid_credential
      raise_unless (same row.usr_id usr_uuid) invalid_credential
      sign_count ← verify_assertion lib row (response_of proof)
      changed ← update_mfa row (counted_row sign_count) db_now
      pure (row, sign_count))
    pure (record {
      mfa_id = ids.encode (codes "mfa") row.id;
      type = webauthn;
      mfa_verified_at = now;
      new_sign_count = some sign_count;
    })

  module _ (h : Hashes) (u : UnicodeTables) where
    -- `_verify_recovery_proof`
    unfoldable pub verify_recovery_proof :
        Str → (code : Str) (now db_now : Time) → Query MfaVerifyResult
    verify_recovery_proof usr_id code now db_now = do
      let normalized = normalize_recovery_input u code
      raise_unless (is_valid_recovery_code normalized) invalid_credential
      row ← transaction (do
        usr_uuid ← wire_to_uuid ids usr_id
        found ← gets (λ db. fetchone (active_mfa_of usr_uuid recovery) db.mfa)
        row ← or_raise found invalid_credential
        let consumed = or_default row.recovery_consumed []
        matched ← match_open_slots h normalized (or_default row.recovery_hashes []) consumed 0 none
        slot ← or_raise matched invalid_credential
        changed ← update_mfa row (consumed_row (consume slot consumed)) db_now
        pure row)
      pure (record {
        mfa_id = ids.encode (codes "mfa") row.id;
        type = recovery;
        mfa_verified_at = now;
        new_sign_count = none;
      })

    unfoldable pub verify_mfa :
        TotpLibraries
        → Libraries
        → Str
        → MfaProof
        → (code_now now db_now : Time) → Query MfaVerifyResult
    unfolding verify_totp_proof verify_webauthn_proof verify_recovery_proof
    verify_mfa totp_lib lib usr_id (totp_proof code) code_now now db_now =
        verify_totp_proof totp_lib usr_id code code_now now
    verify_mfa totp_lib lib usr_id (webauthn_proof proof) code_now now db_now =
        verify_webauthn_proof lib usr_id proof now db_now
    verify_mfa totp_lib lib usr_id (recovery_proof code) code_now now db_now =
        verify_recovery_proof usr_id code now db_now
