-- ===== src/Postgres/Authority/OfFactors.antt =====
-- The tables `usr`, `cred` and `ses` behind the methods on factors and on the policy.
use identity_python.Base.{ℕ, arith, Option, none, some, List, [], Bool}
use identity_python.Base.Text.{Str, Bytes, codes}
use identity_python.Factors.Confirm.{Response}
use identity_python.Factors.Verify.{consume, response_of}
use identity_python.Errors.{
  malformed_id, precondition, factor_not_pending, credential_type_mismatch, invalid_credential,
}
use identity_python.Postgres.Atomic.{
  hash_texts-IsReading, ensure_user_active-IsReading, verify_totp_proof-IsReading,
}
use identity_python.Postgres.Factors.{
  set_mfa_policy, hash_texts, check_pending_not_expired, lock_mfa, active_mfa_of, confirmed,
  confirmed_at, revoked,
}
use identity_python.Postgres.Factors.Enroll.{
  enroll_totp_factor, enroll_webauthn_factor, enroll_recovery_factor,
}
use identity_python.Postgres.Factors.Confirm.{
  confirm_totp_factor, confirm_webauthn_factor, revoke_mfa_factor,
}
use identity_python.Postgres.Proofs.{
  verify_mfa, verify_webauthn_proof, verify_recovery_proof, match_open_slots, active_webauthn,
  counted_row, consumed_row,
}
use identity_python.Postgres.Query.{pure, fetchone, transaction, ◌>>=◌, ◌>>◌}
use identity_python.Postgres.Rows.{Ids, MfaRow, row_to_factor, or_default}
use identity_python.Postgres.Users.{ensure_user_active}
use identity_python.Postgres.Writes.{same, type_is, insert_mfa, update_mfa}
use identity_python.Primitives.{Hashes}
use identity_python.Recovery.{UnicodeTables, is_valid_recovery_code, normalize_recovery_input}
use identity_python.Totp.{TotpLibraries}
use identity_python.Types.{
  Time, FactorStatus, factor_status_eq, totp, webauthn, recovery, MfaProof, WebAuthnProof,
  totp_proof, webauthn_proof, recovery_proof,
}
use identity_python.WebAuthn.{Libraries}
use identity_python.Postgres.Authority.Apart.{
  IsApart, reading-IsApart, bind-IsApart, transaction-IsApart, with_duplicate-IsApart,
  insert_mfa-IsApart, update_mfa-IsApart, pure-IsApart, gets-IsApart, lift-IsApart,
  or_raise-IsApart, raise_unless-IsApart, check_pending_not_expired-IsApart,
  verify_assertion-IsApart, if-IsApart, match_open_slots-IsReading,
}

module _ (ids : Ids) where
  lock_mfa-IsApart : (mfa_id : Str) → IsApart (lock_mfa ids mfa_id)
  lock_mfa-IsApart mfa_id = record { apart = λ db. ground arith }

  -- An update, and then a value of the new row.
  stored-IsApart :
      {A : Type 0} (row : MfaRow) (f : MfaRow → MfaRow) (t : Time) (g : MfaRow → A)
      → IsApart (update_mfa row f t >>= λ r. pure (g r))
  stored-IsApart row f t g =
      bind-IsApart (update_mfa row f t) _ (update_mfa-IsApart row f t) (λ r. pure-IsApart _)

  pub revoke_mfa_factor-IsApart :
      (mfa_id : Str) (t : Time) → IsApart (revoke_mfa_factor ids mfa_id t)
  unfolding revoke_mfa_factor
  revoke_mfa_factor-IsApart mfa_id t = transaction-IsApart _ (
      bind-IsApart (lock_mfa ids mfa_id) _ (lock_mfa-IsApart mfa_id) (λ row.
        if-IsApart _ _ _ (pure-IsApart _) (stored-IsApart row revoked t (row_to_factor ids))))

  pub confirm_totp_factor-IsApart :
      (lib : TotpLibraries) (mfa_id code : Str) (x y t : Time)
      → IsApart (confirm_totp_factor ids lib mfa_id code x y t)
  unfolding confirm_totp_factor
  confirm_totp_factor-IsApart lib mfa_id code x y t = transaction-IsApart _ (
      bind-IsApart (lock_mfa ids mfa_id) _ (lock_mfa-IsApart mfa_id) (λ row.
        bind-IsApart _ _ (raise_unless-IsApart (type_is row.type totp) credential_type_mismatch)
          (λ a.
            bind-IsApart _ _
              (raise_unless-IsApart (factor_status_eq row.status FactorStatus.pending)
                (precondition factor_not_pending))
              (λ b.
                bind-IsApart (check_pending_not_expired row x) _
                  (check_pending_not_expired-IsApart row x)
                  (λ c. bind-IsApart _ _ (lift-IsApart _) (λ verified.
                    bind-IsApart _ _ (raise_unless-IsApart verified invalid_credential)
                      (λ d. stored-IsApart row confirmed t (row_to_factor ids))))))))

  pub confirm_webauthn_factor-IsApart :
      (lib : Libraries) (mfa_id : Str) (response : Response) (x t : Time)
      → IsApart (confirm_webauthn_factor ids lib mfa_id response x t)
  unfolding confirm_webauthn_factor
  confirm_webauthn_factor-IsApart lib mfa_id response x t = transaction-IsApart _ (
      bind-IsApart (lock_mfa ids mfa_id) _ (lock_mfa-IsApart mfa_id) (λ row.
        bind-IsApart _ _ (raise_unless-IsApart (type_is row.type webauthn) credential_type_mismatch)
          (λ a.
            bind-IsApart _ _
              (raise_unless-IsApart (factor_status_eq row.status FactorStatus.pending)
                (precondition factor_not_pending))
              (λ b.
                bind-IsApart (check_pending_not_expired row x) _
                  (check_pending_not_expired-IsApart row x)
                  (λ c.
                    bind-IsApart _ _ (verify_assertion-IsApart lib row response)
                      (λ n. stored-IsApart row (confirmed_at n) t (row_to_factor ids)))))))

  pub set_mfa_policy-IsApart :
      (usr_id : Str) (required : Bool) (grace : Option Time) (t : Time)
      → IsApart (set_mfa_policy ids usr_id required grace t)
  unfolding set_mfa_policy transaction
  set_mfa_policy-IsApart usr_id required grace t = record { apart = λ db. ground arith }

  usr_active-IsApart : (usr_id : Str) → IsApart (ensure_user_active ids usr_id)
  usr_active-IsApart usr_id = reading-IsApart _ (ensure_user_active-IsReading ids usr_id)

  -- A new row, and then a value.
  inserted-IsApart : {A : Type 0} (row : MfaRow) (a : A) → IsApart (insert_mfa row >> pure a)
  inserted-IsApart row a =
      bind-IsApart (insert_mfa row) _ (insert_mfa-IsApart row) (λ x. pure-IsApart a)

  pub enroll_totp_factor-IsApart :
      (b32encode : Bytes → Str) (quote upper : Str → Str) (usr_id identifier : Str) (now : Time)
      (secret : Bytes) (uuid : Str)
      → IsApart (enroll_totp_factor ids b32encode quote upper usr_id identifier now secret uuid)
  unfolding enroll_totp_factor ensure_user_active transaction insert_mfa
  enroll_totp_factor-IsApart b32encode quote upper usr_id identifier now secret uuid = record {
    apart = λ db. ground arith;
  }

  pub enroll_webauthn_factor-IsApart :
      (usr_id identifier : Str) (key : Bytes) (n : ℕ) (rp_id : Str) (aaguid : Option Str)
      (transports : Option (List Str)) (now : Time) (uuid : Str)
      → IsApart
          (enroll_webauthn_factor ids usr_id identifier key n rp_id aaguid transports now uuid)
  unfolding enroll_webauthn_factor
  enroll_webauthn_factor-IsApart usr_id identifier key n rp_id aaguid transports now uuid =
      bind-IsApart (ensure_user_active ids usr_id) _ (usr_active-IsApart usr_id)
        (λ i. with_duplicate-IsApart _ _ (transaction-IsApart _ (inserted-IsApart _ _)))

  pub enroll_recovery_factor-IsApart :
      (h : Hashes) (usr_id : Str) (now : Time) (salted : List (Str × Str)) (uuid : Str)
      → IsApart (enroll_recovery_factor ids h usr_id now salted uuid)
  unfolding enroll_recovery_factor
  enroll_recovery_factor-IsApart h usr_id now salted uuid =
      bind-IsApart (ensure_user_active ids usr_id) _ (usr_active-IsApart usr_id) (λ i.
        bind-IsApart (hash_texts h salted) _ (reading-IsApart _ (hash_texts-IsReading h salted))
          (λ hashes. with_duplicate-IsApart _ _ (transaction-IsApart _ (inserted-IsApart _ _))))

  verify_webauthn_proof-IsApart :
      (lib : Libraries) (usr_id : Str) (w : WebAuthnProof) (now t : Time)
      → IsApart (verify_webauthn_proof ids lib usr_id w now t)
  unfolding verify_webauthn_proof
  verify_webauthn_proof-IsApart lib usr_id w now t =
      bind-IsApart _ _
        (transaction-IsApart _ (
          bind-IsApart _ _ (or_raise-IsApart (ids.decode usr_id) malformed_id) (λ i.
            bind-IsApart _ _
              (gets-IsApart (λ db. fetchone (active_webauthn w.credential_id) db.mfa))
              (λ found. bind-IsApart _ _ (or_raise-IsApart found invalid_credential) (λ row.
                bind-IsApart _ _ (raise_unless-IsApart (same row.usr_id i) invalid_credential) (λ a.
                  bind-IsApart _ _ (verify_assertion-IsApart lib row (response_of w))
                    (λ n. stored-IsApart row (counted_row n) t (λ r. (row, n)))))))))
        (λ p. pure-IsApart (record {
          mfa_id = ids.encode (codes "mfa") p.0.id;
          type = webauthn;
          mfa_verified_at = now;
          new_sign_count = some p.1;
        }))

  verify_recovery_proof-IsApart :
      (h : Hashes) (u : UnicodeTables) (usr_id code : Str) (now t : Time)
      → IsApart (verify_recovery_proof ids h u usr_id code now t)
  unfolding verify_recovery_proof
  verify_recovery_proof-IsApart h u usr_id code now t =
      bind-IsApart _ _
        (raise_unless-IsApart (is_valid_recovery_code (normalize_recovery_input u code))
          invalid_credential)
        (λ a.
          bind-IsApart _ _
            (transaction-IsApart _ (
              bind-IsApart _ _ (or_raise-IsApart (ids.decode usr_id) malformed_id) (λ i.
                bind-IsApart _ _ (gets-IsApart (λ db. fetchone (active_mfa_of i recovery) db.mfa))
                  (λ found. bind-IsApart _ _ (or_raise-IsApart found invalid_credential) (λ row.
                    bind-IsApart _ _
                      (reading-IsApart
                        (match_open_slots h (normalize_recovery_input u code)
                          (or_default row.recovery_hashes []) (or_default row.recovery_consumed [])
                          0 none)
                        (match_open_slots-IsReading h (normalize_recovery_input u code)
                          (or_default row.recovery_hashes []) (or_default row.recovery_consumed [])
                          0 none))
                      (λ matched.
                        bind-IsApart _ _ (or_raise-IsApart matched invalid_credential) (λ slot.
                          stored-IsApart row
                            (consumed_row (consume slot (or_default row.recovery_consumed []))) t
                            (λ r. row))))))))
            (λ row. pure-IsApart (record {
              mfa_id = ids.encode (codes "mfa") row.id;
              type = recovery;
              mfa_verified_at = now;
              new_sign_count = none;
            })))

  pub verify_mfa-IsApart :
      (h : Hashes) (u : UnicodeTables) (totp_lib : TotpLibraries) (lib : Libraries) (usr_id : Str)
      (p : MfaProof) (code_now now t : Time)
      → IsApart (verify_mfa ids h u totp_lib lib usr_id p code_now now t)
  unfolding verify_mfa
  verify_mfa-IsApart h u totp_lib lib usr_id (totp_proof code) code_now now t =
      reading-IsApart _ (verify_totp_proof-IsReading ids totp_lib usr_id code code_now now)
  verify_mfa-IsApart h u totp_lib lib usr_id (webauthn_proof w) code_now now t =
      verify_webauthn_proof-IsApart lib usr_id w now t
  verify_mfa-IsApart h u totp_lib lib usr_id (recovery_proof code) code_now now t =
      verify_recovery_proof-IsApart h u usr_id code now t
