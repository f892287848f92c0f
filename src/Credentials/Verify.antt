-- ===== src/Credentials/Verify.antt =====
-- `verify_password` of in_memory.py.
use identity_python.Base.{Bool, false, Option, none, some, if◌then◌else◌}
use identity_python.Base.Dict.{lookup}
use identity_python.Base.Text.{Str}
use identity_python.Credentials.Entries.{identifier_key, type_eq}
use identity_python.Errors.{invalid_credential}
use identity_python.Exec.{Exec, pure, raise, gets, raise_unless, ◌>>=◌, ◌>>◌}
use identity_python.Primitives.{Hashes, verify_password_hash}
use identity_python.Requires.{require_credential}
use identity_python.Types.{
  VerifiedCredential, UserMfaPolicy, Time, credential_type, password, pat_dummy_phc_hash,
  grace_is_over,
}

-- `policy is not None and policy.required`, and the grace period is over
abbrev pub mfa_is_required : Option UserMfaPolicy → Time → Bool
mfa_is_required none now = false
mfa_is_required (some policy) now =
    if policy.required then grace_is_over policy.grace_until now else false

module _ (h : Hashes) where
  -- the verification of step two; a missing hash fails without it
  unfoldable pub check_password : Option Str → Str → Exec (Unit {0})
  check_password none candidate = raise invalid_credential
  check_password (some phc) candidate = do
    verified ← verify_password_hash h phc candidate
    raise_unless verified invalid_credential

  unfoldable pub verify_found : Str → Str → (now : Time) → Exec VerifiedCredential
  unfolding check_password
  verify_found cred_id candidate now = do
    cred ← require_credential cred_id
    raise_unless (type_eq (credential_type cred) password) invalid_credential
    check_password (← gets (λ s. lookup cred_id s.password_hashes)) candidate
    policy ← gets (λ s. lookup cred.usr_id s.mfa_policies)
    pure (record {
      usr_id = cred.usr_id;
      cred_id = cred.id;
      mfa_required = mfa_is_required policy now;
    })

  -- On an unknown identifier the dummy hash is verified for the time that it takes.
  unfoldable pub verify_password : Str → (password : Str) (now : Time) → Exec VerifiedCredential
  unfolding verify_found
  verify_password identifier candidate now s =
      elim (lookup (identifier_key password identifier) s.active_cred_by_identifier) [
        | none ↦
            (do
              verified ← verify_password_hash h pat_dummy_phc_hash candidate
              raise invalid_credential)
              s
        | some cred_id ↦ verify_found cred_id candidate now s
      ]
