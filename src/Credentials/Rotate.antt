-- ===== src/Credentials/Rotate.antt =====
-- `rotate_password`, `rotate_passkey` and `rotate_oidc` of in_memory.py.
use identity_python.Base.{ℕ, some}
use identity_python.Base.Text.{Str, Bytes}
use identity_python.Credentials.Entries.{
  with_credentials, deactivate, Secret, password_hash, public_key, no_secret, drop_secret,
  store_credential, new_credential, type_eq,
}
use identity_python.Errors.{credential_not_active, credential_type_mismatch}
use identity_python.Exec.{Exec, pure, modify, raise_unless, ◌>>=◌, ◌>>◌}
use identity_python.Primitives.{Hashes, hash_password}
use identity_python.Requires.{require_credential}
use identity_python.Sessions.{revoke_sessions_for_credential, with_sessions}
use identity_python.Tables.{CredentialTables}
use identity_python.Types.{
  Credential, CredentialDetails, CredentialType, Status, Time, status_eq, credential_type, password,
  passkey, oidc, password_details, passkey_details, oidc_details,
}

-- The writes by which a rotation ends the old credential, before its sessions are revoked.
unfoldable pub retire_credential : Credential → Time → CredentialTables → CredentialTables
unfolding drop_secret
retire_credential old now t =
    drop_secret old.id (credential_type old) (deactivate old.id old Status.revoked now t)

-- The first half of every `rotate_*`: the guards and the end of the old credential.
unfoldable pub begin_rotation : Str → CredentialType → (now cascade_now : Time) → Exec Credential
begin_rotation cred_id type now cascade_now = do
  old ← require_credential cred_id
  raise_unless (status_eq old.status Status.active) credential_not_active
  raise_unless (type_eq (credential_type old) type) credential_type_mismatch
  modify (with_credentials (retire_credential old now))
  modify (with_sessions (revoke_sessions_for_credential old.id cascade_now))
  pure old

-- The second half of every `rotate_*`: the new credential for the retired one.
unfoldable pub replace_credential :
    CredentialDetails → Secret → (now : Time) (new_id : Str) → Credential → Exec Credential
replace_credential details secret now new_id old = do
  let fresh = new_credential new_id old.usr_id old.identifier (some old.id) details now
  modify (with_credentials (store_credential fresh secret))
  pure fresh

module _ (h : Hashes) where
  -- The new password is hashed only when the old credential has been revoked.
  unfoldable pub replace_password :
      (new_password : Str) (now : Time) (new_id salt : Str) → Credential → Exec Credential
  replace_password new_password now new_id salt old = do
    phc ← hash_password h salt new_password
    replace_credential password_details (password_hash phc) now new_id old

  unfoldable pub rotate_password :
      Str → (new_password : Str) (now cascade_now : Time) (new_id salt : Str) → Exec Credential
  rotate_password cred_id new_password now cascade_now new_id salt =
      begin_rotation cred_id password now cascade_now
      >>= replace_password new_password now new_id salt

unfoldable pub rotate_passkey :
    Str → Bytes → ℕ → Str → (now cascade_now : Time) (new_id : Str) → Exec Credential
rotate_passkey cred_id key sign_count rp_id now cascade_now new_id =
    begin_rotation cred_id passkey now cascade_now
    >>= replace_credential (passkey_details sign_count rp_id) (public_key key) now new_id

unfoldable pub rotate_oidc :
    Str → Str → Str → (now cascade_now : Time) (new_id : Str) → Exec Credential
rotate_oidc cred_id issuer subject now cascade_now new_id =
    begin_rotation cred_id oidc now cascade_now
    >>= replace_credential (oidc_details issuer subject) no_secret now new_id
