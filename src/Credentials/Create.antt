-- ===== src/Credentials/Create.antt =====
-- `create_*_credential` and the lookups of in_memory.py. Each reading of the clock, each new id
-- and each random salt is an argument.
use identity_python.Base.{ℕ, Option, none, some, List, select, decide}
use identity_python.Base.Dict.{lookup, values}
use identity_python.Base.Text.{Str, Bytes, str_discrete}
use identity_python.Credentials.Entries.{
  identifier_key, with_credentials, ensure_user_active_and_unique_identifier, password_hash,
  public_key, no_secret, store_credential, new_credential,
}
use identity_python.Exec.{Exec, pure, gets, modify, ◌>>=◌, ◌>>◌}
use identity_python.Primitives.{Hashes, hash_password}
use identity_python.Requires.{require_credential}
use identity_python.Types.{
  Credential, CredentialType, Time, password, passkey, oidc, password_details, passkey_details,
  oidc_details,
}

module _ (h : Hashes) where
  unfoldable pub create_password_credential :
      Str → (identifier password : Str) → (now : Time) (cred_id salt : Str) → Exec Credential
  unfolding ensure_user_active_and_unique_identifier
  create_password_credential usr_id identifier plaintext now cred_id salt = do
    ensure_user_active_and_unique_identifier usr_id password identifier
    phc ← hash_password h salt plaintext
    let cred = new_credential cred_id usr_id identifier none password_details now
    modify (with_credentials (store_credential cred (password_hash phc)))
    pure cred

unfoldable pub create_passkey_credential :
    Str → Str → Bytes → ℕ → Str → (now : Time) (cred_id : Str) → Exec Credential
unfolding ensure_user_active_and_unique_identifier
create_passkey_credential usr_id identifier key sign_count rp_id now cred_id = do
  ensure_user_active_and_unique_identifier usr_id passkey identifier
  let cred = new_credential cred_id usr_id identifier none (passkey_details sign_count rp_id) now
  modify (with_credentials (store_credential cred (public_key key)))
  pure cred

unfoldable pub create_oidc_credential :
    Str → Str → Str → Str → (now : Time) (cred_id : Str) → Exec Credential
unfolding ensure_user_active_and_unique_identifier
create_oidc_credential usr_id identifier issuer subject now cred_id = do
  ensure_user_active_and_unique_identifier usr_id oidc identifier
  let cred = new_credential cred_id usr_id identifier none (oidc_details issuer subject) now
  modify (with_credentials (store_credential cred no_secret))
  pure cred

unfoldable pub list_credentials_for_user : Str → Exec (List Credential)
list_credentials_for_user usr_id =
    gets (λ s. select (λ c. decide (str_discrete c.usr_id usr_id)) (values s.credentials))

-- `None` where the index has no entry
unfoldable pub find_credential_by_identifier : CredentialType → Str → Exec (Option Credential)
find_credential_by_identifier type identifier s =
    elim (lookup (identifier_key type identifier) s.active_cred_by_identifier) [
      | none ↦ pure none s
      | some cred_id ↦ (do c ← require_credential cred_id; pure (some c)) s
    ]
