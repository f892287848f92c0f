-- ===== src/Credentials/Entries.antt =====
-- The dicts of the credentials (in_memory.py): keys, secrets, and the writes that the operations share.
use identity_python.Base.{Bool, true, false, Option, none, some, ◌++◌}
use identity_python.Base.Dict.{lookup, insert, erase}
use identity_python.Base.Text.{Str, Bytes, codes}
use identity_python.Errors.{precondition, user_not_active, duplicate_credential}
use identity_python.Exec.{Exec, gets, raise_if, raise_unless, ◌>>=◌, ◌>>◌}
use identity_python.Requires.{require_user}
use identity_python.Tables.{CredentialTables, Store}
use identity_python.Types.{
  Credential, CredentialDetails, CredentialType, Status, Time, status_eq, type_value,
  credential_type, password, passkey, oidc,
}

-- `_identifier_key`
unfoldable pub identifier_key : CredentialType → Str → Str
unfolding type_value
identifier_key type identifier = type_value type ++ codes "|" ++ identifier

abbrev pub key_of : Credential → Str
key_of c = identifier_key (credential_type c) c.identifier

abbrev pub is_some {ℓ} : {A : Type ℓ} → Option A → Bool
is_some none = false
is_some (some _) = true

-- `_with_credential_status`, on each of the three classes
abbrev pub with_credential_status : Credential → Status → Time → Credential
with_credential_status cred status updated_at = record cred {
  status = status;
  updated_at = updated_at;
}

abbrev pub with_credentials : (CredentialTables → CredentialTables) → Store → Store
with_credentials f s = record s { credential_tables = f s.credential_tables }

-- `_ensure_user_active_and_unique_identifier`
unfoldable pub ensure_user_active_and_unique_identifier :
    Str → CredentialType → Str → Exec (Unit {0})
ensure_user_active_and_unique_identifier usr_id type identifier = do
  user ← require_user usr_id
  raise_unless (status_eq user.status Status.active) (precondition user_not_active)
  taken ← gets (λ s. is_some (lookup (identifier_key type identifier) s.active_cred_by_identifier))
  raise_if taken duplicate_credential

-- What a credential keeps in a dict of its own: the password's hash, the passkey's public key.
pub data Secret : Type 0 where
  password_hash : Str → Secret
  public_key : Bytes → Secret
  no_secret : Secret

-- the writes to `_password_hashes` or `_passkey_public_keys`
unfoldable pub put_secret : Str → Secret → CredentialTables → CredentialTables
put_secret cred_id (password_hash phc) t = record t {
  password_hashes = insert cred_id phc t.password_hashes;
}
put_secret cred_id (public_key key) t = record t {
  passkey_public_keys = insert cred_id key t.passkey_public_keys;
}
put_secret cred_id no_secret t = t

-- the `pop` from the dict of the type
unfoldable pub drop_secret : Str → CredentialType → CredentialTables → CredentialTables
drop_secret cred_id password t = record t { password_hashes = erase cred_id t.password_hashes }
drop_secret cred_id passkey t = record t {
  passkey_public_keys = erase cred_id t.passkey_public_keys;
}
drop_secret cred_id oidc t = t

-- The writes by which a new active credential is stored, in `create_*` and `rotate_*` alike.
unfoldable pub store_credential : Credential → Secret → CredentialTables → CredentialTables
unfolding put_secret
store_credential cred secret t =
    let t' =
      put_secret cred.id secret (record t { credentials = insert cred.id cred t.credentials }) in
    record t' {
      active_cred_by_identifier = insert (key_of cred) cred.id t'.active_cred_by_identifier;
    }

abbrev pub new_credential : Str → Str → Str → Option Str → CredentialDetails → Time → Credential
new_credential cred_id usr_id identifier replaces details now = record {
  id = cred_id;
  usr_id = usr_id;
  identifier = identifier;
  status = Status.active;
  replaces = replaces;
  details = details;
  created_at = now;
  updated_at = now;
}

abbrev pub type_eq : CredentialType → CredentialType → Bool
type_eq password password = true
type_eq passkey passkey = true
type_eq oidc oidc = true
type_eq _ _ = false

-- The two writes by which a credential ceases to be active, in `suspend_credential`,
-- `revoke_credential`, `rotate_*` and `revoke_user`.
unfoldable pub deactivate : Str → Credential → Status → Time → CredentialTables → CredentialTables
deactivate cred_id c status now t = record t {
  credentials = insert cred_id (with_credential_status c status now) t.credentials;
  active_cred_by_identifier = erase (key_of c) t.active_cred_by_identifier;
}

-- The two writes of `reinstate_credential`.
unfoldable pub reactivate : Str → Credential → Time → CredentialTables → CredentialTables
reactivate cred_id c now t = record t {
  credentials = insert cred_id (with_credential_status c Status.active now) t.credentials;
  active_cred_by_identifier = insert (key_of c) cred_id t.active_cred_by_identifier;
}
