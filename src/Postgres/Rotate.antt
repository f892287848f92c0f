-- ===== src/Postgres/Rotate.antt =====
-- The rotations of credentials of `PostgresIdentityStore` (postgres.py): in one transaction the old
-- credential is revoked, its sessions end, and the new one is stored.
use identity_python.Base.{ℕ, some}
use identity_python.Base.Text.{Str, Bytes}
use identity_python.Credentials.Entries.{type_eq}
use identity_python.Errors.{credential_not_active, credential_type_mismatch}
use identity_python.Postgres.Credentials.{
  require_cred, hash_text, password_row, passkey_row, oidc_row,
}
use identity_python.Postgres.Query.{
  Query, pure, raise_unless, transaction, wire_to_uuid, ◌>>=◌, ◌>>◌,
}
use identity_python.Postgres.Rows.{Ids, CredRow, row_to_cred}
use identity_python.Postgres.Writes.{cred_has_id, insert_cred, end_cred, revoke_ses, live_of_cred}
use identity_python.Primitives.{Hashes}
use identity_python.Types.{
  Credential, CredentialType, Status, Time, status_eq, password, passkey, oidc,
}

-- `_revoke_old_on_rotation`
unfoldable pub revoke_old_on_rotation : CredRow → (now db_now : Time) → Query (Unit {0})
revoke_old_on_rotation old now db_now = do
  end_cred (cred_has_id old.id) Status.revoked db_now
  revoke_ses (live_of_cred old.id) now

module _ (ids : Ids) where
  -- `_lock_cred_for_rotation`
  unfoldable pub lock_cred_for_rotation : Str → CredentialType → Query CredRow
  lock_cred_for_rotation cred_id expected = do
    uuid ← wire_to_uuid ids cred_id
    row ← require_cred uuid
    raise_unless (status_eq row.status Status.active) credential_not_active
    raise_unless (type_eq row.type expected) credential_type_mismatch
    pure row

  unfoldable pub rotate_password :
      Hashes → Str → (new_password : Str) (now db_now : Time) (uuid salt : Str) → Query Credential
  unfolding lock_cred_for_rotation revoke_old_on_rotation
  rotate_password h cred_id new_password now db_now uuid salt = transaction (do
    old ← lock_cred_for_rotation cred_id password
    revoke_old_on_rotation old now db_now
    phc ← hash_text h salt new_password
    let row = password_row uuid old.usr_id old.identifier (some old.id) phc db_now
    insert_cred row
    pure (row_to_cred ids row))

  unfoldable pub rotate_passkey :
      Str → Bytes → ℕ → Str → (now db_now : Time) (uuid : Str) → Query Credential
  unfolding lock_cred_for_rotation revoke_old_on_rotation
  rotate_passkey cred_id key sign_count rp_id now db_now uuid = transaction (do
    old ← lock_cred_for_rotation cred_id passkey
    revoke_old_on_rotation old now db_now
    let row = passkey_row uuid old.usr_id old.identifier (some old.id) key sign_count rp_id db_now
    insert_cred row
    pure (row_to_cred ids row))

  unfoldable pub rotate_oidc : Str → Str → Str → (now db_now : Time) (uuid : Str) → Query Credential
  unfolding lock_cred_for_rotation revoke_old_on_rotation
  rotate_oidc cred_id issuer subject now db_now uuid = transaction (do
    old ← lock_cred_for_rotation cred_id oidc
    revoke_old_on_rotation old now db_now
    let row = oidc_row uuid old.usr_id old.identifier (some old.id) issuer subject db_now
    insert_cred row
    pure (row_to_cred ids row))
