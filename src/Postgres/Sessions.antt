-- ===== src/Postgres/Sessions.antt =====
-- The sessions of `PostgresIdentityStore` (postgres.py). A new uuid and a new token are arguments;
-- `sha256` is the digest as bytes.
use identity_python.Base.{ℕ, ◌+◌, ◌-◌, Bool, ◌&&◌, Option, none, some, ltb, min, take, select}
use identity_python.Base.Text.{Str, Bytes, utf8}
use identity_python.Errors.{
  not_found, precondition, user_not_active, credential_not_active, cred_user_mismatch,
  ttl_too_short, invalid_token, session_expired,
}
use identity_python.Paging.{sort_by, str_ltb}
use identity_python.Postgres.Credentials.{require_cred}
use identity_python.Postgres.Query.{
  Query, pure, gets, or_raise, raise_if, raise_unless, transaction, fetchone, wire_to_uuid, ◌>>=◌,
  ◌>>◌,
}
use identity_python.Postgres.Rows.{Ids, SesRow, row_to_session}
use identity_python.Postgres.Users.{require_usr, page_of_rows, behind_cursor, cursor_to_uuid}
use identity_python.Postgres.Writes.{same, is_null, same_option, ses_has_id, insert_ses, revoke_ses}
use identity_python.Types.{Session, SessionWithToken, Page, Status, Time, status_eq, seconds}

-- the INSERTs of `create_session` and `refresh_session`
abbrev pub session_row : Str → Str → Str → (now expires_at : Time) → Bytes → SesRow
session_row uuid usr_uuid cred_uuid now expires_at token_hash = record {
  id = uuid;
  usr_id = usr_uuid;
  cred_id = cred_uuid;
  created_at = now;
  expires_at = expires_at;
  revoked_at = none;
  token_hash = some token_hash;
  mfa_verified_at = none;
}

-- `SELECT ... FROM ses WHERE id = %s`, with `NotFoundError` for no row
abbrev pub require_ses : Str → Query SesRow
require_ses uuid = gets (λ db. fetchone (ses_has_id uuid) db.ses) >>= λ row. or_raise row not_found

-- `WHERE token_hash = %s`
abbrev pub has_token_hash : Bytes → SesRow → Bool
has_token_hash hash row = same_option row.token_hash (some hash)

module _ (ids : Ids) where
  unfoldable pub get_session : Str → Query Session
  get_session ses_id = do
    uuid ← wire_to_uuid ids ses_id
    row ← require_ses uuid
    pure (row_to_session ids row)

  -- The query fetches 201 rows at most, the page is cut at `limit`.
  unfoldable pub list_sessions_for_user : Str → Option Str → (limit : ℕ) → Query (Page Session)
  list_sessions_for_user usr_id cursor limit = do
    uuid ← wire_to_uuid ids usr_id
    after ← cursor_to_uuid ids cursor
    gets (λ db.
        page_of_rows (λ s. s.id) (row_to_session ids) limit
          (take (min limit 200 + 1) (
            sort_by (λ a b. str_ltb a.id b.id)
              (select (λ row. same row.usr_id uuid && behind_cursor after row.id) db.ses))))

  module _ (sha256 : Bytes → Bytes) where
    -- `_hash_token_bytes`
    abbrev pub hash_token_bytes : Str → Bytes
    hash_token_bytes token = sha256 (utf8 token)

    unfoldable pub create_session :
        Str → Str → (ttl_seconds : ℕ) (now : Time) (token uuid : Str) → Query SessionWithToken
    create_session usr_id cred_id ttl_seconds now token uuid = do
      raise_if (ltb ttl_seconds 60) (precondition ttl_too_short)
      transaction (do
        usr_uuid ← wire_to_uuid ids usr_id
        cred_uuid ← wire_to_uuid ids cred_id
        user ← require_usr usr_uuid
        raise_unless (status_eq user.status Status.active) (precondition user_not_active)
        cred ← require_cred cred_uuid
        raise_unless (status_eq cred.status Status.active) credential_not_active
        raise_unless (same cred.usr_id usr_uuid) (precondition cred_user_mismatch)
        let row =
            session_row uuid usr_uuid cred_uuid now (now + seconds ttl_seconds)
              (hash_token_bytes token)
        insert_ses row
        pure (record { session = row_to_session ids row; token = token }))

    -- The row that is found has the hash, so the comparison of the hashes is true.
    unfoldable pub verify_session_token : Str → (now : Time) → Query Session
    verify_session_token token now = do
      found ← gets (λ db. fetchone (has_token_hash (hash_token_bytes token)) db.ses)
      row ← or_raise found invalid_token
      raise_unless (has_token_hash (hash_token_bytes token) row) invalid_token
      raise_unless (is_null row.revoked_at) session_expired
      raise_if (ltb row.expires_at now) session_expired
      pure (row_to_session ids row)

    unfoldable pub refresh_session : Str → (now : Time) (token uuid : Str) → Query SessionWithToken
    refresh_session ses_id now token uuid = transaction (do
      old_uuid ← wire_to_uuid ids ses_id
      old ← require_ses old_uuid
      raise_unless (is_null old.revoked_at) session_expired
      raise_if (ltb old.expires_at now) session_expired
      revoke_ses (ses_has_id old_uuid) now
      let row =
          session_row uuid old.usr_id old.cred_id now (now + (old.expires_at - old.created_at))
            (hash_token_bytes token)
      insert_ses row
      pure (record { session = row_to_session ids row; token = token }))

  -- `COALESCE(revoked_at, %s)` writes the time where there is none.
  unfoldable pub revoke_session : Str → (now : Time) → Query Session
  revoke_session ses_id now = do
    uuid ← wire_to_uuid ids ses_id
    transaction (do
      revoke_ses (λ row. ses_has_id uuid row && is_null row.revoked_at) now
      row ← require_ses uuid
      pure (row_to_session ids row))
