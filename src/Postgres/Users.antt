-- ===== src/Postgres/Users.antt =====
-- The users of `PostgresIdentityStore` (postgres.py). `now` is a reading of the client's clock,
-- `db_now` the database's `now()`; a new uuid is an argument.
use identity_python.Base.{
  ℕ, ◌+◌, Bool, true, ◌&&◌, Option, none, some, List, if◌then◌else◌, ite, min, max, ltb, length,
  take, map, select,
}
use identity_python.Base.Text.{Str}
use identity_python.Errors.{
  not_found, precondition, already_terminal, invalid_transition, user_not_active, assertion_error,
}
use identity_python.Paging.{sort_by, str_ltb, last_id}
use identity_python.Postgres.Like.{ilike, like_pattern}
use identity_python.Postgres.Query.{
  Query, pure, gets, or_raise, raise_if, raise_unless, transaction, fetchone, wire_to_uuid, ◌>>=◌,
  ◌>>◌,
}
use identity_python.Postgres.Rows.{Ids, UsrRow, CredRow, row_to_user}
use identity_python.Postgres.Writes.{
  same, any, usr_has_id, insert_usr, update_usr, set_usr_status, end_cred, revoke_ses, live_of_user,
}
use identity_python.Types.{User, Page, Status, Time, status_eq}
use identity_python.Users.{Update, new_name, option_str_discrete}

-- `SELECT ... FROM usr WHERE id = %s`
abbrev pub select_usr : Str → Query (Option UsrRow)
select_usr uuid = gets (λ db. fetchone (usr_has_id uuid) db.usr)

-- the same, with `NotFoundError` for no row
abbrev pub require_usr : Str → Query UsrRow
require_usr uuid = select_usr uuid >>= λ row. or_raise row not_found

-- `UPDATE usr ... WHERE id = %s RETURNING ...`, `fetchone()` and the assertion on the row
abbrev pub updated_usr : Str → (UsrRow → UsrRow) → Query UsrRow
updated_usr uuid f = do update_usr uuid f; row ← select_usr uuid; or_raise row assertion_error

abbrev pub set_display_name : Option Str → Time → UsrRow → UsrRow
set_display_name name db_now row = record row { display_name = name; updated_at = db_now }

-- the active credentials of the loop in `revoke_user`
abbrev pub active_cred_of : Str → CredRow → Bool
active_cred_of uuid row = same row.usr_id uuid && status_eq row.status Status.active

module _ (ids : Ids) where
  -- A row takes the defaults of the table.
  unfoldable pub create_user : Option Str → (db_now : Time) (uuid : Str) → Query User
  create_user display_name db_now uuid = transaction (do
    let row : UsrRow = record {
      id = uuid;
      status = Status.active;
      display_name = display_name;
      created_at = db_now;
      updated_at = db_now;
    }
    insert_usr row
    pure (row_to_user ids row))

  unfoldable pub get_user : Str → Query User
  get_user usr_id = do
    uuid ← wire_to_uuid ids usr_id
    row ← require_usr uuid
    pure (row_to_user ids row)

  unfoldable pub update_user : Str → Update → (db_now : Time) → Query User
  update_user usr_id display_name db_now = do
    uuid ← wire_to_uuid ids usr_id
    transaction (do
      row ← require_usr uuid
      raise_if (status_eq row.status Status.revoked) already_terminal
      let name = new_name display_name row.display_name
      ite (option_str_discrete name row.display_name) (pure (row_to_user ids row)) (do
        changed ← updated_usr uuid (set_display_name name db_now)
        pure (row_to_user ids changed)))

  unfoldable pub suspend_user : Str → (now db_now : Time) → Query User
  suspend_user usr_id now db_now = transaction (do
    uuid ← wire_to_uuid ids usr_id
    row ← require_usr uuid
    raise_if (status_eq row.status Status.revoked) already_terminal
    if status_eq row.status Status.suspended then pure (row_to_user ids row) else (do
      changed ← updated_usr uuid (set_usr_status Status.suspended db_now)
      revoke_ses (live_of_user uuid) now
      pure (row_to_user ids changed)))

  unfoldable pub reinstate_user : Str → (db_now : Time) → Query User
  reinstate_user usr_id db_now = transaction (do
    uuid ← wire_to_uuid ids usr_id
    row ← require_usr uuid
    raise_unless (status_eq row.status Status.suspended) (precondition invalid_transition)
    changed ← updated_usr uuid (set_usr_status Status.active db_now)
    pure (row_to_user ids changed))

  unfoldable pub revoke_user : Str → (now db_now : Time) → Query User
  revoke_user usr_id now db_now = transaction (do
    uuid ← wire_to_uuid ids usr_id
    row ← require_usr uuid
    raise_if (status_eq row.status Status.revoked) already_terminal
    end_cred (active_cred_of uuid) Status.revoked db_now
    revoke_ses (live_of_user uuid) now
    changed ← updated_usr uuid (set_usr_status Status.revoked db_now)
    pure (row_to_user ids changed))

  -- `_ensure_user_active`, and `_require_user_active_for_mfa`, which differs in the message
  unfoldable pub ensure_user_active : Str → Query Str
  ensure_user_active usr_id = do
    uuid ← wire_to_uuid ids usr_id
    row ← require_usr uuid
    raise_unless (status_eq row.status Status.active) (precondition user_not_active)
    pure uuid

-- `AND id > %s`, where a cursor is given; uuids are ordered as their texts
abbrev pub behind_cursor : Option Str → Str → Bool
behind_cursor none id = true
behind_cursor (some uuid) id = str_ltb uuid id

-- `_wire_to_uuid(cursor)`, where a cursor is given
abbrev pub cursor_to_uuid : Ids → Option Str → Query (Option Str)
cursor_to_uuid ids none = pure none
cursor_to_uuid ids (some cursor) = wire_to_uuid ids cursor >>= λ uuid. pure (some uuid)

-- `page = rows[:limit]` and the cursor, from at most one row more than the page
unfoldable pub page_of_rows : {A R : Type 0} → (A → Str) → (R → A) → ℕ → List R → Page A
page_of_rows id of_row limit rows =
    let items = map of_row (take limit rows) in
    record {
      items = items;
      next_cursor = if ltb limit (length rows) then last_id id items else none;
    }

module _ (ids : Ids) (fold : ℕ → ℕ) where
  abbrev pub usr_has_status : Option Status → UsrRow → Bool
  usr_has_status none row = true
  usr_has_status (some status) row = status_eq row.status status

  -- the EXISTS of a query
  abbrev pub usr_matches : Option Str → List CredRow → UsrRow → Bool
  usr_matches none cred row = true
  usr_matches (some query) cred row =
      any (λ c. active_cred_of row.id c && ilike fold (like_pattern query) c.identifier) cred

  unfoldable pub list_users :
      Option Str → (limit : ℕ) → Option Str → Option Status → Query (Page User)
  list_users cursor limit query status = do
    let capped = max 1 (min limit 200)
    uuid ← cursor_to_uuid ids cursor
    gets (λ db.
        page_of_rows (λ u. u.id) (row_to_user ids) capped
          (take (capped + 1) (
            sort_by (λ a b. str_ltb a.id b.id)
              (select
                (λ row.
                  behind_cursor uuid row.id
                  && (usr_has_status status row && usr_matches query db.cred row))
                db.usr))))
