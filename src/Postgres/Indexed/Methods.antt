-- ===== src/Postgres/Indexed/Methods.antt =====
-- The rows of `cred` behind the methods that write them.
use identity_python.Base.{ℕ, ◌≡◌, arith, Option, none, inl, inr, Option-cases, false}
use identity_python.Base.Text.{Str, Bytes}
use identity_python.Postgres.Credentials.{
  create_password_credential, create_passkey_credential, create_oidc_credential, suspend_credential,
  reinstate_credential, revoke_credential, stored_cred, password_row, passkey_row, oidc_row,
}
use identity_python.Postgres.Indexed.{
  IsIndexed, insert-IsIndexed, end-IsIndexed, activate-IsIndexed, is_taken,
}
use identity_python.Postgres.Query.{Database, transaction, with_duplicate, fetchone}
use identity_python.Postgres.Rows.{Ids, CredRow, SesRow}
use identity_python.Postgres.Sessions.{revoke_session}
use identity_python.Postgres.Users.{
  create_user, update_user, suspend_user, reinstate_user, revoke_user, ensure_user_active,
  active_cred_of,
}
use identity_python.Postgres.Writes.{
  any, cred_conflict, insert_usr, insert_cred, insert_ses, revoke_ses, activate_cred, cred_has_id,
}
use identity_python.Primitives.{Hashes}
use identity_python.Types.{Status, Time}
use identity_python.Users.{Update}

module _ (ids : Ids) (db : Database) where
  pub create_user-cred :
      (name : Option Str) (t : Time) (uuid : Str)
      → (create_user ids name t uuid db).1.cred ≡ db.cred
  unfolding create_user transaction insert_usr
  create_user-cred name t uuid = ground arith

  pub update_user-cred :
      (i : Str) (name : Update) (t : Time) → (update_user ids i name t db).1.cred ≡ db.cred
  unfolding update_user transaction
  update_user-cred i name t = ground arith

  pub suspend_user-cred : (i : Str) (now t : Time) → (suspend_user ids i now t db).1.cred ≡ db.cred
  unfolding suspend_user transaction revoke_ses
  suspend_user-cred i now t = ground arith

  pub reinstate_user-cred : (i : Str) (t : Time) → (reinstate_user ids i t db).1.cred ≡ db.cred
  unfolding reinstate_user transaction
  reinstate_user-cred i t = ground arith

  pub insert_ses-cred : (row : SesRow) → (insert_ses row db).1.cred ≡ db.cred
  unfolding insert_ses
  insert_ses-cred row = ground arith

  pub revoke_session-cred : (i : Str) (now : Time) → (revoke_session ids i now db).1.cred ≡ db.cred
  unfolding revoke_session transaction revoke_ses
  revoke_session-cred i now = ground arith

  module _ (v : IsIndexed db.cred) where
    pub revoke_user-IsIndexed :
        (i : Str) (now t : Time) → IsIndexed (revoke_user ids i now t db).1.cred
    unfolding revoke_user transaction revoke_ses
    revoke_user-IsIndexed i now t = elim (Option-cases (ids.decode i)) [
      | inl p ↦ ground (arith, p, v)
      | inr (uuid, p) ↦
          ground
            (arith, p, v, end-IsIndexed (active_cred_of uuid) Status.revoked t db.cred (λ e. cc) v)
    ]

    pub suspend_credential-IsIndexed :
        (i : Str) (now t : Time) → IsIndexed (suspend_credential ids i now t db).1.cred
    unfolding suspend_credential transaction revoke_ses
    suspend_credential-IsIndexed i now t = elim (Option-cases (ids.decode i)) [
      | inl p ↦ ground (arith, p, v)
      | inr (uuid, p) ↦
          ground
            (arith, p, v, end-IsIndexed (cred_has_id uuid) Status.suspended t db.cred (λ e. cc) v)
    ]

    pub revoke_credential-IsIndexed :
        (i : Str) (now t : Time) → IsIndexed (revoke_credential ids i now t db).1.cred
    unfolding revoke_credential transaction revoke_ses
    revoke_credential-IsIndexed i now t = elim (Option-cases (ids.decode i)) [
      | inl p ↦ ground (arith, p, v)
      | inr (uuid, p) ↦
          ground
            (arith, p, v, end-IsIndexed (cred_has_id uuid) Status.revoked t db.cred (λ e. cc) v)
    ]

    pub reinstate_credential-IsIndexed :
        (i : Str) (t : Time) → IsIndexed (reinstate_credential ids i t db).1.cred
    unfolding reinstate_credential transaction with_duplicate activate_cred
    reinstate_credential-IsIndexed i t = elim (Option-cases (ids.decode i)) [
      | inl p ↦ ground (arith, p, v)
      | inr (uuid, p) ↦ elim (Option-cases (fetchone (cred_has_id uuid) db.cred)) [
        | inl q ↦ ground (arith, p, q, v)
        | inr (row, q) ↦ ground (
          arith,
          p,
          q,
          v,
          λ (free : any (is_taken row t) db.cred ≡ false).
              activate-IsIndexed row t uuid db.cred q free v,
        )
      ]
    ]

    pub insert_cred-IsIndexed : (row : CredRow) → IsIndexed (insert_cred row db).1.cred
    unfolding insert_cred
    insert_cred-IsIndexed row = ground (
      arith,
      v,
      λ (new : any (cred_has_id row.id) db.cred ≡ false)
            (free : any (cred_conflict row) db.cred ≡ false).
          insert-IsIndexed row db.cred new free v,
    )

    stored_cred-IsIndexed : (row : CredRow) → IsIndexed (stored_cred ids row db).1.cred
    unfolding stored_cred with_duplicate transaction
    stored_cred-IsIndexed row = ground (arith, v, insert_cred-IsIndexed row)

    pub create_password_credential-IsIndexed :
        (h : Hashes) (usr_id identifier plaintext : Str) (t : Time) (uuid salt : Str)
        → IsIndexed
            (create_password_credential ids h usr_id identifier plaintext t uuid salt db).1.cred
    unfolding create_password_credential ensure_user_active
    create_password_credential-IsIndexed h usr_id identifier plaintext t uuid salt =
        elim (Option-cases (ids.decode usr_id)) [
          | inl p ↦ ground (arith, p, v)
          | inr (i, p) ↦ ground (
            arith,
            p,
            v,
            stored_cred-IsIndexed
                (password_row uuid i identifier none (h.argon2_hash salt plaintext) t),
          )
        ]

    pub create_passkey_credential-IsIndexed :
        (usr_id identifier : Str) (key : Bytes) (n : ℕ) (rp_id : Str) (t : Time) (uuid : Str)
        → IsIndexed (create_passkey_credential ids usr_id identifier key n rp_id t uuid db).1.cred
    unfolding create_passkey_credential ensure_user_active
    create_passkey_credential-IsIndexed usr_id identifier key n rp_id t uuid =
        elim (Option-cases (ids.decode usr_id)) [
          | inl p ↦ ground (arith, p, v)
          | inr (i, p) ↦ ground (
            arith,
            p,
            v,
            stored_cred-IsIndexed (passkey_row uuid i identifier none key n rp_id t),
          )
        ]

    pub create_oidc_credential-IsIndexed :
        (usr_id identifier issuer subject : Str) (t : Time) (uuid : Str)
        → IsIndexed (create_oidc_credential ids usr_id identifier issuer subject t uuid db).1.cred
    unfolding create_oidc_credential ensure_user_active
    create_oidc_credential-IsIndexed usr_id identifier issuer subject t uuid =
        elim (Option-cases (ids.decode usr_id)) [
          | inl p ↦ ground (arith, p, v)
          | inr (i, p) ↦ ground (
            arith,
            p,
            v,
            stored_cred-IsIndexed (oidc_row uuid i identifier none issuer subject t),
          )
        ]
