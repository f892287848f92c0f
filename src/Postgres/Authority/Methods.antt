-- ===== src/Postgres/Authority/Methods.antt =====
-- What backs a live row of `ses` behind the methods on users, credentials and sessions.
use identity_python.Base.{ℕ, refl, arith, Option, none, inl, inr, Option-cases, ◌&&◌}
use identity_python.Base.Text.{Str, Bytes}
use identity_python.Postgres.Authority.{
  IsAuthorized, insert_usr-IsAuthorized, insert_cred-IsAuthorized, update_usr-IsAuthorized,
  revoke_ses-IsAuthorized, activate_cred-IsAuthorized, end_user-IsAuthorized,
  revoke_user-IsAuthorized, end_cred-IsAuthorized,
}
use identity_python.Postgres.Credentials.{
  create_password_credential, create_passkey_credential, create_oidc_credential, suspend_credential,
  reinstate_credential, revoke_credential, stored_cred, password_row, passkey_row, oidc_row,
}
use identity_python.Postgres.Query.{Database, transaction, with_duplicate, fetchone}
use identity_python.Postgres.Rows.{Ids, CredRow}
use identity_python.Postgres.Sessions.{revoke_session}
use identity_python.Postgres.Users.{
  create_user, update_user, suspend_user, reinstate_user, revoke_user, set_display_name,
  ensure_user_active,
}
use identity_python.Postgres.Writes.{
  insert_usr, insert_cred, revoke_ses, activate_cred, set_usr_status, ses_has_id, is_null,
  usr_has_id, cred_has_id,
}
use identity_python.Primitives.{Hashes}
use identity_python.Types.{Status, Time}
use identity_python.Users.{Update, new_name}

module _ (ids : Ids) (db : Database) (v : IsAuthorized db) where
  pub create_user-IsAuthorized :
      (name : Option Str) (t : Time) (uuid : Str) → IsAuthorized (create_user ids name t uuid db).1
  unfolding create_user transaction insert_usr
  create_user-IsAuthorized name t uuid = ground (
    arith,
    v,
    insert_usr-IsAuthorized db v (record {
      id = uuid;
      status = Status.active;
      display_name = name;
      created_at = t;
      updated_at = t;
    }),
  )

  pub update_user-IsAuthorized :
      (usr_id : Str) (name : Update) (t : Time) → IsAuthorized (update_user ids usr_id name t db).1
  unfolding update_user transaction
  update_user-IsAuthorized usr_id name t = elim (Option-cases (ids.decode usr_id)) [
    | inl p ↦ ground (arith, p, v)
    | inr (uuid, p) ↦ elim (Option-cases (fetchone (usr_has_id uuid) db.usr)) [
      | inl q ↦ ground (arith, p, q, v)
      | inr (row, q) ↦ ground (
        arith,
        p,
        q,
        v,
        update_usr-IsAuthorized db v uuid (set_display_name (new_name name row.display_name) t)
            (λ u. refl) (λ u a. a),
      )
    ]
  ]

  pub suspend_user-IsAuthorized :
      (usr_id : Str) (now t : Time) → IsAuthorized (suspend_user ids usr_id now t db).1
  unfolding suspend_user transaction revoke_ses
  suspend_user-IsAuthorized usr_id now t = elim (Option-cases (ids.decode usr_id)) [
    | inl p ↦ ground (arith, p, v)
    | inr (uuid, p) ↦ ground (arith, p, v, end_user-IsAuthorized db v uuid Status.suspended t now)
  ]

  pub reinstate_user-IsAuthorized :
      (usr_id : Str) (t : Time) → IsAuthorized (reinstate_user ids usr_id t db).1
  unfolding reinstate_user transaction
  reinstate_user-IsAuthorized usr_id t = elim (Option-cases (ids.decode usr_id)) [
    | inl p ↦ ground (arith, p, v)
    | inr (uuid, p) ↦ ground (
      arith,
      p,
      v,
      update_usr-IsAuthorized db v uuid (set_usr_status Status.active t) (λ u. refl) (λ u a. refl),
    )
  ]

  pub revoke_usr-IsAuthorized :
      (usr_id : Str) (now t : Time) → IsAuthorized (revoke_user ids usr_id now t db).1
  unfolding revoke_user transaction revoke_ses
  revoke_usr-IsAuthorized usr_id now t = elim (Option-cases (ids.decode usr_id)) [
    | inl p ↦ ground (arith, p, v)
    | inr (uuid, p) ↦ ground (arith, p, v, revoke_user-IsAuthorized db v uuid t now)
  ]

  stored_cred-IsAuthorized : (c : CredRow) → IsAuthorized (stored_cred ids c db).1
  unfolding stored_cred with_duplicate transaction insert_cred
  stored_cred-IsAuthorized c = ground (arith, v, insert_cred-IsAuthorized db v c)

  pub suspend_credential-IsAuthorized :
      (cred_id : Str) (now t : Time) → IsAuthorized (suspend_credential ids cred_id now t db).1
  unfolding suspend_credential transaction revoke_ses
  suspend_credential-IsAuthorized cred_id now t = elim (Option-cases (ids.decode cred_id)) [
    | inl p ↦ ground (arith, p, v)
    | inr (uuid, p) ↦ ground (arith, p, v, end_cred-IsAuthorized db v uuid Status.suspended t now)
  ]

  pub revoke_credential-IsAuthorized :
      (cred_id : Str) (now t : Time) → IsAuthorized (revoke_credential ids cred_id now t db).1
  unfolding revoke_credential transaction revoke_ses
  revoke_credential-IsAuthorized cred_id now t = elim (Option-cases (ids.decode cred_id)) [
    | inl p ↦ ground (arith, p, v)
    | inr (uuid, p) ↦ ground (arith, p, v, end_cred-IsAuthorized db v uuid Status.revoked t now)
  ]

  pub create_password_credential-IsAuthorized :
      (h : Hashes) (usr_id identifier plaintext : Str) (t : Time) (uuid salt : Str)
      → IsAuthorized (create_password_credential ids h usr_id identifier plaintext t uuid salt db).1
  unfolding create_password_credential ensure_user_active
  create_password_credential-IsAuthorized h usr_id identifier plaintext t uuid salt =
      elim (Option-cases (ids.decode usr_id)) [
        | inl p ↦ ground (arith, p, v)
        | inr (usr_uuid, p) ↦ ground (
          arith,
          p,
          v,
          stored_cred-IsAuthorized
              (password_row uuid usr_uuid identifier none (h.argon2_hash salt plaintext) t),
        )
      ]

  pub create_passkey_credential-IsAuthorized :
      (usr_id identifier : Str) (key : Bytes) (sign_count : ℕ) (rp_id : Str) (t : Time) (uuid : Str)
      → IsAuthorized
          (create_passkey_credential ids usr_id identifier key sign_count rp_id t uuid db).1
  unfolding create_passkey_credential ensure_user_active
  create_passkey_credential-IsAuthorized usr_id identifier key sign_count rp_id t uuid =
      elim (Option-cases (ids.decode usr_id)) [
        | inl p ↦ ground (arith, p, v)
        | inr (usr_uuid, p) ↦ ground (
          arith,
          p,
          v,
          stored_cred-IsAuthorized
              (passkey_row uuid usr_uuid identifier none key sign_count rp_id t),
        )
      ]

  pub create_oidc_credential-IsAuthorized :
      (usr_id identifier issuer subject : Str) (t : Time) (uuid : Str)
      → IsAuthorized (create_oidc_credential ids usr_id identifier issuer subject t uuid db).1
  unfolding create_oidc_credential ensure_user_active
  create_oidc_credential-IsAuthorized usr_id identifier issuer subject t uuid =
      elim (Option-cases (ids.decode usr_id)) [
        | inl p ↦ ground (arith, p, v)
        | inr (usr_uuid, p) ↦ ground (
          arith,
          p,
          v,
          stored_cred-IsAuthorized (oidc_row uuid usr_uuid identifier none issuer subject t),
        )
      ]

  pub reinstate_credential-IsAuthorized :
      (cred_id : Str) (t : Time) → IsAuthorized (reinstate_credential ids cred_id t db).1
  unfolding reinstate_credential transaction with_duplicate activate_cred
  reinstate_credential-IsAuthorized cred_id t = elim (Option-cases (ids.decode cred_id)) [
    | inl p ↦ ground (arith, p, v)
    | inr (uuid, p) ↦ elim (Option-cases (fetchone (cred_has_id uuid) db.cred)) [
      | inl q ↦ ground (arith, p, q, v)
      | inr (row, q) ↦ ground (arith, p, q, v, activate_cred-IsAuthorized db v row.id t)
    ]
  ]

  pub revoke_session-IsAuthorized :
      (ses_id : Str) (now : Time) → IsAuthorized (revoke_session ids ses_id now db).1
  unfolding revoke_session transaction revoke_ses
  revoke_session-IsAuthorized ses_id now = elim (Option-cases (ids.decode ses_id)) [
    | inl p ↦ ground (arith, p, v)
    | inr (uuid, p) ↦ ground (
      arith,
      p,
      v,
      revoke_ses-IsAuthorized db v (λ row. ses_has_id uuid row && is_null row.revoked_at) now,
    )
  ]
