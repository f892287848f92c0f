-- ===== src/Postgres/Authority/Writes.antt =====
-- What backs a live row of `ses` behind the methods that store a new session, or a new credential for
-- an old one.
use identity_python.Base.{
  ℕ, ◌≡◌, refl, arith, none, some, inl, inr, Option-cases, true, ◌+◌, ◌-◌, decide,
}
use identity_python.Base.Text.{Str, Bytes}
use identity_python.Postgres.Authority.{
  IsAuthorized, IsBackedBy, IsLiveBacked, insert_cred-IsAuthorized, insert_ses-IsAuthorized,
  revoke_ses-IsAuthorized, end_cred-IsAuthorized,
}
use identity_python.Postgres.Credentials.{password_row, passkey_row, oidc_row}
use identity_python.Postgres.Query.{Database, transaction, fetchone}
use identity_python.Postgres.Rotate.{
  rotate_password, rotate_passkey, rotate_oidc, lock_cred_for_rotation, revoke_old_on_rotation,
}
use identity_python.Postgres.Rows.{Ids, CredRow, SesRow, UsrRow}
use identity_python.Postgres.Rowwise.{fetchone_All}
use identity_python.Postgres.Sessions.{
  create_session, refresh_session, session_row, hash_token_bytes,
}
use identity_python.Postgres.Writes.{
  insert_cred, insert_ses, revoke_ses, ses_has_id, usr_has_id, cred_has_id, same, set_revoked_at,
  update, set_cred_status, live_of_cred,
}
use identity_python.Primitives.{Hashes}
use identity_python.Types.{Status, Time, seconds}

text_of_test : (a b : Str) → same a b ≡ true → a ≡ b
unfolding decide
text_of_test a b p = ground arith

module _ (ids : Ids) (db : Database) (v : IsAuthorized db) where
  -- the database in the middle of a rotation
  abbrev rotating : CredRow → (now t : Time) → Database
  rotating old now t = record db {
    cred = update (cred_has_id old.id) (set_cred_status Status.revoked t) db.cred;
    ses = update (live_of_cred old.id) (set_revoked_at now) db.ses;
  }

  pub rotate_password-IsAuthorized :
      (h : Hashes) (cred_id plaintext : Str) (now t : Time) (uuid salt : Str)
      → IsAuthorized (rotate_password ids h cred_id plaintext now t uuid salt db).1
  unfolding rotate_password lock_cred_for_rotation revoke_old_on_rotation transaction revoke_ses
      insert_cred
  rotate_password-IsAuthorized h cred_id plaintext now t uuid salt =
      elim (Option-cases (ids.decode cred_id)) [
        | inl p ↦ ground (arith, p, v)
        | inr (i, p) ↦ elim (Option-cases (fetchone (cred_has_id i) db.cred)) [
          | inl q ↦ ground (arith, p, q, v)
          | inr (old, q) ↦ ground (
            arith,
            p,
            q,
            v,
            insert_cred-IsAuthorized (rotating old now t)
                (end_cred-IsAuthorized db v old.id Status.revoked t now)
                (password_row uuid old.usr_id old.identifier (some old.id)
                  (h.argon2_hash salt plaintext) t),
          )
        ]
      ]

  pub rotate_passkey-IsAuthorized :
      (cred_id : Str) (key : Bytes) (sign_count : ℕ) (rp_id : Str) (now t : Time) (uuid : Str)
      → IsAuthorized (rotate_passkey ids cred_id key sign_count rp_id now t uuid db).1
  unfolding rotate_passkey lock_cred_for_rotation revoke_old_on_rotation transaction revoke_ses
      insert_cred
  rotate_passkey-IsAuthorized cred_id key sign_count rp_id now t uuid =
      elim (Option-cases (ids.decode cred_id)) [
        | inl p ↦ ground (arith, p, v)
        | inr (i, p) ↦ elim (Option-cases (fetchone (cred_has_id i) db.cred)) [
          | inl q ↦ ground (arith, p, q, v)
          | inr (old, q) ↦ ground (
            arith,
            p,
            q,
            v,
            insert_cred-IsAuthorized (rotating old now t)
                (end_cred-IsAuthorized db v old.id Status.revoked t now)
                (passkey_row uuid old.usr_id old.identifier (some old.id) key sign_count rp_id t),
          )
        ]
      ]

  pub rotate_oidc-IsAuthorized :
      (cred_id issuer subject : Str) (now t : Time) (uuid : Str)
      → IsAuthorized (rotate_oidc ids cred_id issuer subject now t uuid db).1
  unfolding rotate_oidc lock_cred_for_rotation revoke_old_on_rotation transaction revoke_ses
      insert_cred
  rotate_oidc-IsAuthorized cred_id issuer subject now t uuid =
      elim (Option-cases (ids.decode cred_id)) [
        | inl p ↦ ground (arith, p, v)
        | inr (i, p) ↦ elim (Option-cases (fetchone (cred_has_id i) db.cred)) [
          | inl q ↦ ground (arith, p, q, v)
          | inr (old, q) ↦ ground (
            arith,
            p,
            q,
            v,
            insert_cred-IsAuthorized (rotating old now t)
                (end_cred-IsAuthorized db v old.id Status.revoked t now)
                (oidc_row uuid old.usr_id old.identifier (some old.id) issuer subject t),
          )
        ]
      ]

  module _ (sha256 : Bytes → Bytes) where
    -- The guards of `create_session` back the new row.
    create_ses-IsAuthorized :
        (usr_uuid cred_uuid : Str) (row : SesRow) (u : UsrRow) (c : CredRow)
        → row.usr_id ≡ usr_uuid
        → row.cred_id ≡ cred_uuid
        → fetchone (usr_has_id usr_uuid) db.usr ≡ some u
        → fetchone (cred_has_id cred_uuid) db.cred ≡ some c
        → u.status ≡ Status.active
        → c.status ≡ Status.active
        → c.usr_id ≡ usr_uuid
        → IsBackedBy db.usr db.cred row
    create_ses-IsAuthorized usr_uuid cred_uuid row u c a b p q x y z = grind arith

    inserted : (row : SesRow) → IsBackedBy db.usr db.cred row → IsAuthorized (insert_ses row db).1
    unfolding insert_ses
    inserted row b = ground (arith, v, insert_ses-IsAuthorized db v row b)

    pub create_session-IsAuthorized :
        (usr_id cred_id : Str) (ttl now : ℕ) (token uuid : Str)
        → IsAuthorized (create_session ids sha256 usr_id cred_id ttl now token uuid db).1
    unfolding create_session transaction
    create_session-IsAuthorized usr_id cred_id ttl now token uuid =
        elim (Option-cases (ids.decode usr_id)) [
          | inl p ↦ ground (arith, p, v)
          | inr (i, p) ↦ elim (Option-cases (ids.decode cred_id)) [
            | inl q ↦ ground (arith, p, q, v)
            | inr (j, q) ↦ elim (Option-cases (fetchone (usr_has_id i) db.usr)) [
              | inl e ↦ ground (arith, p, q, e, v)
              | inr (u, e) ↦ elim (Option-cases (fetchone (cred_has_id j) db.cred)) [
                | inl f ↦ ground (arith, p, q, e, f, v)
                | inr (c, f) ↦
                    let row : SesRow =
                      session_row uuid i j now (now + seconds ttl)
                        (hash_token_bytes ids sha256 token) in
                    ground (
                      arith,
                      p,
                      q,
                      e,
                      f,
                      v,
                      λ (x : u.status ≡ Status.active) (y : c.status ≡ Status.active)
                            (z : same c.usr_id i ≡ true).
                          inserted row (
                            create_ses-IsAuthorized i j row u c refl refl e f x y
                              (text_of_test _ _ z)),
                    )
              ]
            ]
          ]
        ]

    pub refresh_session-IsAuthorized :
        (ses_id : Str) (now : Time) (token uuid : Str)
        → IsAuthorized (refresh_session ids sha256 ses_id now token uuid db).1
    unfolding refresh_session transaction revoke_ses insert_ses
    refresh_session-IsAuthorized ses_id now token uuid = elim (Option-cases (ids.decode ses_id)) [
      | inl p ↦ ground (arith, p, v)
      | inr (i, p) ↦ elim (Option-cases (fetchone (ses_has_id i) db.ses)) [
        | inl q ↦ ground (arith, p, q, v)
        | inr (old, q) ↦
            let row : SesRow =
              session_row uuid old.usr_id old.cred_id now (now + (old.expires_at - old.created_at))
                (hash_token_bytes ids sha256 token) in
            let ended : Database = record db {
              ses = update (ses_has_id i) (set_revoked_at now) db.ses;
            } in
            ground (
              arith,
              p,
              q,
              v,
              λ (live : old.revoked_at ≡ none).
                  insert_ses-IsAuthorized ended (revoke_ses-IsAuthorized db v (ses_has_id i) now)
                    row
                    (fetchone_All (IsLiveBacked db.usr db.cred) (ses_has_id i) db.ses old v.backed q
                      live),
            )
      ]
    ]
