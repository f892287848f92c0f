-- ===== src/Postgres/Indexed/Rotations.antt =====
-- The rows of `cred` behind the rotations, and behind the methods that store a session.
use identity_python.Base.{ℕ, ◌≡◌, arith, some, inl, inr, Option-cases, ◌+◌, ◌-◌}
use identity_python.Base.Text.{Str, Bytes}
use identity_python.Postgres.Credentials.{password_row, passkey_row, oidc_row}
use identity_python.Postgres.Indexed.{IsIndexed, end-IsIndexed}
use identity_python.Postgres.Indexed.Methods.{insert_cred-IsIndexed, insert_ses-cred}
use identity_python.Postgres.Query.{Database, transaction, fetchone}
use identity_python.Postgres.Rotate.{
  rotate_password, rotate_passkey, rotate_oidc, lock_cred_for_rotation, revoke_old_on_rotation,
}
use identity_python.Postgres.Rows.{Ids, CredRow}
use identity_python.Postgres.Sessions.{
  create_session, refresh_session, session_row, hash_token_bytes,
}
use identity_python.Postgres.Writes.{
  insert_cred, revoke_ses, ses_has_id, cred_has_id, update, set_cred_status, set_revoked_at,
  live_of_cred,
}
use identity_python.Primitives.{Hashes}
use identity_python.Types.{Status, Time, seconds}

module _ (ids : Ids) (db : Database) where
  -- the database in the middle of a rotation
  abbrev rotating : CredRow → (now t : Time) → Database
  rotating old now t = record db {
    cred = update (cred_has_id old.id) (set_cred_status Status.revoked t) db.cred;
    ses = update (live_of_cred old.id) (set_revoked_at now) db.ses;
  }

  module _ (v : IsIndexed db.cred) where
    ended :
        (old : CredRow) (t : Time)
        → IsIndexed (update (cred_has_id old.id) (set_cred_status Status.revoked t) db.cred)
    ended old t = end-IsIndexed (cred_has_id old.id) Status.revoked t db.cred (λ e. cc) v

    replaced :
        (old row : CredRow) (now t : Time) → IsIndexed (insert_cred row (rotating old now t)).1.cred
    replaced old row now t = insert_cred-IsIndexed ids (rotating old now t) (ended old t) row

    pub rotate_password-IsIndexed :
        (h : Hashes) (cred_id plaintext : Str) (now t : Time) (uuid salt : Str)
        → IsIndexed (rotate_password ids h cred_id plaintext now t uuid salt db).1.cred
    unfolding rotate_password lock_cred_for_rotation revoke_old_on_rotation transaction revoke_ses
    rotate_password-IsIndexed h cred_id plaintext now t uuid salt =
        elim (Option-cases (ids.decode cred_id)) [
          | inl p ↦ ground (arith, p, v)
          | inr (i, p) ↦ elim (Option-cases (fetchone (cred_has_id i) db.cred)) [
            | inl q ↦ ground (arith, p, q, v)
            | inr (old, q) ↦ ground (
              arith,
              p,
              q,
              v,
              replaced old
                  (password_row uuid old.usr_id old.identifier (some old.id)
                    (h.argon2_hash salt plaintext) t)
                  now t,
            )
          ]
        ]

    pub rotate_passkey-IsIndexed :
        (cred_id : Str) (key : Bytes) (n : ℕ) (rp_id : Str) (now t : Time) (uuid : Str)
        → IsIndexed (rotate_passkey ids cred_id key n rp_id now t uuid db).1.cred
    unfolding rotate_passkey lock_cred_for_rotation revoke_old_on_rotation transaction revoke_ses
    rotate_passkey-IsIndexed cred_id key n rp_id now t uuid =
        elim (Option-cases (ids.decode cred_id)) [
          | inl p ↦ ground (arith, p, v)
          | inr (i, p) ↦ elim (Option-cases (fetchone (cred_has_id i) db.cred)) [
            | inl q ↦ ground (arith, p, q, v)
            | inr (old, q) ↦ ground (
              arith,
              p,
              q,
              v,
              replaced old (passkey_row uuid old.usr_id old.identifier (some old.id) key n rp_id t)
                  now t,
            )
          ]
        ]

    pub rotate_oidc-IsIndexed :
        (cred_id issuer subject : Str) (now t : Time) (uuid : Str)
        → IsIndexed (rotate_oidc ids cred_id issuer subject now t uuid db).1.cred
    unfolding rotate_oidc lock_cred_for_rotation revoke_old_on_rotation transaction revoke_ses
    rotate_oidc-IsIndexed cred_id issuer subject now t uuid =
        elim (Option-cases (ids.decode cred_id)) [
          | inl p ↦ ground (arith, p, v)
          | inr (i, p) ↦ elim (Option-cases (fetchone (cred_has_id i) db.cred)) [
            | inl q ↦ ground (arith, p, q, v)
            | inr (old, q) ↦ ground (
              arith,
              p,
              q,
              v,
              replaced old (oidc_row uuid old.usr_id old.identifier (some old.id) issuer subject t)
                  now t,
            )
          ]
        ]

  module _ (sha256 : Bytes → Bytes) where
    pub create_session-cred :
        (usr_id cred_id : Str) (ttl now : ℕ) (token uuid : Str)
        → (create_session ids sha256 usr_id cred_id ttl now token uuid db).1.cred ≡ db.cred
    unfolding create_session transaction
    create_session-cred usr_id cred_id ttl now token uuid =
        elim (Option-cases (ids.decode usr_id)) [
          | inl p ↦ ground (arith, p)
          | inr (i, p) ↦ elim (Option-cases (ids.decode cred_id)) [
            | inl q ↦ ground (arith, p, q)
            | inr (j, q) ↦ ground (
              arith,
              p,
              q,
              insert_ses-cred ids db (
                  session_row uuid i j now (now + seconds ttl) (hash_token_bytes ids sha256 token)),
            )
          ]
        ]

    pub refresh_session-cred :
        (ses_id : Str) (now : Time) (token uuid : Str)
        → (refresh_session ids sha256 ses_id now token uuid db).1.cred ≡ db.cred
    unfolding refresh_session transaction revoke_ses
    refresh_session-cred ses_id now token uuid = elim (Option-cases (ids.decode ses_id)) [
      | inl p ↦ ground (arith, p)
      | inr (i, p) ↦ elim (Option-cases (fetchone (ses_has_id i) db.ses)) [
        | inl q ↦ ground (arith, p, q)
        | inr (old, q) ↦ ground (
          arith,
          p,
          q,
          insert_ses-cred ids
              (record db { ses = update (ses_has_id i) (set_revoked_at now) db.ses })
              (session_row uuid old.usr_id old.cred_id now (now + (old.expires_at - old.created_at))
                (hash_token_bytes ids sha256 token)),
        )
      ]
    ]
