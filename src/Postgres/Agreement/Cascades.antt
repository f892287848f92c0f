-- ===== src/Postgres/Agreement/Cascades.antt =====
-- The calls on users that end sessions, and the calls on both stores together.
use identity_python.Base.{◌≢◌, refl, arith, inl, inr, Option-cases, Bool, Bool-cases, not}
use identity_python.Base.Dict.{insert}
use identity_python.Base.Text.{Str, codes}
use identity_python.Errors.{
  check_violation, already_terminal, not_found, precondition, invalid_transition,
}
use identity_python.Pats.{revoke_pats_for_user, with_pats}
use identity_python.Credentials.Entries.{with_credentials}
use identity_python.Sessions.{revoke_sessions_for_user, with_sessions}
use identity_python.Postgres.Agreement.{
  IsRoundTrip, IsSame, Agrees, UserCall, subject, IsNew, wire, in_memory, in_postgres,
  update-IsSame,
}
use identity_python.Postgres.Agreement.OfCalls.{
  agree, reads-Agrees, creates-Agrees, updates-Agrees, fetchone-update_same,
}
use identity_python.Postgres.Query.{Database, fetchone, transaction}
use identity_python.Postgres.Rows.{Ids, UsrRow, row_to_user}
use identity_python.Postgres.Users as Rows
use identity_python.Postgres.Users.{active_cred_of}
use identity_python.Postgres.Writes.{
  usr_has_id, update, updated, any, set_usr_status, set_cred_status, set_revoked_at, live_of_user,
  revoke_ses, ses_check,
}
use identity_python.Result.{ok, raised}
use identity_python.Tables.{Store}
use identity_python.Types.{Status, status_eq, Time}
use identity_python.Users as Dicts

module _ (ids : Ids) (IsUuid : Str → Type 0) (r : IsRoundTrip ids IsUuid) (s : Store)
    (db : Database) (h : IsSame ids IsUuid s.users db.usr) where
  abbrev with_user : Str → Store → UsrRow → Store
  with_user u t row = record t { users = insert (wire ids u) (row_to_user ids row) t.users }

  reinstates-Agrees :
      (u : Str) (now : Time) → IsUuid u → Agrees ids IsUuid (UserCall.reinstates u now) s db
  unfolding in_memory in_postgres Rows.reinstate_user Dicts.reinstate_user transaction row_to_user
  reinstates-Agrees u now hu = elim (Option-cases (fetchone (usr_has_id u) db.usr)) [
    | inl q ↦
        agree ids IsUuid r s db h (UserCall.reinstates u now) (raised not_found) s db
          (ground (arith, q, h.same_user u hu)) (ground (arith, q, r.decoded (codes "usr") u hu)) h
    | inr (row, q) ↦ elim (Bool-cases (status_eq row.status Status.suspended)) [
      | inl b ↦
          let f : UsrRow → UsrRow = set_usr_status Status.active now in
          agree ids IsUuid r s db h (UserCall.reinstates u now) (ok (row_to_user ids (f row)))
            (with_user u s (f row)) (record db { usr = update (usr_has_id u) f db.usr })
            (ground (arith, q, b, h.same_user u hu))
            (ground (
              arith,
              q,
              b,
              r.decoded (codes "usr") u hu,
              fetchone-update_same u f db.usr row (λ x. refl) q,
            ))
            (update-IsSame ids IsUuid r s.users db.usr h u row f hu q (λ x. refl))
      | inr b ↦
          agree ids IsUuid r s db h (UserCall.reinstates u now)
            (raised (precondition invalid_transition)) s db (ground (arith, q, b, h.same_user u hu))
            (ground (arith, q, b, r.decoded (codes "usr") u hu)) h
    ]
  ]

  -- The UPDATE of the sessions of the user breaks a CHECK.
  abbrev is_refused : Str → Time → Bool
  is_refused u c = any (λ x. not (ses_check x)) (updated (live_of_user u) (set_revoked_at c) db.ses)

  suspends-Agrees :
      (u : Str) (now c : Time)
      → IsUuid u
      → (in_postgres ids (UserCall.suspends u now c) db).0 ≢ raised check_violation
      → Agrees ids IsUuid (UserCall.suspends u now c) s db
  unfolding in_memory in_postgres Rows.suspend_user Dicts.suspend_user transaction row_to_user
      revoke_ses
  suspends-Agrees u now c hu fine = elim (Option-cases (fetchone (usr_has_id u) db.usr)) [
    | inl q ↦
        agree ids IsUuid r s db h (UserCall.suspends u now c) (raised not_found) s db
          (ground (arith, q, h.same_user u hu)) (ground (arith, q, r.decoded (codes "usr") u hu)) h
    | inr (row, q) ↦ elim (Bool-cases (status_eq row.status Status.revoked)) [
      | inl b ↦
          agree ids IsUuid r s db h (UserCall.suspends u now c) (raised already_terminal) s db
            (ground (arith, q, b, h.same_user u hu))
            (ground (arith, q, b, r.decoded (codes "usr") u hu)) h
      | inr b ↦ elim (Bool-cases (status_eq row.status Status.suspended)) [
        | inl d ↦
            agree ids IsUuid r s db h (UserCall.suspends u now c) (ok (row_to_user ids row)) s db
              (ground (arith, q, b, d, h.same_user u hu))
              (ground (arith, q, b, d, r.decoded (codes "usr") u hu)) h
        | inr d ↦
            let f : UsrRow → UsrRow = set_usr_status Status.suspended now in
            elim (Bool-cases (is_refused u c)) [
              | inl e ↦ absurd (
                  fine (
                    ground (
                      arith,
                      q,
                      b,
                      d,
                      e,
                      r.decoded (codes "usr") u hu,
                      fetchone-update_same u f db.usr row (λ x. refl) q,
                    )))
              | inr e ↦
                  agree ids IsUuid r s db h (UserCall.suspends u now c)
                    (ok (row_to_user ids (f row)))
                    (with_sessions (revoke_sessions_for_user (wire ids u) c)
                      (with_user u s (f row)))
                    (record db {
                      usr = update (usr_has_id u) f db.usr;
                      ses = update (live_of_user u) (set_revoked_at c) db.ses;
                    })
                    (ground (arith, q, b, d, h.same_user u hu))
                    (ground (
                      arith,
                      q,
                      b,
                      d,
                      e,
                      r.decoded (codes "usr") u hu,
                      fetchone-update_same u f db.usr row (λ x. refl) q,
                    ))
                    (update-IsSame ids IsUuid r s.users db.usr h u row f hu q (λ x. refl))
            ]
      ]
    ]
  ]

  revokes-Agrees :
      (u : Str) (now c : Time)
      → IsUuid u
      → (in_postgres ids (UserCall.revokes u now c) db).0 ≢ raised check_violation
      → Agrees ids IsUuid (UserCall.revokes u now c) s db
  unfolding in_memory in_postgres Rows.revoke_user Dicts.revoke_user transaction row_to_user
      revoke_ses
  revokes-Agrees u now c hu fine = elim (Option-cases (fetchone (usr_has_id u) db.usr)) [
    | inl q ↦
        agree ids IsUuid r s db h (UserCall.revokes u now c) (raised not_found) s db
          (ground (arith, q, h.same_user u hu)) (ground (arith, q, r.decoded (codes "usr") u hu)) h
    | inr (row, q) ↦ elim (Bool-cases (status_eq row.status Status.revoked)) [
      | inl b ↦
          agree ids IsUuid r s db h (UserCall.revokes u now c) (raised already_terminal) s db
            (ground (arith, q, b, h.same_user u hu))
            (ground (arith, q, b, r.decoded (codes "usr") u hu)) h
      | inr b ↦
          let f : UsrRow → UsrRow = set_usr_status Status.revoked now in
          elim (Bool-cases (is_refused u c)) [
            | inl e ↦ absurd (fine (ground (arith, q, b, e, r.decoded (codes "usr") u hu)))
            | inr e ↦
                let t : Store =
                  with_credentials (λ k. Dicts.revoke_credentials (wire ids u) now k.credentials k)
                    s in
                agree ids IsUuid r s db h (UserCall.revokes u now c) (ok (row_to_user ids (f row)))
                  (with_user u
                    (with_pats (revoke_pats_for_user (wire ids u) now)
                      (with_sessions (revoke_sessions_for_user (wire ids u) c) t))
                    (f row))
                  (record db {
                    usr = update (usr_has_id u) f db.usr;
                    cred = update (active_cred_of u) (set_cred_status Status.revoked now) db.cred;
                    ses = update (live_of_user u) (set_revoked_at c) db.ses;
                  })
                  (ground (arith, q, b, h.same_user u hu))
                  (ground (
                    arith,
                    q,
                    b,
                    e,
                    r.decoded (codes "usr") u hu,
                    fetchone-update_same u f db.usr row (λ x. refl) q,
                  ))
                  (update-IsSame ids IsUuid r s.users db.usr h u row f hu q (λ x. refl))
          ]
    ]
  ]

  -- Where both stores have the same users, a call on a user, in which a new user has a new uuid,
  -- returns or raises the same on both and leaves them with the same users, unless the database
  -- refuses the time at which it ends the sessions.
  pub user_calls-Agrees :
      (c : UserCall)
      → IsUuid (subject c)
      → IsNew c db.usr
      → (in_postgres ids c db).0 ≢ raised check_violation
      → Agrees ids IsUuid c s db
  user_calls-Agrees (UserCall.creates u name now) hu new fine =
      creates-Agrees ids IsUuid r s db h u name now hu new
  user_calls-Agrees (UserCall.reads u) hu new fine = reads-Agrees ids IsUuid r s db h u hu
  user_calls-Agrees (UserCall.updates u name now) hu new fine =
      updates-Agrees ids IsUuid r s db h u name now hu
  user_calls-Agrees (UserCall.suspends u now c) hu new fine = suspends-Agrees u now c hu fine
  user_calls-Agrees (UserCall.reinstates u now) hu new fine = reinstates-Agrees u now hu
  user_calls-Agrees (UserCall.revokes u now c) hu new fine = revokes-Agrees u now c hu fine
