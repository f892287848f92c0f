-- ===== src/Postgres/Authority/Run.antt =====
-- A run of calls of `PostgresIdentityStore` from the tables of a new database.
use identity_python.Base.{◌≡◌, arith, List, [], ◌∷◌, inl, inr, Option-cases}
use identity_python.Base.Text.{Str}
use identity_python.Postgres.Authority.{IsAuthorized, IsBackedBy, IsLiveBacked}
use identity_python.Postgres.Authority.Methods.{
  create_user-IsAuthorized, update_user-IsAuthorized, suspend_user-IsAuthorized,
  reinstate_user-IsAuthorized, revoke_usr-IsAuthorized, create_password_credential-IsAuthorized,
  create_passkey_credential-IsAuthorized, create_oidc_credential-IsAuthorized,
  suspend_credential-IsAuthorized, revoke_credential-IsAuthorized,
  reinstate_credential-IsAuthorized, revoke_session-IsAuthorized,
}
use identity_python.Postgres.Authority.Apart.{SameAccounts, IsApart}
use identity_python.Postgres.Authority.OfFactors.{
  enroll_totp_factor-IsApart, enroll_webauthn_factor-IsApart, enroll_recovery_factor-IsApart,
  confirm_totp_factor-IsApart, confirm_webauthn_factor-IsApart, revoke_mfa_factor-IsApart,
  verify_mfa-IsApart, set_mfa_policy-IsApart,
}
use identity_python.Postgres.Authority.Writes.{
  rotate_password-IsAuthorized, rotate_passkey-IsAuthorized, rotate_oidc-IsAuthorized,
  create_session-IsAuthorized, refresh_session-IsAuthorized,
}
use identity_python.Postgres.Calls.{Packages, Call, run, run_all, no_rows, done}
use identity_python.Postgres.Users.{
  create_user, update_user, suspend_user, reinstate_user, revoke_user,
}
use identity_python.Postgres.Credentials.{
  create_password_credential, create_passkey_credential, create_oidc_credential, suspend_credential,
  reinstate_credential, revoke_credential,
}
use identity_python.Postgres.Rotate.{rotate_password, rotate_passkey, rotate_oidc}
use identity_python.Postgres.Factors.{set_mfa_policy}
use identity_python.Postgres.Factors.Enroll.{
  enroll_totp_factor, enroll_webauthn_factor, enroll_recovery_factor,
}
use identity_python.Postgres.Factors.Confirm.{
  confirm_totp_factor, confirm_webauthn_factor, revoke_mfa_factor,
}
use identity_python.Postgres.Proofs.{verify_mfa}
use identity_python.Postgres.Query.{Database, Query, fetchone}
use identity_python.Postgres.Rows.{SesRow, row_to_session}
use identity_python.Postgres.Rowwise.{fetchone_All}
use identity_python.Postgres.Sessions.{
  create_session, refresh_session, revoke_session, verify_session_token, has_token_hash,
  hash_token_bytes,
}
use identity_python.Result.{Result, ok, raised}
use identity_python.Types.{Session, Time}

done-IsAuthorized :
    {A : Type 0} (m : Query A) (db : Database) → IsAuthorized (m db).1 → IsAuthorized (done m db).1
done-IsAuthorized {A} m db = go (m db)
  where
    go : (r : Result A × Database) → IsAuthorized r.1 → IsAuthorized (done (λ _. r) db).1
    go (ok a, t) h = h
    go (raised e, t) h = h

apart-IsAuthorized :
    {A : Type 0} (m : Query A) (db : Database)
    → IsAuthorized db
    → IsApart m
    → IsAuthorized (done m db).1
apart-IsAuthorized m db v h = done-IsAuthorized m db (go (m db).1 (h.apart db))
  where
    go : (t : Database) → SameAccounts db t → IsAuthorized t
    go t (p, q, r) = record { backed = rw (p, q, r) v.backed }

module _ (p : Packages) where
  run-IsAuthorized : (c : Call) (db : Database) → IsAuthorized db → IsAuthorized (run p c db).1
  unfolding run
  run-IsAuthorized (Call.creates_user name t i) db v =
      done-IsAuthorized (create_user p.ids name t i) db
        (create_user-IsAuthorized p.ids db v name t i)
  run-IsAuthorized (Call.updates_user u name t) db v =
      done-IsAuthorized (update_user p.ids u name t) db
        (update_user-IsAuthorized p.ids db v u name t)
  run-IsAuthorized (Call.suspends_user u n t) db v =
      done-IsAuthorized (suspend_user p.ids u n t) db (suspend_user-IsAuthorized p.ids db v u n t)
  run-IsAuthorized (Call.reinstates_user u t) db v =
      done-IsAuthorized (reinstate_user p.ids u t) db (reinstate_user-IsAuthorized p.ids db v u t)
  run-IsAuthorized (Call.revokes_user u n t) db v =
      done-IsAuthorized (revoke_user p.ids u n t) db (revoke_usr-IsAuthorized p.ids db v u n t)
  run-IsAuthorized (Call.creates_password u i w t c s) db v =
      done-IsAuthorized (create_password_credential p.ids p.hashes u i w t c s) db
        (create_password_credential-IsAuthorized p.ids db v p.hashes u i w t c s)
  run-IsAuthorized (Call.creates_passkey u i k n r t c) db v =
      done-IsAuthorized (create_passkey_credential p.ids u i k n r t c) db
        (create_passkey_credential-IsAuthorized p.ids db v u i k n r t c)
  run-IsAuthorized (Call.creates_oidc u i x y t c) db v =
      done-IsAuthorized (create_oidc_credential p.ids u i x y t c) db
        (create_oidc_credential-IsAuthorized p.ids db v u i x y t c)
  run-IsAuthorized (Call.rotates_password c w n t i s) db v =
      done-IsAuthorized (rotate_password p.ids p.hashes c w n t i s) db
        (rotate_password-IsAuthorized p.ids db v p.hashes c w n t i s)
  run-IsAuthorized (Call.rotates_passkey c k m r n t i) db v =
      done-IsAuthorized (rotate_passkey p.ids c k m r n t i) db
        (rotate_passkey-IsAuthorized p.ids db v c k m r n t i)
  run-IsAuthorized (Call.rotates_oidc c x y n t i) db v =
      done-IsAuthorized (rotate_oidc p.ids c x y n t i) db
        (rotate_oidc-IsAuthorized p.ids db v c x y n t i)
  run-IsAuthorized (Call.suspends_credential c n t) db v =
      done-IsAuthorized (suspend_credential p.ids c n t) db
        (suspend_credential-IsAuthorized p.ids db v c n t)
  run-IsAuthorized (Call.reinstates_credential c t) db v =
      done-IsAuthorized (reinstate_credential p.ids c t) db
        (reinstate_credential-IsAuthorized p.ids db v c t)
  run-IsAuthorized (Call.revokes_credential c n t) db v =
      done-IsAuthorized (revoke_credential p.ids c n t) db
        (revoke_credential-IsAuthorized p.ids db v c n t)
  run-IsAuthorized (Call.creates_session u c l n w i) db v =
      done-IsAuthorized (create_session p.ids p.sha256 u c l n w i) db
        (create_session-IsAuthorized p.ids db v p.sha256 u c l n w i)
  run-IsAuthorized (Call.refreshes_session s n w i) db v =
      done-IsAuthorized (refresh_session p.ids p.sha256 s n w i) db
        (refresh_session-IsAuthorized p.ids db v p.sha256 s n w i)
  run-IsAuthorized (Call.revokes_session s n) db v =
      done-IsAuthorized (revoke_session p.ids s n) db (revoke_session-IsAuthorized p.ids db v s n)
  run-IsAuthorized (Call.enrolls_totp u i n x m) db v =
      apart-IsAuthorized (enroll_totp_factor p.ids p.b32encode p.quote p.upper_text u i n x m) db v
        (enroll_totp_factor-IsApart p.ids p.b32encode p.quote p.upper_text u i n x m)
  run-IsAuthorized (Call.enrolls_webauthn u i k c r g x n m) db v =
      apart-IsAuthorized (enroll_webauthn_factor p.ids u i k c r g x n m) db v
        (enroll_webauthn_factor-IsApart p.ids u i k c r g x n m)
  run-IsAuthorized (Call.enrolls_recovery u n l m) db v =
      apart-IsAuthorized (enroll_recovery_factor p.ids p.hashes u n l m) db v
        (enroll_recovery_factor-IsApart p.ids p.hashes u n l m)
  run-IsAuthorized (Call.confirms_totp m c x y t) db v =
      apart-IsAuthorized (confirm_totp_factor p.ids p.totp m c x y t) db v
        (confirm_totp_factor-IsApart p.ids p.totp m c x y t)
  run-IsAuthorized (Call.confirms_webauthn m r x t) db v =
      apart-IsAuthorized (confirm_webauthn_factor p.ids p.webauthn m r x t) db v
        (confirm_webauthn_factor-IsApart p.ids p.webauthn m r x t)
  run-IsAuthorized (Call.revokes_factor m t) db v =
      apart-IsAuthorized (revoke_mfa_factor p.ids m t) db v (revoke_mfa_factor-IsApart p.ids m t)
  run-IsAuthorized (Call.verifies_mfa u f x y t) db v =
      apart-IsAuthorized (verify_mfa p.ids p.hashes p.unicode p.totp p.webauthn u f x y t) db v
        (verify_mfa-IsApart p.ids p.hashes p.unicode p.totp p.webauthn u f x y t)
  run-IsAuthorized (Call.sets_policy u r g t) db v =
      apart-IsAuthorized (set_mfa_policy p.ids u r g t) db v (set_mfa_policy-IsApart p.ids u r g t)

  run_all-IsAuthorized :
      (cs : List Call) (db : Database) → IsAuthorized db → IsAuthorized (run_all p cs db)
  unfolding run_all
  run_all-IsAuthorized [] db v = v
  run_all-IsAuthorized (c ∷ cs) db v =
      run_all-IsAuthorized cs (run p c db).1 (run-IsAuthorized c db v)

  -- the row that a verified token is of
  abbrev pub IsOfActive : Database → Session → Type 0
  IsOfActive db session =
      (row : SesRow) × ((session ≡ row_to_session p.ids row) × IsBackedBy db.usr db.cred row)

  verify-IsOfActive :
      (db : Database)
      → IsAuthorized db
      → (token : Str) (now : Time) (session : Session)
      → (verify_session_token p.ids p.sha256 token now db).0 ≡ ok session
      → IsOfActive db session
  unfolding verify_session_token
  verify-IsOfActive db v token now session h =
      elim (Option-cases
        (fetchone (has_token_hash (hash_token_bytes p.ids p.sha256 token)) db.ses)) [
          | inl q ↦ absurd (ground (arith, q, h))
          | inr (row, q) ↦ (
            row,
            (
              ground (arith, q, h),
              fetchone_All (IsLiveBacked db.usr db.cred)
                  (has_token_hash (hash_token_bytes p.ids p.sha256 token)) db.ses row v.backed q
                  (ground (arith, q, h)),
            ),
          )
        ]

  -- After any calls from empty tables, each of which returns or raises: if `verify_session_token`
  -- returns a session, then it is of a row of `ses` whose user is active and whose credential is
  -- active and of that user.
  pub verify_session_token-IsOfActive :
      (cs : List Call) (token : Str) (now : Time) (session : Session)
      → (verify_session_token p.ids p.sha256 token now (run_all p cs no_rows)).0 ≡ ok session
      → IsOfActive (run_all p cs no_rows) session
  verify_session_token-IsOfActive cs token now session h =
      verify-IsOfActive (run_all p cs no_rows)
        (run_all-IsAuthorized cs no_rows (record { backed = tt })) token now session h
