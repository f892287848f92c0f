-- ===== src/Postgres/Indexed/Run.antt =====
-- The rows of `cred` behind a run of calls.
use identity_python.Base.{◌≡◌, List, [], ◌∷◌}
use identity_python.Postgres.Authority.Apart.{IsApart}
use identity_python.Postgres.Authority.OfFactors.{
  confirm_totp_factor-IsApart, confirm_webauthn_factor-IsApart, enroll_recovery_factor-IsApart,
  enroll_totp_factor-IsApart, enroll_webauthn_factor-IsApart, revoke_mfa_factor-IsApart,
  set_mfa_policy-IsApart, verify_mfa-IsApart,
}
use identity_python.Postgres.Calls.{Packages, Call, run, run_all, done}
use identity_python.Postgres.Indexed.{IsIndexed}
use identity_python.Postgres.Indexed.Methods.{
  create_user-cred, update_user-cred, suspend_user-cred, reinstate_user-cred, revoke_session-cred,
  revoke_user-IsIndexed, suspend_credential-IsIndexed, revoke_credential-IsIndexed,
  reinstate_credential-IsIndexed, create_password_credential-IsIndexed,
  create_passkey_credential-IsIndexed, create_oidc_credential-IsIndexed,
}
use identity_python.Postgres.Indexed.Rotations.{
  rotate_password-IsIndexed, rotate_passkey-IsIndexed, rotate_oidc-IsIndexed, create_session-cred,
  refresh_session-cred,
}
use identity_python.Postgres.Users.{
  create_user, update_user, suspend_user, reinstate_user, revoke_user,
}
use identity_python.Postgres.Credentials.{
  create_password_credential, create_passkey_credential, create_oidc_credential, suspend_credential,
  reinstate_credential, revoke_credential,
}
use identity_python.Postgres.Rotate.{rotate_password, rotate_passkey, rotate_oidc}
use identity_python.Postgres.Factors.{set_mfa_policy}
use identity_python.Postgres.Factors.Enroll.{
  enroll_totp_factor, enroll_webauthn_factor, enroll_recovery_factor,
}
use identity_python.Postgres.Factors.Confirm.{
  confirm_totp_factor, confirm_webauthn_factor, revoke_mfa_factor,
}
use identity_python.Postgres.Proofs.{verify_mfa}
use identity_python.Postgres.Sessions.{create_session, refresh_session, revoke_session}
use identity_python.Postgres.Query.{Database, Query}
use identity_python.Result.{Result, ok, raised}

done-IsIndexed :
    {A : Type 0} (m : Query A) (db : Database)
    → IsIndexed (m db).1.cred
    → IsIndexed (done m db).1.cred
done-IsIndexed {A} m db = go (m db)
  where
    go : (r : Result A × Database) → IsIndexed r.1.cred → IsIndexed (done (λ _. r) db).1.cred
    go (ok a, t) h = h
    go (raised e, t) h = h

kept-IsIndexed :
    {A : Type 0} (m : Query A) (db : Database)
    → IsIndexed db.cred
    → (m db).1.cred ≡ db.cred
    → IsIndexed (done m db).1.cred
kept-IsIndexed m db v e = done-IsIndexed m db (rw e v)

apart-cred : {A : Type 0} (m : Query A) → IsApart m → (db : Database) → (m db).1.cred ≡ db.cred
apart-cred m h db = (h.apart db).1

module _ (p : Packages) where
  run-IsIndexed : (c : Call) (db : Database) → IsIndexed db.cred → IsIndexed (run p c db).1.cred
  unfolding run
  run-IsIndexed (Call.creates_user name t i) db v =
      kept-IsIndexed (create_user p.ids name t i) db v (create_user-cred p.ids db name t i)
  run-IsIndexed (Call.updates_user u name t) db v =
      kept-IsIndexed (update_user p.ids u name t) db v (update_user-cred p.ids db u name t)
  run-IsIndexed (Call.suspends_user u n t) db v =
      kept-IsIndexed (suspend_user p.ids u n t) db v (suspend_user-cred p.ids db u n t)
  run-IsIndexed (Call.reinstates_user u t) db v =
      kept-IsIndexed (reinstate_user p.ids u t) db v (reinstate_user-cred p.ids db u t)
  run-IsIndexed (Call.revokes_user u n t) db v =
      done-IsIndexed (revoke_user p.ids u n t) db (revoke_user-IsIndexed p.ids db v u n t)
  run-IsIndexed (Call.creates_password u i w t c s) db v =
      done-IsIndexed (create_password_credential p.ids p.hashes u i w t c s) db
        (create_password_credential-IsIndexed p.ids db v p.hashes u i w t c s)
  run-IsIndexed (Call.creates_passkey u i k n r t c) db v =
      done-IsIndexed (create_passkey_credential p.ids u i k n r t c) db
        (create_passkey_credential-IsIndexed p.ids db v u i k n r t c)
  run-IsIndexed (Call.creates_oidc u i x y t c) db v =
      done-IsIndexed (create_oidc_credential p.ids u i x y t c) db
        (create_oidc_credential-IsIndexed p.ids db v u i x y t c)
  run-IsIndexed (Call.rotates_password c w n t i s) db v =
      done-IsIndexed (rotate_password p.ids p.hashes c w n t i s) db
        (rotate_password-IsIndexed p.ids db v p.hashes c w n t i s)
  run-IsIndexed (Call.rotates_passkey c k m r n t i) db v =
      done-IsIndexed (rotate_passkey p.ids c k m r n t i) db
        (rotate_passkey-IsIndexed p.ids db v c k m r n t i)
  run-IsIndexed (Call.rotates_oidc c x y n t i) db v =
      done-IsIndexed (rotate_oidc p.ids c x y n t i) db
        (rotate_oidc-IsIndexed p.ids db v c x y n t i)
  run-IsIndexed (Call.suspends_credential c n t) db v =
      done-IsIndexed (suspend_credential p.ids c n t) db
        (suspend_credential-IsIndexed p.ids db v c n t)
  run-IsIndexed (Call.reinstates_credential c t) db v =
      done-IsIndexed (reinstate_credential p.ids c t) db
        (reinstate_credential-IsIndexed p.ids db v c t)
  run-IsIndexed (Call.revokes_credential c n t) db v =
      done-IsIndexed (revoke_credential p.ids c n t) db
        (revoke_credential-IsIndexed p.ids db v c n t)
  run-IsIndexed (Call.creates_session u c l n w i) db v =
      kept-IsIndexed (create_session p.ids p.sha256 u c l n w i) db v
        (create_session-cred p.ids db p.sha256 u c l n w i)
  run-IsIndexed (Call.refreshes_session s n w i) db v =
      kept-IsIndexed (refresh_session p.ids p.sha256 s n w i) db v
        (refresh_session-cred p.ids db p.sha256 s n w i)
  run-IsIndexed (Call.revokes_session s n) db v =
      kept-IsIndexed (revoke_session p.ids s n) db v (revoke_session-cred p.ids db s n)
  run-IsIndexed (Call.enrolls_totp u i n x m) db v =
      kept-IsIndexed (enroll_totp_factor p.ids p.b32encode p.quote p.upper_text u i n x m) db v (
        apart-cred (enroll_totp_factor p.ids p.b32encode p.quote p.upper_text u i n x m)
          (enroll_totp_factor-IsApart p.ids p.b32encode p.quote p.upper_text u i n x m) db)
  run-IsIndexed (Call.enrolls_webauthn u i k c r g x n m) db v =
      kept-IsIndexed (enroll_webauthn_factor p.ids u i k c r g x n m) db v (
        apart-cred (enroll_webauthn_factor p.ids u i k c r g x n m)
          (enroll_webauthn_factor-IsApart p.ids u i k c r g x n m) db)
  run-IsIndexed (Call.enrolls_recovery u n l m) db v =
      kept-IsIndexed (enroll_recovery_factor p.ids p.hashes u n l m) db v (
        apart-cred (enroll_recovery_factor p.ids p.hashes u n l m)
          (enroll_recovery_factor-IsApart p.ids p.hashes u n l m) db)
  run-IsIndexed (Call.confirms_totp m c x y t) db v =
      kept-IsIndexed (confirm_totp_factor p.ids p.totp m c x y t) db v (
        apart-cred (confirm_totp_factor p.ids p.totp m c x y t)
          (confirm_totp_factor-IsApart p.ids p.totp m c x y t) db)
  run-IsIndexed (Call.confirms_webauthn m r x t) db v =
      kept-IsIndexed (confirm_webauthn_factor p.ids p.webauthn m r x t) db v (
        apart-cred (confirm_webauthn_factor p.ids p.webauthn m r x t)
          (confirm_webauthn_factor-IsApart p.ids p.webauthn m r x t) db)
  run-IsIndexed (Call.revokes_factor m t) db v =
      kept-IsIndexed (revoke_mfa_factor p.ids m t) db v
        (apart-cred (revoke_mfa_factor p.ids m t) (revoke_mfa_factor-IsApart p.ids m t) db)
  run-IsIndexed (Call.verifies_mfa u f x y t) db v =
      kept-IsIndexed (verify_mfa p.ids p.hashes p.unicode p.totp p.webauthn u f x y t) db v (
        apart-cred (verify_mfa p.ids p.hashes p.unicode p.totp p.webauthn u f x y t)
          (verify_mfa-IsApart p.ids p.hashes p.unicode p.totp p.webauthn u f x y t) db)
  run-IsIndexed (Call.sets_policy u r g t) db v =
      kept-IsIndexed (set_mfa_policy p.ids u r g t) db v
        (apart-cred (set_mfa_policy p.ids u r g t) (set_mfa_policy-IsApart p.ids u r g t) db)

  -- A run of calls of the store of postgres.py, each of which returns or raises, keeps the rows of
  -- `cred` indexed: no two have one id, and no two that are active have one type and identifier.
  pub run_all-IsIndexed :
      (cs : List Call) (db : Database) → IsIndexed db.cred → IsIndexed (run_all p cs db).cred
  unfolding run_all
  run_all-IsIndexed [] db v = v
  run_all-IsIndexed (c ∷ cs) db v = run_all-IsIndexed cs (run p c db).1 (run-IsIndexed c db v)
