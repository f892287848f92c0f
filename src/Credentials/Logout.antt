-- ===== src/Credentials/Logout.antt =====
-- A credential that ceases to be active ends its sessions.
use identity_python.Base.{◌≡◌, ◌≢◌, arith}
use identity_python.Base.Dict.{lookup}
use identity_python.Base.Dict.Distinct.{IsDistinct}
use identity_python.Base.Text.{Str}
use identity_python.Credentials.Change.{suspend_credential, revoke_credential}
use identity_python.Primitives.{Hashes}
use identity_python.Result.{ok}
use identity_python.Sessions.{revoke_sessions_for_credential, of_credential, verify_session_token}
use identity_python.Sessions.Cascade.{after_cascade, lookup-revoke_matching}
use identity_python.Tables.{SessionTables, Store}
use identity_python.Types.{Credential, Session, Time}

pub lookup-revoke_sessions_for_credential :
    (cred_id : Str) (now : Time) (i : Str) (t : SessionTables)
    → IsDistinct t.sessions
    → lookup i (revoke_sessions_for_credential cred_id now t).sessions
      ≡ after_cascade (of_credential cred_id) now (lookup i t.sessions)
unfolding revoke_sessions_for_credential
lookup-revoke_sessions_for_credential cred_id now i t d =
    lookup-revoke_matching (of_credential cred_id) now i t d

module _ (h : Hashes) (cred_id token : Str) (now cascade_now later : Time) (s s' : Store)
    (c : Credential) (ses : Session) (d : IsDistinct s.sessions) where
  -- After a suspension of a credential, in a store whose sessions have distinct ids, a token that
  -- verifies is for a session of another credential.
  pub verify_session_token-suspend_credential :
      suspend_credential cred_id now cascade_now s ≡ (ok c, s')
      → verify_session_token h token later s' ≡ (ok ses, s')
      → ses.cred_id ≢ cred_id
  unfolding suspend_credential verify_session_token
  verify_session_token-suspend_credential e verified of_it =
      grind (arith, lookup-revoke_sessions_for_credential cred_id cascade_now)

  -- After a revocation of a credential, in a store whose sessions have distinct ids, a token that
  -- verifies is for a session of another credential.
  pub verify_session_token-revoke_credential :
      revoke_credential cred_id now cascade_now s ≡ (ok c, s')
      → verify_session_token h token later s' ≡ (ok ses, s')
      → ses.cred_id ≢ cred_id
  unfolding revoke_credential verify_session_token
  verify_session_token-revoke_credential e verified of_it =
      grind (arith, lookup-revoke_sessions_for_credential cred_id cascade_now)
