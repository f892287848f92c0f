-- ===== src/Invariant/Defs.antt =====
-- The invariant of the store: that of the credential dicts and that of the session dicts.
use identity_python.Base.Text.{Str}
use identity_python.Credentials.Sound
use identity_python.Sessions.{
  revoke_sessions_for_user, revoke_sessions_for_credential, of_user, of_credential,
}
use identity_python.Sessions.Invariant
use identity_python.Tables.{SessionTables, Store}
use identity_python.Types.{Time}

pub record IsSound (s : Store) : Type 0 where
  pub credentials : Sound.IsSound s.credential_tables
  pub sessions : Invariant.IsSound s.session_tables

-- the cascades
pub revoke_sessions_for_user-IsSound :
    (usr_id : Str) (now : Time) (t : SessionTables)
    → Invariant.IsSound t
    → Invariant.IsSound (revoke_sessions_for_user usr_id now t)
unfolding revoke_sessions_for_user
revoke_sessions_for_user-IsSound usr_id now t v =
    Invariant.revoke_matching-IsSound (of_user usr_id) now t.sessions t v

pub revoke_sessions_for_credential-IsSound :
    (cred_id : Str) (now : Time) (t : SessionTables)
    → Invariant.IsSound t
    → Invariant.IsSound (revoke_sessions_for_credential cred_id now t)
unfolding revoke_sessions_for_credential
revoke_sessions_for_credential-IsSound cred_id now t v =
    Invariant.revoke_matching-IsSound (of_credential cred_id) now t.sessions t v
