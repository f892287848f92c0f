-- ===== src/Invariant/Authority.antt =====
-- Every session that is not revoked is of an active user, and of an active credential of that user.
pub mod OfCredentials
pub mod Reach
use identity_python.Base.{
  ℕ, ◌≡◌, ◌≢◌, refl, arith, ◌+◌, ◌-◌, Option, none, some, inl, inr, Option-cases, Bool, true, false,
  Bool-cases, ap,
}
use identity_python.Base.Dict.{lookup, lookup-insert, lookup-erase}
use identity_python.Base.Text.{Str, Bytes, str_discrete}
use identity_python.Base.Dict.Distinct.{IsDistinct}
use identity_python.Credentials.Change.{suspend_credential, reinstate_credential, revoke_credential}
use identity_python.Credentials.Create.{
  create_password_credential, create_passkey_credential, create_oidc_credential,
}
use identity_python.Credentials.Entries.{
  store_credential, deactivate, reactivate, Secret, password_hash, public_key, no_secret,
}
use identity_python.Credentials.Logout.{lookup-revoke_sessions_for_credential}
use identity_python.Invariant.Defs.{IsSound}
use identity_python.Invariant.OfOthers.{SameCore}
use identity_python.Primitives.{Hashes, hash_password}
use identity_python.Sessions.{
  create_session, refresh_session, revoke_session, revoke_entry, issue_entry,
}
use identity_python.Tables.{Store, CredentialTables}
use identity_python.Types.{User, Credential, Session, Status, Time, seconds}
use identity_python.Users.{
  Update, create_user, update_user, suspend_user, reinstate_user, revoke_user, active_of_user,
}
use identity_python.Users.Cascade.{lookup-revoke_sessions_for_user, lookup-revoke_credentials}

abbrev pub IsActiveUser : Option User → Type 0
IsActiveUser none = ⊥
IsActiveUser (some u) = u.status ≡ Status.active

abbrev pub IsActiveOf : Str → Option Credential → Type 0
IsActiveOf usr_id none = ⊥
IsActiveOf usr_id (some c) = (c.status ≡ Status.active) × (c.usr_id ≡ usr_id)

-- the user and the credential of a session are active, and the credential is the user's
abbrev pub IsBacked : Store → Session → Type 0
IsBacked s ses =
    IsActiveUser (lookup ses.usr_id s.users)
    × IsActiveOf ses.usr_id (lookup ses.cred_id s.credentials)

pub record IsAuthorized (s : Store) : Type 0 where
  pub backed :
      (i : Str) (ses : Session)
      → lookup i s.sessions ≡ some ses
      → ses.revoked_at ≡ none
      → IsBacked s ses

pub SameCore-IsAuthorized : {s s' : Store} → SameCore s s' → IsAuthorized s → IsAuthorized s'
SameCore-IsAuthorized {s} {s'} (c, d, u) v = record {
  backed = λ i ses e live. grind (arith, c, d, u, v.backed i ses);
}

module _ (s : Store) (v : IsAuthorized s) where
  pub create_user-IsBacked :
      (name : Option Str) (now : Time) (usr_id i : Str) (ses : Session)
      → lookup i (create_user name now usr_id s).1.sessions ≡ some ses
      → ses.revoked_at ≡ none
      → IsBacked (create_user name now usr_id s).1 ses
  unfolding create_user
  create_user-IsBacked name now usr_id i ses e live = grind (arith, lookup-insert, v.backed i ses)

  pub update_user-IsBacked :
      (usr_id : Str) (name : Update) (now : Time) (i : Str) (ses : Session)
      → lookup i (update_user usr_id name now s).1.sessions ≡ some ses
      → ses.revoked_at ≡ none
      → IsBacked (update_user usr_id name now s).1 ses
  unfolding update_user
  update_user-IsBacked usr_id name now i ses e live = grind (arith, lookup-insert, v.backed i ses)

  pub reinstate_user-IsBacked :
      (usr_id : Str) (now : Time) (i : Str) (ses : Session)
      → lookup i (reinstate_user usr_id now s).1.sessions ≡ some ses
      → ses.revoked_at ≡ none
      → IsBacked (reinstate_user usr_id now s).1 ses
  unfolding reinstate_user
  reinstate_user-IsBacked usr_id now i ses e live = grind (arith, lookup-insert, v.backed i ses)

  pub suspend_user-IsBacked :
      (usr_id : Str) (now cascade_now : Time) (i : Str) (ses : Session)
      → IsDistinct s.sessions
      → lookup i (suspend_user usr_id now cascade_now s).1.sessions ≡ some ses
      → ses.revoked_at ≡ none
      → IsBacked (suspend_user usr_id now cascade_now s).1 ses
  unfolding suspend_user
  suspend_user-IsBacked usr_id now cascade_now i ses d e live = grind (
    arith,
    lookup-insert,
    v.backed i ses,
    lookup-revoke_sessions_for_user usr_id cascade_now i s.session_tables d,
  )

  pub revoke_user-IsBacked :
      (usr_id : Str) (now cascade_now : Time) (i : Str) (ses : Session)
      → IsSound s
      → lookup i (revoke_user usr_id now cascade_now s).1.sessions ≡ some ses
      → ses.revoked_at ≡ none
      → IsBacked (revoke_user usr_id now cascade_now s).1 ses
  unfolding revoke_user
  revoke_user-IsBacked usr_id now cascade_now i ses w e live = grind (
    arith,
    lookup-insert,
    v.backed i ses,
    lookup-revoke_sessions_for_user usr_id cascade_now i s.session_tables w.sessions.distinct,
    lookup-revoke_credentials usr_id now ses.cred_id s.credential_tables w.credentials.distinct,
  )

  pub store_credential-IsBacked :
      (c : Credential) (secret : Secret) (i : Str) (ses : Session)
      → lookup c.id s.credentials ≡ none
      → lookup i s.sessions ≡ some ses
      → ses.revoked_at ≡ none
      → IsBacked
          (record s { credential_tables = store_credential c secret s.credential_tables })
          ses
  unfolding store_credential
  store_credential-IsBacked c (password_hash p) i ses fresh e live =
      grind (arith, lookup-insert, v.backed i ses)
  store_credential-IsBacked c (public_key p) i ses fresh e live =
      grind (arith, lookup-insert, v.backed i ses)
  store_credential-IsBacked c no_secret i ses fresh e live =
      grind (arith, lookup-insert, v.backed i ses)

  pub suspend_credential-IsBacked :
      (cred_id : Str) (now cascade_now : Time) (i : Str) (ses : Session)
      → IsDistinct s.sessions
      → lookup i (suspend_credential cred_id now cascade_now s).1.sessions ≡ some ses
      → ses.revoked_at ≡ none
      → IsBacked (suspend_credential cred_id now cascade_now s).1 ses
  unfolding suspend_credential deactivate
  suspend_credential-IsBacked cred_id now cascade_now i ses d e live = grind (
    arith,
    lookup-insert,
    v.backed i ses,
    lookup-revoke_sessions_for_credential cred_id cascade_now i s.session_tables d,
  )

  pub revoke_credential-IsBacked :
      (cred_id : Str) (now cascade_now : Time) (i : Str) (ses : Session)
      → IsDistinct s.sessions
      → lookup i (revoke_credential cred_id now cascade_now s).1.sessions ≡ some ses
      → ses.revoked_at ≡ none
      → IsBacked (revoke_credential cred_id now cascade_now s).1 ses
  unfolding revoke_credential deactivate
  revoke_credential-IsBacked cred_id now cascade_now i ses d e live = grind (
    arith,
    lookup-insert,
    v.backed i ses,
    lookup-revoke_sessions_for_credential cred_id cascade_now i s.session_tables d,
  )

  pub reinstate_credential-IsBacked :
      (cred_id : Str) (now : Time) (i : Str) (ses : Session)
      → lookup i (reinstate_credential cred_id now s).1.sessions ≡ some ses
      → ses.revoked_at ≡ none
      → IsBacked (reinstate_credential cred_id now s).1 ses
  unfolding reinstate_credential reactivate
  reinstate_credential-IsBacked cred_id now i ses e live =
      grind (arith, lookup-insert, v.backed i ses)

  pub create_session-IsBacked :
      (h : Hashes) (usr_id cred_id : Str) (ttl now : Time) (token ses_id i : Str) (ses : Session)
      → lookup i (create_session h usr_id cred_id ttl now token ses_id s).1.sessions ≡ some ses
      → ses.revoked_at ≡ none
      → IsBacked (create_session h usr_id cred_id ttl now token ses_id s).1 ses
  unfolding create_session issue_entry
  create_session-IsBacked h usr_id cred_id ttl now token ses_id i ses e live =
      grind (arith, lookup-insert, v.backed i ses)

  pub refresh_session-IsBacked :
      (h : Hashes) (old_id : Str) (check_now now : Time) (token ses_id i : Str) (ses : Session)
      → lookup i (refresh_session h old_id check_now now token ses_id s).1.sessions ≡ some ses
      → ses.revoked_at ≡ none
      → IsBacked (refresh_session h old_id check_now now token ses_id s).1 ses
  unfolding refresh_session issue_entry revoke_entry
  refresh_session-IsBacked h old_id check_now now token ses_id i ses e live =
      grind (arith, lookup-insert, v.backed i ses, v.backed old_id)

  pub revoke_session-IsBacked :
      (ses_id : Str) (now : Time) (i : Str) (ses : Session)
      → lookup i (revoke_session ses_id now s).1.sessions ≡ some ses
      → ses.revoked_at ≡ none
      → IsBacked (revoke_session ses_id now s).1 ses
  unfolding revoke_session revoke_entry
  revoke_session-IsBacked ses_id now i ses e live = grind (arith, lookup-insert, v.backed i ses)
