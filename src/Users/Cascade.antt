-- ===== src/Users/Cascade.antt =====
-- What suspension and revocation of a user do to credentials, sessions and access tokens.
use identity_python.Base.{
  ◌≡◌, ◌≢◌, refl, arith, Option, none, some, Bool, List, [], ◌∷◌, ite, if◌then◌else◌,
}
use identity_python.Base.Dict.{lookup, insert, lookup-insert}
use identity_python.Base.Dict.Distinct.{IsDistinct}
use identity_python.Base.Text.{Str, str_discrete}
use identity_python.Credentials.Entries.{deactivate, with_credential_status}
use identity_python.Pats.{revoke_pats, revoke_pats_for_user, live_pat_of, revoked_pat}
use identity_python.Primitives.{Hashes}
use identity_python.Result.{ok}
use identity_python.Sessions.{revoke_sessions_for_user, of_user, verify_session_token}
use identity_python.Sessions.Cascade.{after_cascade, lookup-revoke_matching}
use identity_python.Tables.{CredentialTables, SessionTables, PatTables, Store}
use identity_python.Types.{
  Credential, Session, PersonalAccessToken, User, Status, Time, with_status,
}
use identity_python.Users.{suspend_user, revoke_user, revoke_credentials, active_of_user}

-- The entity that a cascade leaves in the place of another: changed if it passes the test.
abbrev pub changed_if : {A : Type 0} → (A → Bool) → (A → A) → Option A → Option A
changed_if test change none = none
changed_if test change (some a) = some (if test a then change a else a)

-- the same, where only the entries of a list are visited
abbrev visited : {A : Type 0} → (A → Bool) → (A → A) → Option A → Option A → Option A
visited test change none old = old
visited test change (some a) old = if test a then some (change a) else old

abbrev pub end_credential : Time → Credential → Credential
end_credential now c = with_credential_status c Status.revoked now

abbrev pub end_pat : Time → PersonalAccessToken → PersonalAccessToken
end_pat now p = revoked_pat p now

module _ (usr_id : Str) (now : Time) where
  revoke_credentials-visited :
      (i : Str) (l : List (Str × Credential)) (t : CredentialTables)
      → IsDistinct l
      → lookup i (revoke_credentials usr_id now l t).credentials
        ≡ visited (active_of_user usr_id) (end_credential now) (lookup i l) (lookup i t.credentials)
  unfolding revoke_credentials lookup deactivate
  revoke_credentials-visited i [] t d = refl
  revoke_credentials-visited i ((j, c) ∷ l) t d = ground (
    arith,
    revoke_credentials-visited i l t d.1,
    revoke_credentials-visited i l (deactivate j c Status.revoked now t) d.1,
    lookup-insert j i (end_credential now c) t.credentials,
  )

  pub lookup-revoke_credentials :
      (i : Str) (t : CredentialTables)
      → IsDistinct t.credentials
      → lookup i (revoke_credentials usr_id now t.credentials t).credentials
        ≡ changed_if (active_of_user usr_id) (end_credential now) (lookup i t.credentials)
  lookup-revoke_credentials i t d =
      rw (revoke_credentials-visited i t.credentials t d) (ground arith)

  revoke_pats-visited :
      (i : Str) (l : List (Str × PersonalAccessToken)) (t : PatTables)
      → IsDistinct l
      → lookup i (revoke_pats usr_id now l t).pats
        ≡ visited (live_pat_of usr_id) (end_pat now) (lookup i l) (lookup i t.pats)
  unfolding revoke_pats lookup
  revoke_pats-visited i [] t d = refl
  revoke_pats-visited i ((j, p) ∷ l) t d = ground (
    arith,
    revoke_pats-visited i l t d.1,
    revoke_pats-visited i l (record t { pats = insert j (end_pat now p) t.pats }) d.1,
    lookup-insert j i (end_pat now p) t.pats,
  )

  lookup-revoke_pats_for_user :
      (i : Str) (t : PatTables)
      → IsDistinct t.pats
      → lookup i (revoke_pats_for_user usr_id now t).pats
        ≡ changed_if (live_pat_of usr_id) (end_pat now) (lookup i t.pats)
  unfolding revoke_pats_for_user
  lookup-revoke_pats_for_user i t d = rw (revoke_pats-visited i t.pats t d) (ground arith)

pub lookup-revoke_sessions_for_user :
    (usr_id : Str) (now : Time) (i : Str) (t : SessionTables)
    → IsDistinct t.sessions
    → lookup i (revoke_sessions_for_user usr_id now t).sessions
      ≡ after_cascade (of_user usr_id) now (lookup i t.sessions)
unfolding revoke_sessions_for_user
lookup-revoke_sessions_for_user usr_id now i t d = lookup-revoke_matching (of_user usr_id) now i t d

-- The dicts that the cascades walk through have distinct keys.
pub record IsWalkable (s : Store) : Type 0 where
  pub credentials : IsDistinct s.credentials
  pub sessions : IsDistinct s.sessions
  pub pats : IsDistinct s.pats

-- A user who is not revoked yet can be revoked, in a store whose dicts have distinct keys. The call
-- revokes the user, each active credential, each session that is not revoked and each access token
-- that is not revoked of that user, and changes no other user, credential, session or access token
-- (`i` is any id) and no factor.
pub revoke_user_effect :
    (usr_id : Str) (now cascade_now : Time) (s : Store) (u : User) (i : Str)
    → IsWalkable s
    → lookup usr_id s.users ≡ some u
    → u.status ≢ Status.revoked
    → let (r, s') = revoke_user usr_id now cascade_now s in
      (r ≡ ok (with_status u Status.revoked now))
      × (lookup i s'.users
          ≡ ite
              (str_discrete usr_id i)
              (some (with_status u Status.revoked now))
              (lookup i s.users))
      × (lookup i s'.credentials
          ≡ changed_if (active_of_user usr_id) (end_credential now) (lookup i s.credentials))
      × (lookup i s'.sessions ≡ after_cascade (of_user usr_id) cascade_now (lookup i s.sessions))
      × (lookup i s'.pats ≡ changed_if (live_pat_of usr_id) (end_pat now) (lookup i s.pats))
      × (s'.factor_tables ≡ s.factor_tables)
unfolding revoke_user
revoke_user_effect usr_id now cascade_now s u i w found live = (
  ground arith,
  ground (arith, lookup-insert usr_id i (with_status u Status.revoked now) s.users),
  ground (arith, lookup-revoke_credentials usr_id now i s.credential_tables w.credentials),
  ground (arith, lookup-revoke_sessions_for_user usr_id cascade_now i s.session_tables w.sessions),
  ground (arith, lookup-revoke_pats_for_user usr_id now i s.pat_tables w.pats),
  ground arith,
)

-- After a revocation, in a store whose dicts have distinct keys, a token that verifies is for a
-- session of another user.
pub verify_session_token-revoke_user :
    (h : Hashes) (usr_id token : Str) (now cascade_now later : Time) (s s' : Store) (u : User)
    (ses : Session)
    → IsWalkable s
    → revoke_user usr_id now cascade_now s ≡ (ok u, s')
    → verify_session_token h token later s' ≡ (ok ses, s')
    → ses.usr_id ≢ usr_id
unfolding revoke_user verify_session_token
verify_session_token-revoke_user h usr_id token now cascade_now later s s' u ses w e verified
      of_it =
    grind (arith, lookup-revoke_sessions_for_user usr_id cascade_now)

-- An active user can be suspended, in a store whose sessions have distinct ids. The call suspends
-- the user, revokes each session of the user that is not revoked, changes no other user or session
-- (`i` is any id), and keeps the credentials and the access tokens.
pub suspend_user_effect :
    (usr_id : Str) (now cascade_now : Time) (s : Store) (u : User) (i : Str)
    → IsDistinct s.sessions
    → lookup usr_id s.users ≡ some u
    → u.status ≡ Status.active
    → let (r, s') = suspend_user usr_id now cascade_now s in
      (r ≡ ok (with_status u Status.suspended now))
      × (lookup usr_id s'.users ≡ some (with_status u Status.suspended now))
      × (lookup i s'.users
          ≡ ite
              (str_discrete usr_id i)
              (some (with_status u Status.suspended now))
              (lookup i s.users))
      × (lookup i s'.sessions ≡ after_cascade (of_user usr_id) cascade_now (lookup i s.sessions))
      × (s'.credential_tables ≡ s.credential_tables)
      × (s'.pat_tables ≡ s.pat_tables)
unfolding suspend_user
suspend_user_effect usr_id now cascade_now s u i d found active = (
  ground arith,
  ground (arith, lookup-insert usr_id usr_id (with_status u Status.suspended now) s.users),
  ground (arith, lookup-insert usr_id i (with_status u Status.suspended now) s.users),
  ground (arith, lookup-revoke_sessions_for_user usr_id cascade_now i s.session_tables d),
  ground arith,
  ground arith,
)
