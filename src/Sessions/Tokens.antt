-- ===== src/Sessions/Tokens.antt =====
-- Which bearer tokens verify: after a session is created, refreshed or revoked.
use identity_python.Base.{ℕ, ◌+◌, ◌-◌, ◌≤◌, ◌<◌, ◌≡◌, ◌≢◌, refl, ite, none, some, arith}
use identity_python.Base.Dict.{lookup, lookup-insert, lookup-erase}
use identity_python.Base.Text.{Str, str_discrete}
use identity_python.Errors.{invalid_token, session_expired}
use identity_python.Primitives.{Hashes, hash_token}
use identity_python.Result.{ok, raised}
use identity_python.Sessions.{
  with_sessions, create_session, verify_session_token, refresh_session, revoke_session,
  revoke_entry, issue_entry,
}
use identity_python.Tables.{Store}
use identity_python.Types.{Session, SessionWithToken, Status, seconds, with_revoked_at}

abbrev pub HasActiveUser : Str → Store → Type 0
HasActiveUser usr_id s = elim (lookup usr_id s.users) [
  | none ↦ ⊥
  | some u ↦ u.status ≡ Status.active
]

abbrev pub OwnsActiveCredential : Str → Str → Store → Type 0
OwnsActiveCredential usr_id cred_id s = elim (lookup cred_id s.credentials) [
  | none ↦ ⊥
  | some c ↦ (c.status ≡ Status.active) × (c.usr_id ≡ usr_id)
]

abbrev new_session : Str → Str → (ttl now : ℕ) → Str → Session
new_session usr_id cred_id ttl now ses_id = record {
  id = ses_id;
  usr_id = usr_id;
  cred_id = cred_id;
  created_at = now;
  expires_at = now + seconds ttl;
  revoked_at = none;
}

module _ (h : Hashes) where
  -- When a session is created, the user is active, the credential is active and of that user, the
  -- time to live is a minute at least, and the session names both and expires that long from now.
  pub create_session_guards :
      (usr_id cred_id : Str) (ttl now : ℕ) (token ses_id : Str) (s s' : Store)
      (r : SessionWithToken)
      → create_session h usr_id cred_id ttl now token ses_id s ≡ (ok r, s')
      → HasActiveUser usr_id s
        × OwnsActiveCredential usr_id cred_id s
        × (60 ≤ ttl)
        × (r.session.usr_id ≡ usr_id)
        × (r.session.cred_id ≡ cred_id)
        × (r.session.expires_at ≡ now + seconds ttl)
  unfolding create_session
  create_session_guards usr_id cred_id ttl now token ses_id s s' r e = ground arith

  -- The token of a new session verifies as that session until the session expires.
  pub verify-create_session :
      (usr_id cred_id : Str) (ttl now later : ℕ) (token ses_id : Str) (s s' : Store)
      (r : SessionWithToken)
      → create_session h usr_id cred_id ttl now token ses_id s ≡ (ok r, s')
      → later ≤ r.session.expires_at
      → verify_session_token h token later s' ≡ (ok r.session, s')
  unfolding create_session verify_session_token issue_entry
  verify-create_session usr_id cred_id ttl now later token ses_id s s' r e in_time =
      grind (arith, lookup-insert)

  create_session_returns :
      (usr_id cred_id : Str) (ttl now : ℕ) (token ses_id : Str) (s : Store)
      → HasActiveUser usr_id s
      → OwnsActiveCredential usr_id cred_id s
      → 60 ≤ ttl
      → let ses = new_session usr_id cred_id ttl now ses_id in
        create_session h usr_id cred_id ttl now token ses_id s ≡ (
          ok (record { session = ses; token = token }),
          with_sessions (issue_entry ses (hash_token h token)) s,
        )
  unfolding create_session
  create_session_returns usr_id cred_id ttl now token ses_id s u c long = ground arith

  -- For an active user, an active credential of that user and a time to live of a minute at least, a
  -- session is created that starts now, under the id given, and is stored under that id. The token
  -- given is returned and verifies as the session. No other session changes (`i` is any id), and no
  -- dict but those of sessions.
  pub create_session_total :
      (usr_id cred_id : Str) (ttl now : ℕ) (token ses_id i : Str) (s : Store)
      → HasActiveUser usr_id s
      → OwnsActiveCredential usr_id cred_id s
      → 60 ≤ ttl
      → (r : SessionWithToken) × (s' : Store) × ((create_session h usr_id cred_id ttl now token
              ses_id s
            ≡ (ok r, s'))
          × (r.session.id ≡ ses_id)
          × (r.session.created_at ≡ now)
          × (r.token ≡ token)
          × (lookup i s'.sessions
              ≡ ite (str_discrete ses_id i) (some r.session) (lookup i s.sessions))
          × (verify_session_token h token now s' ≡ (ok r.session, s'))
          × (s'.users ≡ s.users)
          × (s'.credential_tables ≡ s.credential_tables)
          × (s'.factor_tables ≡ s.factor_tables)
          × (s'.pat_tables ≡ s.pat_tables))
  unfolding issue_entry
  create_session_total usr_id cred_id ttl now token ses_id i s u c long =
      let ses : Session = new_session usr_id cred_id ttl now ses_id in
      let r : SessionWithToken = record { session = ses; token = token } in
      let s' : Store = with_sessions (issue_entry ses (hash_token h token)) s in
      let e : create_session h usr_id cred_id ttl now token ses_id s ≡ (ok r, s') =
        create_session_returns usr_id cred_id ttl now token ses_id s u c long in
      (
        r,
        s',
        (
          e,
          refl,
          refl,
          refl,
          lookup-insert ses_id i ses s.sessions,
          verify-create_session usr_id cred_id ttl now now token ses_id s s' r e (omega arith),
          refl,
          refl,
          refl,
          refl,
        ),
      )

  -- When a new session has expired, its token is refused with `SessionExpiredError`.
  verify-create_session_expired :
      (usr_id cred_id : Str) (ttl now later : ℕ) (token ses_id : Str) (s s' : Store)
      (r : SessionWithToken)
      → create_session h usr_id cred_id ttl now token ses_id s ≡ (ok r, s')
      → r.session.expires_at < later
      → verify_session_token h token later s' ≡ (raised session_expired, s')
  unfolding create_session verify_session_token issue_entry
  verify-create_session_expired usr_id cred_id ttl now later token ses_id s s' r e is_late =
      grind (arith, lookup-insert)

  -- A refresh that returns found the session neither revoked nor expired. The new session is of the
  -- same user and credential, starts now, and expires as long from now as the old one did from its
  -- start; it is stored under its id and not revoked. The old session is revoked, and no other one
  -- changes (`i` is any id but the two).
  pub refresh_session_lem :
      (old_id : Str) (check_now now : ℕ) (token ses_id : Str) (s s' : Store) (r : SessionWithToken)
      (i : Str) {old : Session}
      → lookup old_id s.sessions ≡ some old
      → old_id ≢ ses_id
      → i ≢ old_id
      → i ≢ ses_id
      → refresh_session h old_id check_now now token ses_id s ≡ (ok r, s')
      → (old.revoked_at ≡ none)
        × (check_now ≤ old.expires_at)
        × (r.session.usr_id ≡ old.usr_id)
        × (r.session.cred_id ≡ old.cred_id)
        × (r.session.created_at ≡ now)
        × (r.session.expires_at ≡ now + (old.expires_at - old.created_at))
        × (r.session.revoked_at ≡ none)
        × (lookup ses_id s'.sessions ≡ some r.session)
        × (lookup old_id s'.sessions ≡ some (with_revoked_at old now))
        × (lookup i s'.sessions ≡ lookup i s.sessions)
  unfolding refresh_session revoke_entry issue_entry
  refresh_session_lem old_id check_now now token ses_id s s' r i found ne other new e =
      grind (arith, lookup-insert)

  -- After a refresh the new token verifies, until the new session expires, and the old token, if
  -- its hash is another, is unknown.
  pub verify-refresh_session :
      (old_id : Str) (check_now now later : ℕ) (old_token token ses_id : Str) (s s' : Store)
      (r : SessionWithToken)
      → lookup old_id s.session_token_hashes ≡ some (hash_token h old_token)
      → hash_token h old_token ≢ hash_token h token
      → refresh_session h old_id check_now now token ses_id s ≡ (ok r, s')
      → later ≤ r.session.expires_at
      → (verify_session_token h old_token later s' ≡ (raised invalid_token, s'))
        × (verify_session_token h token later s' ≡ (ok r.session, s'))
  unfolding refresh_session verify_session_token issue_entry revoke_entry
  verify-refresh_session old_id check_now now later old_token token ses_id s s' r linked ne e
        in_time =
      grind (arith, lookup-insert, lookup-erase)

  -- The token of a live session is unknown once the session has been revoked, and a second
  -- revocation changes nothing.
  pub verify-revoke_session :
      (ses_id token : Str) (now later last : ℕ) (ses : Session) (s s' : Store)
      → lookup ses_id s.sessions ≡ some ses
      → ses.revoked_at ≡ none
      → lookup ses_id s.session_token_hashes ≡ some (hash_token h token)
      → (revoke_session ses_id now s).1 ≡ s'
      → (verify_session_token h token later s' ≡ (raised invalid_token, s'))
        × (revoke_session ses_id last s' ≡ (ok (with_revoked_at ses now), s'))
  unfolding revoke_session verify_session_token revoke_entry
  verify-revoke_session ses_id token now later last ses s s' found unrevoked linked e =
      grind (arith, lookup-insert, lookup-erase)
