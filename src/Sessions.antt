-- ===== src/Sessions.antt =====
-- The sessions of `InMemoryIdentityStore` (in_memory.py): create, verify, refresh, revoke, and the
-- cascades. Each reading of the clock, each new id and each new token is an argument.
pub mod Linked
pub mod Invariant
pub mod Tokens
pub mod Cascade
use identity_python.Base.{
  ℕ, Bool, ltb, Option, none, some, List, [], ◌∷◌, ◌+◌, ◌-◌, decide, select, if◌then◌else◌,
}
use identity_python.Base.Dict.{Dict, lookup, insert, erase, values}
use identity_python.Base.Text.{Str, str_discrete}
use identity_python.Errors.{
  precondition, user_not_active, credential_not_active, cred_user_mismatch, ttl_too_short,
  invalid_token, session_expired,
}
use identity_python.Exec.{
  Exec, pure, gets, or_raise, modify, raise_if, raise_unless, raise_unless_dec, ◌>>=◌, ◌>>◌,
}
use identity_python.Paging.{page_after}
use identity_python.Primitives.{Hashes, hash_token}
use identity_python.Requires.{require_user, require_credential, require_session}
use identity_python.Tables.{SessionTables, Store}
use identity_python.Types.{
  Session, SessionWithToken, Page, Time, seconds, with_revoked_at, status_eq, Status,
}

abbrev pub is_revoked : Session → Bool
is_revoked ses = elim ses.revoked_at [ none ↦ Bool.false | some _ ↦ Bool.true ]

-- `token_hash = self._session_token_hashes.pop(ses_id, None)`, then its entry of the other dict
abbrev pub forget_token : Option Str → Dict Str → Dict Str
forget_token none d = d
forget_token (some token_hash) d = erase token_hash d

-- The three writes by which a session is revoked, in the cascades, `refresh_session` and
-- `revoke_session` alike.
unfoldable pub revoke_entry : Str → Session → Time → SessionTables → SessionTables
revoke_entry ses_id ses now t = record {
  sessions = insert ses_id (with_revoked_at ses now) t.sessions;
  session_token_hashes = erase ses_id t.session_token_hashes;
  session_by_token_hash =
      forget_token (lookup ses_id t.session_token_hashes) t.session_by_token_hash;
}

-- The three writes by which a session is issued, in `create_session` and `refresh_session`.
unfoldable pub issue_entry : Session → Str → SessionTables → SessionTables
issue_entry ses token_hash t = record {
  sessions = insert ses.id ses t.sessions;
  session_token_hashes = insert ses.id token_hash t.session_token_hashes;
  session_by_token_hash = insert token_hash ses.id t.session_by_token_hash;
}

-- The loop of both cascades over `list(self._sessions.items())`.
unfoldable pub revoke_matching :
    (Session → Bool) → Time → List (Str × Session) → SessionTables → SessionTables
revoke_matching test now [] t = t
revoke_matching test now ((ses_id, ses) ∷ l) t =
    revoke_matching test now l (if test ses then revoke_entry ses_id ses now t else t)

abbrev pub of_credential : Str → Session → Bool
of_credential cred_id ses = elim (str_discrete ses.cred_id cred_id) [
  | yes _ ↦ elim ses.revoked_at [ none ↦ Bool.true | some _ ↦ Bool.false ]
  | no _ ↦ Bool.false
]

abbrev pub of_user : Str → Session → Bool
of_user usr_id ses = elim (str_discrete ses.usr_id usr_id) [
  | yes _ ↦ elim ses.revoked_at [ none ↦ Bool.true | some _ ↦ Bool.false ]
  | no _ ↦ Bool.false
]

-- `_cascade_revoke_sessions_for_credential`
unfoldable pub revoke_sessions_for_credential : Str → Time → SessionTables → SessionTables
revoke_sessions_for_credential cred_id now t =
    revoke_matching (of_credential cred_id) now t.sessions t

-- `_cascade_revoke_sessions_for_user`
unfoldable pub revoke_sessions_for_user : Str → Time → SessionTables → SessionTables
revoke_sessions_for_user usr_id now t = revoke_matching (of_user usr_id) now t.sessions t

abbrev pub with_sessions : (SessionTables → SessionTables) → Store → Store
with_sessions f s = record s { session_tables = f s.session_tables }

-- `.get(ses_id, "")`
abbrev pub stored_hash : Option Str → Str
stored_hash none = []
stored_hash (some token_hash) = token_hash

module _ (h : Hashes) where
  unfoldable pub create_session :
      Str → Str → ℕ → (now : Time) (token ses_id : Str) → Exec SessionWithToken
  create_session usr_id cred_id ttl_seconds now token ses_id = do
    user ← require_user usr_id
    raise_unless (status_eq user.status Status.active) (precondition user_not_active)
    cred ← require_credential cred_id
    raise_unless (status_eq cred.status Status.active) credential_not_active
    raise_unless_dec (str_discrete cred.usr_id usr_id) (precondition cred_user_mismatch)
    raise_if (ltb ttl_seconds 60) (precondition ttl_too_short)
    let session : Session = record {
      id = ses_id;
      usr_id = usr_id;
      cred_id = cred_id;
      created_at = now;
      expires_at = now + seconds ttl_seconds;
      revoked_at = none;
    }
    modify (with_sessions (issue_entry session (hash_token h token)))
    pure (record { session = session; token = token })

  unfoldable pub verify_session_token : Str → (now : Time) → Exec Session
  verify_session_token token now = do
    let token_hash = hash_token h token
    ses_id ← or_raise (← gets (λ s. lookup token_hash s.session_by_token_hash)) invalid_token
    session ← require_session ses_id
    stored ← gets (λ s. lookup ses_id s.session_token_hashes)
    raise_unless_dec (str_discrete token_hash (stored_hash stored)) invalid_token
    raise_if (is_revoked session) session_expired
    raise_if (ltb session.expires_at now) session_expired
    pure session

  -- `check_now` is the reading of the expiry test, `now` the one that the writes use.
  unfoldable pub refresh_session :
      Str → (check_now now : Time) (token ses_id : Str) → Exec SessionWithToken
  refresh_session old_id check_now now token ses_id = do
    session ← require_session old_id
    raise_if (is_revoked session) session_expired
    raise_if (ltb session.expires_at check_now) session_expired
    modify (with_sessions (revoke_entry old_id session now))
    let fresh : Session = record {
      id = ses_id;
      usr_id = session.usr_id;
      cred_id = session.cred_id;
      created_at = now;
      expires_at = now + (session.expires_at - session.created_at);
      revoked_at = none;
    }
    modify (with_sessions (issue_entry fresh (hash_token h token)))
    pure (record { session = fresh; token = token })

unfoldable pub revoke_session : Str → (now : Time) → Exec Session
revoke_session ses_id now = do
  session ← require_session ses_id
  if is_revoked session then pure session else (do
    modify (with_sessions (revoke_entry ses_id session now))
    pure (with_revoked_at session now))

-- `limit` is not negative here.
unfoldable pub list_sessions_for_user : Str → Option Str → (limit : ℕ) → Exec (Page Session)
list_sessions_for_user usr_id cursor limit = gets (λ s.
    page_after (λ ses. ses.id) cursor limit
      (select (λ ses. decide (str_discrete ses.usr_id usr_id)) (values s.sessions)))
