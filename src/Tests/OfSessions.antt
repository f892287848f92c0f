-- ===== src/Tests/OfSessions.antt =====
-- The operations on sessions at concrete stores.
use identity_python.Base.{ite, ◌≡◌, ◌≤◌, ◌+◌, ◌-◌, refl, arith, none, some}
use identity_python.Base.Dict.{lookup}
use identity_python.Base.Text.{codes, str_discrete, utf8}
use identity_python.Errors.{invalid_token}
use identity_python.Primitives.{hash_token}
use identity_python.Result.{ok, raised}
use identity_python.Sessions.{
  create_session, verify_session_token, refresh_session, revoke_session, issue_entry, with_sessions,
  revoke_matching, of_user,
}
use identity_python.Sessions.Cascade.{lookup-revoke_matching}
use identity_python.Sessions.Tokens.{
  create_session_guards, create_session_total, verify-create_session, refresh_session_lem,
  verify-refresh_session, verify-revoke_session, HasActiveUser, OwnsActiveCredential,
}
use identity_python.Tables.{Store}
use identity_python.Tests.Data.{store, hashes, alice_session}
use identity_python.Types.{Session, SessionWithToken, seconds, with_revoked_at}

-- one more session of Alice, for two minutes
abbrev second_session : Session
second_session = record alice_session { id = codes "u"; created_at = 9; expires_at = 120_000_009 }

abbrev second_result : SessionWithToken
second_result = record { session = second_session; token = codes "U" }

abbrev with_second : Store
with_second = with_sessions (issue_entry second_session (codes "U")) store

-- Alice's session refreshed
abbrev fresh_result : SessionWithToken
fresh_result = record {
  session = record alice_session { id = codes "u"; created_at = 9; expires_at = 60_000_009 };
  token = codes "U";
}

abbrev refreshed : Store
refreshed = (refresh_session hashes (codes "s") 8 9 (codes "U") (codes "u") store).1

create_session_guards_example :
    HasActiveUser (codes "a") store
    × OwnsActiveCredential (codes "a") (codes "c") store
    × (60 ≤ 120)
    × (second_session.usr_id ≡ codes "a")
    × (second_session.cred_id ≡ codes "c")
    × (second_session.expires_at ≡ 9 + seconds 120)
unfolding create_session lookup str_discrete hash_token utf8
create_session_guards_example =
    create_session_guards hashes (codes "a") (codes "c") 120 9 (codes "U") (codes "u") store
      with_second second_result refl

create_session_total_example :
    (r : SessionWithToken) × (s' : Store) × ((create_session hashes
          (codes "a")
          (codes "c")
          120
          9
          (codes "U")
          (codes "u")
          store
        ≡ (ok r, s'))
      × (r.session.id ≡ codes "u")
      × (r.session.created_at ≡ 9)
      × (r.token ≡ codes "U")
      × (lookup (codes "t") s'.sessions
          ≡ ite
              (str_discrete (codes "u") (codes "t"))
              (some r.session)
              (lookup (codes "t") store.sessions))
      × (verify_session_token hashes (codes "U") 9 s' ≡ (ok r.session, s'))
      × (s'.users ≡ store.users)
      × (s'.credential_tables ≡ store.credential_tables)
      × (s'.factor_tables ≡ store.factor_tables)
      × (s'.pat_tables ≡ store.pat_tables))
unfolding lookup str_discrete
create_session_total_example =
    create_session_total hashes (codes "a") (codes "c") 120 9 (codes "U") (codes "u") (codes "t")
      store refl (refl, refl) (omega arith)

verify-create_session_example :
    verify_session_token hashes (codes "U") 10 with_second ≡ (ok second_session, with_second)
unfolding create_session lookup str_discrete hash_token utf8
verify-create_session_example =
    verify-create_session hashes (codes "a") (codes "c") 120 9 10 (codes "U") (codes "u") store
      with_second second_result refl (omega arith)

refresh_session_lem_example :
    (alice_session.revoked_at ≡ none)
    × (8 ≤ alice_session.expires_at)
    × (fresh_result.session.usr_id ≡ alice_session.usr_id)
    × (fresh_result.session.cred_id ≡ alice_session.cred_id)
    × (fresh_result.session.created_at ≡ 9)
    × (fresh_result.session.expires_at ≡ 9 + (alice_session.expires_at - alice_session.created_at))
    × (fresh_result.session.revoked_at ≡ none)
    × (lookup (codes "u") refreshed.sessions ≡ some fresh_result.session)
    × (lookup (codes "s") refreshed.sessions ≡ some (with_revoked_at alice_session 9))
    × (lookup (codes "t") refreshed.sessions ≡ lookup (codes "t") store.sessions)
unfolding refresh_session lookup str_discrete hash_token utf8
refresh_session_lem_example =
    refresh_session_lem hashes (codes "s") 8 9 (codes "U") (codes "u") store refreshed fresh_result
      (codes "t") refl (ground arith) (ground arith) (ground arith) refl

verify-refresh_session_example :
    (verify_session_token hashes (codes "S") 10 refreshed ≡ (raised invalid_token, refreshed))
    × (verify_session_token hashes (codes "U") 10 refreshed ≡ (ok fresh_result.session, refreshed))
unfolding refresh_session lookup str_discrete hash_token utf8
verify-refresh_session_example =
    verify-refresh_session hashes (codes "s") 8 9 10 (codes "S") (codes "U") (codes "u") store
      refreshed fresh_result refl (ground arith) refl (omega arith)

verify-revoke_session_example :
    let s' = (revoke_session (codes "s") 9 store).1 in
    (verify_session_token hashes (codes "S") 10 s' ≡ (raised invalid_token, s'))
    × (revoke_session (codes "s") 11 s' ≡ (ok (with_revoked_at alice_session 9), s'))
unfolding lookup str_discrete hash_token utf8
verify-revoke_session_example =
    verify-revoke_session hashes (codes "s") (codes "S") 9 10 11 alice_session store
      (revoke_session (codes "s") 9 store).1 refl refl refl refl

lookup-revoke_matching_example :
    lookup
      (codes "s")
      (revoke_matching (of_user (codes "a")) 9 store.sessions store.session_tables).sessions
    ≡ some (with_revoked_at alice_session 9)
unfolding lookup str_discrete
lookup-revoke_matching_example =
    lookup-revoke_matching (of_user (codes "a")) 9 (codes "s") store.session_tables
      (refl, (refl, tt))
