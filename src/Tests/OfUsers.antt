-- ===== src/Tests/OfUsers.antt =====
-- The cascades of users and of credentials at concrete stores.
use identity_python.Credentials.Change.{suspend_credential, revoke_credential}
use identity_python.Credentials.Entries.{with_credential_status}
use identity_python.Credentials.Logout.{
  verify_session_token-suspend_credential, verify_session_token-revoke_credential,
}
use identity_python.Base.{ite, ◌≡◌, ◌≢◌, refl, some}
use identity_python.Base.Dict.{lookup, insert, erase}
use identity_python.Base.Text.{codes, str_discrete, utf8}
use identity_python.Primitives.{hash_token}
use identity_python.Result.{ok}
use identity_python.Sessions.{
  revoke_sessions_for_credential, revoke_entry, revoke_matching, revoke_sessions_for_user, of_user,
  verify_session_token,
}
use identity_python.Sessions.Cascade.{after_cascade}
use identity_python.Tests.Data.{alice_password, store, alice, bob_session, hashes}
use identity_python.Types.{Status, with_status}
use identity_python.Users.{suspend_user, revoke_user, revoke_credentials, active_of_user}
use identity_python.Users.Cascade.{
  IsWalkable, revoke_user_effect, suspend_user_effect, verify_session_token-revoke_user, changed_if,
  end_credential, end_pat,
}
use identity_python.Pats.{revoke_pats, revoke_pats_for_user, live_pat_of}

store-IsWalkable : IsWalkable store
unfolding lookup str_discrete
store-IsWalkable = record {
  credentials = (refl, (refl, tt));
  sessions = (refl, (refl, tt));
  pats = (refl, tt);
}

revoke_user_effect_example :
    let (r, s') = revoke_user (codes "a") 7 8 store in
    (r ≡ ok (with_status alice Status.revoked 7))
    × (lookup (codes "c") s'.users
        ≡ ite
            (str_discrete (codes "a") (codes "c"))
            (some (with_status alice Status.revoked 7))
            (lookup (codes "c") store.users))
    × (lookup (codes "c") s'.credentials
        ≡ changed_if
            (active_of_user (codes "a"))
            (end_credential 7)
            (lookup (codes "c") store.credentials))
    × (lookup (codes "c") s'.sessions
        ≡ after_cascade (of_user (codes "a")) 8 (lookup (codes "c") store.sessions))
    × (lookup (codes "c") s'.pats
        ≡ changed_if (live_pat_of (codes "a")) (end_pat 7) (lookup (codes "c") store.pats))
    × (s'.factor_tables ≡ store.factor_tables)
unfolding lookup str_discrete
revoke_user_effect_example =
    revoke_user_effect (codes "a") 7 8 store alice (codes "c") store-IsWalkable refl (λ e. cc)

suspend_user_effect_example :
    let (r, s') = suspend_user (codes "a") 7 8 store in
    (r ≡ ok (with_status alice Status.suspended 7))
    × (lookup (codes "a") s'.users ≡ some (with_status alice Status.suspended 7))
    × (lookup (codes "s") s'.users
        ≡ ite
            (str_discrete (codes "a") (codes "s"))
            (some (with_status alice Status.suspended 7))
            (lookup (codes "s") store.users))
    × (lookup (codes "s") s'.sessions
        ≡ after_cascade (of_user (codes "a")) 8 (lookup (codes "s") store.sessions))
    × (s'.credential_tables ≡ store.credential_tables)
    × (s'.pat_tables ≡ store.pat_tables)
unfolding lookup str_discrete
suspend_user_effect_example =
    suspend_user_effect (codes "a") 7 8 store alice (codes "s") store-IsWalkable.sessions refl refl

-- Bob's session still verifies.
verify_session_token-revoke_user_example : codes "b" ≢ codes "a"
unfolding lookup str_discrete verify_session_token revoke_user hash_token utf8 revoke_credentials
    revoke_sessions_for_user revoke_matching revoke_entry revoke_pats_for_user revoke_pats erase
    insert
verify_session_token-revoke_user_example =
    verify_session_token-revoke_user hashes (codes "a") (codes "T") 7 8 9 store
      (revoke_user (codes "a") 7 8 store).1 (with_status alice Status.revoked 7) bob_session
      store-IsWalkable refl refl

-- Bob's session still verifies when Alice's credential has ended.
verify_session_token-suspend_credential_example : codes "d" ≢ codes "c"
unfolding suspend_credential verify_session_token lookup str_discrete hash_token utf8
    revoke_sessions_for_credential revoke_matching revoke_entry erase insert
verify_session_token-suspend_credential_example =
    verify_session_token-suspend_credential hashes (codes "c") (codes "T") 7 8 9 store
      (suspend_credential (codes "c") 7 8 store).1
      (with_credential_status alice_password Status.suspended 7) bob_session (refl, (refl, tt)) refl
      refl

verify_session_token-revoke_credential_example : codes "d" ≢ codes "c"
unfolding revoke_credential verify_session_token lookup str_discrete hash_token utf8
    revoke_sessions_for_credential revoke_matching revoke_entry erase insert
verify_session_token-revoke_credential_example =
    verify_session_token-revoke_credential hashes (codes "c") (codes "T") 7 8 9 store
      (revoke_credential (codes "c") 7 8 store).1
      (with_credential_status alice_password Status.revoked 7) bob_session (refl, (refl, tt)) refl
      refl
