-- ===== src/Tests/OfInvariant.antt =====
-- A run of calls from the empty store.
use identity_python.Base.{refl, none, []}
use identity_python.Base.Dict.{lookup, insert, erase}
use identity_python.Base.Text.{codes, str_discrete, utf8}
use identity_python.Credentials.Create.{create_password_credential}
use identity_python.Credentials.Entries.{store_credential}
use identity_python.Invariant.Authority.{IsBacked}
use identity_python.Invariant.Authority.Reach.{verify_session_token-IsBacked}
use identity_python.Invariant.Calls.{Step, Reach, here, next, empty}
use identity_python.Invariant.Defs.{IsSound}
use identity_python.Invariant.Reach.{Reach-IsSound}
use identity_python.Primitives.{hash_token, hash_password, is_too_long}
use identity_python.Sessions.{
  issue_entry, revoke_entry, create_session, refresh_session, verify_session_token,
}
use identity_python.Sessions.Invariant.{IsFresh}
use identity_python.Tables.{Store}
use identity_python.Tests.Data.{environment, hashes, alice_session}
use identity_python.Types.{Session}
use identity_python.Users.{create_user, revoke_user}

abbrev with_user : Store
with_user = (create_user none 1 (codes "a") empty).1

abbrev with_password : Store
with_password =
    (create_password_credential hashes (codes "a") (codes "al") (codes "pw") 2 (codes "c") []
      with_user).1

abbrev with_session : Store
with_session =
    (create_session hashes (codes "a") (codes "c") 60 3 (codes "S") (codes "s") with_password).1

abbrev with_refresh : Store
with_refresh = (refresh_session hashes (codes "s") 4 5 (codes "T") (codes "t") with_session).1

new_session-IsFresh : IsFresh (codes "s") (codes "S") with_password.session_tables
unfolding empty lookup create_password_credential create_user insert str_discrete hash_password
    is_too_long utf8
new_session-IsFresh = record { new_session = refl; new_id = refl; new_hash = refl }

new_refresh-IsFresh : IsFresh (codes "t") (codes "T") with_session.session_tables
unfolding empty lookup create_session create_password_credential create_user insert str_discrete
    hash_password is_too_long utf8 store_credential issue_entry hash_token
new_refresh-IsFresh = record { new_session = refl; new_id = refl; new_hash = refl }

run_to_refresh : Reach environment empty with_refresh
unfolding empty lookup hash_token utf8 create_user
run_to_refresh =
    next
      (next
        (next (next here (Step.creates_user none 1 (codes "a")))
          (Step.creates_password (codes "a") (codes "al") (codes "pw") 2 (codes "c") [] refl))
        (Step.creates_session (codes "a") (codes "c") 60 3 (codes "S") (codes "s")
          new_session-IsFresh))
      (Step.refreshes_session (codes "s") 4 5 (codes "T") (codes "t") new_refresh-IsFresh)

Reach-IsSound_example : IsSound (revoke_user (codes "a") 6 7 with_refresh).1
Reach-IsSound_example =
    Reach-IsSound environment (next run_to_refresh (Step.revokes_user (codes "a") 6 7))

abbrev refreshed_session : Session
refreshed_session = record alice_session { id = codes "t"; created_at = 5; expires_at = 60_000_005 }

verify_session_token-IsBacked_example : IsBacked with_refresh refreshed_session
unfolding verify_session_token lookup refresh_session create_session create_password_credential
    create_user insert empty str_discrete hash_password is_too_long utf8 store_credential
    issue_entry revoke_entry erase hash_token
verify_session_token-IsBacked_example =
    verify_session_token-IsBacked environment (codes "T") 6 with_refresh refreshed_session
      run_to_refresh refl
