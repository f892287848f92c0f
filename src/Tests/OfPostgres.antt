-- ===== src/Tests/OfPostgres.antt =====
-- The store of postgres.py on a user with a password and a session.
use identity_python.Base.{
  false, decide, select, refl, none, some, [], ◌∷◌, replicate, ◌≡◌, List, ◌≤◌, length, arith, map,
}
use identity_python.Base.Text.{Str, codes, str_discrete, utf8}
use identity_python.Errors.{check_violation}
use identity_python.Paging.{sort_by, sort_onto, sort_insert}
use identity_python.Base.Dict.{lookup}
use identity_python.Invariant.Calls.{empty}
use identity_python.Postgres.Agreement.{IsRoundTrip, IsSame, UserCall, in_postgres}
use identity_python.Postgres.Agreement.Runs.{
  IsAllowed, results_in_memory, results_in_postgres, user_results_agree,
}
use identity_python.Tables.{Store}
use identity_python.Postgres.Atomic.{run-IsAtomic}
use identity_python.Postgres.Authority.Run.{IsOfActive, verify_session_token-IsOfActive}
use identity_python.Postgres.Calls.{Packages, Call, run, run_all, no_rows}
use identity_python.Postgres.Indexed.Logins.{verify_password-rotate_password}
use identity_python.Postgres.Rotate.{rotate_password}
use identity_python.Result.{ok}
use identity_python.Tests.OfCredentials.{hashes-IsExact}
use identity_python.Postgres.Like.{ilike, like_pattern}
use identity_python.Postgres.Like.Contains.{ilike-like_pattern}
use identity_python.Postgres.Pages.{list_sessions_for_user_capped}
use identity_python.Postgres.Query.{Database, transaction, with_duplicate, fetchone}
use identity_python.Postgres.Rows.{CredRow, row_to_session, row_to_user}
use identity_python.Postgres.Sessions.{create_session, verify_session_token, list_sessions_for_user}
use identity_python.Postgres.Credentials.{
  password_row, verify_password, create_password_credential, stored_cred,
}
use identity_python.Postgres.Users.{
  create_user, suspend_user, revoke_user, update_user, ensure_user_active, page_of_rows,
}
use identity_python.Postgres.Writes.{
  cred_has_id, set_cred_status, insert_usr, insert_cred, insert_ses, any, update, updated,
  revoke_ses,
}
use identity_python.Primitives.{hash_password, is_too_long}
use identity_python.Tests.Data.{
  hashes, totp_libraries, libraries, unicode_tables, alice, alice_session,
}
use identity_python.Users.{unset, option_str_discrete}
use identity_python.Types.{Credential, Status, Session, Page}
use identity_python.Users.{contains_text}

-- Ids are their uuids, and a digest has 32 bytes.
abbrev packages : Packages
packages = record {
  ids = record { decode = λ s. some s; encode = λ p u. u };
  hashes = hashes;
  sha256 = λ b. replicate 32 0;
  totp = totp_libraries;
  webauthn = libraries;
  unicode = unicode_tables;
  b32encode = λ b. b;
  quote = λ s. s;
  upper_text = λ s. s;
}

abbrev calls : List Call
calls =
    Call.creates_user none 1 (codes "a")
    ∷ Call.creates_password (codes "a") (codes "al") (codes "pw") 2 (codes "c") []
    ∷ Call.creates_session (codes "a") (codes "c") 60 3 (codes "S") (codes "s")
    ∷ []

verify_session_token-IsOfActive_example :
    IsOfActive packages (run_all packages calls no_rows) alice_session
unfolding run_all run create_user create_password_credential create_session verify_session_token
    transaction with_duplicate fetchone insert_usr insert_cred insert_ses any decide str_discrete
    utf8 is_too_long hash_password stored_cred ensure_user_active row_to_session
verify_session_token-IsOfActive_example =
    verify_session_token-IsOfActive packages calls (codes "S") 4 alice_session refl

abbrev with_session : Database
with_session = record {
  usr =
      record {
        id = codes "a";
        status = Status.active;
        display_name = none;
        created_at = 1;
        updated_at = 1;
      }
      ∷ [];
  cred = [];
  ses =
      record {
        id = codes "s";
        usr_id = codes "a";
        cred_id = codes "c";
        created_at = 3;
        expires_at = 60_000_003;
        revoked_at = none;
        token_hash = none;
        mfa_verified_at = none;
      }
      ∷ [];
  mfa = [];
  usr_mfa_policy = [];
}

-- The session would end before it was created: the row of the user is not suspended either.
run-IsAtomic_example :
    (run packages (Call.suspends_user (codes "a") 2 2) with_session).1 ≡ with_session
unfolding run suspend_user transaction fetchone update updated any revoke_ses str_discrete decide
run-IsAtomic_example =
    run-IsAtomic packages (Call.suspends_user (codes "a") 2 2) with_session check_violation refl

abbrev one_session : Page Session
one_session = record { items = alice_session ∷ []; next_cursor = none }

list_sessions_for_user_capped_example :
    (one_session.next_cursor ≡ none) × (length one_session.items ≤ 201)
unfolding list_sessions_for_user page_of_rows sort_by sort_onto sort_insert select row_to_session
    str_discrete decide
list_sessions_for_user_capped_example =
    list_sessions_for_user_capped packages.ids (codes "a") none 300 with_session one_session
      (omega arith) refl

-- `%` in a query stands for itself.
ilike-like_pattern_example :
    ilike (λ c. c) (like_pattern (codes "a%")) (codes "ba%")
    ≡ contains_text (map (λ c. c) (codes "a%")) (map (λ c. c) (codes "ba%"))
ilike-like_pattern_example = ilike-like_pattern (λ c. c) (codes "a%") (codes "ba%")

-- Both stores have the one user.
abbrev one_user : Store
one_user = record empty { users = (codes "a", alice) ∷ [] }

abbrev IsText : Str → Type 0
IsText s = Unit

ids-IsRoundTrip : IsRoundTrip packages.ids IsText
ids-IsRoundTrip = record { decoded = λ kind u hu. refl }

one_user-IsSame : IsSame packages.ids IsText one_user.users with_session.usr
unfolding lookup fetchone decide row_to_user
one_user-IsSame = record { same_user = λ u hu. ground arith }

abbrev user_calls : List UserCall
user_calls =
    UserCall.suspends (codes "a") 5 6
    ∷ UserCall.creates (codes "b") none 7
    ∷ UserCall.revokes (codes "b") 8 9
    ∷ UserCall.updates (codes "b") unset 10
    ∷ []

user_calls-IsAllowed : IsAllowed packages.ids IsText user_calls with_session
unfolding in_postgres fetchone create_user suspend_user revoke_user update_user option_str_discrete
    transaction decide str_discrete update updated any revoke_ses insert_usr
user_calls-IsAllowed = (
  tt,
  (
    tt,
    (
      (λ e. ground arith),
      (
        tt,
        (
          refl,
          (
            (λ e. ground arith),
            (tt, (tt, ((λ e. ground arith), (tt, (tt, ((λ e. ground arith), tt)))))),
          ),
        ),
      ),
    ),
  ),
)

user_results_agree_example :
    ((results_in_memory packages.ids user_calls one_user).0
      ≡ (results_in_postgres packages.ids user_calls with_session).0)
    × IsSame packages.ids IsText
        (results_in_memory packages.ids user_calls one_user).1.users
        (results_in_postgres packages.ids user_calls with_session).1.usr
user_results_agree_example =
    user_results_agree packages.ids IsText ids-IsRoundTrip user_calls one_user with_session
      one_user-IsSame user_calls-IsAllowed

-- the row of the password
abbrev password_cred : CredRow
password_cred = password_row (codes "c") (codes "a") (codes "al") none (codes "pw") 2

verify_password-rotate_password_example :
    (c : Credential) × (db' : Database) × ((rotate_password packages.ids hashes
          (codes "c")
          (codes "x")
          5
          6
          (codes "n")
          []
          (run_all packages calls no_rows)
        ≡ (ok c, db'))
      × (c.id ≡ codes "n")
      × (c.usr_id ≡ codes "a")
      × (c.identifier ≡ codes "al")
      × (c.status ≡ Status.active)
      × (c.replaces ≡ some (codes "c"))
      × (fetchone (cred_has_id (codes "c")) db'.cred
          ≡ some (set_cred_status Status.revoked 6 password_cred))
      × (verify_password packages.ids hashes (codes "al") (codes "x") 7 db'
          ≡ (ok (record { usr_id = codes "a"; cred_id = codes "n"; mfa_required = false }), db')))
unfolding run_all run create_user create_password_credential create_session transaction
    with_duplicate fetchone insert_usr insert_cred insert_ses any decide str_discrete utf8
    is_too_long hash_password stored_cred ensure_user_active
verify_password-rotate_password_example =
    verify_password-rotate_password packages hashes-IsExact calls (codes "c") (codes "x") 5 6 7
      (codes "n") [] (codes "c") password_cred refl refl refl refl refl refl refl
      ((λ live. refl), tt)
