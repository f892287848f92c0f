-- ===== src/Tests/OfCredentials.antt =====
-- The operations on credentials at concrete stores.
use identity_python.Base.{◌≡◌, refl, arith, none, some, false, decide, [], ◌∷◌, replicate}
use identity_python.Base.Dict.{lookup}
use identity_python.Base.Text.{Str, codes, str_discrete, utf8}
use identity_python.Credentials.Change.{suspend_credential, reinstate_credential, revoke_credential}
use identity_python.Credentials.Complete.{
  create_password_credential-IsComplete, reinstate_credential-IsComplete,
  suspend_credential-IsComplete, revoke_credential-IsComplete, revoke_credential_loses_key,
  rotate_password_too_long,
}
use identity_python.Credentials.Create.{create_password_credential, find_credential_by_identifier}
use identity_python.Credentials.Entries.{identifier_key, key_of, new_credential}
use identity_python.Credentials.Index.{IsComplete, IsIndexed}
use identity_python.Credentials.Passwords.{
  IsExact, verify_password-create, verify_password-create_other, verify_password-rotate,
  verify_password-IsGeneric, IsGeneric,
}
use identity_python.Credentials.Rotate.{
  rotate_password, begin_rotation, replace_password, replace_credential,
}
use identity_python.Credentials.Verify.{verify_password}
use identity_python.Errors.{invalid_credential, value_error}
use identity_python.Primitives.{is_too_long, hash_password}
use identity_python.Result.{ok, raised}
use identity_python.Tables.{Store}
use identity_python.Tests.Data.{store, hashes, alice_password, bob_password}
use identity_python.Types.{Credential, password, Status, type_value, password_details}

pub hashes-IsExact : IsExact hashes
unfolding decide
hashes-IsExact = record { verifies = λ salt p. ground arith; refuses = λ salt p q ne. ground arith }

store-IsComplete : IsComplete store.credential_tables
unfolding lookup identifier_key type_value
store-IsComplete = record { in_index = λ i c e active. grind arith }

store-IsIndexed : IsIndexed store.credential_tables
unfolding lookup identifier_key type_value
store-IsIndexed = λ key i e. grind arith

-- a password of Alice, suspended, whose identifier another one has taken
abbrev suspended_password : Credential
suspended_password = record alice_password { id = codes "e"; status = Status.suspended }

abbrev crowded : Store
crowded = record store {
  credential_tables = record store.credential_tables {
    credentials =
        (codes "e", suspended_password)
        ∷ (codes "c", alice_password)
        ∷ (codes "d", bob_password)
        ∷ [];
  };
}

abbrev new_password : Credential
new_password = new_credential (codes "n") (codes "a") (codes "new") none password_details 9

abbrev created : Store
created =
    (create_password_credential hashes (codes "a") (codes "new") (codes "x") 9 (codes "n") []
      store).1

abbrev rotated_password : Credential
rotated_password =
    new_credential (codes "n") (codes "a") (codes "al") (some (codes "c")) password_details 9

abbrev rotated : Store
rotated = (rotate_password hashes (codes "c") (codes "x") 9 10 (codes "n") [] store).1

verify_password-create_example :
    verify_password hashes (codes "new") (codes "x") 10 created
    ≡ (ok (record { usr_id = codes "a"; cred_id = codes "n"; mfa_required = false }), created)
unfolding create_password_credential lookup str_discrete identifier_key type_value hash_password
    is_too_long utf8
verify_password-create_example =
    verify_password-create hashes hashes-IsExact (codes "a") (codes "new") (codes "x") 9 10
      (codes "n") [] store created new_password refl

verify_password-create_other_example :
    verify_password hashes (codes "new") (codes "y") 10 created
    ≡ (raised invalid_credential, created)
unfolding create_password_credential lookup str_discrete identifier_key type_value hash_password
    is_too_long utf8
verify_password-create_other_example =
    verify_password-create_other hashes hashes-IsExact (codes "a") (codes "new") (codes "x")
      (codes "y") 9 10 (codes "n") [] store created new_password refl (ground arith) refl

verify_password-rotate_example :
    (rotated_password.usr_id ≡ alice_password.usr_id)
    × (rotated_password.identifier ≡ alice_password.identifier)
    × (rotated_password.replaces ≡ some alice_password.id)
    × (rotated_password.status ≡ Status.active)
    × (lookup (codes "n") rotated.credentials ≡ some rotated_password)
    × (verify_password hashes (codes "al") (codes "x") 11 rotated
        ≡ (ok (record { usr_id = codes "a"; cred_id = codes "n"; mfa_required = false }), rotated))
unfolding rotate_password begin_rotation replace_password replace_credential lookup str_discrete
    identifier_key type_value hash_password is_too_long utf8
verify_password-rotate_example =
    verify_password-rotate hashes hashes-IsExact (codes "c") (codes "x") 9 10 11 (codes "n") []
      store rotated alice_password rotated_password refl refl

verify_password-IsGeneric_example :
    IsGeneric (verify_password hashes (codes "al") (codes "no") 9 store).0
    × ((verify_password hashes (codes "al") (codes "no") 9 store).1 ≡ store)
unfolding is_too_long utf8
verify_password-IsGeneric_example =
    verify_password-IsGeneric hashes (codes "al") (codes "no") 9 store store-IsIndexed refl

create_password_credential-IsComplete_example : IsComplete created.credential_tables
create_password_credential-IsComplete_example =
    create_password_credential-IsComplete hashes (codes "a") (codes "new") (codes "x") 9 (codes "n")
      [] store store-IsComplete

suspend_credential-IsComplete_example :
    IsComplete (suspend_credential (codes "c") 9 10 store).1.credential_tables
suspend_credential-IsComplete_example =
    suspend_credential-IsComplete (codes "c") 9 10 store store-IsComplete

suspended-IsComplete : IsComplete (suspend_credential (codes "c") 9 10 store).1.credential_tables
suspended-IsComplete = suspend_credential-IsComplete (codes "c") 9 10 store store-IsComplete

reinstate_credential-IsComplete_example :
    let s' = (suspend_credential (codes "c") 9 10 store).1 in
    IsComplete (reinstate_credential (codes "c") 11 s').1.credential_tables
reinstate_credential-IsComplete_example =
    reinstate_credential-IsComplete (codes "c") 11 (suspend_credential (codes "c") 9 10 store).1
      suspended-IsComplete

revoke_credential-IsComplete_example :
    IsComplete (revoke_credential (codes "c") 9 10 store).1.credential_tables
unfolding lookup str_discrete
revoke_credential-IsComplete_example =
    revoke_credential-IsComplete (codes "c") 9 10 store alice_password refl (λ e. cc)
      store-IsComplete

revoke_credential_loses_key_example :
    let s' = (revoke_credential (codes "e") 9 10 crowded).1 in
    (lookup (codes "c") s'.credentials ≡ some alice_password)
    × (lookup (key_of alice_password) s'.active_cred_by_identifier ≡ none)
    × (find_credential_by_identifier password (codes "al") s' ≡ (ok none, s'))
unfolding lookup str_discrete
revoke_credential_loses_key_example =
    revoke_credential_loses_key (codes "e") (codes "c") 9 10 crowded suspended_password
      alice_password refl refl refl refl refl

-- A password of 1025 characters.
abbrev long_password : Str
long_password = replicate 1025 65

rotate_password_too_long_example :
    let (r, s') = rotate_password hashes (codes "c") long_password 9 10 (codes "n") [] store in
    (r ≡ raised value_error)
    × (lookup (codes "c") s'.credentials
        ≡ some (record alice_password { status = Status.revoked; updated_at = 9 }))
    × (lookup (key_of alice_password) s'.active_cred_by_identifier ≡ none)
    × (lookup (codes "c") s'.password_hashes ≡ none)
unfolding lookup str_discrete is_too_long utf8
rotate_password_too_long_example =
    rotate_password_too_long hashes (codes "c") long_password 9 10 (codes "n") [] store
      alice_password refl refl refl refl refl
