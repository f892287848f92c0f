-- ===== src/Credentials/Complete.antt =====
-- Whether every active credential stays in the index, and where the code loses one.
use identity_python.Base.{◌≡◌, ◌≢◌, arith, none, some, inl, inr, Option-cases, true}
use identity_python.Base.Dict.{lookup, lookup-insert, lookup-erase}
use identity_python.Base.Text.{Str}
use identity_python.Credentials.Change.{suspend_credential, reinstate_credential, revoke_credential}
use identity_python.Credentials.Create.{create_password_credential, find_credential_by_identifier}
use identity_python.Credentials.Entries.{
  identifier_key, key_of, deactivate, drop_secret, new_credential, password_hash,
}
use identity_python.Credentials.Index.{
  IsComplete, store_credential-IsComplete, reactivate-IsComplete, deactivate-IsComplete,
}
use identity_python.Credentials.Rotate.{
  rotate_password, begin_rotation, retire_credential, replace_password,
}
use identity_python.Errors.{value_error}
use identity_python.Primitives.{Hashes, is_too_long, hash_password}
use identity_python.Result.{ok, raised}
use identity_python.Tables.{Store}
use identity_python.Types.{Credential, password, credential_type, password_details, Status, Time}

-- `create_password_credential` keeps every active credential in the index, by its duplicate check.
pub create_password_credential-IsComplete :
    (h : Hashes) (usr_id identifier plaintext : Str) (now : Time) (cred_id salt : Str) (s : Store)
    → IsComplete s.credential_tables
    → IsComplete
        (create_password_credential h usr_id identifier plaintext now cred_id salt
          s).1.credential_tables
unfolding create_password_credential hash_password
create_password_credential-IsComplete h usr_id identifier plaintext now cred_id salt s v = ground (
  arith,
  λ (free : lookup (identifier_key password identifier) s.active_cred_by_identifier ≡ none).
      store_credential-IsComplete
        (new_credential cred_id usr_id identifier none password_details now) s.credential_tables
        free v (password_hash (h.argon2_hash salt plaintext)),
)

-- `reinstate_credential` keeps every active credential in the index.
pub reinstate_credential-IsComplete :
    (cred_id : Str) (now : Time) (s : Store)
    → IsComplete s.credential_tables
    → IsComplete (reinstate_credential cred_id now s).1.credential_tables
unfolding reinstate_credential
reinstate_credential-IsComplete cred_id now s v =
    elim (Option-cases (lookup cred_id s.credentials)) [
      | inl missing ↦ ground (arith, missing)
      | inr (c, found) ↦ ground (
        arith,
        found,
        λ (free : lookup (key_of c) s.active_cred_by_identifier ≡ none).
            reactivate-IsComplete c s.credential_tables free v cred_id now,
      )
    ]

-- `suspend_credential` keeps every active credential in the index.
pub suspend_credential-IsComplete :
    (cred_id : Str) (now cascade_now : Time) (s : Store)
    → IsComplete s.credential_tables
    → IsComplete (suspend_credential cred_id now cascade_now s).1.credential_tables
unfolding suspend_credential
suspend_credential-IsComplete cred_id now cascade_now s v =
    elim (Option-cases (lookup cred_id s.credentials)) [
      | inl missing ↦ ground (arith, missing)
      | inr (c, found) ↦
          ground
            (arith, found, deactivate-IsComplete cred_id c Status.suspended now s.credential_tables)
    ]

-- `revoke_credential` on a credential that is not suspended keeps every active credential in the
-- index.
pub revoke_credential-IsComplete :
    (cred_id : Str) (now cascade_now : Time) (s : Store) (c : Credential)
    → lookup cred_id s.credentials ≡ some c
    → c.status ≢ Status.suspended
    → IsComplete s.credential_tables
    → IsComplete (revoke_credential cred_id now cascade_now s).1.credential_tables
unfolding revoke_credential
revoke_credential-IsComplete cred_id now cascade_now s c found free v =
    ground (arith, deactivate-IsComplete cred_id c Status.revoked now s.credential_tables)

-- To revoke a suspended credential removes the index entry of an active credential that has
-- its key: that credential stays active and is found no longer.
pub revoke_credential_loses_key :
    (old_id cred_id : Str) (now cascade_now : Time) (s : Store) (old c : Credential)
    → lookup old_id s.credentials ≡ some old
    → old.status ≡ Status.suspended
    → lookup cred_id s.credentials ≡ some c
    → c.status ≡ Status.active
    → key_of c ≡ key_of old
    → let s' = (revoke_credential old_id now cascade_now s).1 in
      (lookup cred_id s'.credentials ≡ some c)
      × (lookup (key_of c) s'.active_cred_by_identifier ≡ none)
      × (find_credential_by_identifier (credential_type c) c.identifier s' ≡ (ok none, s'))
unfolding revoke_credential deactivate find_credential_by_identifier
revoke_credential_loses_key old_id cred_id now cascade_now s old c found suspended taken active
      same =
    grind (arith, lookup-insert, lookup-erase)

-- A rotation to a password beyond the cap raises `ValueError` when the old credential is revoked
-- and out of the index already, and its hash dropped.
pub rotate_password_too_long :
    (h : Hashes) (cred_id plaintext : Str) (now cascade_now : Time) (new_id salt : Str) (s : Store)
    (old : Credential)
    → lookup cred_id s.credentials ≡ some old
    → old.id ≡ cred_id
    → old.status ≡ Status.active
    → old.details ≡ password_details
    → is_too_long plaintext ≡ true
    → let (r, s') = rotate_password h cred_id plaintext now cascade_now new_id salt s in
      (r ≡ raised value_error)
      × (lookup cred_id s'.credentials
          ≡ some (record old { status = Status.revoked; updated_at = now }))
      × (lookup (key_of old) s'.active_cred_by_identifier ≡ none)
      × (lookup cred_id s'.password_hashes ≡ none)
unfolding rotate_password begin_rotation replace_password retire_credential deactivate drop_secret
    hash_password
rotate_password_too_long h cred_id plaintext now cascade_now new_id salt s old found named active
      is_password long =
    grind (arith, lookup-insert, lookup-erase)
