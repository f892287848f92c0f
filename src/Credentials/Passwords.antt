-- ===== src/Credentials/Passwords.antt =====
-- What `verify_password` answers: after a password is set or rotated, and on every error.
use identity_python.Base.{◌≡◌, ◌≢◌, some, arith, inl, inr, Option-cases, true, false}
use identity_python.Base.Dict.{lookup, lookup-insert}
use identity_python.Base.Text.{Str}
use identity_python.Credentials.Create.{create_password_credential}
use identity_python.Credentials.Entries.{identifier_key, store_credential}
use identity_python.Credentials.Index.{IsIndexed}
use identity_python.Credentials.Rotate.{
  rotate_password, begin_rotation, replace_password, replace_credential,
}
use identity_python.Credentials.Verify.{verify_password, mfa_is_required}
use identity_python.Errors.{invalid_credential}
use identity_python.Primitives.{Hashes, is_too_long, hash_password, verify_password_hash}
use identity_python.Result.{Result, ok, raised}
use identity_python.Tables.{Store}
use identity_python.Types.{Credential, Status, password, VerifiedCredential, Time}

-- Argon2 verifies a password against its own hash, whatever the salt, and no other password.
pub record IsExact (h : Hashes) : Type 0 where
  pub verifies :
      (salt plaintext : Str) → h.argon2_verify (h.argon2_hash salt plaintext) plaintext ≡ true
  pub refuses :
      (salt plaintext other : Str)
      → plaintext ≢ other
      → h.argon2_verify (h.argon2_hash salt plaintext) other ≡ false

module _ (h : Hashes) (x : IsExact h) where
  -- Where Argon2 is exact, the password of a new credential verifies for its identifier, as that
  -- credential, and says what the policy of the user says of a second factor.
  pub verify_password-create :
      (usr_id identifier plaintext : Str) (now later : Time) (cred_id salt : Str) (s s' : Store)
      (c : Credential)
      → create_password_credential h usr_id identifier plaintext now cred_id salt s ≡ (ok c, s')
      → verify_password h identifier plaintext later s' ≡ (
        ok (record {
          usr_id = usr_id;
          cred_id = cred_id;
          mfa_required = mfa_is_required (lookup usr_id s.mfa_policies) later;
        }),
        s',
      )
  unfolding create_password_credential verify_password store_credential hash_password
      verify_password_hash
  verify_password-create usr_id identifier plaintext now later cred_id salt s s' c e =
      grind (arith, lookup-insert, x.verifies salt plaintext)

  -- Where Argon2 is exact, after a credential is created any other password within the cap on the
  -- length is refused with `InvalidCredentialError`.
  pub verify_password-create_other :
      (usr_id identifier plaintext other : Str) (now later : Time) (cred_id salt : Str)
      (s s' : Store) (c : Credential)
      → create_password_credential h usr_id identifier plaintext now cred_id salt s ≡ (ok c, s')
      → plaintext ≢ other
      → is_too_long other ≡ false
      → verify_password h identifier other later s' ≡ (raised invalid_credential, s')
  unfolding create_password_credential verify_password store_credential hash_password
      verify_password_hash
  verify_password-create_other usr_id identifier plaintext other now later cred_id salt s s' c e ne
        short =
      grind (arith, lookup-insert, x.refuses salt plaintext other)

  -- Where Argon2 is exact, a rotation that returns gives a new active credential of the same user
  -- and identifier as the credential it was called for, which it replaces. Then the new password
  -- verifies for that identifier, as the new credential of that user.
  pub verify_password-rotate :
      (cred_id plaintext : Str) (now cascade_now later : Time) (new_id salt : Str) (s s' : Store)
      (old c : Credential)
      → lookup cred_id s.credentials ≡ some old
      → rotate_password h cred_id plaintext now cascade_now new_id salt s ≡ (ok c, s')
      → (c.usr_id ≡ old.usr_id)
        × (c.identifier ≡ old.identifier)
        × (c.replaces ≡ some old.id)
        × (c.status ≡ Status.active)
        × (lookup new_id s'.credentials ≡ some c)
        × (verify_password h old.identifier plaintext later s' ≡ (
          ok (record {
            usr_id = old.usr_id;
            cred_id = new_id;
            mfa_required = mfa_is_required (lookup old.usr_id s.mfa_policies) later;
          }),
          s',
        ))
  unfolding rotate_password begin_rotation replace_password replace_credential verify_password
      store_credential hash_password verify_password_hash
  verify_password-rotate cred_id plaintext now cascade_now later new_id salt s s' old c found e =
      grind (arith, lookup-insert, x.verifies salt plaintext)

-- the answers to a password within the cap
abbrev pub IsGeneric : Result VerifiedCredential → Type 0
IsGeneric (ok v) = Unit
IsGeneric (raised e) = e ≡ invalid_credential

-- Where the index names active credentials only, a password within the cap on the length either
-- verifies or is refused with `InvalidCredentialError`, for an unknown identifier as for a wrong
-- password; and the store does not change.
pub verify_password-IsGeneric :
    (h : Hashes) (identifier candidate : Str) (now : Time) (s : Store)
    → IsIndexed s.credential_tables
    → is_too_long candidate ≡ false
    → IsGeneric (verify_password h identifier candidate now s).0
      × ((verify_password h identifier candidate now s).1 ≡ s)
unfolding verify_password verify_password_hash
verify_password-IsGeneric h identifier candidate now s v short =
    elim (Option-cases (lookup (identifier_key password identifier) s.active_cred_by_identifier)) [
      | inl missing ↦ ground (arith, missing)
      | inr (i, found) ↦ ground (arith, found, v (identifier_key password identifier) i)
    ]
