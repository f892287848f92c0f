-- ===== src/Invariant/OfRotations.antt =====
-- Every rotation of a credential keeps the invariant of the store, also where it raises halfway.
use identity_python.Exec.{Exec, ◌>>=◌}
use identity_python.Result.{Result, ok, raised}
use identity_python.Base.{ℕ, ◌≡◌, refl, arith, none, some, inl, inr, Option-cases}
use identity_python.Base.Dict.{lookup, lookup-insert}
use identity_python.Base.Text.{Str, Bytes}
use identity_python.Credentials.Entries.{
  Secret, deactivate, new_credential, password_hash, public_key, no_secret,
}
use identity_python.Credentials.Rotate.{
  retire_credential, begin_rotation, replace_credential, replace_password, rotate_password,
  rotate_passkey, rotate_oidc,
}
use identity_python.Credentials.Sound.{
  store_credential-IsSound, deactivate-IsSound, drop_secret-IsSound, drop_secret-credentials,
  reactivate-IsSound,
}
use identity_python.Credentials.Sound
use identity_python.Invariant.Defs.{IsSound, revoke_sessions_for_credential-IsSound}
use identity_python.Primitives.{Hashes, hash_password}
use identity_python.Tables.{CredentialTables, Store}
use identity_python.Types.{
  Credential, CredentialDetails, CredentialType, password, passkey, oidc, password_details,
  passkey_details, oidc_details, Status, Time,
}

-- A rotation retires the old credential, and no id becomes taken.
retire_credential-IsSound :
    (old : Credential) (now : Time) (t : CredentialTables)
    → lookup old.id t.credentials ≡ some old
    → Sound.IsSound t
    → Sound.IsSound (retire_credential old now t)
unfolding retire_credential
retire_credential-IsSound old now t found v =
    drop_secret-IsSound _ _ _ (deactivate-IsSound old.id old Status.revoked now t found v)

retire_credential-fresh :
    (old : Credential) (now : Time) (t : CredentialTables) (new_id : Str)
    → lookup old.id t.credentials ≡ some old
    → lookup new_id t.credentials ≡ none
    → lookup new_id (retire_credential old now t).credentials ≡ none
unfolding retire_credential deactivate
retire_credential-fresh old now t new_id found fresh =
    rw ((drop_secret-credentials old.id _ _).0) (grind (arith, lookup-insert))

-- the store in the middle of a rotation
pub record IsRotating (new_id : Str) (s : Store) : Type 0 where
  pub sound : IsSound s
  pub fresh : lookup new_id s.credentials ≡ none

pub begin_rotation-IsRotating :
    (cred_id : Str) (type : CredentialType) (now cascade_now : Time) (new_id : Str) (s : Store)
    → IsSound s
    → lookup new_id s.credentials ≡ none
    → IsRotating new_id (begin_rotation cred_id type now cascade_now s).1
unfolding begin_rotation
begin_rotation-IsRotating cred_id type now cascade_now new_id s v fresh =
    elim (Option-cases (lookup cred_id s.credentials)) [
      | inl missing ↦ ground (arith, missing)
      | inr (c, found) ↦
          let named : c.id ≡ cred_id = v.credentials.named cred_id c found in
          ground (
            arith,
            named,
            retire_credential-IsSound c now s.credential_tables,
            retire_credential-fresh c now s.credential_tables new_id,
            revoke_sessions_for_credential-IsSound c.id cascade_now s.session_tables v.sessions,
          )
    ]

-- What follows the retirement: it keeps the invariant if it does so with the new id free.
finish_rotation :
    (new_id : Str) (m : Result Credential × Store) (k : Credential → Exec Credential) (s : Store)
    → IsRotating new_id m.1
    → ((old : Credential) (s1 : Store) → IsRotating new_id s1 → IsSound (k old s1).1)
    → IsSound (((λ _. m) >>= k) s).1
finish_rotation new_id (ok old, s1) k s v keep = keep old s1 v
finish_rotation new_id (raised e, s1) k s v keep = v.sound

replace_credential-IsSound :
    (details : CredentialDetails) (secret : Secret) (now : Time) (new_id : Str) (old : Credential)
    (s : Store)
    → IsRotating new_id s
    → IsSound (replace_credential details secret now new_id old s).1
unfolding replace_credential
replace_credential-IsSound details secret now new_id old s w = record {
  credentials =
      store_credential-IsSound
        (new_credential new_id old.usr_id old.identifier (some old.id) details now) secret
        s.credential_tables w.fresh refl w.sound.credentials;
  sessions = w.sound.sessions;
}

replace_password-IsSound :
    (h : Hashes) (plaintext : Str) (now : Time) (new_id salt : Str) (old : Credential) (s : Store)
    → IsRotating new_id s
    → IsSound (replace_password h plaintext now new_id salt old s).1
unfolding replace_password hash_password
replace_password-IsSound h plaintext now new_id salt old s w = ground (
  arith,
  w.sound,
  replace_credential-IsSound password_details (password_hash (h.argon2_hash salt plaintext)) now
      new_id old s w,
)

pub rotate_password-IsSound :
    (h : Hashes) (cred_id plaintext : Str) (now cascade_now : Time) (new_id salt : Str) (s : Store)
    → IsSound s
    → lookup new_id s.credentials ≡ none
    → IsSound (rotate_password h cred_id plaintext now cascade_now new_id salt s).1
unfolding rotate_password
rotate_password-IsSound h cred_id plaintext now cascade_now new_id salt s v fresh =
    finish_rotation new_id _ (replace_password h plaintext now new_id salt) s
      (begin_rotation-IsRotating cred_id password now cascade_now new_id s v fresh)
      (replace_password-IsSound h plaintext now new_id salt)

-- The rotations of the other two types, by the type, the details and the secret.
pub rotate-IsSound :
    (cred_id : Str) (type : CredentialType) (details : CredentialDetails) (secret : Secret)
    (now cascade_now : Time) (new_id : Str) (s : Store)
    → IsSound s
    → lookup new_id s.credentials ≡ none
    → IsSound
        ((begin_rotation cred_id type now cascade_now
            >>= replace_credential details secret now new_id)
          s).1
rotate-IsSound cred_id type details secret now cascade_now new_id s v fresh =
    finish_rotation new_id _ (replace_credential details secret now new_id) s
      (begin_rotation-IsRotating cred_id type now cascade_now new_id s v fresh)
      (replace_credential-IsSound details secret now new_id)

pub rotate_passkey-IsSound :
    (cred_id : Str) (key : Bytes) (sign_count : ℕ) (rp_id : Str) (now cascade_now : Time)
    (new_id : Str) (s : Store)
    → IsSound s
    → lookup new_id s.credentials ≡ none
    → IsSound (rotate_passkey cred_id key sign_count rp_id now cascade_now new_id s).1
unfolding rotate_passkey
rotate_passkey-IsSound cred_id key sign_count rp_id now cascade_now new_id =
    rotate-IsSound cred_id passkey (passkey_details sign_count rp_id) (public_key key) now
      cascade_now new_id

pub rotate_oidc-IsSound :
    (cred_id issuer subject : Str) (now cascade_now : Time) (new_id : Str) (s : Store)
    → IsSound s
    → lookup new_id s.credentials ≡ none
    → IsSound (rotate_oidc cred_id issuer subject now cascade_now new_id s).1
unfolding rotate_oidc
rotate_oidc-IsSound cred_id issuer subject now cascade_now new_id =
    rotate-IsSound cred_id oidc (oidc_details issuer subject) no_secret now cascade_now new_id
