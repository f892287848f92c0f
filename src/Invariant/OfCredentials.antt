-- ===== src/Invariant/OfCredentials.antt =====
-- Every operation on credentials keeps the invariant of the store, whether it returns or raises.
use identity_python.Base.{ℕ, ◌≡◌, refl, arith, none, inl, inr, Option-cases}
use identity_python.Base.Dict.{lookup}
use identity_python.Base.Text.{Str, Bytes}
use identity_python.Credentials.Entries.{new_credential, password_hash, public_key, no_secret}
use identity_python.Credentials.Create.{
  create_password_credential, create_passkey_credential, create_oidc_credential,
}
use identity_python.Credentials.Change.{suspend_credential, reinstate_credential, revoke_credential}
use identity_python.Credentials.Sound.{
  store_credential-IsSound, deactivate-IsSound, reactivate-IsSound,
}
use identity_python.Invariant.Defs.{IsSound, revoke_sessions_for_credential-IsSound}
use identity_python.Primitives.{Hashes, hash_password}
use identity_python.Tables.{Store}
use identity_python.Types.{password_details, passkey_details, oidc_details, Status, Time}

pub create_password_credential-IsSound :
    (h : Hashes) (usr_id identifier plaintext : Str) (now : Time) (cred_id salt : Str) (s : Store)
    → lookup cred_id s.credentials ≡ none
    → IsSound s
    → IsSound (create_password_credential h usr_id identifier plaintext now cred_id salt s).1
unfolding create_password_credential hash_password
create_password_credential-IsSound h usr_id identifier plaintext now cred_id salt s fresh v =
    ground (
      arith,
      store_credential-IsSound (new_credential cred_id usr_id identifier none password_details now)
          (password_hash (h.argon2_hash salt plaintext)) s.credential_tables fresh refl
          v.credentials,
    )

pub create_passkey_credential-IsSound :
    (usr_id identifier : Str) (key : Bytes) (sign_count : ℕ) (rp_id : Str) (now : Time)
    (cred_id : Str) (s : Store)
    → lookup cred_id s.credentials ≡ none
    → IsSound s
    → IsSound (create_passkey_credential usr_id identifier key sign_count rp_id now cred_id s).1
unfolding create_passkey_credential
create_passkey_credential-IsSound usr_id identifier key sign_count rp_id now cred_id s fresh v =
    ground (
      arith,
      store_credential-IsSound
          (new_credential cred_id usr_id identifier none (passkey_details sign_count rp_id) now)
          (public_key key) s.credential_tables fresh refl v.credentials,
    )

pub create_oidc_credential-IsSound :
    (usr_id identifier issuer subject : Str) (now : Time) (cred_id : Str) (s : Store)
    → lookup cred_id s.credentials ≡ none
    → IsSound s
    → IsSound (create_oidc_credential usr_id identifier issuer subject now cred_id s).1
unfolding create_oidc_credential
create_oidc_credential-IsSound usr_id identifier issuer subject now cred_id s fresh v = ground (
  arith,
  store_credential-IsSound
      (new_credential cred_id usr_id identifier none (oidc_details issuer subject) now) no_secret
      s.credential_tables fresh refl v.credentials,
)

pub suspend_credential-IsSound :
    (cred_id : Str) (now cascade_now : Time) (s : Store)
    → IsSound s
    → IsSound (suspend_credential cred_id now cascade_now s).1
unfolding suspend_credential
suspend_credential-IsSound cred_id now cascade_now s v =
    elim (Option-cases (lookup cred_id s.credentials)) [
      | inl missing ↦ ground (arith, missing)
      | inr (c, found) ↦ ground (
        arith,
        deactivate-IsSound cred_id c Status.suspended now s.credential_tables found v.credentials,
        revoke_sessions_for_credential-IsSound cred_id cascade_now s.session_tables v.sessions,
      )
    ]

pub reinstate_credential-IsSound :
    (cred_id : Str) (now : Time) (s : Store)
    → IsSound s
    → IsSound (reinstate_credential cred_id now s).1
unfolding reinstate_credential
reinstate_credential-IsSound cred_id now s v = elim (Option-cases (lookup cred_id s.credentials)) [
  | inl missing ↦ ground (arith, missing)
  | inr (c, found) ↦
      ground (arith, reactivate-IsSound cred_id c now s.credential_tables found v.credentials)
]

pub revoke_credential-IsSound :
    (cred_id : Str) (now cascade_now : Time) (s : Store)
    → IsSound s
    → IsSound (revoke_credential cred_id now cascade_now s).1
unfolding revoke_credential
revoke_credential-IsSound cred_id now cascade_now s v =
    elim (Option-cases (lookup cred_id s.credentials)) [
      | inl missing ↦ ground (arith, missing)
      | inr (c, found) ↦ ground (
        arith,
        deactivate-IsSound cred_id c Status.revoked now s.credential_tables found v.credentials,
        revoke_sessions_for_credential-IsSound cred_id cascade_now s.session_tables v.sessions,
      )
    ]
