-- ===== src/Invariant/Authority/OfCredentials.antt =====
-- New credentials and rotations, also those that raise halfway, keep every live session of an active
-- user and credential.
use identity_python.Base.{ℕ, ◌≡◌, refl, arith, none, some, inl, inr, Option-cases}
use identity_python.Base.Dict.{lookup, lookup-insert}
use identity_python.Base.Text.{Str, Bytes}
use identity_python.Credentials.Create.{
  create_password_credential, create_passkey_credential, create_oidc_credential,
}
use identity_python.Credentials.Entries.{
  store_credential, deactivate, new_credential, Secret, password_hash, public_key, no_secret,
}
use identity_python.Credentials.Logout.{lookup-revoke_sessions_for_credential}
use identity_python.Credentials.Rotate.{
  retire_credential, begin_rotation, replace_credential, replace_password, rotate_password,
  rotate_passkey, rotate_oidc,
}
use identity_python.Credentials.Sound.{drop_secret-credentials}
use identity_python.Exec.{Exec, ◌>>=◌}
use identity_python.Invariant.Authority.{IsAuthorized, IsBacked, store_credential-IsBacked}
use identity_python.Invariant.Defs.{IsSound}
use identity_python.Invariant.OfRotations.{begin_rotation-IsRotating}
use identity_python.Primitives.{Hashes, hash_password}
use identity_python.Result.{Result, ok, raised}
use identity_python.Tables.{Store, CredentialTables}
use identity_python.Types.{
  Credential, CredentialDetails, CredentialType, Session, Status, Time, password, passkey, oidc,
  password_details, passkey_details, oidc_details,
}

store_credential-IsAuthorized :
    (c : Credential) (secret : Secret) (s : Store)
    → lookup c.id s.credentials ≡ none
    → IsAuthorized s
    → IsAuthorized (record s { credential_tables = store_credential c secret s.credential_tables })
store_credential-IsAuthorized c secret s fresh v = record {
  backed = λ i ses e live. store_credential-IsBacked s v c secret i ses fresh e live;
}

pub create_password_credential-IsAuthorized :
    (h : Hashes) (usr_id identifier plaintext : Str) (now : Time) (cred_id salt : Str) (s : Store)
    → lookup cred_id s.credentials ≡ none
    → IsAuthorized s
    → IsAuthorized (create_password_credential h usr_id identifier plaintext now cred_id salt s).1
unfolding create_password_credential hash_password
create_password_credential-IsAuthorized h usr_id identifier plaintext now cred_id salt s fresh v =
    ground (
      arith,
      v,
      store_credential-IsAuthorized
          (new_credential cred_id usr_id identifier none password_details now)
          (password_hash (h.argon2_hash salt plaintext)) s fresh v,
    )

pub create_passkey_credential-IsAuthorized :
    (usr_id identifier : Str) (key : Bytes) (sign_count : ℕ) (rp_id : Str) (now : Time)
    (cred_id : Str) (s : Store)
    → lookup cred_id s.credentials ≡ none
    → IsAuthorized s
    → IsAuthorized
        (create_passkey_credential usr_id identifier key sign_count rp_id now cred_id s).1
unfolding create_passkey_credential
create_passkey_credential-IsAuthorized usr_id identifier key sign_count rp_id now cred_id s fresh
      v =
    ground (
      arith,
      v,
      store_credential-IsAuthorized
          (new_credential cred_id usr_id identifier none (passkey_details sign_count rp_id) now)
          (public_key key) s fresh v,
    )

pub create_oidc_credential-IsAuthorized :
    (usr_id identifier issuer subject : Str) (now : Time) (cred_id : Str) (s : Store)
    → lookup cred_id s.credentials ≡ none
    → IsAuthorized s
    → IsAuthorized (create_oidc_credential usr_id identifier issuer subject now cred_id s).1
unfolding create_oidc_credential
create_oidc_credential-IsAuthorized usr_id identifier issuer subject now cred_id s fresh v =
    ground (
      arith,
      v,
      store_credential-IsAuthorized
          (new_credential cred_id usr_id identifier none (oidc_details issuer subject) now)
          no_secret s fresh v,
    )

lookup-retire_credential :
    (old : Credential) (now : Time) (t : CredentialTables) (i : Str)
    → lookup i (retire_credential old now t).credentials
      ≡ lookup i (deactivate old.id old Status.revoked now t).credentials
unfolding retire_credential
lookup-retire_credential old now t i = rw ((drop_secret-credentials old.id _ _).0) refl

begin_rotation-IsBacked :
    (cred_id : Str) (type : CredentialType) (now cascade_now : Time) (s : Store)
    → IsSound s
    → IsAuthorized s
    → (i : Str) (ses : Session)
    → lookup i (begin_rotation cred_id type now cascade_now s).1.sessions ≡ some ses
    → ses.revoked_at ≡ none
    → IsBacked (begin_rotation cred_id type now cascade_now s).1 ses
unfolding begin_rotation deactivate
begin_rotation-IsBacked cred_id type now cascade_now s w v i ses e live =
    elim (Option-cases (lookup cred_id s.credentials)) [
      | inl missing ↦ grind (arith, missing, v.backed i ses)
      | inr (c, found) ↦
          let named : c.id ≡ cred_id = w.credentials.named cred_id c found in
          grind (
            arith,
            found,
            named,
            lookup-insert,
            v.backed i ses,
            lookup-retire_credential c now s.credential_tables ses.cred_id,
            lookup-revoke_sessions_for_credential c.id cascade_now i s.session_tables
                w.sessions.distinct,
          )
    ]

-- the store in the middle of a rotation
record IsReady (new_id : Str) (s : Store) : Type 0 where
  authorized : IsAuthorized s
  fresh : lookup new_id s.credentials ≡ none

begin_rotation-IsReady :
    (cred_id : Str) (type : CredentialType) (now cascade_now : Time) (new_id : Str) (s : Store)
    → IsSound s
    → IsAuthorized s
    → lookup new_id s.credentials ≡ none
    → IsReady new_id (begin_rotation cred_id type now cascade_now s).1
begin_rotation-IsReady cred_id type now cascade_now new_id s w v fresh = record {
  authorized = record { backed = begin_rotation-IsBacked cred_id type now cascade_now s w v };
  fresh = (begin_rotation-IsRotating cred_id type now cascade_now new_id s w fresh).fresh;
}

finish_rotation :
    (new_id : Str) (m : Result Credential × Store) (k : Credential → Exec Credential) (s : Store)
    → IsReady new_id m.1
    → ((old : Credential) (s1 : Store) → IsReady new_id s1 → IsAuthorized (k old s1).1)
    → IsAuthorized (((λ _. m) >>= k) s).1
finish_rotation new_id (ok old, s1) k s v keep = keep old s1 v
finish_rotation new_id (raised e, s1) k s v keep = v.authorized

replace_credential-IsAuthorized :
    (details : CredentialDetails) (secret : Secret) (now : Time) (new_id : Str) (old : Credential)
    (s : Store)
    → IsReady new_id s
    → IsAuthorized (replace_credential details secret now new_id old s).1
unfolding replace_credential
replace_credential-IsAuthorized details secret now new_id old s w =
    store_credential-IsAuthorized
      (new_credential new_id old.usr_id old.identifier (some old.id) details now) secret s w.fresh
      w.authorized

replace_password-IsAuthorized :
    (h : Hashes) (plaintext : Str) (now : Time) (new_id salt : Str) (old : Credential) (s : Store)
    → IsReady new_id s
    → IsAuthorized (replace_password h plaintext now new_id salt old s).1
unfolding replace_password hash_password
replace_password-IsAuthorized h plaintext now new_id salt old s w = ground (
  arith,
  w.authorized,
  replace_credential-IsAuthorized password_details (password_hash (h.argon2_hash salt plaintext))
      now new_id old s w,
)

module _ (cred_id : Str) (now cascade_now : Time) (new_id : Str) (s : Store) (w : IsSound s)
    (v : IsAuthorized s) (fresh : lookup new_id s.credentials ≡ none) where
  pub rotate_password-IsAuthorized :
      (h : Hashes) (plaintext salt : Str)
      → IsAuthorized (rotate_password h cred_id plaintext now cascade_now new_id salt s).1
  unfolding rotate_password
  rotate_password-IsAuthorized h plaintext salt =
      finish_rotation new_id _ (replace_password h plaintext now new_id salt) s
        (begin_rotation-IsReady cred_id password now cascade_now new_id s w v fresh)
        (replace_password-IsAuthorized h plaintext now new_id salt)

  pub rotate_passkey-IsAuthorized :
      (key : Bytes) (sign_count : ℕ) (rp_id : Str)
      → IsAuthorized (rotate_passkey cred_id key sign_count rp_id now cascade_now new_id s).1
  unfolding rotate_passkey
  rotate_passkey-IsAuthorized key sign_count rp_id =
      finish_rotation new_id _
        (replace_credential (passkey_details sign_count rp_id) (public_key key) now new_id) s
        (begin_rotation-IsReady cred_id passkey now cascade_now new_id s w v fresh)
        (replace_credential-IsAuthorized (passkey_details sign_count rp_id) (public_key key) now
          new_id)

  pub rotate_oidc-IsAuthorized :
      (issuer subject : Str)
      → IsAuthorized (rotate_oidc cred_id issuer subject now cascade_now new_id s).1
  unfolding rotate_oidc
  rotate_oidc-IsAuthorized issuer subject =
      finish_rotation new_id _
        (replace_credential (oidc_details issuer subject) no_secret now new_id) s
        (begin_rotation-IsReady cred_id oidc now cascade_now new_id s w v fresh)
        (replace_credential-IsAuthorized (oidc_details issuer subject) no_secret now new_id)
