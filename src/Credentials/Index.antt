-- ===== src/Credentials/Index.antt =====
-- The index of active credentials: what it names exists, is active and has the key.
use identity_python.Base.{◌≡◌, ◌≢◌, arith, Option, none, some}
use identity_python.Base.Dict.{lookup, lookup-insert, lookup-erase}
use identity_python.Base.Text.{Str}
use identity_python.Credentials.Entries.{
  key_of, store_credential, deactivate, Secret, password_hash, public_key, no_secret, reactivate,
}
use identity_python.Tables.{CredentialTables}
use identity_python.Types.{Credential, Status, Time}

-- an active credential with the key
abbrev pub IsActiveAt : Str → Option Credential → Type 0
IsActiveAt key none = ⊥
IsActiveAt key (some c) = (c.status ≡ Status.active) × (key_of c ≡ key)

-- Every entry of the index names an active credential with the entry's key.
abbrev pub IsIndexed : CredentialTables → Type 0
IsIndexed t =
    (key cred_id : Str)
    → lookup key t.active_cred_by_identifier ≡ some cred_id
    → IsActiveAt key (lookup cred_id t.credentials)

pub store_credential-IsIndexed :
    (c : Credential) (secret : Secret) (t : CredentialTables)
    → lookup c.id t.credentials ≡ none
    → c.status ≡ Status.active
    → IsIndexed t
    → IsIndexed (store_credential c secret t)
unfolding store_credential
store_credential-IsIndexed c (password_hash p) t fresh active h key i e =
    grind (arith, lookup-insert, h key i)
store_credential-IsIndexed c (public_key p) t fresh active h key i e =
    grind (arith, lookup-insert, h key i)
store_credential-IsIndexed c no_secret t fresh active h key i e =
    grind (arith, lookup-insert, h key i)

pub deactivate-IsIndexed :
    (cred_id : Str) (c : Credential) (status : Status) (now : Time) (t : CredentialTables)
    → lookup cred_id t.credentials ≡ some c
    → IsIndexed t
    → IsIndexed (deactivate cred_id c status now t)
unfolding deactivate
deactivate-IsIndexed cred_id c status now t found h key i e =
    grind (arith, lookup-insert, lookup-erase, h key i)

-- Every credential stands under its own id.
abbrev pub IsNamed : CredentialTables → Type 0
IsNamed t = (i : Str) (c : Credential) → lookup i t.credentials ≡ some c → c.id ≡ i

-- Every active credential is in the index, so no two have one key.
pub record IsComplete (t : CredentialTables) : Type 0 where
  pub in_index :
      (i : Str) (c : Credential)
      → lookup i t.credentials ≡ some c
      → c.status ≡ Status.active
      → lookup (key_of c) t.active_cred_by_identifier ≡ some i

pub store_credential-IsNamed :
    (c : Credential) (secret : Secret) (t : CredentialTables)
    → IsNamed t
    → IsNamed (store_credential c secret t)
unfolding store_credential
store_credential-IsNamed c (password_hash p) t h i d e = grind (arith, lookup-insert, h i d)
store_credential-IsNamed c (public_key p) t h i d e = grind (arith, lookup-insert, h i d)
store_credential-IsNamed c no_secret t h i d e = grind (arith, lookup-insert, h i d)

pub deactivate-IsNamed :
    (cred_id : Str) (c : Credential) (status : Status) (now : Time) (t : CredentialTables)
    → c.id ≡ cred_id
    → IsNamed t
    → IsNamed (deactivate cred_id c status now t)
unfolding deactivate
deactivate-IsNamed cred_id c status now t named h i d e = grind (arith, lookup-insert, h i d)

module _ (c : Credential) (t : CredentialTables)
    (free : lookup (key_of c) t.active_cred_by_identifier ≡ none) (h : IsComplete t) where
  in_index-store_credential :
      (secret : Secret) (i : Str) (d : Credential)
      → lookup i (store_credential c secret t).credentials ≡ some d
      → d.status ≡ Status.active
      → lookup (key_of d) (store_credential c secret t).active_cred_by_identifier ≡ some i
  unfolding store_credential
  in_index-store_credential (password_hash p) i d e active =
      grind (arith, lookup-insert, h.in_index i d)
  in_index-store_credential (public_key p) i d e active =
      grind (arith, lookup-insert, h.in_index i d)
  in_index-store_credential no_secret i d e active = grind (arith, lookup-insert, h.in_index i d)

  -- A new active credential enters the index if its key is free.
  pub store_credential-IsComplete : (secret : Secret) → IsComplete (store_credential c secret t)
  store_credential-IsComplete secret = record { in_index = in_index-store_credential secret }

  in_index-reactivate :
      (cred_id : Str) (now : Time) (i : Str) (d : Credential)
      → lookup i (reactivate cred_id c now t).credentials ≡ some d
      → d.status ≡ Status.active
      → lookup (key_of d) (reactivate cred_id c now t).active_cred_by_identifier ≡ some i
  unfolding reactivate
  in_index-reactivate cred_id now i d e active = grind (arith, lookup-insert, h.in_index i d)

  -- So does one that is reinstated.
  pub reactivate-IsComplete : (cred_id : Str) (now : Time) → IsComplete (reactivate cred_id c now t)
  reactivate-IsComplete cred_id now = record { in_index = in_index-reactivate cred_id now }

in_index-deactivate :
    (cred_id : Str) (c : Credential) (status : Status) (now : Time) (t : CredentialTables)
    → lookup cred_id t.credentials ≡ some c
    → c.status ≡ Status.active
    → status ≢ Status.active
    → IsComplete t
    → (i : Str) (d : Credential) → lookup i (deactivate cred_id c status now t).credentials ≡ some d
    → d.status ≡ Status.active
    → lookup (key_of d) (deactivate cred_id c status now t).active_cred_by_identifier ≡ some i
unfolding deactivate
in_index-deactivate cred_id c status now t found active inactive h i d e is_active =
    grind (arith, lookup-insert, lookup-erase, h.in_index i d, h.in_index cred_id c)

-- An active credential leaves the index with no other.
pub deactivate-IsComplete :
    (cred_id : Str) (c : Credential) (status : Status) (now : Time) (t : CredentialTables)
    → lookup cred_id t.credentials ≡ some c
    → c.status ≡ Status.active
    → status ≢ Status.active
    → IsComplete t
    → IsComplete (deactivate cred_id c status now t)
deactivate-IsComplete cred_id c status now t found active inactive h = record {
  in_index = in_index-deactivate cred_id c status now t found active inactive h;
}
