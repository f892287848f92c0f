-- ===== src/Credentials/Sound.antt =====
-- The invariant of the credential dicts, kept by the writes of every operation on credentials.
use identity_python.Base.{◌≡◌, refl, arith, none, some}
use identity_python.Base.Dict.{lookup, lookup-insert}
use identity_python.Base.Dict.Distinct.{IsDistinct, insert-IsDistinct}
use identity_python.Base.Text.{Str}
use identity_python.Credentials.Entries.{
  store_credential, Secret, password_hash, public_key, no_secret, drop_secret, deactivate,
  reactivate,
}
use identity_python.Credentials.Index.{
  IsIndexed, IsNamed, store_credential-IsIndexed, store_credential-IsNamed, deactivate-IsIndexed,
  deactivate-IsNamed,
}
use identity_python.Tables.{CredentialTables}
use identity_python.Types.{Credential, CredentialType, password, passkey, oidc, Status, Time}

pub record IsSound (t : CredentialTables) : Type 0 where
  pub distinct : IsDistinct t.credentials
  pub named : IsNamed t
  pub indexed : IsIndexed t

store_credential-IsDistinct :
    (c : Credential) (secret : Secret) (t : CredentialTables)
    → IsDistinct t.credentials
    → IsDistinct (store_credential c secret t).credentials
unfolding store_credential
store_credential-IsDistinct c (password_hash p) t h = insert-IsDistinct c.id c t.credentials h
store_credential-IsDistinct c (public_key p) t h = insert-IsDistinct c.id c t.credentials h
store_credential-IsDistinct c no_secret t h = insert-IsDistinct c.id c t.credentials h

pub store_credential-IsSound :
    (c : Credential) (secret : Secret) (t : CredentialTables)
    → lookup c.id t.credentials ≡ none
    → c.status ≡ Status.active
    → IsSound t
    → IsSound (store_credential c secret t)
store_credential-IsSound c secret t fresh active h = record {
  distinct = store_credential-IsDistinct c secret t h.distinct;
  named = store_credential-IsNamed c secret t h.named;
  indexed = store_credential-IsIndexed c secret t fresh active h.indexed;
}

pub deactivate-IsSound :
    (cred_id : Str) (c : Credential) (status : Status) (now : Time) (t : CredentialTables)
    → lookup cred_id t.credentials ≡ some c
    → IsSound t
    → IsSound (deactivate cred_id c status now t)
unfolding deactivate
deactivate-IsSound cred_id c status now t found h = record {
  distinct = insert-IsDistinct cred_id _ t.credentials h.distinct;
  named = deactivate-IsNamed cred_id c status now t (h.named cred_id c found) h.named;
  indexed = deactivate-IsIndexed cred_id c status now t found h.indexed;
}

-- A secret that is dropped leaves the credentials and the index as they are.
pub drop_secret-credentials :
    (i : Str) (type : CredentialType) (t : CredentialTables)
    → ((drop_secret i type t).credentials ≡ t.credentials)
      × ((drop_secret i type t).active_cred_by_identifier ≡ t.active_cred_by_identifier)
unfolding drop_secret
drop_secret-credentials i password t = (refl, refl)
drop_secret-credentials i passkey t = (refl, refl)
drop_secret-credentials i oidc t = (refl, refl)

pub drop_secret-IsSound :
    (i : Str) (type : CredentialType) (t : CredentialTables)
    → IsSound t
    → IsSound (drop_secret i type t)
unfolding drop_secret
drop_secret-IsSound i password t h = record {
  distinct = h.distinct;
  named = h.named;
  indexed = h.indexed;
}
drop_secret-IsSound i passkey t h = record {
  distinct = h.distinct;
  named = h.named;
  indexed = h.indexed;
}
drop_secret-IsSound i oidc t h = h

reactivate-IsNamed :
    (cred_id : Str) (c : Credential) (now : Time) (t : CredentialTables)
    → c.id ≡ cred_id
    → IsNamed t
    → IsNamed (reactivate cred_id c now t)
unfolding reactivate
reactivate-IsNamed cred_id c now t named h i d e = grind (arith, lookup-insert, h i d)

reactivate-IsIndexed :
    (cred_id : Str) (c : Credential) (now : Time) (t : CredentialTables)
    → lookup cred_id t.credentials ≡ some c
    → IsIndexed t
    → IsIndexed (reactivate cred_id c now t)
unfolding reactivate
reactivate-IsIndexed cred_id c now t found h key i e = grind (arith, lookup-insert, h key i)

pub reactivate-IsSound :
    (cred_id : Str) (c : Credential) (now : Time) (t : CredentialTables)
    → lookup cred_id t.credentials ≡ some c
    → IsSound t
    → IsSound (reactivate cred_id c now t)
unfolding reactivate
reactivate-IsSound cred_id c now t found h = record {
  distinct = insert-IsDistinct cred_id _ t.credentials h.distinct;
  named = reactivate-IsNamed cred_id c now t (h.named cred_id c found) h.named;
  indexed = reactivate-IsIndexed cred_id c now t found h.indexed;
}
