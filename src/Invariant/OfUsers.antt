-- ===== src/Invariant/OfUsers.antt =====
-- Every operation on users keeps the invariant of the store, whether it returns or raises.
use identity_python.Base.{◌≡◌, arith, Option, none, some, inl, inr, Bool-cases, List, [], ◌∷◌}
use identity_python.Base.Dict.{lookup, lookup-insert, lookup-cons_self}
use identity_python.Base.Dict.Distinct.{IsDistinct}
use identity_python.Base.Text.{Str, str_discrete}
use identity_python.Credentials.Entries.{deactivate}
use identity_python.Credentials.Sound
use identity_python.Credentials.Sound.{deactivate-IsSound}
use identity_python.Invariant.Defs.{IsSound, revoke_sessions_for_user-IsSound}
use identity_python.Tables.{CredentialTables, Store}
use identity_python.Types.{Credential, Status, Time}
use identity_python.Users.{
  Update, create_user, update_user, suspend_user, reinstate_user, revoke_user, revoke_credentials,
  active_of_user,
}

-- the entries that the loop has still to visit are those of the dict
abbrev Agrees : List (Str × Credential) → CredentialTables → Type 0
Agrees l t = (i : Str) (c : Credential) → lookup i l ≡ some c → lookup i t.credentials ≡ some c

Agrees-tail :
    (j : Str) (d : Credential) (l : List (Str × Credential)) (t : CredentialTables)
    → lookup j l ≡ none
    → Agrees ((j, d) ∷ l) t
    → Agrees l t
unfolding lookup
Agrees-tail j d l t new a i c e = elim (str_discrete j i) [
  | yes p ↦ absurd (ground (arith, p))
  | no p ↦ a i c (ground (arith, p))
]

Agrees-deactivate :
    (j : Str) (d : Credential) (status : Status) (now : Time) (l : List (Str × Credential))
    (t : CredentialTables)
    → lookup j l ≡ none
    → Agrees l t
    → Agrees l (deactivate j d status now t)
unfolding deactivate
Agrees-deactivate j d status now l t new a i c e = grind (arith, lookup-insert, a i c)

revoke_credentials-IsSound :
    (usr_id : Str) (now : Time) (l : List (Str × Credential)) (t : CredentialTables)
    → IsDistinct l
    → Agrees l t
    → Sound.IsSound t
    → Sound.IsSound (revoke_credentials usr_id now l t)
unfolding revoke_credentials
revoke_credentials-IsSound usr_id now [] t d a v = v
revoke_credentials-IsSound usr_id now ((j, c) ∷ l) t d a v =
    let rest : Agrees l t = Agrees-tail j c l t d.0 a in
    elim (Bool-cases (active_of_user usr_id c)) [
      | inl e ↦ rw e (
          revoke_credentials-IsSound usr_id now l _ d.1
            (Agrees-deactivate j c Status.revoked now l t d.0 rest)
            (deactivate-IsSound j c Status.revoked now t (a j c (lookup-cons_self j c l)) v))
      | inr e ↦ rw e (revoke_credentials-IsSound usr_id now l t d.1 rest v)
    ]

pub create_user-IsSound :
    (name : Option Str) (now : Time) (usr_id : Str) (s : Store)
    → IsSound s
    → IsSound (create_user name now usr_id s).1
unfolding create_user
create_user-IsSound name now usr_id s v = record {
  credentials = v.credentials;
  sessions = v.sessions;
}

pub update_user-IsSound :
    (usr_id : Str) (name : Update) (now : Time) (s : Store)
    → IsSound s
    → IsSound (update_user usr_id name now s).1
unfolding update_user
update_user-IsSound usr_id name now s v = ground arith

pub reinstate_user-IsSound :
    (usr_id : Str) (now : Time) (s : Store) → IsSound s → IsSound (reinstate_user usr_id now s).1
unfolding reinstate_user
reinstate_user-IsSound usr_id now s v = ground arith

pub suspend_user-IsSound :
    (usr_id : Str) (now cascade_now : Time) (s : Store)
    → IsSound s
    → IsSound (suspend_user usr_id now cascade_now s).1
unfolding suspend_user
suspend_user-IsSound usr_id now cascade_now s v =
    ground (arith, revoke_sessions_for_user-IsSound usr_id cascade_now s.session_tables v.sessions)

pub revoke_user-IsSound :
    (usr_id : Str) (now cascade_now : Time) (s : Store)
    → IsSound s
    → IsSound (revoke_user usr_id now cascade_now s).1
unfolding revoke_user
revoke_user-IsSound usr_id now cascade_now s v = ground (
  arith,
  revoke_sessions_for_user-IsSound usr_id cascade_now s.session_tables v.sessions,
  revoke_credentials-IsSound usr_id now s.credentials s.credential_tables v.credentials.distinct
      (λ i c e. e) v.credentials,
)
