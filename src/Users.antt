-- ===== src/Users.antt =====
-- The users of `InMemoryIdentityStore` (in_memory.py), with the cascades of suspension and
-- revocation. Each reading of the clock and each new id is an argument.
pub mod Cascade
use identity_python.Base.{
  ℕ, ite, refl, Bool, true, false, ◌&&◌, ◌||◌, Option, none, some, List, [], ◌∷◌, if◌then◌else◌,
  min, max, select, decide,
}
use identity_python.Base.Dict.{insert, erase, values}
use identity_python.Base.Text.{Str, starts_with, str_discrete}
use identity_python.Credentials.Entries.{
  deactivate, with_credential_status, identifier_key, with_credentials,
}
use identity_python.Errors.{precondition, already_terminal, invalid_transition}
use identity_python.Exec.{Exec, pure, gets, modify, raise_if, raise_unless, ◌>>=◌, ◌>>◌}
use identity_python.Paging.{page_after}
use identity_python.Pats.{revoke_pats_for_user, with_pats}
use identity_python.Requires.{require_user}
use identity_python.Sessions.{revoke_sessions_for_user, with_sessions}
use identity_python.Tables.{CredentialTables, Store}
use identity_python.Types.{
  User, Credential, Page, Status, Time, with_status, status_eq, credential_type,
}

-- A parameter of a partial update (ADR 0014): left out, or given, perhaps as `None`.
pub data Update : Type 0 where
  unset : Update
  given : Option Str → Update

unfoldable pub create_user : Option Str → (now : Time) (usr_id : Str) → Exec User
create_user display_name now usr_id = do
  let u : User = record {
    id = usr_id;
    status = Status.active;
    created_at = now;
    updated_at = now;
    display_name = display_name;
  }
  modify (λ s. record s { users = insert usr_id u s.users })
  pure u

abbrev pub new_name : Update → Option Str → Option Str
new_name unset old = old
new_name (given name) old = name

unfoldable pub option_str_discrete : Discrete (Option Str)
unfolding str_discrete
option_str_discrete none none = yes refl
option_str_discrete none (some b) = no (λ e. cc)
option_str_discrete (some a) none = no (λ e. cc)
option_str_discrete (some a) (some b) = elim (str_discrete a b) [
  | yes p ↦ yes (cc)
  | no p ↦ no (λ e. p (cc))
]

unfoldable pub update_user : Str → Update → (now : Time) → Exec User
update_user usr_id display_name now = do
  u ← require_user usr_id
  raise_if (status_eq u.status Status.revoked) already_terminal
  let name = new_name display_name u.display_name
  let updated : User = record u { updated_at = now; display_name = name }
  ite (option_str_discrete name u.display_name) (pure u)
      (do modify (λ s. record s { users = insert usr_id updated s.users }); pure updated)

unfoldable pub suspend_user : Str → (now cascade_now : Time) → Exec User
suspend_user usr_id now cascade_now = do
  u ← require_user usr_id
  raise_if (status_eq u.status Status.revoked) already_terminal
  let updated = with_status u Status.suspended now
  if status_eq u.status Status.suspended then pure u else (do
    modify (λ s. record s { users = insert usr_id updated s.users })
    modify (with_sessions (revoke_sessions_for_user usr_id cascade_now))
    pure updated)

unfoldable pub reinstate_user : Str → (now : Time) → Exec User
reinstate_user usr_id now = do
  u ← require_user usr_id
  raise_unless (status_eq u.status Status.suspended) (precondition invalid_transition)
  let updated = with_status u Status.active now
  modify (λ s. record s { users = insert usr_id updated s.users })
  pure updated

abbrev pub active_of_user : Str → Credential → Bool
active_of_user usr_id cred = elim (str_discrete cred.usr_id usr_id) [
  | yes _ ↦ status_eq cred.status Status.active
  | no _ ↦ false
]

-- The loop of `revoke_user` over `list(self._credentials.items())`.
unfoldable pub revoke_credentials :
    Str → Time → List (Str × Credential) → CredentialTables → CredentialTables
revoke_credentials usr_id now [] t = t
revoke_credentials usr_id now ((cred_id, cred) ∷ l) t =
    revoke_credentials usr_id now l
      (if active_of_user usr_id cred then deactivate cred_id cred Status.revoked now t else t)

unfoldable pub revoke_user : Str → (now cascade_now : Time) → Exec User
revoke_user usr_id now cascade_now = do
  u ← require_user usr_id
  raise_if (status_eq u.status Status.revoked) already_terminal
  modify (with_credentials (λ t. revoke_credentials usr_id now t.credentials t))
  modify (with_sessions (revoke_sessions_for_user usr_id cascade_now))
  modify (with_pats (revoke_pats_for_user usr_id now))
  let updated = with_status u Status.revoked now
  modify (λ s. record s { users = insert usr_id updated s.users })
  pure updated

-- `needle in s`
unfoldable pub contains_text : Str → Str → Bool
contains_text needle [] = starts_with needle []
contains_text needle (c ∷ cs) = starts_with needle (c ∷ cs) || contains_text needle cs

-- `str.lower` is a parameter.
module _ (lower : Str → Str) where
  -- an active credential of the user whose identifier contains the needle
  unfoldable pub has_hit : Str → Str → List Credential → Bool
  has_hit needle usr_id [] = false
  has_hit needle usr_id (cred ∷ l) =
      (active_of_user usr_id cred && contains_text needle (lower cred.identifier))
      || has_hit needle usr_id l

  abbrev pub has_status : Option Status → User → Bool
  has_status none u = true
  has_status (some status) u = status_eq u.status status

  abbrev pub matches_query : Option Str → List Credential → User → Bool
  matches_query none creds u = true
  matches_query (some query) creds u = has_hit (lower query) u.id creds

  -- A `limit` below zero is 1, as zero is.
  unfoldable pub list_users :
      Option Str → (limit : ℕ) → Option Str → Option Status → Exec (Page User)
  list_users cursor limit query status = gets (λ s.
      page_after (λ u. u.id) cursor (max 1 (min limit 200))
        (select (λ u. has_status status u && matches_query query (values s.credentials) u)
          (values s.users)))
