-- ===== src/Credentials/Change.antt =====
-- `suspend_credential`, `reinstate_credential` and `revoke_credential` of in_memory.py.
use identity_python.Base.Dict.{lookup}
use identity_python.Base.Text.{Str}
use identity_python.Credentials.Entries.{
  key_of, is_some, with_credential_status, with_credentials, deactivate, reactivate,
}
use identity_python.Errors.{
  precondition, duplicate_credential, cred_not_active, invalid_transition, already_terminal,
}
use identity_python.Exec.{Exec, pure, gets, modify, raise_if, raise_unless, ◌>>=◌, ◌>>◌}
use identity_python.Requires.{require_credential}
use identity_python.Sessions.{revoke_sessions_for_credential, with_sessions}
use identity_python.Types.{Credential, Status, Time, status_eq}

unfoldable pub suspend_credential : Str → (now cascade_now : Time) → Exec Credential
suspend_credential cred_id now cascade_now = do
  c ← require_credential cred_id
  raise_unless (status_eq c.status Status.active) (precondition cred_not_active)
  modify (with_credentials (deactivate cred_id c Status.suspended now))
  modify (with_sessions (revoke_sessions_for_credential cred_id cascade_now))
  pure (with_credential_status c Status.suspended now)

unfoldable pub reinstate_credential : Str → (now : Time) → Exec Credential
reinstate_credential cred_id now = do
  c ← require_credential cred_id
  raise_unless (status_eq c.status Status.suspended) (precondition invalid_transition)
  taken ← gets (λ s. is_some (lookup (key_of c) s.active_cred_by_identifier))
  raise_if taken duplicate_credential
  modify (with_credentials (reactivate cred_id c now))
  pure (with_credential_status c Status.active now)

unfoldable pub revoke_credential : Str → (now cascade_now : Time) → Exec Credential
revoke_credential cred_id now cascade_now = do
  c ← require_credential cred_id
  raise_if (status_eq c.status Status.revoked) already_terminal
  modify (with_credentials (deactivate cred_id c Status.revoked now))
  modify (with_sessions (revoke_sessions_for_credential cred_id cascade_now))
  pure (with_credential_status c Status.revoked now)
