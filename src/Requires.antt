-- ===== src/Requires.antt =====
-- The `_require_*` helpers of in_memory.py: an entity by its id, or `NotFoundError`.
use identity_python.Base.Text.{Str}
use identity_python.Base.Dict.{lookup}
use identity_python.Errors.{not_found}
use identity_python.Exec.{Exec, or_raise}
use identity_python.Types.{User, Credential, Session, Factor, PersonalAccessToken}

abbrev pub require_user : Str → Exec User
require_user usr_id s = or_raise (lookup usr_id s.users) not_found s

abbrev pub require_credential : Str → Exec Credential
require_credential cred_id s = or_raise (lookup cred_id s.credentials) not_found s

abbrev pub require_session : Str → Exec Session
require_session ses_id s = or_raise (lookup ses_id s.sessions) not_found s

abbrev pub require_factor : Str → Exec Factor
require_factor mfa_id s = or_raise (lookup mfa_id s.mfa_factors) not_found s

abbrev pub require_pat : Str → Exec PersonalAccessToken
require_pat pat_id s = or_raise (lookup pat_id s.pats) not_found s
