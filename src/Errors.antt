-- ===== src/Errors.antt =====
-- The exceptions of src/flametrench_identity/errors.py and of webauthn.py, without their
-- messages, the exceptions of Python, of `flametrench_ids` and of the database driver that the library
-- lets through, and the end of a model's fuel.
use identity_python.Base.{◌++◌, []}
use identity_python.Base.Text.{Str, codes}

-- The `reason` of a `PreconditionError`.
pub data Reason : Type 0 where
  user_not_active cred_not_active invalid_transition cred_user_mismatch ttl_too_short : Reason
  active_singleton_exists duplicate_webauthn_credential factor_not_pending : Reason
  pending_factor_expired invalid_name expires_in_past expires_too_late : Reason

-- The `reason` of a `WebAuthnError`.
pub data WebAuthnReason : Type 0 where
  signature_invalid counter_regression rp_id_mismatch user_not_verified : WebAuthnReason
  user_not_present challenge_mismatch origin_mismatch type_mismatch : WebAuthnReason
  malformed unsupported_key : WebAuthnReason

pub data Error : Type 0 where
  not_found duplicate_credential invalid_credential invalid_token session_expired : Error
  credential_not_active credential_type_mismatch already_terminal : Error
  precondition : Reason → Error
  invalid_pat_token : Error
  pat_revoked pat_expired : Str → Error
  webauthn : WebAuthnReason → Error
  value_error key_error type_error struct_error index_error zero_division_error : Error
  malformed_id unique_violation check_violation foreign_key_violation assertion_error : Error
  out_of_fuel : Error

unfoldable pub reason_text : Reason → Str
reason_text user_not_active = codes "user_not_active"
reason_text cred_not_active = codes "cred_not_active"
reason_text invalid_transition = codes "invalid_transition"
reason_text cred_user_mismatch = codes "cred_user_mismatch"
reason_text ttl_too_short = codes "ttl_too_short"
reason_text active_singleton_exists = codes "active_singleton_exists"
reason_text duplicate_webauthn_credential = codes "duplicate_webauthn_credential"
reason_text factor_not_pending = codes "factor_not_pending"
reason_text pending_factor_expired = codes "pending_factor_expired"
reason_text invalid_name = codes "invalid_name"
reason_text expires_in_past = codes "expires_in_past"
reason_text expires_too_late = codes "expires_too_late"

unfoldable pub webauthn_reason_text : WebAuthnReason → Str
webauthn_reason_text signature_invalid = codes "signature_invalid"
webauthn_reason_text counter_regression = codes "counter_regression"
webauthn_reason_text rp_id_mismatch = codes "rp_id_mismatch"
webauthn_reason_text user_not_verified = codes "user_not_verified"
webauthn_reason_text user_not_present = codes "user_not_present"
webauthn_reason_text challenge_mismatch = codes "challenge_mismatch"
webauthn_reason_text origin_mismatch = codes "origin_mismatch"
webauthn_reason_text type_mismatch = codes "type_mismatch"
webauthn_reason_text malformed = codes "malformed"
webauthn_reason_text unsupported_key = codes "unsupported_key"

-- The stable `code` of an error; Python's own exceptions have none, here the empty text.
unfoldable pub code : Error → Str
unfolding reason_text webauthn_reason_text
code not_found = codes "not_found"
code duplicate_credential = codes "conflict.duplicate_credential"
code invalid_credential = codes "invalid_credential"
code invalid_token = codes "invalid_token"
code session_expired = codes "session_expired"
code credential_not_active = codes "cred_not_active"
code credential_type_mismatch = codes "cred_type_mismatch"
code already_terminal = codes "already_terminal"
code (precondition r) = codes "precondition." ++ reason_text r
code invalid_pat_token = codes "invalid_pat_token"
code (pat_revoked _) = codes "pat_revoked"
code (pat_expired _) = codes "pat_expired"
code (webauthn r) = codes "webauthn." ++ webauthn_reason_text r
code value_error = []
code key_error = []
code type_error = []
code struct_error = []
code index_error = []
code zero_division_error = []
code malformed_id = []
code unique_violation = []
code check_violation = []
code foreign_key_violation = []
code assertion_error = []
code out_of_fuel = []
