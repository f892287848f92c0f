-- ===== src/Types/Lifecycle.antt =====
-- The enums of types.py and mfa.py, with the comparisons `a == b` that the stores make.
use identity_python.Base.{Bool, true, false}
use identity_python.Base.Text.{Str, codes}

pub data Status : Type 0 where
  active suspended revoked : Status

abbrev pub status_eq : Status → Status → Bool
status_eq active active = true
status_eq suspended suspended = true
status_eq revoked revoked = true
status_eq _ _ = false

pub data CredentialType : Type 0 where
  password passkey oidc : CredentialType

-- `CredentialType.value`
unfoldable pub type_value : CredentialType → Str
type_value password = codes "password"
type_value passkey = codes "passkey"
type_value oidc = codes "oidc"

pub data FactorType : Type 0 where
  totp webauthn recovery : FactorType

-- `FactorType.value`
unfoldable pub factor_type_value : FactorType → Str
factor_type_value totp = codes "totp"
factor_type_value webauthn = codes "webauthn"
factor_type_value recovery = codes "recovery"

pub data FactorStatus : Type 0 where
  pending active suspended revoked : FactorStatus

abbrev pub factor_status_eq : FactorStatus → FactorStatus → Bool
factor_status_eq pending pending = true
factor_status_eq active active = true
factor_status_eq suspended suspended = true
factor_status_eq revoked revoked = true
factor_status_eq _ _ = false

pub data PatStatus : Type 0 where
  active expired revoked : PatStatus
