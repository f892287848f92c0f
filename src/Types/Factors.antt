-- ===== src/Types/Factors.antt =====
-- The dataclasses of mfa.py: factors, enrollment results, proofs, the policy of a user.
use identity_python.Base.{ℕ, Bool, true, false, Option, none, some, List, leb, if◌then◌else◌}
use identity_python.Base.Text.{Str, Bytes}
use identity_python.Types.Lifecycle.{FactorType, FactorStatus, totp, webauthn, recovery}
use identity_python.Types.Entities.{Time}

-- What each of the three factor classes adds: the label; the WebAuthn credential id, the RP id and
-- the counter; the number of codes left.
pub data FactorDetails : Type 0 where
  totp_details : Str → FactorDetails
  webauthn_details : Str → Str → ℕ → FactorDetails
  recovery_details : ℕ → FactorDetails

pub record Factor : Type 0 where
  pub id : Str
  pub usr_id : Str
  pub status : FactorStatus
  pub replaces : Option Str
  pub details : FactorDetails
  pub created_at : Time
  pub updated_at : Time

abbrev pub factor_details_type : FactorDetails → FactorType
factor_details_type (totp_details _) = totp
factor_details_type (webauthn_details _ _ _) = webauthn
factor_details_type (recovery_details _) = recovery

-- `factor.type`
abbrev pub factor_type : Factor → FactorType
factor_type f = factor_details_type f.details

pub record TotpEnrollmentResult : Type 0 where
  pub factor : Factor
  pub secret_b32 : Str
  pub otpauth_uri : Str

pub record RecoveryEnrollmentResult : Type 0 where
  pub factor : Factor
  pub recovery_codes : List Str

pub record WebAuthnProof : Type 0 where
  pub credential_id : Str
  pub authenticator_data : Bytes
  pub client_data_json : Bytes
  pub signature : Bytes
  pub expected_challenge : Bytes
  pub expected_origin : Str

pub data MfaProof : Type 0 where
  totp_proof : Str → MfaProof
  webauthn_proof : WebAuthnProof → MfaProof
  recovery_proof : Str → MfaProof

pub record MfaVerifyResult : Type 0 where
  pub mfa_id : Str
  pub type : FactorType
  pub mfa_verified_at : Time
  pub new_sign_count : Option ℕ

pub record UserMfaPolicy : Type 0 where
  pub usr_id : Str
  pub required : Bool
  pub grace_until : Option Time
  pub updated_at : Time

-- `grace_until is None or grace_until <= now`
abbrev pub grace_is_over : Option Time → Time → Bool
grace_is_over none now = true
grace_is_over (some grace_until) now = leb grace_until now

-- `UserMfaPolicy.is_active_now`
unfoldable pub is_active_now : UserMfaPolicy → Time → Bool
is_active_now p now = if p.required then grace_is_over p.grace_until now else false
