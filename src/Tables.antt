-- ===== src/Tables.antt =====
-- The state of `InMemoryIdentityStore` (in_memory.py): its dicts, grouped by component. The clock,
-- the generators of ids and of random tokens are arguments of the calls that read them.
use identity_python.Base.{List, Bool}
use identity_python.Base.Text.{Str, Bytes}
use identity_python.Base.Dict.{Dict}
use identity_python.Types.{
  User, Credential, Session, Factor, UserMfaPolicy, PersonalAccessToken, Time,
}

pub record CredentialTables : Type 0 where
  pub credentials : Dict Credential
  pub password_hashes : Dict Str
  pub passkey_public_keys : Dict Bytes
  pub active_cred_by_identifier : Dict Str

pub record SessionTables : Type 0 where
  pub sessions : Dict Session
  pub session_token_hashes : Dict Str
  pub session_by_token_hash : Dict Str

pub record FactorTables : Type 0 where
  pub mfa_factors : Dict Factor
  pub mfa_totp_secrets : Dict Bytes
  pub mfa_webauthn_keys : Dict Bytes
  pub mfa_recovery_hashes : Dict (List Str)
  pub mfa_recovery_consumed : Dict (List Bool)
  pub mfa_active_singleton : Dict Str
  pub mfa_webauthn_by_credential_id : Dict Str
  pub mfa_policies : Dict UserMfaPolicy

pub record PatTables : Type 0 where
  pub pats : Dict PersonalAccessToken
  pub pat_secret_hashes : Dict Str
  pub pat_last_used_persist : Dict Time

pub record Store : Type 0 where
  pub users : Dict User
  pub credential_tables : CredentialTables
  pub open credential_tables use *
  pub session_tables : SessionTables
  pub open session_tables use *
  pub factor_tables : FactorTables
  pub open factor_tables use *
  pub pat_tables : PatTables
  pub open pat_tables use *
