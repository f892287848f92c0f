-- ===== src/Postgres/Rows.antt =====
-- The rows of the tables (tests/postgres-schema.sql) and the `_row_to_*` functions of postgres.py. A
-- column with a CHECK of its values is the enum of them; a column that may be NULL is an option.
use identity_python.Base.{ℕ, Bool, Option, none, some, List, []}
use identity_python.Base.Text.{Str, Bytes, codes}
use identity_python.Factors.Verify.{count_left}
use identity_python.Types.{
  User, Credential, CredentialType, CredentialDetails, Session, Factor, FactorType, FactorStatus,
  FactorDetails, UserMfaPolicy, Status, Time, password, passkey, oidc, password_details,
  passkey_details, oidc_details, totp, webauthn, recovery, totp_details, webauthn_details,
  recovery_details,
}

pub record UsrRow : Type 0 where
  pub id : Str
  pub status : Status
  pub display_name : Option Str
  pub created_at : Time
  pub updated_at : Time

pub record CredRow : Type 0 where
  pub id : Str
  pub usr_id : Str
  pub type : CredentialType
  pub identifier : Str
  pub status : Status
  pub replaces : Option Str
  pub password_hash : Option Str
  pub passkey_public_key : Option Bytes
  pub passkey_sign_count : Option ℕ
  pub passkey_rp_id : Option Str
  pub oidc_issuer : Option Str
  pub oidc_subject : Option Str
  pub created_at : Time
  pub updated_at : Time

pub record SesRow : Type 0 where
  pub id : Str
  pub usr_id : Str
  pub cred_id : Str
  pub created_at : Time
  pub expires_at : Time
  pub revoked_at : Option Time
  pub token_hash : Option Bytes
  pub mfa_verified_at : Option Time

pub record MfaRow : Type 0 where
  pub id : Str
  pub usr_id : Str
  pub type : FactorType
  pub status : FactorStatus
  pub replaces : Option Str
  pub identifier : Option Str
  pub totp_secret : Option Bytes
  pub totp_algorithm : Option Str
  pub totp_digits : Option ℕ
  pub totp_period : Option ℕ
  pub webauthn_public_key : Option Bytes
  pub webauthn_sign_count : Option ℕ
  pub webauthn_rp_id : Option Str
  pub webauthn_aaguid : Option Str
  pub webauthn_transports : Option (List Str)
  pub recovery_hashes : Option (List Str)
  pub recovery_consumed : Option (List Bool)
  pub pending_expires_at : Option Time
  pub created_at : Time
  pub updated_at : Time

pub record PolicyRow : Type 0 where
  pub usr_id : Str
  pub required : Bool
  pub grace_until : Option Time
  pub updated_at : Time

-- The functions of the package `flametrench_ids`: `decode(wire_id).uuid`, `none` where it raises,
-- and `encode(prefix, uuid)`.
pub record Ids : Type 0 where
  pub decode : Str → Option Str
  pub encode : Str → Str → Str

-- `value or default`
abbrev pub or_default : {A : Type 0} → Option A → A → A
or_default none d = d
or_default (some a) d = a

abbrev pub map_option : {A B : Type 0} → (A → B) → Option A → Option B
map_option f none = none
map_option f (some a) = some (f a)

-- The details of the three credential classes, from the columns of each.
abbrev pub cred_details : CredentialType → CredRow → CredentialDetails
cred_details password row = password_details
cred_details passkey row =
    passkey_details (or_default row.passkey_sign_count 0) (or_default row.passkey_rp_id [])
cred_details oidc row =
    oidc_details (or_default row.oidc_issuer []) (or_default row.oidc_subject [])

-- The details of the three factor classes.
abbrev pub mfa_details : FactorType → MfaRow → FactorDetails
mfa_details totp row = totp_details (or_default row.identifier [])
mfa_details webauthn row =
    webauthn_details (or_default row.identifier []) (or_default row.webauthn_rp_id [])
      (or_default row.webauthn_sign_count 0)
mfa_details recovery row = recovery_details (count_left (or_default row.recovery_consumed []))

module _ (ids : Ids) where
  -- `_row_to_user`
  unfoldable pub row_to_user : UsrRow → User
  row_to_user row = record {
    id = ids.encode (codes "usr") row.id;
    status = row.status;
    created_at = row.created_at;
    updated_at = row.updated_at;
    display_name = row.display_name;
  }

  -- `_row_to_cred`
  unfoldable pub row_to_cred : CredRow → Credential
  row_to_cred row = record {
    id = ids.encode (codes "cred") row.id;
    usr_id = ids.encode (codes "usr") row.usr_id;
    identifier = row.identifier;
    status = row.status;
    replaces = map_option (ids.encode (codes "cred")) row.replaces;
    details = cred_details row.type row;
    created_at = row.created_at;
    updated_at = row.updated_at;
  }

  -- `_row_to_session`
  unfoldable pub row_to_session : SesRow → Session
  row_to_session row = record {
    id = ids.encode (codes "ses") row.id;
    usr_id = ids.encode (codes "usr") row.usr_id;
    cred_id = ids.encode (codes "cred") row.cred_id;
    created_at = row.created_at;
    expires_at = row.expires_at;
    revoked_at = row.revoked_at;
  }

  -- `_row_to_factor`
  unfoldable pub row_to_factor : MfaRow → Factor
  row_to_factor row = record {
    id = ids.encode (codes "mfa") row.id;
    usr_id = ids.encode (codes "usr") row.usr_id;
    status = row.status;
    replaces = map_option (ids.encode (codes "mfa")) row.replaces;
    details = mfa_details row.type row;
    created_at = row.created_at;
    updated_at = row.updated_at;
  }

  -- `_row_to_policy`
  unfoldable pub row_to_policy : PolicyRow → UserMfaPolicy
  row_to_policy row = record {
    usr_id = ids.encode (codes "usr") row.usr_id;
    required = row.required;
    grace_until = row.grace_until;
    updated_at = row.updated_at;
  }
