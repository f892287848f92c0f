-- ===== src/Types/Entities.antt =====
-- The dataclasses of types.py: users, credentials, sessions, personal access tokens.
use identity_python.Base.{ℕ, Bool, Option, some, List, ◌*◌}
use identity_python.Base.Text.{Str, codes}
use identity_python.Types.Lifecycle.{Status, CredentialType, PatStatus, password, passkey, oidc}

-- A time, and a length of time, in microseconds.
abbrev pub Time : Type 0
Time = ℕ

abbrev pub seconds : ℕ → Time
seconds n = n * 1_000_000

pub record User : Type 0 where
  pub id : Str
  pub status : Status
  pub created_at : Time
  pub updated_at : Time
  pub display_name : Option Str

-- `User.with_status`
abbrev pub with_status : User → Status → Time → User
with_status u status at = record u { status = status; updated_at = at }

-- What each of the three credential classes adds to the fields that they share.
pub data CredentialDetails : Type 0 where
  password_details : CredentialDetails
  passkey_details : ℕ → Str → CredentialDetails
  oidc_details : Str → Str → CredentialDetails

pub record Credential : Type 0 where
  pub id : Str
  pub usr_id : Str
  pub identifier : Str
  pub status : Status
  pub replaces : Option Str
  pub details : CredentialDetails
  pub created_at : Time
  pub updated_at : Time

abbrev pub details_type : CredentialDetails → CredentialType
details_type password_details = password
details_type (passkey_details _ _) = passkey
details_type (oidc_details _ _) = oidc

-- `cred.type`
abbrev pub credential_type : Credential → CredentialType
credential_type c = details_type c.details

pub record Session : Type 0 where
  pub id : Str
  pub usr_id : Str
  pub cred_id : Str
  pub created_at : Time
  pub expires_at : Time
  pub revoked_at : Option Time

-- `Session.with_revoked_at`
abbrev pub with_revoked_at : Session → Time → Session
with_revoked_at s at = record s { revoked_at = some at }

pub record SessionWithToken : Type 0 where
  pub session : Session
  pub token : Str

pub record VerifiedCredential : Type 0 where
  pub usr_id : Str
  pub cred_id : Str
  pub mfa_required : Bool

pub record Page (A : Type 0) : Type 0 where
  pub items : List A
  pub next_cursor : Option Str

pub record PersonalAccessToken : Type 0 where
  pub id : Str
  pub usr_id : Str
  pub name : Str
  pub scope : List Str
  pub status : PatStatus
  pub created_at : Time
  pub updated_at : Time
  pub expires_at : Option Time
  pub last_used_at : Option Time
  pub revoked_at : Option Time

pub record VerifiedPat : Type 0 where
  pub pat_id : Str
  pub usr_id : Str
  pub scope : List Str

pub record CreatePatResult : Type 0 where
  pub pat : PersonalAccessToken
  pub token : Str

abbrev pub pat_max_lifetime_seconds : ℕ
pat_max_lifetime_seconds = 365 * 24 * 60 * 60

abbrev pub pat_max_secret_length : ℕ
pat_max_secret_length = 256

abbrev pub pat_dummy_phc_hash : Str
pat_dummy_phc_hash =
    codes
      "$argon2id$v=19$m=19456,t=2,p=1$779z4UHkLWR4w0TEo9gcHg$Gz0+nGnpokhsKi1cPlx8i74FBN1Nq0OURZ3xso1AHMU"
