-- ===== src/Tests/Data.antt =====
-- The data of the tests: hash functions that keep their argument, and a store with two users, a
-- password each, two sessions, an access token and TOTP factors.
use identity_python.Base.{true, none, some, [], ◌∷◌, decide, false}
use identity_python.Base.Text.{codes, str_discrete}
use identity_python.Credentials.Entries.{new_credential}
use identity_python.Invariant.Calls.{Environment}
use identity_python.Primitives.{Hashes}
use identity_python.Recovery.{UnicodeTables}
use identity_python.Tables.{Store}
use identity_python.Totp.{TotpLibraries}
use identity_python.Types.{
  User, Credential, Session, Factor, FactorStatus, Status, PersonalAccessToken, PatStatus,
  password_details, totp_details,
}
use identity_python.WebAuthn.{Libraries, object, text}

abbrev pub hashes : Hashes
hashes = record {
  sha256_hex = λ b. b;
  argon2_hash = λ salt p. p;
  argon2_verify = λ phc p. decide (str_discrete phc p);
}

-- A digest whose truncation is zero: every code is `000000`.
abbrev pub totp_libraries : TotpLibraries
totp_libraries = record {
  hmac_digest = λ secret message algorithm. 0 ∷ 0 ∷ 0 ∷ 0 ∷ 0 ∷ [];
  unicode_digit = λ c. false;
}

-- Every client data is for the challenge `AAAA` of the origin `o`.
abbrev pub libraries : Libraries
libraries = record {
  sha256 = λ b. b;
  load_json = λ b. some (
      object (
        (codes "type", text (codes "webauthn.get"))
        ∷ (codes "origin", text (codes "o"))
        ∷ (codes "challenge", text (codes "AAAA"))
        ∷ []));
  urlsafe_b64decode = λ s. some s;
  accepts_key = λ k. true;
  verify_signature = λ k signature signed. true;
}

abbrev pub unicode_tables : UnicodeTables
unicode_tables = record { is_space = λ c. false; upper_char = λ c. c ∷ [] }

abbrev pub environment : Environment
environment = record {
  hashes = hashes;
  totp = totp_libraries;
  webauthn = libraries;
  unicode = unicode_tables;
  b32encode = λ b. b;
  quote = λ s. s;
  upper_text = λ s. s;
}

abbrev pub alice : User
alice = record {
  id = codes "a";
  status = Status.active;
  created_at = 1;
  updated_at = 1;
  display_name = none;
}

abbrev pub bob : User
bob = record alice { id = codes "b" }

abbrev pub alice_password : Credential
alice_password = new_credential (codes "c") (codes "a") (codes "al") none password_details 2

abbrev pub bob_password : Credential
bob_password = new_credential (codes "d") (codes "b") (codes "bo") none password_details 2

abbrev pub alice_session : Session
alice_session = record {
  id = codes "s";
  usr_id = codes "a";
  cred_id = codes "c";
  created_at = 3;
  expires_at = 60_000_003;
  revoked_at = none;
}

abbrev pub bob_session : Session
bob_session = record alice_session { id = codes "t"; usr_id = codes "b"; cred_id = codes "d" }

abbrev pub alice_pat : PersonalAccessToken
alice_pat = record {
  id = codes "p";
  usr_id = codes "a";
  name = codes "ci";
  scope = [];
  status = PatStatus.active;
  created_at = 4;
  updated_at = 4;
  expires_at = none;
  last_used_at = none;
  revoked_at = none;
}

abbrev pub active_totp : Factor
active_totp = record {
  id = codes "f";
  usr_id = codes "a";
  status = FactorStatus.active;
  replaces = none;
  details = totp_details (codes "phone");
  created_at = 5;
  updated_at = 5;
}

abbrev pub pending_totp : Factor
pending_totp = record active_totp { id = codes "g"; status = FactorStatus.pending }

abbrev pub store : Store
store = record {
  users = (codes "a", alice) ∷ (codes "b", bob) ∷ [];
  credential_tables = record {
    credentials = (codes "c", alice_password) ∷ (codes "d", bob_password) ∷ [];
    password_hashes = (codes "c", codes "pw") ∷ (codes "d", codes "pw") ∷ [];
    passkey_public_keys = [];
    active_cred_by_identifier =
        (codes "password|al", codes "c") ∷ (codes "password|bo", codes "d") ∷ [];
  };
  session_tables = record {
    sessions = (codes "s", alice_session) ∷ (codes "t", bob_session) ∷ [];
    session_token_hashes = (codes "s", codes "S") ∷ (codes "t", codes "T") ∷ [];
    session_by_token_hash = (codes "S", codes "s") ∷ (codes "T", codes "t") ∷ [];
  };
  factor_tables = record {
    mfa_factors = (codes "f", active_totp) ∷ (codes "g", pending_totp) ∷ [];
    mfa_totp_secrets = (codes "f", codes "k") ∷ (codes "g", codes "k") ∷ [];
    mfa_webauthn_keys = [];
    mfa_recovery_hashes = [];
    mfa_recovery_consumed = [];
    mfa_active_singleton = (codes "a|totp", codes "f") ∷ [];
    mfa_webauthn_by_credential_id = [];
    mfa_policies = [];
  };
  pat_tables = record {
    pats = (codes "p", alice_pat) ∷ [];
    pat_secret_hashes = (codes "p", codes "x") ∷ [];
    pat_last_used_persist = [];
  };
}
