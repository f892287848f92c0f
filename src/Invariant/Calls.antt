-- ===== src/Invariant/Calls.antt =====
-- Every call that can change the store, as one data type, and the stores that calls lead to from
-- the empty one.
use identity_python.Base.{ℕ, ◌≡◌, none, Bool, Option, List, []}
use identity_python.Base.Dict.{lookup}
use identity_python.Base.Text.{Str, Bytes}
use identity_python.Credentials.Change.{suspend_credential, reinstate_credential, revoke_credential}
use identity_python.Credentials.Create.{
  create_password_credential, create_passkey_credential, create_oidc_credential,
}
use identity_python.Credentials.Rotate.{rotate_password, rotate_passkey, rotate_oidc}
use identity_python.Factors.Confirm.{Response, confirm_totp_factor, confirm_webauthn_factor}
use identity_python.Factors.Enroll.{
  enroll_totp_factor, enroll_webauthn_factor, enroll_recovery_factor, revoke_mfa_factor,
  set_mfa_policy,
}
use identity_python.Factors.Verify.{verify_totp, verify_webauthn, verify_recovery}
use identity_python.Pats.{create_pat, verify_pat_token, revoke_pat}
use identity_python.Primitives.{Hashes, hash_token}
use identity_python.Recovery.{UnicodeTables}
use identity_python.Sessions.{create_session, refresh_session, revoke_session}
use identity_python.Sessions.Invariant.{IsFresh}
use identity_python.Tables.{Store}
use identity_python.Totp.{TotpLibraries}
use identity_python.Types.{Time, WebAuthnProof}
use identity_python.Users.{
  Update, create_user, update_user, suspend_user, reinstate_user, revoke_user,
}
use identity_python.WebAuthn.{Libraries}

-- `InMemoryIdentityStore.__init__`
unfoldable pub empty : Store
empty = record {
  users = [];
  credential_tables = record {
    credentials = [];
    password_hashes = [];
    passkey_public_keys = [];
    active_cred_by_identifier = [];
  };
  session_tables = record { sessions = []; session_token_hashes = []; session_by_token_hash = [] };
  factor_tables = record {
    mfa_factors = [];
    mfa_totp_secrets = [];
    mfa_webauthn_keys = [];
    mfa_recovery_hashes = [];
    mfa_recovery_consumed = [];
    mfa_active_singleton = [];
    mfa_webauthn_by_credential_id = [];
    mfa_policies = [];
  };
  pat_tables = record { pats = []; pat_secret_hashes = []; pat_last_used_persist = [] };
}

-- The functions of other packages that the calls use.
pub record Environment : Type 0 where
  pub hashes : Hashes
  pub totp : TotpLibraries
  pub webauthn : Libraries
  pub unicode : UnicodeTables
  pub b32encode : Bytes → Str
  pub quote : Str → Str
  pub upper_text : Str → Str

-- A step from a store to the store that a call leaves, whether it returned or raised. The ids and
-- the token hashes that are generated are new where the call stores them.
module _ (env : Environment) where
  pub data Step (s : Store) : Store → Type 0 where
    creates_user :
        (name : Option Str) (now : Time) (usr_id : Str) → Step s (create_user name now usr_id s).1
    updates_user :
        (usr_id : Str) (name : Update) (now : Time) → Step s (update_user usr_id name now s).1
    suspends_user :
        (usr_id : Str) (now cascade_now : Time) → Step s (suspend_user usr_id now cascade_now s).1
    reinstates_user : (usr_id : Str) (now : Time) → Step s (reinstate_user usr_id now s).1
    revokes_user :
        (usr_id : Str) (now cascade_now : Time) → Step s (revoke_user usr_id now cascade_now s).1
    creates_password :
        (usr_id identifier plaintext : Str) (now : Time) (cred_id salt : Str)
        → lookup cred_id s.credentials ≡ none
        → Step s
            (create_password_credential env.hashes usr_id identifier plaintext now cred_id salt s).1
    creates_passkey :
        (usr_id identifier : Str) (key : Bytes) (sign_count : ℕ) (rp_id : Str) (now : Time)
        (cred_id : Str)
        → lookup cred_id s.credentials ≡ none
        → Step s (create_passkey_credential usr_id identifier key sign_count rp_id now cred_id s).1
    creates_oidc :
        (usr_id identifier issuer subject : Str) (now : Time) (cred_id : Str)
        → lookup cred_id s.credentials ≡ none
        → Step s (create_oidc_credential usr_id identifier issuer subject now cred_id s).1
    rotates_password :
        (cred_id plaintext : Str) (now cascade_now : Time) (new_id salt : Str)
        → lookup new_id s.credentials ≡ none
        → Step s (rotate_password env.hashes cred_id plaintext now cascade_now new_id salt s).1
    rotates_passkey :
        (cred_id : Str) (key : Bytes) (sign_count : ℕ) (rp_id : Str) (now cascade_now : Time)
        (new_id : Str)
        → lookup new_id s.credentials ≡ none
        → Step s (rotate_passkey cred_id key sign_count rp_id now cascade_now new_id s).1
    rotates_oidc :
        (cred_id issuer subject : Str) (now cascade_now : Time) (new_id : Str)
        → lookup new_id s.credentials ≡ none
        → Step s (rotate_oidc cred_id issuer subject now cascade_now new_id s).1
    suspends_credential :
        (cred_id : Str) (now cascade_now : Time)
        → Step s (suspend_credential cred_id now cascade_now s).1
    reinstates_credential :
        (cred_id : Str) (now : Time) → Step s (reinstate_credential cred_id now s).1
    revokes_credential :
        (cred_id : Str) (now cascade_now : Time)
        → Step s (revoke_credential cred_id now cascade_now s).1
    creates_session :
        (usr_id cred_id : Str) (ttl : ℕ) (now : Time) (token ses_id : Str)
        → IsFresh ses_id (hash_token env.hashes token) s.session_tables
        → Step s (create_session env.hashes usr_id cred_id ttl now token ses_id s).1
    refreshes_session :
        (old_id : Str) (check_now now : Time) (token ses_id : Str)
        → IsFresh ses_id (hash_token env.hashes token) s.session_tables
        → Step s (refresh_session env.hashes old_id check_now now token ses_id s).1
    revokes_session : (ses_id : Str) (now : Time) → Step s (revoke_session ses_id now s).1
    enrolls_totp :
        (usr_id identifier : Str) (now : Time) (secret : Bytes) (mfa_id : Str)
        → Step s
            (enroll_totp_factor env.b32encode env.quote env.upper_text usr_id identifier now secret
              mfa_id s).1
    enrolls_webauthn :
        (usr_id identifier : Str) (key : Bytes) (sign_count : ℕ) (rp_id : Str) (now : Time)
        (mfa_id : Str)
        → Step s (enroll_webauthn_factor usr_id identifier key sign_count rp_id now mfa_id s).1
    enrolls_recovery :
        (usr_id : Str) (now : Time) (salted : List (Str × Str)) (mfa_id : Str)
        → Step s (enroll_recovery_factor env.hashes usr_id now salted mfa_id s).1
    confirms_totp :
        (mfa_id code : Str) (expiry_now code_now now : Time)
        → Step s (confirm_totp_factor env.totp mfa_id code expiry_now code_now now s).1
    confirms_webauthn :
        (mfa_id : Str) (response : Response) (expiry_now now : Time)
        → Step s (confirm_webauthn_factor env.webauthn mfa_id response expiry_now now s).1
    revokes_factor : (mfa_id : Str) (now : Time) → Step s (revoke_mfa_factor mfa_id now s).1
    verifies_totp :
        (usr_id code : Str) (code_now now : Time)
        → Step s (verify_totp env.totp usr_id code code_now now s).1
    verifies_webauthn :
        (usr_id : Str) (proof : WebAuthnProof) (update_now now : Time)
        → Step s (verify_webauthn env.webauthn usr_id proof update_now now s).1
    verifies_recovery :
        (usr_id code : Str) (update_now now : Time)
        → Step s (verify_recovery env.hashes env.unicode usr_id code update_now now s).1
    sets_policy :
        (usr_id : Str) (required : Bool) (grace_until : Option Time) (now : Time)
        → Step s (set_mfa_policy usr_id required grace_until now s).1
    creates_pat :
        (usr_id name : Str) (scope : List Str) (expires_at : Option Time) (now : Time)
        (pat_id secret salt : Str)
        → Step s (create_pat env.hashes usr_id name scope expires_at now pat_id secret salt s).1
    verifies_pat : (token : Str) (now : Time) → Step s (verify_pat_token env.hashes token now s).1
    revokes_pat : (pat_id : Str) (now : Time) → Step s (revoke_pat pat_id now s).1

  pub data Reach (s : Store) : Store → Type 0 where
    here : Reach s s
    next : {t u : Store} → Reach s t → Step t u → Reach s u
