-- ===== src/Postgres/Calls.antt =====
-- The methods of `PostgresIdentityStore` that write, as one data type, and runs of them.
use identity_python.Base.{ℕ, Bool, Option, List, [], ◌∷◌}
use identity_python.Base.Text.{Str, Bytes}
use identity_python.Factors.Confirm.{Response}
use identity_python.Postgres.Query.{Database, Query, pure, ◌>>=◌}
use identity_python.Postgres.Rows.{Ids}
use identity_python.Postgres.Users.{
  create_user, update_user, suspend_user, reinstate_user, revoke_user,
}
use identity_python.Postgres.Credentials.{
  create_password_credential, create_passkey_credential, create_oidc_credential, suspend_credential,
  reinstate_credential, revoke_credential,
}
use identity_python.Postgres.Rotate.{rotate_password, rotate_passkey, rotate_oidc}
use identity_python.Postgres.Sessions.{create_session, refresh_session, revoke_session}
use identity_python.Postgres.Factors.{set_mfa_policy}
use identity_python.Postgres.Factors.Enroll.{
  enroll_totp_factor, enroll_webauthn_factor, enroll_recovery_factor,
}
use identity_python.Postgres.Factors.Confirm.{
  confirm_totp_factor, confirm_webauthn_factor, revoke_mfa_factor,
}
use identity_python.Postgres.Proofs.{verify_mfa}
use identity_python.Primitives.{Hashes}
use identity_python.Recovery.{UnicodeTables}
use identity_python.Totp.{TotpLibraries}
use identity_python.Types.{Time, MfaProof}
use identity_python.Users.{Update}
use identity_python.WebAuthn.{Libraries}

-- The functions of other packages that the methods use.
pub record Packages : Type 0 where
  pub ids : Ids
  pub hashes : Hashes
  pub sha256 : Bytes → Bytes
  pub totp : TotpLibraries
  pub webauthn : Libraries
  pub unicode : UnicodeTables
  pub b32encode : Bytes → Str
  pub quote : Str → Str
  pub upper_text : Str → Str

-- A call, with the readings of the clocks and what is generated among its arguments.
pub data Call : Type 0 where
  creates_user : (name : Option Str) (db_now : Time) (uuid : Str) → Call
  updates_user : (usr_id : Str) (name : Update) (db_now : Time) → Call
  suspends_user : (usr_id : Str) (now db_now : Time) → Call
  reinstates_user : (usr_id : Str) (db_now : Time) → Call
  revokes_user : (usr_id : Str) (now db_now : Time) → Call
  creates_password : (usr_id identifier plaintext : Str) (db_now : Time) (uuid salt : Str) → Call
  creates_passkey :
      (usr_id identifier : Str) (key : Bytes) (sign_count : ℕ) (rp_id : Str) (db_now : Time)
      (uuid : Str)
      → Call
  creates_oidc : (usr_id identifier issuer subject : Str) (db_now : Time) (uuid : Str) → Call
  rotates_password : (cred_id plaintext : Str) (now db_now : Time) (uuid salt : Str) → Call
  rotates_passkey :
      (cred_id : Str) (key : Bytes) (sign_count : ℕ) (rp_id : Str) (now db_now : Time) (uuid : Str)
      → Call
  rotates_oidc : (cred_id issuer subject : Str) (now db_now : Time) (uuid : Str) → Call
  suspends_credential : (cred_id : Str) (now db_now : Time) → Call
  reinstates_credential : (cred_id : Str) (db_now : Time) → Call
  revokes_credential : (cred_id : Str) (now db_now : Time) → Call
  creates_session : (usr_id cred_id : Str) (ttl : ℕ) (now : Time) (token uuid : Str) → Call
  refreshes_session : (ses_id : Str) (now : Time) (token uuid : Str) → Call
  revokes_session : (ses_id : Str) (now : Time) → Call
  enrolls_totp : (usr_id identifier : Str) (now : Time) (secret : Bytes) (uuid : Str) → Call
  enrolls_webauthn :
      (usr_id identifier : Str) (key : Bytes) (sign_count : ℕ) (rp_id : Str) (aaguid : Option Str)
      (transports : Option (List Str)) (now : Time) (uuid : Str)
      → Call
  enrolls_recovery : (usr_id : Str) (now : Time) (salted : List (Str × Str)) (uuid : Str) → Call
  confirms_totp : (mfa_id code : Str) (expiry_now code_now db_now : Time) → Call
  confirms_webauthn : (mfa_id : Str) (response : Response) (expiry_now db_now : Time) → Call
  revokes_factor : (mfa_id : Str) (db_now : Time) → Call
  verifies_mfa : (usr_id : Str) (proof : MfaProof) (code_now now db_now : Time) → Call
  sets_policy : (usr_id : Str) (required : Bool) (grace_until : Option Time) (db_now : Time) → Call

-- the call without what it returns
abbrev pub done : {A : Type 0} → Query A → Query (Unit {0})
done m = m >>= λ a. pure tt

module _ (p : Packages) where
  unfoldable pub run : Call → Query (Unit {0})
  run (Call.creates_user name t i) = done (create_user p.ids name t i)
  run (Call.updates_user u name t) = done (update_user p.ids u name t)
  run (Call.suspends_user u n t) = done (suspend_user p.ids u n t)
  run (Call.reinstates_user u t) = done (reinstate_user p.ids u t)
  run (Call.revokes_user u n t) = done (revoke_user p.ids u n t)
  run (Call.creates_password u i w t c s) =
      done (create_password_credential p.ids p.hashes u i w t c s)
  run (Call.creates_passkey u i k n r t c) = done (create_passkey_credential p.ids u i k n r t c)
  run (Call.creates_oidc u i x y t c) = done (create_oidc_credential p.ids u i x y t c)
  run (Call.rotates_password c w n t i s) = done (rotate_password p.ids p.hashes c w n t i s)
  run (Call.rotates_passkey c k m r n t i) = done (rotate_passkey p.ids c k m r n t i)
  run (Call.rotates_oidc c x y n t i) = done (rotate_oidc p.ids c x y n t i)
  run (Call.suspends_credential c n t) = done (suspend_credential p.ids c n t)
  run (Call.reinstates_credential c t) = done (reinstate_credential p.ids c t)
  run (Call.revokes_credential c n t) = done (revoke_credential p.ids c n t)
  run (Call.creates_session u c l n w i) = done (create_session p.ids p.sha256 u c l n w i)
  run (Call.refreshes_session s n w i) = done (refresh_session p.ids p.sha256 s n w i)
  run (Call.revokes_session s n) = done (revoke_session p.ids s n)
  run (Call.enrolls_totp u i n x m) =
      done (enroll_totp_factor p.ids p.b32encode p.quote p.upper_text u i n x m)
  run (Call.enrolls_webauthn u i k c r g x n m) =
      done (enroll_webauthn_factor p.ids u i k c r g x n m)
  run (Call.enrolls_recovery u n l m) = done (enroll_recovery_factor p.ids p.hashes u n l m)
  run (Call.confirms_totp m c x y t) = done (confirm_totp_factor p.ids p.totp m c x y t)
  run (Call.confirms_webauthn m r x t) = done (confirm_webauthn_factor p.ids p.webauthn m r x t)
  run (Call.revokes_factor m t) = done (revoke_mfa_factor p.ids m t)
  run (Call.verifies_mfa u f x y t) =
      done (verify_mfa p.ids p.hashes p.unicode p.totp p.webauthn u f x y t)
  run (Call.sets_policy u r g t) = done (set_mfa_policy p.ids u r g t)

  -- one call after the other, whether they return or raise
  unfoldable pub run_all : List Call → Database → Database
  run_all [] db = db
  run_all (c ∷ cs) db = run_all cs (run c db).1

-- The tables of a new database.
abbrev pub no_rows : Database
no_rows = record { usr = []; cred = []; ses = []; mfa = []; usr_mfa_policy = [] }
