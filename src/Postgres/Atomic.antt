-- ===== src/Postgres/Atomic.antt =====
-- What a method of `PostgresIdentityStore` leaves when it raises.
use identity_python.Base.{◌≡◌, refl, arith, none, List, [], ◌∷◌, Bool, ◌∙◌}
use identity_python.Base.Text.{Str, Bytes}
use identity_python.Errors.{Error, invalid_credential}
use identity_python.Result.{Result, ok, raised}
use identity_python.Postgres.Query.{
  Database, Query, pure, transaction, with_duplicate, ◌>>=◌, wire_to_uuid, raise_if, raise_unless,
}
use identity_python.Postgres.Rows.{Ids}
use identity_python.Postgres.Users.{
  create_user, update_user, suspend_user, reinstate_user, revoke_user, ensure_user_active,
}
use identity_python.Postgres.Credentials.{
  create_password_credential, create_passkey_credential, create_oidc_credential, suspend_credential,
  reinstate_credential, revoke_credential, stored_cred, hash_text, password_row,
}
use identity_python.Postgres.Rotate.{rotate_password, rotate_passkey, rotate_oidc}
use identity_python.Postgres.Sessions.{create_session, refresh_session, revoke_session}
use identity_python.Postgres.Factors.{set_mfa_policy, hash_texts}
use identity_python.Postgres.Factors.Enroll.{
  enroll_totp_factor, enroll_webauthn_factor, enroll_recovery_factor,
}
use identity_python.Postgres.Factors.Confirm.{
  confirm_totp_factor, confirm_webauthn_factor, revoke_mfa_factor,
}
use identity_python.Postgres.Proofs.{
  verify_mfa, verify_totp_proof, verify_webauthn_proof, verify_recovery_proof,
}
use identity_python.Postgres.Calls.{Packages, Call, run, done}
use identity_python.Types.{totp_proof, webauthn_proof, recovery_proof, Time}
use identity_python.Postgres.Writes.{insert_mfa}
use identity_python.Totp.{TotpLibraries}
use identity_python.Recovery.{UnicodeTables, is_valid_recovery_code, normalize_recovery_input}
use identity_python.Primitives.{Hashes}

-- Where the query raises, the database is as it was.
abbrev pub IsAtomic : {A : Type 0} → Query A → Type 0
IsAtomic m = (db : Database) (e : Error) → (m db).0 ≡ raised e → (m db).1 ≡ db

-- The query only reads.
abbrev pub IsReading : {A : Type 0} → Query A → Type 0
IsReading m = (db : Database) → (m db).1 ≡ db

transaction-IsAtomic : {A : Type 0} (m : Query A) → IsAtomic (transaction m)
unfolding transaction
transaction-IsAtomic {A} m db e = go (m db)
  where
    go :
        (r : Result A × Database)
        → (transaction (λ _. r) db).0 ≡ raised e
        → (transaction (λ _. r) db).1 ≡ db
    go (ok a, t) h = cc
    go (raised x, t) h = refl

with_duplicate-IsAtomic :
    {A : Type 0} (x : Error) (m : Query A) → IsAtomic m → IsAtomic (with_duplicate x m)
unfolding with_duplicate
with_duplicate-IsAtomic {A} x m h db e = go (m db) (h db)
  where
    go :
        (r : Result A × Database)
        → ((y : Error) → r.0 ≡ raised y → r.1 ≡ db)
        → (with_duplicate x (λ _. r) db).0 ≡ raised e
        → (with_duplicate x (λ _. r) db).1 ≡ db
    go (ok a, t) g p = cc
    go (raised y, t) g p = g y refl

module _ {A B : Type 0} (m : Query A) (k : A → Query B) where
  pub bind-IsReading : IsReading m → ((a : A) → IsReading (k a)) → IsReading (m >>= k)
  bind-IsReading f g db = go (m db) (f db)
    where
      go : (r : Result A × Database) → r.1 ≡ db → (((λ _. r) >>= k) db).1 ≡ db
      go (ok a, t) p = g a t ∙ p
      go (raised x, t) p = p

  -- A query that reads, and then one that is atomic.
  bind-IsAtomic : IsReading m → ((a : A) → IsAtomic (k a)) → IsAtomic (m >>= k)
  bind-IsAtomic f g db e = go (m db) (f db)
    where
      go :
          (r : Result A × Database)
          → r.1 ≡ db
          → (((λ _. r) >>= k) db).0 ≡ raised e
          → (((λ _. r) >>= k) db).1 ≡ db
      go (ok a, t) p h = g a t e h ∙ p
      go (raised x, t) p h = p

-- A query that is atomic, and then a value of what it returned.
bind_pure-IsAtomic :
    {A B : Type 0} (m : Query A) (f : A → B) → IsAtomic m → IsAtomic (m >>= λ a. pure (f a))
bind_pure-IsAtomic {A} {B} m f h db e = go (m db) (h db)
  where
    go :
        (r : Result A × Database)
        → ((y : Error) → r.0 ≡ raised y → r.1 ≡ db)
        → (((λ _. r) >>= λ a. pure (f a)) db).0 ≡ raised e
        → (((λ _. r) >>= λ a. pure (f a)) db).1 ≡ db
    go (ok a, t) g p = absurd (ground arith)
    go (raised y, t) g p = g y refl

done-IsAtomic : {A : Type 0} (m : Query A) → IsAtomic m → IsAtomic (done m)
done-IsAtomic m h = bind_pure-IsAtomic m (λ a. tt) h

pub ensure_user_active-IsReading :
    (ids : Ids) (usr_id : Str) → IsReading (ensure_user_active ids usr_id)
unfolding ensure_user_active
ensure_user_active-IsReading ids usr_id db = ground arith

hash_text-IsReading : (h : Hashes) (salt plaintext : Str) → IsReading (hash_text h salt plaintext)
hash_text-IsReading h salt plaintext db = ground arith

pub hash_texts-IsReading : (h : Hashes) (l : List (Str × Str)) → IsReading (hash_texts h l)
unfolding hash_texts
hash_texts-IsReading h [] db = refl
hash_texts-IsReading h ((salt, code) ∷ l) db = ground (
  arith,
  hash_texts-IsReading h l (hash_text h salt code db).1,
  hash_text-IsReading h salt code db,
)

wire_to_uuid-IsReading : (ids : Ids) (i : Str) → IsReading (wire_to_uuid ids i)
wire_to_uuid-IsReading ids i db = ground arith

raise_if-IsReading : (b : Bool) (e : Error) → IsReading (raise_if b e)
raise_if-IsReading b e db = ground arith

stored_cred-IsAtomic : (ids : Ids) (row : _) → IsAtomic (stored_cred ids row)
unfolding stored_cred
stored_cred-IsAtomic ids row = with_duplicate-IsAtomic _ _ (transaction-IsAtomic _)

create_password_credential-IsAtomic :
    (ids : Ids) (h : Hashes) (usr_id identifier plaintext : Str) (db_now : Time) (uuid salt : Str)
    → IsAtomic (create_password_credential ids h usr_id identifier plaintext db_now uuid salt)
unfolding create_password_credential
create_password_credential-IsAtomic ids h usr_id identifier plaintext db_now uuid salt =
    bind-IsAtomic (ensure_user_active ids usr_id) _ (ensure_user_active-IsReading ids usr_id)
      (λ usr_uuid.
        bind-IsAtomic (hash_text h salt plaintext) _ (hash_text-IsReading h salt plaintext)
          (λ phc. stored_cred-IsAtomic ids (password_row uuid usr_uuid identifier none phc db_now)))

enroll_totp_factor-IsAtomic :
    (ids : Ids) (b32encode : Bytes → Str) (quote upper : Str → Str) (usr_id identifier : Str)
    (now : Time) (secret : Bytes) (uuid : Str)
    → IsAtomic (enroll_totp_factor ids b32encode quote upper usr_id identifier now secret uuid)
unfolding enroll_totp_factor ensure_user_active transaction insert_mfa
enroll_totp_factor-IsAtomic ids b32encode quote upper usr_id identifier now secret uuid db e h =
    ground arith

enroll_recovery_factor-IsAtomic :
    (ids : Ids) (h : Hashes) (usr_id : Str) (now : Time) (salted : List (Str × Str)) (uuid : Str)
    → IsAtomic (enroll_recovery_factor ids h usr_id now salted uuid)
unfolding enroll_recovery_factor
enroll_recovery_factor-IsAtomic ids h usr_id now salted uuid =
    bind-IsAtomic (ensure_user_active ids usr_id) _ (ensure_user_active-IsReading ids usr_id)
      (λ usr_uuid.
        bind-IsAtomic (hash_texts h salted) _ (hash_texts-IsReading h salted)
          (λ hashes. with_duplicate-IsAtomic _ _ (transaction-IsAtomic _)))

pub verify_totp_proof-IsReading :
    (ids : Ids) (lib : TotpLibraries) (usr_id code : Str) (code_now now : Time)
    → IsReading (verify_totp_proof ids lib usr_id code code_now now)
unfolding verify_totp_proof
verify_totp_proof-IsReading ids lib usr_id code code_now now db = ground arith

verify_recovery_proof-IsAtomic :
    (ids : Ids) (h : Hashes) (u : UnicodeTables) (usr_id code : Str) (now db_now : Time)
    → IsAtomic (verify_recovery_proof ids h u usr_id code now db_now)
unfolding verify_recovery_proof
verify_recovery_proof-IsAtomic ids h u usr_id code now db_now =
    bind-IsAtomic
      (raise_unless (is_valid_recovery_code (normalize_recovery_input u code)) invalid_credential) _
      (λ db. ground arith) (λ x. bind_pure-IsAtomic _ _ (transaction-IsAtomic _))

module _ (p : Packages) where
  -- A call that raises leaves the database as it was, whatever it had written before.
  pub run-IsAtomic :
      (c : Call) (db : Database) (e : Error) → (run p c db).0 ≡ raised e → (run p c db).1 ≡ db
  unfolding run create_user update_user suspend_user reinstate_user revoke_user
      create_passkey_credential create_oidc_credential rotate_password rotate_passkey rotate_oidc
      suspend_credential reinstate_credential revoke_credential create_session refresh_session
      revoke_session enroll_webauthn_factor confirm_totp_factor confirm_webauthn_factor
      revoke_mfa_factor set_mfa_policy verify_mfa verify_webauthn_proof
  run-IsAtomic (Call.creates_user name t i) = done-IsAtomic _ (transaction-IsAtomic _)
  run-IsAtomic (Call.updates_user u name t) =
      done-IsAtomic _
        (bind-IsAtomic _ _ (wire_to_uuid-IsReading p.ids u) (λ i. transaction-IsAtomic _))
  run-IsAtomic (Call.suspends_user u n t) = done-IsAtomic _ (transaction-IsAtomic _)
  run-IsAtomic (Call.reinstates_user u t) = done-IsAtomic _ (transaction-IsAtomic _)
  run-IsAtomic (Call.revokes_user u n t) = done-IsAtomic _ (transaction-IsAtomic _)
  run-IsAtomic (Call.creates_password u i w t c s) =
      done-IsAtomic _ (create_password_credential-IsAtomic p.ids p.hashes u i w t c s)
  run-IsAtomic (Call.creates_passkey u i k n r t c) =
      done-IsAtomic _ (
        bind-IsAtomic _ _ (ensure_user_active-IsReading p.ids u)
          (λ x. stored_cred-IsAtomic p.ids _))
  run-IsAtomic (Call.creates_oidc u i x y t c) =
      done-IsAtomic _ (
        bind-IsAtomic _ _ (ensure_user_active-IsReading p.ids u)
          (λ x. stored_cred-IsAtomic p.ids _))
  run-IsAtomic (Call.rotates_password c w n t i s) = done-IsAtomic _ (transaction-IsAtomic _)
  run-IsAtomic (Call.rotates_passkey c k m r n t i) = done-IsAtomic _ (transaction-IsAtomic _)
  run-IsAtomic (Call.rotates_oidc c x y n t i) = done-IsAtomic _ (transaction-IsAtomic _)
  run-IsAtomic (Call.suspends_credential c n t) = done-IsAtomic _ (transaction-IsAtomic _)
  run-IsAtomic (Call.reinstates_credential c t) = done-IsAtomic _ (transaction-IsAtomic _)
  run-IsAtomic (Call.revokes_credential c n t) = done-IsAtomic _ (transaction-IsAtomic _)
  run-IsAtomic (Call.creates_session u c l n w i) =
      done-IsAtomic _ (bind-IsAtomic _ _ (raise_if-IsReading _ _) (λ x. transaction-IsAtomic _))
  run-IsAtomic (Call.refreshes_session s n w i) = done-IsAtomic _ (transaction-IsAtomic _)
  run-IsAtomic (Call.revokes_session s n) =
      done-IsAtomic _
        (bind-IsAtomic _ _ (wire_to_uuid-IsReading p.ids s) (λ i. transaction-IsAtomic _))
  run-IsAtomic (Call.enrolls_totp u i n x m) =
      done-IsAtomic _ (enroll_totp_factor-IsAtomic p.ids p.b32encode p.quote p.upper_text u i n x m)
  run-IsAtomic (Call.enrolls_webauthn u i k c r g x n m) = done-IsAtomic _ (
      bind-IsAtomic _ _ (ensure_user_active-IsReading p.ids u)
        (λ x. with_duplicate-IsAtomic _ _ (transaction-IsAtomic _)))
  run-IsAtomic (Call.enrolls_recovery u n l m) =
      done-IsAtomic _ (enroll_recovery_factor-IsAtomic p.ids p.hashes u n l m)
  run-IsAtomic (Call.confirms_totp m c x y t) = done-IsAtomic _ (transaction-IsAtomic _)
  run-IsAtomic (Call.confirms_webauthn m r x t) = done-IsAtomic _ (transaction-IsAtomic _)
  run-IsAtomic (Call.revokes_factor m t) = done-IsAtomic _ (transaction-IsAtomic _)
  run-IsAtomic (Call.verifies_mfa u (totp_proof c) x y t) =
      done-IsAtomic _ (λ db e h. verify_totp_proof-IsReading p.ids p.totp u c x y db)
  run-IsAtomic (Call.verifies_mfa u (webauthn_proof w) x y t) =
      done-IsAtomic _ (bind_pure-IsAtomic _ _ (transaction-IsAtomic _))
  run-IsAtomic (Call.verifies_mfa u (recovery_proof c) x y t) =
      done-IsAtomic _ (verify_recovery_proof-IsAtomic p.ids p.hashes p.unicode u c y t)
  run-IsAtomic (Call.sets_policy u r g t) =
      done-IsAtomic _
        (bind-IsAtomic _ _ (wire_to_uuid-IsReading p.ids u) (λ i. transaction-IsAtomic _))
