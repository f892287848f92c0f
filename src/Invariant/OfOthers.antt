-- ===== src/Invariant/OfOthers.antt =====
-- The operations on personal access tokens and on factors leave users, credentials and sessions
-- alone.
use identity_python.Base.{
  ℕ, ◌≡◌, refl, ◌∙◌, ap, arith, Option, none, some, Bool, true, false, List, [], ◌∷◌, suc, take,
  drop,
}
use identity_python.Base.Text.{Str, Bytes}
use identity_python.Exec.{Exec, ◌>>=◌}
use identity_python.Factors.Confirm.{Response, confirm_totp_factor, confirm_webauthn_factor}
use identity_python.Factors.Enroll.{
  enroll_totp_factor, enroll_webauthn_factor, enroll_recovery_factor, hash_codes, revoke_mfa_factor,
  set_mfa_policy,
}
use identity_python.Factors.Verify.{match_slots, verify_totp, verify_webauthn, verify_recovery}
use identity_python.Invariant.Defs.{IsSound}
use identity_python.Pats.{
  create_pat, verify_pat_token, revoke_pat, check_expiry, reject_token, find_pat, check_wire,
  verify_secret, verify_parts,
}
use identity_python.Primitives.{Hashes, hash_password, verify_password_hash}
use identity_python.Result.{Result, ok, raised}
use identity_python.Recovery.{UnicodeTables}
use identity_python.Tables.{Store}
use identity_python.Totp.{TotpLibraries}
use identity_python.Types.{Time, PersonalAccessToken, WebAuthnProof}
use identity_python.WebAuthn.{Libraries}

-- the two states agree on users, credentials and sessions
abbrev pub SameCore : Store → Store → Type 0
SameCore s s' =
    (s'.credential_tables ≡ s.credential_tables)
    × (s'.session_tables ≡ s.session_tables)
    × (s'.users ≡ s.users)

pub SameCore-IsSound : {s s' : Store} → SameCore s s' → IsSound s → IsSound s'
SameCore-IsSound (c, d, u) v = record {
  credentials = rw c v.credentials;
  sessions = rw d v.sessions;
}

pub unchanged : {s s' : Store} → s' ≡ s → SameCore s s'
unchanged e = (ap (λ s. s.credential_tables) e, ap (λ s. s.session_tables) e, ap (λ s. s.users) e)

-- The rule of a sequence of two calls.
pub bind-SameCore :
    {A B : Type 0} (m : Exec A) (k : A → Exec B) (s : Store)
    → SameCore s (m s).1
    → ((a : A) (t : Store) → SameCore t (k a t).1)
    → SameCore s ((m >>= k) s).1
bind-SameCore {A} {B} m k s first next = go (m s) first
  where
    go : (p : Result A × Store) → SameCore s p.1 → SameCore s (((λ _. p) >>= k) s).1
    go (ok a, t) (c, d, u) = let (c', d', u') = next a t in (c' ∙ c, d' ∙ d, u' ∙ u)
    go (raised x, t) e = e

module _ (h : Hashes) where
  pub match_slots-state :
      (code : Str) (hashes : List Str) (consumed : List Bool) (i : ℕ) (m : Option ℕ) (s : Store)
      → (match_slots h code hashes consumed i m s).1 ≡ s
  unfolding match_slots verify_password_hash
  match_slots-state code [] consumed i m s = refl
  match_slots-state code (p ∷ hashes) [] i m s = refl
  match_slots-state code (p ∷ hashes) (true ∷ consumed) i m s =
      match_slots-state code hashes consumed (suc i) m s
  match_slots-state code (p ∷ hashes) (false ∷ consumed) i m s =
      grind (arith, match_slots-state code hashes consumed (suc i))

  pub hash_codes-state : (l : List (Str × Str)) (s : Store) → (hash_codes h l s).1 ≡ s
  unfolding hash_codes hash_password
  hash_codes-state [] s = refl
  hash_codes-state ((salt, code) ∷ l) s = ground (arith, hash_codes-state l s)

  pub create_pat-SameCore :
      (usr_id name : Str) (scope : List Str) (expires_at : Option Time) (now : Time)
      (pat_id secret salt : Str) (s : Store)
      → SameCore s (create_pat h usr_id name scope expires_at now pat_id secret salt s).1
  unfolding create_pat check_expiry hash_password
  create_pat-SameCore usr_id name scope none now pat_id secret salt s = ground arith
  create_pat-SameCore usr_id name scope (some e) now pat_id secret salt s = ground arith

  pub check_wire-state : (token : Str) (s : Store) → (check_wire h token s).1 ≡ s
  unfolding check_wire verify_password_hash
  check_wire-state token s = ground arith

  pub find_pat-state : (pat_id secret : Str) (s : Store) → (find_pat h pat_id secret s).1 ≡ s
  unfolding find_pat reject_token verify_password_hash
  find_pat-state pat_id secret s = ground arith

  verify_secret-SameCore :
      (pat_id secret : Str) (now : Time) (p : PersonalAccessToken) (s : Store)
      → SameCore s (verify_secret h pat_id secret now p s).1
  unfolding verify_secret verify_password_hash
  verify_secret-SameCore pat_id secret now p s = ground arith

  verify_parts-SameCore :
      (pat_id secret : Str) (now : Time) (s : Store)
      → SameCore s (verify_parts h pat_id secret now s).1
  unfolding verify_parts
  verify_parts-SameCore pat_id secret now s =
      bind-SameCore (find_pat h pat_id secret) (verify_secret h pat_id secret now) s
        (unchanged (find_pat-state pat_id secret s)) (verify_secret-SameCore pat_id secret now)

  pub verify_pat_token-SameCore :
      (token : Str) (now : Time) (s : Store) → SameCore s (verify_pat_token h token now s).1
  unfolding verify_pat_token
  verify_pat_token-SameCore token now s =
      bind-SameCore (check_wire h token) (λ _. verify_parts h (take 36 token) (drop 37 token) now) s
        (unchanged (check_wire-state token s))
        (λ _. verify_parts-SameCore (take 36 token) (drop 37 token) now)

  module _ (u : UnicodeTables) where
    pub verify_recovery-SameCore :
        (usr_id code : Str) (a b : Time) (s : Store)
        → SameCore s (verify_recovery h u usr_id code a b s).1
    unfolding verify_recovery
    verify_recovery-SameCore usr_id code a b s = grind (arith, match_slots-state)

pub revoke_pat-SameCore :
    (pat_id : Str) (now : Time) (s : Store) → SameCore s (revoke_pat pat_id now s).1
unfolding revoke_pat
revoke_pat-SameCore pat_id now s = ground arith

pub enroll_totp_factor-SameCore :
    (b32encode : Bytes → Str) (quote upper : Str → Str) (usr_id identifier : Str) (now : Time)
    (secret : Bytes) (mfa_id : Str) (s : Store)
    → SameCore s (enroll_totp_factor b32encode quote upper usr_id identifier now secret mfa_id s).1
unfolding enroll_totp_factor
enroll_totp_factor-SameCore b32encode quote upper usr_id identifier now secret mfa_id s =
    ground arith

pub enroll_webauthn_factor-SameCore :
    (usr_id identifier : Str) (key : Bytes) (sign_count : ℕ) (rp_id : Str) (now : Time)
    (mfa_id : Str) (s : Store)
    → SameCore s (enroll_webauthn_factor usr_id identifier key sign_count rp_id now mfa_id s).1
unfolding enroll_webauthn_factor
enroll_webauthn_factor-SameCore usr_id identifier key sign_count rp_id now mfa_id s = ground arith

pub enroll_recovery_factor-SameCore :
    (h : Hashes) (usr_id : Str) (now : Time) (salted : List (Str × Str)) (mfa_id : Str) (s : Store)
    → SameCore s (enroll_recovery_factor h usr_id now salted mfa_id s).1
unfolding enroll_recovery_factor
enroll_recovery_factor-SameCore h usr_id now salted mfa_id s =
    ground (arith, hash_codes-state h salted s)

pub revoke_mfa_factor-SameCore :
    (mfa_id : Str) (now : Time) (s : Store) → SameCore s (revoke_mfa_factor mfa_id now s).1
unfolding revoke_mfa_factor
revoke_mfa_factor-SameCore mfa_id now s = ground arith

pub set_mfa_policy-SameCore :
    (usr_id : Str) (required : Bool) (grace : Option Time) (now : Time) (s : Store)
    → SameCore s (set_mfa_policy usr_id required grace now s).1
unfolding set_mfa_policy
set_mfa_policy-SameCore usr_id required grace now s = ground arith

pub confirm_totp_factor-SameCore :
    (lib : TotpLibraries) (mfa_id code : Str) (a b c : Time) (s : Store)
    → SameCore s (confirm_totp_factor lib mfa_id code a b c s).1
unfolding confirm_totp_factor
confirm_totp_factor-SameCore lib mfa_id code a b c s = ground arith

pub confirm_webauthn_factor-SameCore :
    (lib : Libraries) (mfa_id : Str) (r : Response) (a b : Time) (s : Store)
    → SameCore s (confirm_webauthn_factor lib mfa_id r a b s).1
unfolding confirm_webauthn_factor
confirm_webauthn_factor-SameCore lib mfa_id r a b s = ground arith

pub verify_totp-SameCore :
    (lib : TotpLibraries) (usr_id code : Str) (a b : Time) (s : Store)
    → SameCore s (verify_totp lib usr_id code a b s).1
unfolding verify_totp
verify_totp-SameCore lib usr_id code a b s = ground arith

pub verify_webauthn-SameCore :
    (lib : Libraries) (usr_id : Str) (p : WebAuthnProof) (a b : Time) (s : Store)
    → SameCore s (verify_webauthn lib usr_id p a b s).1
unfolding verify_webauthn
verify_webauthn-SameCore lib usr_id p a b s = ground arith
