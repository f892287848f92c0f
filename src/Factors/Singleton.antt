-- ===== src/Factors/Singleton.antt =====
-- Where a user comes to have two active TOTP factors, or an active one that cannot be used.
use identity_python.Base.{◌≡◌, ◌≢◌, ◌≤◌, ◌+◌, arith, some, true}
use identity_python.Base.Dict.{lookup, lookup-insert, lookup-erase}
use identity_python.Base.Text.{Str, Bytes}
use identity_python.Errors.{invalid_credential}
use identity_python.Factors.Confirm.{confirm_totp_factor, timestamp}
use identity_python.Factors.Enroll.{revoke_mfa_factor}
use identity_python.Factors.Entries.{singleton_key, with_factor_status, free_slot}
use identity_python.Factors.Verify.{verify_totp}
use identity_python.Result.{ok, raised}
use identity_python.Tables.{Store}
use identity_python.Totp.{TotpLibraries, totp_verify, default_totp_config}
use identity_python.Types.{Factor, FactorStatus, totp, totp_details, seconds, Time}

-- A confirmation in time, with a code that verifies, makes a pending TOTP factor active and the
-- one of its user that `verify_mfa` looks at; another factor does not change.
pub confirm_totp_factor_effect :
    (lib : TotpLibraries) (mfa_id code : Str) (expiry_now code_now now : Time) (s : Store)
    (f : Factor) (label : Str) (secret : Bytes) (other : Str)
    → lookup mfa_id s.mfa_factors ≡ some f
    → f.details ≡ totp_details label
    → f.status ≡ FactorStatus.pending
    → expiry_now ≤ f.created_at + seconds 600
    → lookup mfa_id s.mfa_totp_secrets ≡ some secret
    → totp_verify lib secret code default_totp_config (timestamp code_now) 1 ≡ ok true
    → mfa_id ≢ other
    → let (r, s') = confirm_totp_factor lib mfa_id code expiry_now code_now now s in
      (r ≡ ok (with_factor_status f FactorStatus.active now))
      × (lookup mfa_id s'.mfa_factors ≡ some (with_factor_status f FactorStatus.active now))
      × (lookup (singleton_key f.usr_id totp) s'.mfa_active_singleton ≡ some mfa_id)
      × (lookup other s'.mfa_factors ≡ lookup other s.mfa_factors)
unfolding confirm_totp_factor
confirm_totp_factor_effect lib mfa_id code expiry_now code_now now s f label secret other found
      is_totp pending in_time kept verified ne =
    (
      ground arith,
      ground (
        arith,
        lookup-insert mfa_id mfa_id (with_factor_status f FactorStatus.active now) s.mfa_factors,
      ),
      ground (
        arith,
        lookup-insert (singleton_key f.usr_id totp) (singleton_key f.usr_id totp) mfa_id
            s.mfa_active_singleton,
      ),
      ground (
        arith,
        lookup-insert mfa_id other (with_factor_status f FactorStatus.active now) s.mfa_factors,
      ),
    )

-- A confirmation that returns leaves every active factor active: a TOTP factor of the same user
-- stays active beside the new one, and the slot names the new one.
pub confirm_totp_factor_two_active :
    (lib : TotpLibraries) (mfa_id first_id code : Str) (expiry_now code_now now : Time)
    (s s' : Store) (f g first : Factor)
    → lookup mfa_id s.mfa_factors ≡ some f
    → lookup first_id s.mfa_factors ≡ some first
    → first.status ≡ FactorStatus.active
    → confirm_totp_factor lib mfa_id code expiry_now code_now now s ≡ (ok g, s')
    → (lookup first_id s'.mfa_factors ≡ some first)
      × (lookup mfa_id s'.mfa_factors ≡ some g)
      × (g.status ≡ FactorStatus.active)
      × (lookup (singleton_key f.usr_id totp) s'.mfa_active_singleton ≡ some mfa_id)
unfolding confirm_totp_factor
confirm_totp_factor_two_active lib mfa_id first_id code expiry_now code_now now s s' f g first found
      other active e =
    grind (arith, lookup-insert)

-- To revoke a TOTP factor that is pending frees the slot of its user: another factor that is
-- active stays active, and every TOTP code for the user is refused.
pub revoke_mfa_factor_frees_slot :
    (lib : TotpLibraries) (mfa_id active_id code : Str) (now code_now later : Time) (s : Store)
    (f g : Factor) (label : Str)
    → mfa_id ≢ active_id
    → lookup mfa_id s.mfa_factors ≡ some f
    → f.status ≡ FactorStatus.pending
    → f.details ≡ totp_details label
    → lookup active_id s.mfa_factors ≡ some g
    → g.status ≡ FactorStatus.active
    → let s' = (revoke_mfa_factor mfa_id now s).1 in
      (lookup active_id s'.mfa_factors ≡ some g)
      × (verify_totp lib f.usr_id code code_now later s' ≡ (raised invalid_credential, s'))
unfolding revoke_mfa_factor verify_totp free_slot
revoke_mfa_factor_frees_slot lib mfa_id active_id code now code_now later s f g label ne found
      pending is_totp other active =
    grind (arith, lookup-insert, lookup-erase)
