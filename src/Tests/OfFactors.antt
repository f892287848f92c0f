-- ===== src/Tests/OfFactors.antt =====
-- The operations on TOTP factors at concrete stores.
use identity_python.Base.{
  ℕ, ◌+◌, ◌≤◌, ◌≡◌, refl, arith, none, some, true, false, decide, Bool, List, [], ◌∷◌, suc,
}
use identity_python.Base.Int.{from_bytes}
use identity_python.Base.Dict.{lookup}
use identity_python.Base.Text.{Str, utf8, codes, str_discrete}
use identity_python.Errors.{invalid_credential}
use identity_python.Factors.Confirm.{confirm_totp_factor}
use identity_python.Factors.Enroll.{revoke_mfa_factor}
use identity_python.Factors.Entries.{singleton_key, with_factor_status}
use identity_python.Factors.Singleton.{
  confirm_totp_factor_effect, confirm_totp_factor_two_active, revoke_mfa_factor_frees_slot,
}
use identity_python.Factors.Verify.{verify_totp, verify_recovery, count_left, match_slots}
use identity_python.Recovery.Valid.{is_valid-generate_recovery_code}
use identity_python.Recovery.{
  generate_recovery_code, all_in_alphabet, is_valid_recovery_code, normalize_recovery_input,
}
use identity_python.Primitives.{verify_password_hash, is_too_long}
use identity_python.Result.{ok, raised}
use identity_python.Tests.Data.{
  hashes, unicode_tables, store, totp_libraries, active_totp, pending_totp,
}
use identity_python.Totp.Windows.{IsCodeAt, totp_verify_sound}
use identity_python.Totp.{default_totp_config, totp_verify, is_digit, zfill, decimal}
use identity_python.Types.{FactorStatus, totp, recovery, Factor, recovery_details}
use identity_python.Tables.{Store}
use identity_python.Factors.RecoveryUse.{verify_recovery_uses_up}

-- The factor is confirmed three minutes after the epoch; every code is `000000`.
confirm_totp_factor_effect_example :
    let (r, s') =
      confirm_totp_factor totp_libraries
        (codes "g")
        (codes "000000")
        180_000_000
        180_000_000
        180_000_001
        store in
    (r ≡ ok (with_factor_status pending_totp FactorStatus.active 180_000_001))
    × (lookup (codes "g") s'.mfa_factors
        ≡ some (with_factor_status pending_totp FactorStatus.active 180_000_001))
    × (lookup (singleton_key (codes "a") totp) s'.mfa_active_singleton ≡ some (codes "g"))
    × (lookup (codes "f") s'.mfa_factors ≡ lookup (codes "f") store.mfa_factors)
unfolding lookup str_discrete totp_verify is_digit decide zfill decimal from_bytes
confirm_totp_factor_effect_example =
    confirm_totp_factor_effect totp_libraries (codes "g") (codes "000000") 180_000_000 180_000_000
      180_000_001 store pending_totp (codes "phone") (codes "k") (codes "f") refl refl refl
      (omega arith) refl refl (ground arith)

confirm_totp_factor_two_active_example :
    let s' =
      (confirm_totp_factor totp_libraries
        (codes "g")
        (codes "000000")
        180_000_000
        180_000_000
        180_000_001
        store).1 in
    (lookup (codes "f") s'.mfa_factors ≡ some active_totp)
    × (lookup (codes "g") s'.mfa_factors
        ≡ some (with_factor_status pending_totp FactorStatus.active 180_000_001))
    × (FactorStatus.active ≡ FactorStatus.active)
    × (lookup (singleton_key (codes "a") totp) s'.mfa_active_singleton ≡ some (codes "g"))
unfolding lookup str_discrete confirm_totp_factor totp_verify is_digit decide zfill decimal
    from_bytes
confirm_totp_factor_two_active_example =
    confirm_totp_factor_two_active totp_libraries (codes "g") (codes "f") (codes "000000")
      180_000_000 180_000_000 180_000_001 store
      (confirm_totp_factor totp_libraries (codes "g") (codes "000000") 180_000_000 180_000_000
        180_000_001 store).1
      pending_totp (with_factor_status pending_totp FactorStatus.active 180_000_001) active_totp
      refl refl refl refl

revoke_mfa_factor_frees_slot_example :
    let s' = (revoke_mfa_factor (codes "g") 9 store).1 in
    (lookup (codes "f") s'.mfa_factors ≡ some active_totp)
    × (verify_totp totp_libraries (codes "a") (codes "000000") 180_000_000 180_000_000 s'
        ≡ (raised invalid_credential, s'))
unfolding lookup str_discrete
revoke_mfa_factor_frees_slot_example =
    revoke_mfa_factor_frees_slot totp_libraries (codes "g") (codes "f") (codes "000000") 9
      180_000_000 180_000_000 store pending_totp active_totp (codes "phone") (ground arith) refl
      refl refl refl refl

-- a recovery factor with two codes left of three
abbrev recovery_factor : Factor
recovery_factor = record active_totp { id = codes "r"; details = recovery_details 2 }

abbrev recovery_code : Str
recovery_code = codes "AAAA-BBBB-CCCC"

abbrev with_recovery : Store
with_recovery = record store {
  factor_tables = record store.factor_tables {
    mfa_factors = (codes "r", recovery_factor) ∷ [];
    mfa_recovery_hashes =
        (codes "r", codes "AAAA-AAAA-AAAA" ∷ codes "DDDD-DDDD-DDDD" ∷ recovery_code ∷ []) ∷ [];
    mfa_recovery_consumed = (codes "r", true ∷ false ∷ false ∷ []) ∷ [];
    mfa_active_singleton = (codes "a|recovery", codes "r") ∷ [];
  };
}

verify_recovery_uses_up_example :
    (left : List Bool) × (lookup
        (codes "r")
        (verify_recovery hashes unicode_tables
          (codes "a")
          recovery_code
          8
          9
          with_recovery).1.mfa_recovery_consumed
      ≡ some left)
    × (count_left (true ∷ false ∷ false ∷ []) ≡ suc (count_left left))
unfolding verify_recovery lookup str_discrete singleton_key is_valid_recovery_code
    normalize_recovery_input match_slots verify_password_hash is_too_long utf8 decide
verify_recovery_uses_up_example =
    verify_recovery_uses_up hashes unicode_tables (codes "a") recovery_code 8 9 with_recovery
      (verify_recovery hashes unicode_tables (codes "a") recovery_code 8 9 with_recovery).1
      (record { mfa_id = codes "r"; type = recovery; mfa_verified_at = 9; new_sign_count = none })
      (true ∷ false ∷ false ∷ []) refl refl

totp_verify_sound_example :
    (1 ≤ 10)
    × ((k : ℕ) × (k ≤ 1 + 1)
        × IsCodeAt totp_libraries (codes "k") (codes "000000") default_totp_config 180 1 k)
unfolding totp_verify is_digit decide zfill decimal from_bytes str_discrete
totp_verify_sound_example =
    totp_verify_sound totp_libraries (codes "k") (codes "000000") default_totp_config 180 1 refl

is_valid-generate_recovery_code_example :
    is_valid_recovery_code (generate_recovery_code (codes "ABCDEFGHJKMN")) ≡ true
unfolding all_in_alphabet
is_valid-generate_recovery_code_example =
    is_valid-generate_recovery_code (codes "ABCDEFGHJKMN") refl refl
