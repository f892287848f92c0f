-- ===== src/Factors/Entries.antt =====
-- The helpers of the MFA operations of in_memory.py: guards, keys, and writes to the dicts.
use identity_python.Base.{ℕ, ◌-◌, Bool, true, false, Option, none, some, ◌++◌, ltb, if◌then◌else◌}
use identity_python.Base.Dict.{lookup, insert, erase}
use identity_python.Base.Text.{Str, codes}
use identity_python.Errors.{
  precondition, user_not_active, active_singleton_exists, pending_factor_expired,
}
use identity_python.Exec.{Exec, pure, gets, raise_if, raise_unless, ◌>>=◌}
use identity_python.Requires.{require_user}
use identity_python.Tables.{FactorTables, Store}
use identity_python.Types.{
  Factor, FactorType, FactorStatus, FactorDetails, Status, Time, seconds, status_eq,
  factor_status_eq, factor_type_value, totp, webauthn, recovery, totp_details, webauthn_details,
  recovery_details,
}

abbrev pub with_factors : (FactorTables → FactorTables) → Store → Store
with_factors f s = record s { factor_tables = f s.factor_tables }

-- `f"{usr_id}|{type_.value}"`
unfoldable pub singleton_key : Str → FactorType → Str
unfolding factor_type_value
singleton_key usr_id type = usr_id ++ (codes "|" ++ factor_type_value type)

abbrev pub is_present {ℓ} : {A : Type ℓ} → Option A → Bool
is_present none = false
is_present (some _) = true

-- `_check_user_active`
unfoldable pub check_user_active : Str → Exec (Unit {0})
check_user_active usr_id = do
  user ← require_user usr_id
  raise_unless (status_eq user.status Status.active) (precondition user_not_active)

-- the types of which a user has one active factor at most
abbrev pub is_singleton : FactorType → Bool
is_singleton totp = true
is_singleton webauthn = false
is_singleton recovery = true

-- `_enforce_no_active_singleton`
unfoldable pub enforce_no_active_singleton : Str → FactorType → Exec (Unit {0})
enforce_no_active_singleton usr_id type = do
  taken ← gets (λ s. is_present (lookup (singleton_key usr_id type) s.mfa_active_singleton))
  raise_if (if is_singleton type then taken else false) (precondition active_singleton_exists)

abbrev pub pending_factor_ttl_seconds : ℕ
pending_factor_ttl_seconds = 600

-- `_check_pending_not_expired`; a clock that went back gives no age
unfoldable pub check_pending_not_expired : Factor → (now : Time) → Exec (Unit {0})
check_pending_not_expired factor now =
    if factor_status_eq factor.status FactorStatus.pending
    then raise_if (ltb (seconds pending_factor_ttl_seconds) (now - factor.created_at))
        (precondition pending_factor_expired)
    else pure tt

-- `_with_factor_status`, on each of the three classes
abbrev pub with_factor_status : Factor → FactorStatus → Time → Factor
with_factor_status factor status now = record factor { status = status; updated_at = now }

abbrev pub put_factor : Factor → FactorTables → FactorTables
put_factor factor t = record t { mfa_factors = insert factor.id factor t.mfa_factors }

-- The clean-up of the indexes in `revoke_mfa_factor`.
unfoldable pub free_slot : Factor → FactorDetails → FactorTables → FactorTables
free_slot factor (totp_details _) t = record t {
  mfa_active_singleton = erase (singleton_key factor.usr_id totp) t.mfa_active_singleton;
}
free_slot factor (recovery_details _) t = record t {
  mfa_active_singleton = erase (singleton_key factor.usr_id recovery) t.mfa_active_singleton;
}
free_slot factor (webauthn_details identifier _ _) t = record t {
  mfa_webauthn_by_credential_id = erase identifier t.mfa_webauthn_by_credential_id;
}
