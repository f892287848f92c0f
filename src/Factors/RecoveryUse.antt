-- ===== src/Factors/RecoveryUse.antt =====
-- What a recovery code uses up, in `_verify_recovery` of in_memory.py.
use identity_python.Base.{
  ℕ, zero, suc, ◌+◌, ◌≡◌, refl, arith, ap, Option, none, some, inl, inr, Option-cases, Bool, true,
  false, Bool-cases, List, [], ◌∷◌, get_elem?,
}
use identity_python.Base.Dict.{lookup, lookup-insert}
use identity_python.Base.Text.{Str}
use identity_python.Factors.Entries.{singleton_key}
use identity_python.Factors.Verify.{match_slots, first_match, consume, count_left, verify_recovery}
use identity_python.Primitives.{Hashes, verify_password_hash, is_too_long}
use identity_python.Recovery.{UnicodeTables, normalize_recovery_input}
use identity_python.Result.{ok, Result-cases}
use identity_python.Tables.{Store}
use identity_python.Types.{MfaVerifyResult, Time, recovery}

-- One code fewer is left when a slot that was not consumed is.
count_left-consume :
    (i : ℕ) (consumed : List Bool)
    → get_elem? consumed i ≡ some false
    → count_left consumed ≡ suc (count_left (consume i consumed))
unfolding count_left consume
count_left-consume i [] e = absurd (ground arith)
count_left-consume zero (true ∷ cs) e = absurd (ground arith)
count_left-consume zero (false ∷ cs) e = refl
count_left-consume (suc i) (true ∷ cs) e = count_left-consume i cs e
count_left-consume (suc i) (false ∷ cs) e = ap suc (count_left-consume i cs e)

-- A walk that returns a slot keeps the store, and the slot is the one that had matched before, or
-- is one of the list's and not consumed.

abbrev IsMatch : Option ℕ → ℕ → List Bool → ℕ → Type 0
IsMatch none i consumed slot = (j : ℕ) × (slot ≡ i + j) × (get_elem? consumed j ≡ some false)
IsMatch (some k) i consumed slot = slot ≡ k

IsMatch-skip :
    (m : Option ℕ) (i slot : ℕ) (c : Bool) (cs : List Bool)
    → IsMatch m (suc i) cs slot
    → IsMatch m i (c ∷ cs) slot
IsMatch-skip none i slot c cs (j, e, f) = (suc j, omega (arith, e), f)
IsMatch-skip (some k) i slot c cs e = e

IsMatch-first :
    (m : Option ℕ) (v : Bool) (i slot : ℕ) (cs : List Bool)
    → IsMatch (first_match v i m) (suc i) cs slot
    → IsMatch m i (false ∷ cs) slot
IsMatch-first none true i slot cs e = (0, omega (arith, e), refl)
IsMatch-first none false i slot cs (j, e, f) = (suc j, omega (arith, e), f)
IsMatch-first (some k) v i slot cs e = e

module _ (h : Hashes) (code : Str) where
  match_slots-IsMatch :
      (hashes : List Str) (consumed : List Bool) (i : ℕ) (m : Option ℕ) (slot : ℕ) (s s' : Store)
      → match_slots h code hashes consumed i m s ≡ (ok (some slot), s')
      → IsMatch m i consumed slot × (s' ≡ s)
  unfolding match_slots verify_password_hash
  match_slots-IsMatch [] consumed i none slot s s' e = absurd (ground arith)
  match_slots-IsMatch [] consumed i (some k) slot s s' e = (ground arith, ground arith)
  match_slots-IsMatch (p ∷ hashes) [] i none slot s s' e = absurd (ground arith)
  match_slots-IsMatch (p ∷ hashes) [] i (some k) slot s s' e = (ground arith, ground arith)
  match_slots-IsMatch (p ∷ hashes) (true ∷ cs) i m slot s s' e =
      let (x, y) = match_slots-IsMatch hashes cs (suc i) m slot s s' e in
      (IsMatch-skip m i slot true cs x, y)
  match_slots-IsMatch (p ∷ hashes) (false ∷ cs) i m slot s s' e =
      elim (Bool-cases (is_too_long code)) [
        | inl long ↦ absurd (ground (arith, long))
        | inr short ↦
            let (x, y) =
              match_slots-IsMatch hashes cs (suc i) (first_match (h.argon2_verify p code) i m) slot
                s s' (ground (arith, short)) in
            (IsMatch-first m (h.argon2_verify p code) i slot cs x, y)
      ]

-- A recovery code that verifies uses up one of the codes of the factor that were left: afterwards
-- one fewer is left.
pub verify_recovery_uses_up :
    (h : Hashes) (u : UnicodeTables) (usr_id code : Str) (update_now now : Time) (s s' : Store)
    (r : MfaVerifyResult) (consumed : List Bool)
    → verify_recovery h u usr_id code update_now now s ≡ (ok r, s')
    → lookup r.mfa_id s.mfa_recovery_consumed ≡ some consumed
    → (left : List Bool) × (lookup r.mfa_id s'.mfa_recovery_consumed ≡ some left)
      × (count_left consumed ≡ suc (count_left left))
unfolding verify_recovery
verify_recovery_uses_up h u usr_id code update_now now s s' r consumed e found =
    let normalized = normalize_recovery_input u code in
    elim (Option-cases (lookup (singleton_key usr_id recovery) s.mfa_active_singleton)) [
      | inl p ↦ absurd (ground (arith, p))
      | inr (mfa_id, p) ↦ elim (Option-cases (lookup mfa_id s.mfa_recovery_hashes)) [
        | inl q ↦ absurd (ground (arith, p, q))
        | inr (hashes, q) ↦ elim (Option-cases (lookup mfa_id s.mfa_recovery_consumed)) [
          | inl c ↦ absurd (ground (arith, p, q, c))
          | inr (cs, c) ↦ elim (Result-cases (match_slots h normalized hashes cs 0 none s).0) [
            | inr (x, z) ↦ absurd (ground (arith, p, q, c, z))
            | inl (none, z) ↦ absurd (ground (arith, p, q, c, z))
            | inl (some slot, z) ↦
                let (y, same) =
                  match_slots-IsMatch h normalized hashes cs 0 none slot s
                    (match_slots h normalized hashes cs 0 none s).1 (ground (arith, z)) in
                (
                  consume slot cs,
                  grind (arith, lookup-insert),
                  ground (arith, count_left-consume slot cs, y),
                )
          ]
        ]
      ]
    ]
