-- ===== src/Invariant/Authority/Reach.antt =====
-- In every store that calls lead to, a session that is not revoked is backed by an active user and an
-- active credential of the user.
use identity_python.Base.{◌≡◌, arith, none, some, inl, inr, Option-cases}
use identity_python.Base.Dict.{lookup}
use identity_python.Base.Text.{Str}
use identity_python.Invariant.Authority.{
  IsAuthorized, IsBacked, SameCore-IsAuthorized, create_user-IsBacked, update_user-IsBacked,
  reinstate_user-IsBacked, suspend_user-IsBacked, revoke_user-IsBacked, suspend_credential-IsBacked,
  revoke_credential-IsBacked, reinstate_credential-IsBacked, create_session-IsBacked,
  refresh_session-IsBacked, revoke_session-IsBacked,
}
use identity_python.Invariant.Authority.OfCredentials.{
  create_password_credential-IsAuthorized, create_passkey_credential-IsAuthorized,
  create_oidc_credential-IsAuthorized, rotate_password-IsAuthorized, rotate_passkey-IsAuthorized,
  rotate_oidc-IsAuthorized,
}
use identity_python.Invariant.Calls.{Environment, Step, Reach, here, next, empty}
use identity_python.Invariant.Defs.{IsSound}
use identity_python.Invariant.Reach.{Reach-IsSound}
use identity_python.Invariant.OfOthers.{
  create_pat-SameCore, verify_pat_token-SameCore, revoke_pat-SameCore, enroll_totp_factor-SameCore,
  enroll_webauthn_factor-SameCore, enroll_recovery_factor-SameCore, revoke_mfa_factor-SameCore,
  set_mfa_policy-SameCore, confirm_totp_factor-SameCore, confirm_webauthn_factor-SameCore,
  verify_totp-SameCore, verify_webauthn-SameCore, verify_recovery-SameCore,
}
use identity_python.Primitives.{Hashes, hash_token}
use identity_python.Result.{ok}
use identity_python.Sessions.{verify_session_token}
use identity_python.Tables.{Store}
use identity_python.Types.{Session, Time}

-- A token that verifies is for a session of the dict that is not revoked.
verify_session_token_live :
    (h : Hashes) (token : Str) (now : Time) (s : Store) (ses : Session)
    → verify_session_token h token now s ≡ (ok ses, s)
    → (i : Str) × (lookup i s.sessions ≡ some ses) × (ses.revoked_at ≡ none)
unfolding verify_session_token
verify_session_token_live h token now s ses verified =
    elim (Option-cases (lookup (hash_token h token) s.session_by_token_hash)) [
      | inl p ↦ absurd (ground (arith, p))
      | inr (i, p) ↦ (i, ground (arith, p), ground (arith, p))
    ]

module _ (env : Environment) where
  Step-IsAuthorized : {s t : Store} → Step env s t → IsSound s → IsAuthorized s → IsAuthorized t
  Step-IsAuthorized {s} (Step.creates_user name now i) w v = record {
    backed = create_user-IsBacked s v name now i;
  }
  Step-IsAuthorized {s} (Step.updates_user i name now) w v = record {
    backed = update_user-IsBacked s v i name now;
  }
  Step-IsAuthorized {s} (Step.suspends_user i a b) w v = record {
    backed = λ j ses. suspend_user-IsBacked s v i a b j ses w.sessions.distinct;
  }
  Step-IsAuthorized {s} (Step.reinstates_user i a) w v = record {
    backed = reinstate_user-IsBacked s v i a;
  }
  Step-IsAuthorized {s} (Step.revokes_user i a b) w v = record {
    backed = λ j ses. revoke_user-IsBacked s v i a b j ses w;
  }
  Step-IsAuthorized {s} (Step.creates_password u i p now c salt f) w v =
      create_password_credential-IsAuthorized env.hashes u i p now c salt s f v
  Step-IsAuthorized {s} (Step.creates_passkey u i k n r now c f) w v =
      create_passkey_credential-IsAuthorized u i k n r now c s f v
  Step-IsAuthorized {s} (Step.creates_oidc u i a b now c f) w v =
      create_oidc_credential-IsAuthorized u i a b now c s f v
  Step-IsAuthorized {s} (Step.rotates_password c p a b n salt f) w v =
      rotate_password-IsAuthorized c a b n s w v f env.hashes p salt
  Step-IsAuthorized {s} (Step.rotates_passkey c k n r a b i f) w v =
      rotate_passkey-IsAuthorized c a b i s w v f k n r
  Step-IsAuthorized {s} (Step.rotates_oidc c x y a b i f) w v =
      rotate_oidc-IsAuthorized c a b i s w v f x y
  Step-IsAuthorized {s} (Step.suspends_credential c a b) w v = record {
    backed = λ j ses. suspend_credential-IsBacked s v c a b j ses w.sessions.distinct;
  }
  Step-IsAuthorized {s} (Step.reinstates_credential c a) w v = record {
    backed = reinstate_credential-IsBacked s v c a;
  }
  Step-IsAuthorized {s} (Step.revokes_credential c a b) w v = record {
    backed = λ j ses. revoke_credential-IsBacked s v c a b j ses w.sessions.distinct;
  }
  Step-IsAuthorized {s} (Step.creates_session u c ttl now token i f) w v = record {
    backed = create_session-IsBacked s v env.hashes u c ttl now token i;
  }
  Step-IsAuthorized {s} (Step.refreshes_session o a b token i f) w v = record {
    backed = refresh_session-IsBacked s v env.hashes o a b token i;
  }
  Step-IsAuthorized {s} (Step.revokes_session i now) w v = record {
    backed = revoke_session-IsBacked s v i now;
  }
  Step-IsAuthorized {s} (Step.enrolls_totp u i now x m) w v =
      SameCore-IsAuthorized
        (enroll_totp_factor-SameCore env.b32encode env.quote env.upper_text u i now x m s) v
  Step-IsAuthorized {s} (Step.enrolls_webauthn u i k n r now m) w v =
      SameCore-IsAuthorized (enroll_webauthn_factor-SameCore u i k n r now m s) v
  Step-IsAuthorized {s} (Step.enrolls_recovery u now l m) w v =
      SameCore-IsAuthorized (enroll_recovery_factor-SameCore env.hashes u now l m s) v
  Step-IsAuthorized {s} (Step.confirms_totp m c x y z) w v =
      SameCore-IsAuthorized (confirm_totp_factor-SameCore env.totp m c x y z s) v
  Step-IsAuthorized {s} (Step.confirms_webauthn m r x y) w v =
      SameCore-IsAuthorized (confirm_webauthn_factor-SameCore env.webauthn m r x y s) v
  Step-IsAuthorized {s} (Step.revokes_factor m now) w v =
      SameCore-IsAuthorized (revoke_mfa_factor-SameCore m now s) v
  Step-IsAuthorized {s} (Step.verifies_totp u c x y) w v =
      SameCore-IsAuthorized (verify_totp-SameCore env.totp u c x y s) v
  Step-IsAuthorized {s} (Step.verifies_webauthn u p x y) w v =
      SameCore-IsAuthorized (verify_webauthn-SameCore env.webauthn u p x y s) v
  Step-IsAuthorized {s} (Step.verifies_recovery u c x y) w v =
      SameCore-IsAuthorized (verify_recovery-SameCore env.hashes env.unicode u c x y s) v
  Step-IsAuthorized {s} (Step.sets_policy u r g now) w v =
      SameCore-IsAuthorized (set_mfa_policy-SameCore u r g now s) v
  Step-IsAuthorized {s} (Step.creates_pat u n sc e now p x salt) w v =
      SameCore-IsAuthorized (create_pat-SameCore env.hashes u n sc e now p x salt s) v
  Step-IsAuthorized {s} (Step.verifies_pat token now) w v =
      SameCore-IsAuthorized (verify_pat_token-SameCore env.hashes token now s) v
  Step-IsAuthorized {s} (Step.revokes_pat p now) w v =
      SameCore-IsAuthorized (revoke_pat-SameCore p now s) v

  Reach-IsAuthorized : {s : Store} → Reach env empty s → IsAuthorized s
  unfolding empty lookup
  Reach-IsAuthorized here = record { backed = λ i ses e live. absurd (ground arith) }
  Reach-IsAuthorized (next r st) = Step-IsAuthorized st (Reach-IsSound env r) (Reach-IsAuthorized r)

  -- In every store that calls lead to from the empty one, with new ids and new token hashes, a token
  -- that verifies is for a session of a user who is active and of a credential that is active and
  -- of that user.
  pub verify_session_token-IsBacked :
      (token : Str) (now : Time) (s : Store) (ses : Session)
      → Reach env empty s
      → verify_session_token env.hashes token now s ≡ (ok ses, s)
      → IsBacked s ses
  verify_session_token-IsBacked token now s ses r verified =
      let (i, found, live) = verify_session_token_live env.hashes token now s ses verified in
      (Reach-IsAuthorized r).backed i ses found live
