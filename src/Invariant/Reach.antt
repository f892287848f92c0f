-- ===== src/Invariant/Reach.antt =====
-- The invariant holds in every store that calls lead to.
use identity_python.Base.{◌≡◌, arith}
use identity_python.Base.Dict.{lookup}
use identity_python.Sessions.Invariant.{
  create_session-IsSound, refresh_session-IsSound, revoke_session-IsSound,
}
use identity_python.Sessions.{create_session, refresh_session, revoke_session}
use identity_python.Invariant.Defs.{IsSound}
use identity_python.Invariant.Calls.{Environment, Step, Reach, here, next, empty}
use identity_python.Invariant.OfCredentials.{
  create_password_credential-IsSound, create_passkey_credential-IsSound,
  create_oidc_credential-IsSound, suspend_credential-IsSound, reinstate_credential-IsSound,
  revoke_credential-IsSound,
}
use identity_python.Invariant.OfRotations.{
  rotate_password-IsSound, rotate_passkey-IsSound, rotate_oidc-IsSound,
}
use identity_python.Invariant.OfUsers.{
  create_user-IsSound, update_user-IsSound, suspend_user-IsSound, reinstate_user-IsSound,
  revoke_user-IsSound,
}
use identity_python.Invariant.OfOthers.{
  SameCore-IsSound, create_pat-SameCore, verify_pat_token-SameCore, revoke_pat-SameCore,
  enroll_totp_factor-SameCore, enroll_webauthn_factor-SameCore, enroll_recovery_factor-SameCore,
  revoke_mfa_factor-SameCore, set_mfa_policy-SameCore, confirm_totp_factor-SameCore,
  confirm_webauthn_factor-SameCore, verify_totp-SameCore, verify_webauthn-SameCore,
  verify_recovery-SameCore,
}
use identity_python.Tables.{Store}
use identity_python.Primitives.{Hashes}
use identity_python.Types.{Time}

-- A call on sessions leaves the credentials alone.
create_session-credentials :
    (h : Hashes) (u c : _) (ttl now : Time) (token i : _) (s : Store)
    → (create_session h u c ttl now token i s).1.credential_tables ≡ s.credential_tables
unfolding create_session
create_session-credentials h u c ttl now token i s = ground arith

refresh_session-credentials :
    (h : Hashes) (o : _) (a b : Time) (token i : _) (s : Store)
    → (refresh_session h o a b token i s).1.credential_tables ≡ s.credential_tables
unfolding refresh_session
refresh_session-credentials h o a b token i s = ground arith

revoke_session-credentials :
    (i : _) (now : Time) (s : Store)
    → (revoke_session i now s).1.credential_tables ≡ s.credential_tables
unfolding revoke_session
revoke_session-credentials i now s = ground arith

module _ (env : Environment) where
  Step-IsSound : {s t : Store} → Step env s t → IsSound s → IsSound t
  Step-IsSound {s} (Step.creates_user name now i) v = create_user-IsSound name now i s v
  Step-IsSound {s} (Step.updates_user i name now) v = update_user-IsSound i name now s v
  Step-IsSound {s} (Step.suspends_user i a b) v = suspend_user-IsSound i a b s v
  Step-IsSound {s} (Step.reinstates_user i a) v = reinstate_user-IsSound i a s v
  Step-IsSound {s} (Step.revokes_user i a b) v = revoke_user-IsSound i a b s v
  Step-IsSound {s} (Step.creates_password u i p now c salt f) v =
      create_password_credential-IsSound env.hashes u i p now c salt s f v
  Step-IsSound {s} (Step.creates_passkey u i k n r now c f) v =
      create_passkey_credential-IsSound u i k n r now c s f v
  Step-IsSound {s} (Step.creates_oidc u i a b now c f) v =
      create_oidc_credential-IsSound u i a b now c s f v
  Step-IsSound {s} (Step.rotates_password c p a b n salt f) v =
      rotate_password-IsSound env.hashes c p a b n salt s v f
  Step-IsSound {s} (Step.rotates_passkey c k n r a b i f) v =
      rotate_passkey-IsSound c k n r a b i s v f
  Step-IsSound {s} (Step.rotates_oidc c x y a b i f) v = rotate_oidc-IsSound c x y a b i s v f
  Step-IsSound {s} (Step.suspends_credential c a b) v = suspend_credential-IsSound c a b s v
  Step-IsSound {s} (Step.reinstates_credential c a) v = reinstate_credential-IsSound c a s v
  Step-IsSound {s} (Step.revokes_credential c a b) v = revoke_credential-IsSound c a b s v
  Step-IsSound {s} (Step.creates_session u c ttl now token i f) v = record {
    credentials = rw (create_session-credentials env.hashes u c ttl now token i s) v.credentials;
    sessions = create_session-IsSound env.hashes u c ttl now token i s f v.sessions;
  }
  Step-IsSound {s} (Step.refreshes_session o a b token i f) v = record {
    credentials = rw (refresh_session-credentials env.hashes o a b token i s) v.credentials;
    sessions = refresh_session-IsSound env.hashes o a b token i s f v.sessions;
  }
  Step-IsSound {s} (Step.revokes_session i now) v = record {
    credentials = rw (revoke_session-credentials i now s) v.credentials;
    sessions = revoke_session-IsSound i now s v.sessions;
  }
  Step-IsSound {s} (Step.enrolls_totp u i now x m) v =
      SameCore-IsSound
        (enroll_totp_factor-SameCore env.b32encode env.quote env.upper_text u i now x m s) v
  Step-IsSound {s} (Step.enrolls_webauthn u i k n r now m) v =
      SameCore-IsSound (enroll_webauthn_factor-SameCore u i k n r now m s) v
  Step-IsSound {s} (Step.enrolls_recovery u now l m) v =
      SameCore-IsSound (enroll_recovery_factor-SameCore env.hashes u now l m s) v
  Step-IsSound {s} (Step.confirms_totp m c x y z) v =
      SameCore-IsSound (confirm_totp_factor-SameCore env.totp m c x y z s) v
  Step-IsSound {s} (Step.confirms_webauthn m r x y) v =
      SameCore-IsSound (confirm_webauthn_factor-SameCore env.webauthn m r x y s) v
  Step-IsSound {s} (Step.revokes_factor m now) v =
      SameCore-IsSound (revoke_mfa_factor-SameCore m now s) v
  Step-IsSound {s} (Step.verifies_totp u c x y) v =
      SameCore-IsSound (verify_totp-SameCore env.totp u c x y s) v
  Step-IsSound {s} (Step.verifies_webauthn u p x y) v =
      SameCore-IsSound (verify_webauthn-SameCore env.webauthn u p x y s) v
  Step-IsSound {s} (Step.verifies_recovery u c x y) v =
      SameCore-IsSound (verify_recovery-SameCore env.hashes env.unicode u c x y s) v
  Step-IsSound {s} (Step.sets_policy u r g now) v =
      SameCore-IsSound (set_mfa_policy-SameCore u r g now s) v
  Step-IsSound {s} (Step.creates_pat u n sc e now p x salt) v =
      SameCore-IsSound (create_pat-SameCore env.hashes u n sc e now p x salt s) v
  Step-IsSound {s} (Step.verifies_pat token now) v =
      SameCore-IsSound (verify_pat_token-SameCore env.hashes token now s) v
  Step-IsSound {s} (Step.revokes_pat p now) v = SameCore-IsSound (revoke_pat-SameCore p now s) v

  invariant_along_calls : {s t : Store} → IsSound s → Reach env s t → IsSound t
  invariant_along_calls v here = v
  invariant_along_calls v (next r st) = Step-IsSound st (invariant_along_calls v r)

empty-IsSound : IsSound empty
unfolding empty lookup
empty-IsSound = record {
  credentials = record { distinct = tt; named = λ i c e. cc; indexed = λ k i e. cc };
  sessions = record {
    linked = record {
      by_hash = λ h i e. cc;
      by_session = λ i h e. cc;
      live = λ i h e. absurd (ground arith);
    };
    distinct = tt;
  };
}

-- In every store that calls lead to from the empty one, whether they return or raise, with new ids
-- and new token hashes: the ids of credentials are distinct and each stands under its own; each
-- entry of the index of active credentials names a credential that is active and has the key; the
-- ids of sessions are distinct; the two dicts of token hashes mirror each other and name sessions
-- that exist and are not revoked.
pub Reach-IsSound : (env : Environment) {s : Store} → Reach env empty s → IsSound s
Reach-IsSound env r = invariant_along_calls env empty-IsSound r
