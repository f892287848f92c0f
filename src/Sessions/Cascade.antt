-- ===== src/Sessions/Cascade.antt =====
-- What the loop of the cascades leaves in the dict of sessions and in the dicts of token hashes.
use identity_python.Base.{◌≡◌, refl, Option, none, some, arith, [], ◌∷◌, List, Bool, if◌then◌else◌}
use identity_python.Base.Dict.{lookup, lookup-insert}
use identity_python.Base.Dict.Distinct.{IsDistinct}
use identity_python.Base.Text.{Str}
use identity_python.Sessions.{revoke_entry, revoke_matching}
use identity_python.Tables.{SessionTables}
use identity_python.Types.{Session, Time, with_revoked_at}

-- the session that the cascade leaves in the place of another
abbrev pub after_cascade : (Session → Bool) → Time → Option Session → Option Session
after_cascade test now none = none
after_cascade test now (some ses) = some (if test ses then with_revoked_at ses now else ses)

-- the same, where only the entries of `l` are visited
abbrev visited : (Session → Bool) → Time → Option Session → Option Session → Option Session
visited test now none old = old
visited test now (some ses) old = if test ses then some (with_revoked_at ses now) else old

module _ (test : Session → Bool) (now : Time) where
  revoke_matching-visited :
      (i : Str) (l : List (Str × Session)) (t : SessionTables)
      → IsDistinct l
      → lookup i (revoke_matching test now l t).sessions
        ≡ visited test now (lookup i l) (lookup i t.sessions)
  unfolding revoke_matching lookup revoke_entry
  revoke_matching-visited i [] t d = refl
  revoke_matching-visited i ((j, ses) ∷ l) t d = ground (
    arith,
    revoke_matching-visited i l t d.1,
    revoke_matching-visited i l (revoke_entry j ses now t) d.1,
    lookup-insert j i (with_revoked_at ses now) t.sessions,
  )

  -- Every session that passes the test is revoked at the time given, and no other changes.
  pub lookup-revoke_matching :
      (i : Str) (t : SessionTables)
      → IsDistinct t.sessions
      → lookup i (revoke_matching test now t.sessions t).sessions
        ≡ after_cascade test now (lookup i t.sessions)
  lookup-revoke_matching i t d = rw (revoke_matching-visited i t.sessions t d) (ground arith)
