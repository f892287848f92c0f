-- ===== src/Sessions/Invariant.antt =====
-- The invariant of the session dicts, kept by every write that the store makes to them.
use identity_python.Base.{
  ◌≡◌, refl, ◌+◌, ◌-◌, Option-cases, none, inl, inr, arith, List, [], ◌∷◌, Bool, Bool-cases,
}
use identity_python.Base.Dict.{lookup, lookup-erase}
use identity_python.Base.Dict.Distinct.{IsDistinct, insert-IsDistinct}
use identity_python.Base.Text.{Str}
use identity_python.Primitives.{Hashes, hash_token}
use identity_python.Sessions.{
  revoke_entry, issue_entry, revoke_matching, create_session, refresh_session, revoke_session,
}
use identity_python.Sessions.Linked.{IsLinked, revoke_entry-IsLinked, issue_entry-IsLinked}
use identity_python.Tables.{SessionTables, Store}
use identity_python.Types.{Session, Time, seconds}

pub record IsSound (t : SessionTables) : Type 0 where
  pub linked : IsLinked t
  pub distinct : IsDistinct t.sessions

-- An id and a token hash that no session has.
pub record IsFresh (ses_id token_hash : Str) (t : SessionTables) : Type 0 where
  pub new_session : lookup ses_id t.sessions ≡ none
  pub new_id : lookup ses_id t.session_token_hashes ≡ none
  pub new_hash : lookup token_hash t.session_by_token_hash ≡ none

pub revoke_entry-IsSound :
    (i : Str) (ses : Session) (now : Time) (t : SessionTables)
    → IsSound t
    → IsSound (revoke_entry i ses now t)
unfolding revoke_entry
revoke_entry-IsSound i ses now t h = record {
  linked = revoke_entry-IsLinked i ses now t h.linked;
  distinct = insert-IsDistinct i _ t.sessions h.distinct;
}

pub issue_entry-IsSound :
    (ses : Session) (token_hash : Str) (t : SessionTables)
    → IsSound t
    → lookup ses.id t.session_token_hashes ≡ none
    → lookup token_hash t.session_by_token_hash ≡ none
    → ses.revoked_at ≡ none
    → IsSound (issue_entry ses token_hash t)
unfolding issue_entry
issue_entry-IsSound ses token_hash t h new_id new_hash unrevoked = record {
  linked = issue_entry-IsLinked ses token_hash t h.linked new_id new_hash unrevoked;
  distinct = insert-IsDistinct ses.id ses t.sessions h.distinct;
}

pub revoke_matching-IsSound :
    (test : Session → Bool) (now : Time) (l : List (Str × Session)) (t : SessionTables)
    → IsSound t
    → IsSound (revoke_matching test now l t)
unfolding revoke_matching
revoke_matching-IsSound test now [] t h = h
revoke_matching-IsSound test now ((i, ses) ∷ l) t h = elim (Bool-cases (test ses)) [
  | inl e ↦ rw e (revoke_matching-IsSound test now l _ (revoke_entry-IsSound i ses now t h))
  | inr e ↦ rw e (revoke_matching-IsSound test now l t h)
]

-- `create_session` keeps the invariant, whether it returns or raises.
pub create_session-IsSound :
    (h : Hashes) (usr_id cred_id : Str) (ttl now : Time) (token ses_id : Str) (s : Store)
    → IsFresh ses_id (hash_token h token) s.session_tables
    → IsSound s.session_tables
    → IsSound (create_session h usr_id cred_id ttl now token ses_id s).1.session_tables
unfolding create_session
create_session-IsSound h usr_id cred_id ttl now token ses_id s f v = ground (
  arith,
  issue_entry-IsSound
      (record {
        id = ses_id;
        usr_id = usr_id;
        cred_id = cred_id;
        created_at = now;
        expires_at = now + seconds ttl;
        revoked_at = none;
      })
      (hash_token h token) s.session_tables v f.new_id f.new_hash refl,
)

-- A revocation takes no id and no hash.
revoke_entry-IsFresh :
    (i : Str) (ses : Session) (now : Time) (t : SessionTables) {ses_id token_hash : Str}
    → IsFresh ses_id token_hash t
    → (lookup ses_id (revoke_entry i ses now t).session_token_hashes ≡ none)
      × (lookup token_hash (revoke_entry i ses now t).session_by_token_hash ≡ none)
unfolding revoke_entry
revoke_entry-IsFresh i ses now t f = grind (arith, lookup-erase)

revoke_then_issue :
    (i : Str) (ses fresh : Session) (now : Time) (token_hash : Str) (t : SessionTables)
    → IsSound t
    → IsFresh fresh.id token_hash t
    → fresh.revoked_at ≡ none
    → IsSound (issue_entry fresh token_hash (revoke_entry i ses now t))
revoke_then_issue i ses fresh now token_hash t v f unrevoked =
    issue_entry-IsSound fresh token_hash _ (revoke_entry-IsSound i ses now t v)
      (revoke_entry-IsFresh i ses now t f).0 (revoke_entry-IsFresh i ses now t f).1 unrevoked

-- `refresh_session` keeps it.
pub refresh_session-IsSound :
    (h : Hashes) (old_id : Str) (check_now now : Time) (token ses_id : Str) (s : Store)
    → IsFresh ses_id (hash_token h token) s.session_tables
    → IsSound s.session_tables
    → IsSound (refresh_session h old_id check_now now token ses_id s).1.session_tables
unfolding refresh_session
refresh_session-IsSound h old_id check_now now token ses_id s f v =
    elim (Option-cases (lookup old_id s.sessions)) [
      | inl missing ↦ ground (arith, missing)
      | inr (ses, found) ↦ ground (
        arith,
        revoke_then_issue old_id ses
            (record {
              id = ses_id;
              usr_id = ses.usr_id;
              cred_id = ses.cred_id;
              created_at = now;
              expires_at = now + (ses.expires_at - ses.created_at);
              revoked_at = none;
            })
            now (hash_token h token) s.session_tables v f refl,
      )
    ]

-- `revoke_session` keeps it.
pub revoke_session-IsSound :
    (ses_id : Str) (now : Time) (s : Store)
    → IsSound s.session_tables
    → IsSound (revoke_session ses_id now s).1.session_tables
unfolding revoke_session
revoke_session-IsSound ses_id now s v = elim (Option-cases (lookup ses_id s.sessions)) [
  | inl missing ↦ ground (arith, missing)
  | inr (ses, found) ↦ ground (arith, revoke_entry-IsSound ses_id ses now s.session_tables v)
]
