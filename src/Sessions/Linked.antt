-- ===== src/Sessions/Linked.antt =====
-- The two dicts of token hashes mirror each other and name live sessions only; every write of a
-- session operation keeps them so.
use identity_python.Base.{
  ◌≡◌, none, some, inl, inr, arith, Option-cases, [], ◌∷◌, List, Bool, Bool-cases,
}
use identity_python.Base.Dict.{lookup, lookup-insert, lookup-erase}
use identity_python.Base.Text.{Str, str_discrete}
use identity_python.Sessions.{revoke_entry, issue_entry, revoke_matching}
use identity_python.Tables.{SessionTables}
use identity_python.Types.{Session, Time}

-- the session exists and is not revoked
abbrev pub IsLive : SessionTables → Str → Type 0
IsLive t ses_id = (ses : Session) × (lookup ses_id t.sessions ≡ some ses) × (ses.revoked_at ≡ none)

pub record IsLinked (t : SessionTables) : Type 0 where
  pub by_hash :
      (token_hash ses_id : Str)
      → lookup token_hash t.session_by_token_hash ≡ some ses_id
      → lookup ses_id t.session_token_hashes ≡ some token_hash
  pub by_session :
      (ses_id token_hash : Str)
      → lookup ses_id t.session_token_hashes ≡ some token_hash
      → lookup token_hash t.session_by_token_hash ≡ some ses_id
  pub live :
      (ses_id token_hash : Str)
      → lookup ses_id t.session_token_hashes ≡ some token_hash
      → IsLive t ses_id

module _ (ses_id : Str) (ses : Session) (now : Time) (t : SessionTables) (l : IsLinked t) where
  revoke_entry_by_hash :
      (h i : Str)
      → lookup h (revoke_entry ses_id ses now t).session_by_token_hash ≡ some i
      → lookup i (revoke_entry ses_id ses now t).session_token_hashes ≡ some h
  unfolding revoke_entry
  revoke_entry_by_hash h i e = elim (Option-cases (lookup ses_id t.session_token_hashes)) [
    | inl p ↦ grind (arith, lookup-erase, l.by_hash)
    | inr (g, p) ↦ grind (arith, lookup-erase, l.by_hash)
  ]

  revoke_entry_by_session :
      (i h : Str)
      → lookup i (revoke_entry ses_id ses now t).session_token_hashes ≡ some h
      → lookup h (revoke_entry ses_id ses now t).session_by_token_hash ≡ some i
  unfolding revoke_entry
  revoke_entry_by_session i h e = elim (Option-cases (lookup ses_id t.session_token_hashes)) [
    | inl p ↦ grind (arith, lookup-erase, l.by_session)
    | inr (g, p) ↦ grind (arith, lookup-erase, l.by_session)
  ]

  revoke_entry-IsLive :
      (i h : Str)
      → lookup i (revoke_entry ses_id ses now t).session_token_hashes ≡ some h
      → IsLive (revoke_entry ses_id ses now t) i
  unfolding revoke_entry
  revoke_entry-IsLive i h e = elim (str_discrete ses_id i) [
    | yes p ↦ absurd (grind (arith, lookup-erase))
    | no p ↦
        let (live, found, unrevoked) = l.live i h (grind (arith, lookup-erase)) in
        (live, grind (arith, lookup-insert), unrevoked)
  ]

  -- A session that is revoked leaves both dicts of hashes.
  pub revoke_entry-IsLinked : IsLinked (revoke_entry ses_id ses now t)
  revoke_entry-IsLinked = record {
    by_hash = revoke_entry_by_hash;
    by_session = revoke_entry_by_session;
    live = revoke_entry-IsLive;
  }

module _ (ses : Session) (token_hash : Str) (t : SessionTables) (l : IsLinked t)
    (new_id : lookup ses.id t.session_token_hashes ≡ none)
    (new_hash : lookup token_hash t.session_by_token_hash ≡ none)
    (unrevoked : ses.revoked_at ≡ none) where
  issue_entry_by_hash :
      (h i : Str)
      → lookup h (issue_entry ses token_hash t).session_by_token_hash ≡ some i
      → lookup i (issue_entry ses token_hash t).session_token_hashes ≡ some h
  unfolding issue_entry
  issue_entry_by_hash h i e = grind (arith, lookup-insert, l.by_hash)

  issue_entry_by_session :
      (i h : Str)
      → lookup i (issue_entry ses token_hash t).session_token_hashes ≡ some h
      → lookup h (issue_entry ses token_hash t).session_by_token_hash ≡ some i
  unfolding issue_entry
  issue_entry_by_session i h e = grind (arith, lookup-insert, l.by_session)

  issue_entry-IsLive :
      (i h : Str)
      → lookup i (issue_entry ses token_hash t).session_token_hashes ≡ some h
      → IsLive (issue_entry ses token_hash t) i
  unfolding issue_entry
  issue_entry-IsLive i h e = elim (str_discrete ses.id i) [
    | yes p ↦ (ses, grind (arith, lookup-insert), unrevoked)
    | no p ↦
        let (live, found, live_unrevoked) = l.live i h (grind (arith, lookup-insert)) in
        (live, grind (arith, lookup-insert), live_unrevoked)
  ]

  -- A session with a new id and a new token hash enters both.
  pub issue_entry-IsLinked : IsLinked (issue_entry ses token_hash t)
  issue_entry-IsLinked = record {
    by_hash = issue_entry_by_hash;
    by_session = issue_entry_by_session;
    live = issue_entry-IsLive;
  }

pub revoke_matching-IsLinked :
    (test : Session → Bool) (now : Time) (l : List (Str × Session)) (t : SessionTables)
    → IsLinked t
    → IsLinked (revoke_matching test now l t)
unfolding revoke_matching
revoke_matching-IsLinked test now [] t h = h
revoke_matching-IsLinked test now ((i, ses) ∷ l) t h = elim (Bool-cases (test ses)) [
  | inl e ↦ rw e (revoke_matching-IsLinked test now l _ (revoke_entry-IsLinked i ses now t h))
  | inr e ↦ rw e (revoke_matching-IsLinked test now l t h)
]
