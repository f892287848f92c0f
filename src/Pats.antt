-- ===== src/Pats.antt =====
-- The personal access tokens of `InMemoryIdentityStore` (in_memory.py) and the wire format of
-- types.py. Each reading of the clock, each new id and each random secret is an argument.
pub mod Wire
pub mod Tokens
use Wire.{is_structurally_valid_pat_token}
use identity_python.Base.{
  ℕ, Bool, true, false, not, Option, none, some, List, [], ◌∷◌, ◌+◌, ◌-◌, ◌++◌, ltb, leb, ◌||◌,
  ◌==◌, if◌then◌else◌, ite, length, take, drop, select, decide, get_last?, suc, ◌&&◌,
}
use identity_python.Base.Dict.{lookup, insert, values}
use identity_python.Base.Text.{Str, str_discrete, codes}
use identity_python.Errors.{
  precondition, invalid_name, expires_in_past, expires_too_late, invalid_pat_token, pat_revoked,
  pat_expired, key_error,
}
use identity_python.Exec.{
  Exec, pure, raise, gets, or_raise, modify, raise_if, raise_unless, ◌>>=◌, ◌>>◌,
}
use identity_python.Paging.{sort_by, str_ltb, cut_page}
use identity_python.Primitives.{Hashes, hash_password, verify_password_hash}
use identity_python.Requires.{require_user, require_pat}
use identity_python.Tables.{PatTables, Store}
use identity_python.Types.{
  PersonalAccessToken, PatStatus, CreatePatResult, VerifiedPat, Page, Time, seconds,
  pat_max_lifetime_seconds, pat_max_secret_length, pat_dummy_phc_hash,
}

abbrev pub with_pats : (PatTables → PatTables) → Store → Store
with_pats f s = record s { pat_tables = f s.pat_tables }

abbrev pub revoked_pat : PersonalAccessToken → Time → PersonalAccessToken
revoked_pat pat now = record pat {
  status = PatStatus.revoked;
  revoked_at = some now;
  updated_at = now;
}

abbrev pub live_pat_of : Str → PersonalAccessToken → Bool
live_pat_of usr_id pat = elim (str_discrete pat.usr_id usr_id) [
  | yes _ ↦ elim pat.revoked_at [ none ↦ true | some _ ↦ false ]
  | no _ ↦ false
]

-- The loop of `_cascade_revoke_pats_for_user` over `list(self._pats.items())`.
unfoldable pub revoke_pats : Str → Time → List (Str × PersonalAccessToken) → PatTables → PatTables
revoke_pats usr_id now [] t = t
revoke_pats usr_id now ((pat_id, pat) ∷ l) t = revoke_pats usr_id now l (
    if live_pat_of usr_id pat
    then record t { pats = insert pat_id (revoked_pat pat now) t.pats }
    else t)

-- `_cascade_revoke_pats_for_user`
unfoldable pub revoke_pats_for_user : Str → Time → PatTables → PatTables
revoke_pats_for_user usr_id now t = revoke_pats usr_id now t.pats t

-- The tests of `create_pat` on `expires_at`.
unfoldable pub check_expiry : Option Time → (now : Time) → Exec (Unit {0})
check_expiry none now = pure tt
check_expiry (some expires_at) now = do
  raise_if (leb expires_at now) (precondition expires_in_past)
  raise_if (ltb (now + seconds pat_max_lifetime_seconds) expires_at) (precondition expires_too_late)

-- `pat.expires_at is not None and now >= pat.expires_at`
abbrev pub has_expired : Option Time → Time → Bool
has_expired none now = false
has_expired (some expires_at) now = leb expires_at now

abbrev pub last_used_coalesce_seconds : ℕ
last_used_coalesce_seconds = 60

-- `prev is None or (now - prev).total_seconds() >= 60`; a clock that went back gives no seconds
abbrev pub is_stale : Option Time → Time → Bool
is_stale none now = true
is_stale (some prev) now = leb (seconds last_used_coalesce_seconds) (now - prev)

-- Step 7 of `verify_pat_token`: the writes to `last_used_at`.
unfoldable pub touch_pat : Str → Time → Option PersonalAccessToken → PatTables → PatTables
touch_pat pat_id now none t = t
touch_pat pat_id now (some current) t = elim current.revoked_at [
  | none ↦ record t {
    pats = insert pat_id (record current { last_used_at = some now; updated_at = now }) t.pats;
    pat_last_used_persist = insert pat_id now t.pat_last_used_persist;
  }
  | some _ ↦ t
]

unfoldable pub note_use : Str → Time → PatTables → PatTables
unfolding touch_pat
note_use pat_id now t =
    if is_stale (lookup pat_id t.pat_last_used_persist) now
    then touch_pat pat_id now (lookup pat_id t.pats) t
    else t

abbrev pub pat_is_revoked : PersonalAccessToken → Bool
pat_is_revoked pat = elim pat.revoked_at [ none ↦ false | some _ ↦ true ]

module _ (h : Hashes) where
  -- `secret` is the base64url text of the random bytes.
  unfoldable pub create_pat :
      Str
      → (name : Str) → List Str
      → Option Time
      → (now : Time) (pat_id secret salt : Str) → Exec CreatePatResult
  create_pat usr_id name scope expires_at now pat_id secret salt = do
    user ← require_user usr_id
    raise_if (ltb (length name) 1 || ltb 120 (length name)) (precondition invalid_name)
    check_expiry expires_at now
    phc ← hash_password h salt secret
    let pat : PersonalAccessToken = record {
      id = pat_id;
      usr_id = usr_id;
      name = name;
      scope = scope;
      status = PatStatus.active;
      created_at = now;
      updated_at = now;
      expires_at = expires_at;
      last_used_at = none;
      revoked_at = none;
    }
    modify (
        with_pats (λ t. record t {
          pats = insert pat_id pat t.pats;
          pat_secret_hashes = insert pat_id phc t.pat_secret_hashes;
        }))
    pure (record { pat = pat; token = pat_id ++ codes "_" ++ secret })

  -- the dummy verification of an early exit, and the exit
  unfoldable pub reject_token : {A : Type 0} → Str → Exec A
  reject_token candidate = do
    verified ← verify_password_hash h pat_dummy_phc_hash candidate
    raise invalid_pat_token

  -- `self._pats.get(pat_id)`, with the early exit of step 3
  unfoldable pub find_pat : Str → Str → Exec PersonalAccessToken
  unfolding reject_token
  find_pat pat_id secret s = elim (lookup pat_id s.pats) [
    | none ↦ reject_token secret s
    | some pat ↦ pure pat s
  ]

  -- Steps 1 and 2: the wire format, and the cap on the length of the secret.
  unfoldable pub check_wire : (token : Str) → Exec (Unit {0})
  unfolding reject_token
  check_wire token =
      if not (is_structurally_valid_pat_token token)
      then reject_token token
      else if ltb pat_max_secret_length (length (drop 37 token))
      then reject_token []
      else pure tt

  -- Steps 4 to 7, on the token that was found.
  unfoldable pub verify_secret :
      (pat_id secret : Str) → (now : Time) → PersonalAccessToken → Exec VerifiedPat
  verify_secret pat_id secret now pat = do
    raise_if (pat_is_revoked pat) (pat_revoked pat_id)
    raise_if (has_expired pat.expires_at now) (pat_expired pat_id)
    phc ← or_raise (← gets (λ s. lookup pat_id s.pat_secret_hashes)) key_error
    verified ← verify_password_hash h phc secret
    raise_unless verified invalid_pat_token
    modify (with_pats (note_use pat_id now))
    pure (record { pat_id = pat_id; usr_id = pat.usr_id; scope = pat.scope })

  -- Steps 3 to 7.
  unfoldable pub verify_parts : (pat_id secret : Str) → (now : Time) → Exec VerifiedPat
  verify_parts pat_id secret now = do p ← find_pat pat_id secret; verify_secret pat_id secret now p

  unfoldable pub verify_pat_token : (token : Str) (now : Time) → Exec VerifiedPat
  verify_pat_token token now = do check_wire token; verify_parts (take 36 token) (drop 37 token) now

unfoldable pub revoke_pat : Str → (now : Time) → Exec PersonalAccessToken
revoke_pat pat_id now = do
  pat ← require_pat pat_id
  if pat_is_revoked pat then pure pat else (do
    modify (with_pats (λ t. record t { pats = insert pat_id (revoked_pat pat now) t.pats }))
    pure (revoked_pat pat now))

-- the key `(p.created_at, p.id)`
unfoldable pub pat_before : PersonalAccessToken → PersonalAccessToken → Bool
unfolding str_ltb
pat_before p q =
    if ltb p.created_at q.created_at
    then true
    else if ltb q.created_at p.created_at
    then false
    else str_ltb p.id q.id

-- the index behind the token with the cursor's id, or 0
unfoldable pub start_behind : Str → ℕ → List PersonalAccessToken → ℕ
start_behind cursor i [] = 0
start_behind cursor i (p ∷ ps) =
    let rest = start_behind cursor (suc i) ps in ite (str_discrete p.id cursor) (suc i) rest

-- `if cursor:` takes an empty text for none
abbrev pub pat_start : Option Str → List PersonalAccessToken → ℕ
pat_start none l = 0
pat_start (some []) l = 0
pat_start (some (c ∷ cs)) l = start_behind (c ∷ cs) 0 l

-- A `limit` below zero is 50, as zero is.
unfoldable pub list_pats_for_user : Str → Option Str → (limit : ℕ) → Exec (Page PersonalAccessToken)
list_pats_for_user usr_id cursor limit = do
  user ← require_user usr_id
  gets (λ s.
      let matched =
        sort_by pat_before (select (λ p. decide (str_discrete p.usr_id usr_id)) (values s.pats)) in
      cut_page (λ p. p.id) (pat_start cursor matched) (if limit == 0 then 50 else limit) matched)
