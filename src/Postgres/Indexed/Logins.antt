-- ===== src/Postgres/Indexed/Logins.antt =====
-- Logins by password behind a rotation in a run of `PostgresIdentityStore`: the index of active
-- credentials leaves the identifier to the new credential.
use identity_python.Base.{
  ◌≡◌, refl, arith, ap, none, some, inl, inr, Bool, true, false, Bool-cases, List, [], ◌∷◌, ◌++◌,
  not, All, decide,
}
use identity_python.Base.Text.{Str, codes}
use identity_python.Credentials.Passwords.{IsExact}
use identity_python.Credentials.Verify.{mfa_is_required}
use identity_python.Postgres.Calls.{Packages, Call, run_all, no_rows}
use identity_python.Postgres.Credentials.{active_under, password_row, verify_password, map_policy}
use identity_python.Postgres.Indexed.{IsIndexed, IsApartFrom, cred_conflict_sym, same_sym}
use identity_python.Postgres.Indexed.Run.{run_all-IsIndexed}
use identity_python.Postgres.Query.{Database, transaction, fetchone}
use identity_python.Postgres.Rotate.{
  rotate_password, lock_cred_for_rotation, revoke_old_on_rotation,
}
use identity_python.Postgres.Rows.{Ids, CredRow, SesRow, row_to_cred}
use identity_python.Postgres.Rowwise.{
  fetchone_All, fetchone-update, fetchone-append, All-mono, All-update,
}
use identity_python.Postgres.Writes.{
  insert_cred, revoke_ses, ses_check, cred_has_id, cred_conflict, has_user, same, any, update,
  updated, set_cred_status, set_revoked_at, live_of_cred,
}
use identity_python.Primitives.{Hashes, is_too_long}
use identity_python.Result.{ok}
use identity_python.Types.{Credential, Status, Time, password}

-- a test that no row passes
any-none :
    {A : Type 0} (p : A → Bool) (rows : List A) → All (λ r. p r ≡ false) rows → any p rows ≡ false
unfolding any
any-none p [] a = refl
any-none p (r ∷ rows) (e, a) = ground (arith, e, any-none p rows a)

fetchone-none :
    {A : Type 0} (p : A → Bool) (rows : List A)
    → All (λ r. p r ≡ false) rows
    → fetchone p rows ≡ none
unfolding fetchone
fetchone-none p [] a = refl
fetchone-none p (r ∷ rows) (e, a) = ground (arith, e, fetchone-none p rows a)

any-update_same :
    (q p : CredRow → Bool) (f : CredRow → CredRow) (rows : List CredRow)
    → ((r : CredRow) → q (f r) ≡ q r)
    → any q (update p f rows) ≡ any q rows
unfolding any update
any-update_same q p f [] same_test = refl
any-update_same q p f (r ∷ rows) same_test =
    ground (arith, same_test r, any-update_same q p f rows same_test)

-- the sessions of the credential may end at the time
abbrev MayEnd : Str → Time → SesRow → Type 0
MayEnd cred_id now r = live_of_cred cred_id r ≡ true → ses_check (set_revoked_at now r) ≡ true

ended-checked :
    (cred_id : Str) (now : Time) (rows : List SesRow)
    → All (MayEnd cred_id now) rows
    → any (λ r. not (ses_check r)) (updated (live_of_cred cred_id) (set_revoked_at now) rows)
      ≡ false
unfolding any updated
ended-checked cred_id now [] a = refl
ended-checked cred_id now (r ∷ rows) (e, a) = elim (Bool-cases (live_of_cred cred_id r)) [
  | inl l ↦ ground (arith, l, e l, ended-checked cred_id now rows a)
  | inr l ↦ ground (arith, l, ended-checked cred_id now rows a)
]

module _ (old : CredRow) where
  -- another row does not share the key of the row while both are active
  abbrev SharesNot : CredRow → Type 0
  SharesNot c = cred_has_id old.id c ≡ false → cred_conflict old c ≡ false

  found-SharesNot :
      (i : Str) (cs : List CredRow)
      → IsIndexed cs
      → fetchone (cred_has_id i) cs ≡ some old
      → All SharesNot cs
  unfolding fetchone decide
  found-SharesNot i [] v e = tt
  found-SharesNot i (c ∷ cs) (a, v) e = elim (Bool-cases (cred_has_id i c)) [
    | inl p ↦
        let is_old : c ≡ old = ground (arith, p, e) in
        (
          λ apart. absurd (ground (arith, apart, ap (λ z. z.id) is_old)),
          All-mono (IsApartFrom c) SharesNot cs
              (λ d h apart. ground (arith, h, ap (λ z. cred_conflict z d) is_old)) a,
        )
    | inr p ↦
        let later : fetchone (cred_has_id i) cs ≡ some old = ground (arith, p, e) in
        (
          λ apart. ground (
            arith,
            fetchone_All (IsApartFrom c) (cred_has_id i) cs old a later,
            cred_conflict_sym c old,
          ),
          found-SharesNot i cs v later,
        )
  ]

  module _ (t : Time) (of_type : old.type ≡ password) (active : old.status ≡ Status.active) where
    ended-IsFree :
        (cs : List CredRow)
        → All SharesNot cs
        → All
            (λ c. active_under password old.identifier c ≡ false)
            (update (cred_has_id old.id) (set_cred_status Status.revoked t) cs)
    unfolding cred_conflict
    ended-IsFree cs a =
        All-update SharesNot _ (cred_has_id old.id) (set_cred_status Status.revoked t) cs
          (λ c h. ground (arith, h, of_type, active, same_sym c.identifier old.identifier)) a

module _ (old : CredRow) (phc : Str) (t : Time) (uuid : Str) where
  -- the row of the new password
  abbrev fresh : CredRow
  fresh = password_row uuid old.usr_id old.identifier (some old.id) phc t

  abbrev ended : List CredRow → List CredRow
  ended cs = update (cred_has_id old.id) (set_cred_status Status.revoked t) cs

  fresh-IsFree :
      (cs : List CredRow)
      → All (λ c. active_under password old.identifier c ≡ false) cs
      → any (cred_conflict fresh) cs ≡ false
  unfolding cred_conflict
  fresh-IsFree cs a = any-none (cred_conflict fresh) cs (
      All-mono _ (λ c. cred_conflict fresh c ≡ false) cs
        (λ c h. ground (arith, h, same_sym c.identifier old.identifier)) a)

  fetchone-fresh :
      (cs : List CredRow)
      → All (λ c. active_under password old.identifier c ≡ false) cs
      → fetchone (active_under password old.identifier) (cs ++ (fresh ∷ [])) ≡ some fresh
  unfolding decide
  fetchone-fresh cs a = ground (
    arith,
    fetchone-append (active_under password old.identifier) fresh cs,
    fetchone-none (active_under password old.identifier) cs a,
  )

  fetchone-ended :
      (i : Str) (cs : List CredRow)
      → fetchone (cred_has_id i) cs ≡ some old
      → fetchone (cred_has_id i) (ended cs ++ (fresh ∷ []))
        ≡ some (set_cred_status Status.revoked t old)
  unfolding decide
  fetchone-ended i cs found = ground (
    arith,
    found,
    fetchone-append (cred_has_id i) fresh (ended cs),
    fetchone-update (cred_has_id i) (cred_has_id old.id) (set_cred_status Status.revoked t)
        (λ c. refl) cs,
  )

  -- the database behind the rotation
  abbrev replaced : (now : Time) → Database → Database
  replaced now db = record db {
    cred = ended db.cred ++ (fresh ∷ []);
    ses = update (live_of_cred old.id) (set_revoked_at now) db.ses;
  }

  module _ (ids : Ids) (h : Hashes) (db : Database) where
    rotate_password_returns :
        (cred_id plaintext : Str) (now : Time) (salt i : Str)
        → h.argon2_hash salt plaintext ≡ phc
        → ids.decode cred_id ≡ some i
        → fetchone (cred_has_id i) db.cred ≡ some old
        → old.status ≡ Status.active
        → old.type ≡ password
        → has_user old.usr_id db ≡ true
        → any (cred_has_id uuid) db.cred ≡ false
        → is_too_long plaintext ≡ false
        → All (MayEnd old.id now) db.ses
        → All (λ c. active_under password old.identifier c ≡ false) (ended db.cred)
        → rotate_password ids h cred_id plaintext now t uuid salt db
          ≡ (ok (row_to_cred ids fresh), replaced now db)
    unfolding rotate_password lock_cred_for_rotation revoke_old_on_rotation transaction revoke_ses
        insert_cred
    rotate_password_returns cred_id plaintext now salt i hashed named found active of_type user new
          short may free =
        ground (
          arith,
          hashed,
          named,
          found,
          active,
          of_type,
          user,
          new,
          short,
          ended-checked old.id now db.ses may,
          any-update_same (cred_has_id uuid) (cred_has_id old.id) (set_cred_status Status.revoked t)
              db.cred (λ r. refl),
          fresh-IsFree (ended db.cred) free,
        )

    verify-fresh :
        (plaintext : Str) (later now : Time)
        → h.argon2_verify phc plaintext ≡ true
        → is_too_long plaintext ≡ false
        → All (λ c. active_under password old.identifier c ≡ false) (ended db.cred)
        → verify_password ids h old.identifier plaintext later (replaced now db) ≡ (
          ok (record {
            usr_id = ids.encode (codes "usr") old.usr_id;
            cred_id = ids.encode (codes "cred") uuid;
            mfa_required =
                mfa_is_required
                  (map_policy ids (fetchone (λ r. same r.usr_id old.usr_id) db.usr_mfa_policy))
                  later;
          }),
          replaced now db,
        )
    unfolding verify_password
    verify-fresh plaintext later now verified short free =
        ground (arith, verified, short, fetchone-fresh (ended db.cred) free)

module _ (p : Packages) (x : IsExact p.hashes) (cs : List Call) where
  -- Where Argon2 is exact, in the database of any run of calls from empty tables: the rotation of an
  -- active password credential returns, if the row of its user is there, the new uuid is new, the
  -- new password is within the cap and the sessions of the credential may end at the time. It
  -- returns a new credential that is active, has the user and the identifier of the old one and
  -- replaces it. The old one is revoked, and the new password verifies for the identifier, as the
  -- new credential of that user.
  pub verify_password-rotate_password :
      (cred_id plaintext : Str) (now t later : Time) (uuid salt i : Str) (old : CredRow)
      → p.ids.decode cred_id ≡ some i
      → fetchone (cred_has_id i) (run_all p cs no_rows).cred ≡ some old
      → old.status ≡ Status.active
      → old.type ≡ password
      → has_user old.usr_id (run_all p cs no_rows) ≡ true
      → any (cred_has_id uuid) (run_all p cs no_rows).cred ≡ false
      → is_too_long plaintext ≡ false
      → All (MayEnd old.id now) (run_all p cs no_rows).ses
      → (c : Credential) × (db' : Database) × ((rotate_password p.ids p.hashes cred_id plaintext now
              t uuid salt
              (run_all p cs no_rows)
            ≡ (ok c, db'))
          × (c.id ≡ p.ids.encode (codes "cred") uuid)
          × (c.usr_id ≡ p.ids.encode (codes "usr") old.usr_id)
          × (c.identifier ≡ old.identifier)
          × (c.status ≡ Status.active)
          × (c.replaces ≡ some (p.ids.encode (codes "cred") old.id))
          × (fetchone (cred_has_id i) db'.cred ≡ some (set_cred_status Status.revoked t old))
          × (verify_password p.ids p.hashes old.identifier plaintext later db' ≡ (
            ok (record {
              usr_id = p.ids.encode (codes "usr") old.usr_id;
              cred_id = p.ids.encode (codes "cred") uuid;
              mfa_required =
                  mfa_is_required
                    (map_policy p.ids (
                      fetchone
                        (λ r. same r.usr_id old.usr_id)
                        (run_all p cs no_rows).usr_mfa_policy))
                    later;
            }),
            db',
          )))
  unfolding row_to_cred
  verify_password-rotate_password cred_id plaintext now t later uuid salt i old named found active
        of_type user new short may =
      let db : Database = run_all p cs no_rows in
      let phc : Str = p.hashes.argon2_hash salt plaintext in
      let free : All (λ c. active_under password old.identifier c ≡ false)
          (ended old phc t uuid db.cred) =
        ended-IsFree old t of_type active db.cred
          (found-SharesNot old i db.cred (run_all-IsIndexed p cs no_rows tt) found) in
      (
        row_to_cred p.ids (fresh old phc t uuid),
        replaced old phc t uuid now db,
        (
          rotate_password_returns old phc t uuid p.ids p.hashes db cred_id plaintext now salt i refl
              named found active of_type user new short may free,
          refl,
          refl,
          refl,
          refl,
          refl,
          fetchone-ended old phc t uuid i db.cred found,
          verify-fresh old phc t uuid p.ids p.hashes db plaintext later now
              (x.verifies salt plaintext) short free,
        ),
      )
