-- ===== src/Postgres/Authority.antt =====
-- What backs a row of `ses` that is not revoked: its user and its credential, and the writes of the
-- schema's tables.
pub mod Methods
pub mod Apart
pub mod OfFactors
pub mod Run
pub mod Writes
use identity_python.Base.{
  ◌≡◌, ◌≢◌, refl, arith, ap, Option, none, some, inl, inr, Option-cases, Bool, true, false,
  Bool-cases, not, List, [], ◌∷◌, ◌++◌, ◌&&◌, if◌then◌else◌, All, decide,
}
use identity_python.Base.Text.{Str, str_discrete}
use identity_python.Postgres.Query.{Database, fetchone}
use identity_python.Postgres.Rowwise.{
  fetchone-update, fetchone-append, fetchone_satisfies, fetchone_All, All-update, All-mono,
  All-append, found_first,
}
use identity_python.Postgres.Rows.{UsrRow, CredRow, SesRow, map_option}
use identity_python.Postgres.Writes.{
  usr_has_id, cred_has_id, ses_has_id, same, is_null, update, set_usr_status, set_cred_status,
  set_revoked_at, live_of_user, live_of_cred,
}
use identity_python.Postgres.Users.{active_cred_of}
use identity_python.Types.{Status, status_eq, Time}

abbrev pub IsActiveUsr : Option UsrRow → Type 0
IsActiveUsr none = ⊥
IsActiveUsr (some u) = u.status ≡ Status.active

abbrev pub IsActiveCredOf : Str → Option CredRow → Type 0
IsActiveCredOf usr_id none = ⊥
IsActiveCredOf usr_id (some c) = (c.status ≡ Status.active) × (c.usr_id ≡ usr_id)

-- the user and the credential of the row are active, and the credential is the user's
abbrev pub IsBackedBy : List UsrRow → List CredRow → SesRow → Type 0
IsBackedBy usr cred row =
    IsActiveUsr (fetchone (usr_has_id row.usr_id) usr)
    × IsActiveCredOf row.usr_id (fetchone (cred_has_id row.cred_id) cred)

-- the same of a row that is not revoked
abbrev pub IsLiveBacked : List UsrRow → List CredRow → SesRow → Type 0
IsLiveBacked usr cred row = row.revoked_at ≡ none → IsBackedBy usr cred row

pub record IsAuthorized (db : Database) : Type 0 where
  pub backed : All (IsLiveBacked db.usr db.cred) db.ses

module _ (db : Database) (v : IsAuthorized db) where
  -- INSERTs into `usr` and `cred`.
  pub insert_usr-IsAuthorized : (u : UsrRow) → IsAuthorized (record db { usr = db.usr ++ (u ∷ []) })
  insert_usr-IsAuthorized u = record {
    backed =
        All-mono _ _ db.ses
          (λ r h live. ground (arith, h live, fetchone-append (usr_has_id r.usr_id) u db.usr))
          v.backed;
  }

  pub insert_cred-IsAuthorized :
      (c : CredRow) → IsAuthorized (record db { cred = db.cred ++ (c ∷ []) })
  insert_cred-IsAuthorized c = record {
    backed =
        All-mono _ _ db.ses
          (λ r h live. ground (arith, h live, fetchone-append (cred_has_id r.cred_id) c db.cred))
          v.backed;
  }

  pub insert_ses-IsAuthorized :
      (s : SesRow)
      → IsBackedBy db.usr db.cred s
      → IsAuthorized (record db { ses = db.ses ++ (s ∷ []) })
  insert_ses-IsAuthorized s b = record { backed = All-append _ s db.ses v.backed (λ live. b) }

  pub update_usr-IsAuthorized :
      (uuid : Str) (f : UsrRow → UsrRow)
      → ((u : UsrRow) → ((f u).id ≡ u.id))
      → ((u : UsrRow) → u.status ≡ Status.active → (f u).status ≡ Status.active)
      → IsAuthorized (record db { usr = update (usr_has_id uuid) f db.usr })
  update_usr-IsAuthorized uuid f keep active = record {
    backed =
        All-mono _ _ db.ses
          (λ r h live. grind (
            arith,
            h live,
            fetchone-update (usr_has_id r.usr_id) (usr_has_id uuid) f (λ u. rw (keep u) refl)
                db.usr,
            active,
          ))
          v.backed;
  }

  pub revoke_ses-IsAuthorized :
      (p : SesRow → Bool) (now : Time)
      → IsAuthorized (record db { ses = update p (set_revoked_at now) db.ses })
  revoke_ses-IsAuthorized p now = record {
    backed = All-update _ _ p (set_revoked_at now) db.ses (λ r h. ground (arith, h)) v.backed;
  }

  pub activate_cred-IsAuthorized :
      (uuid : Str) (t : Time)
      → IsAuthorized
          (record db { cred = update (cred_has_id uuid) (set_cred_status Status.active t) db.cred })
  activate_cred-IsAuthorized uuid t = record {
    backed =
        All-mono _ _ db.ses
          (λ r h live. ground (
            arith,
            h live,
            fetchone-update (cred_has_id r.cred_id) (cred_has_id uuid)
                (set_cred_status Status.active t) (λ c. refl) db.cred,
          ))
          v.backed;
  }

  -- A cascade: the rows that pass the test end, and the others stay backed.
  cascade :
      (p : SesRow → Bool) (now : Time) (usr : List UsrRow) (cred : List CredRow)
      → ((r : SesRow)
          → r.revoked_at ≡ none
          → p r ≡ false
          → IsBackedBy db.usr db.cred r
          → IsBackedBy usr cred r)
      → All (IsLiveBacked usr cred) (update p (set_revoked_at now) db.ses)
  cascade p now usr cred keep =
      All-update _ _ p (set_revoked_at now) db.ses (λ r h. row r h (p r) refl) v.backed
    where
      row :
          (r : SesRow)
          → IsLiveBacked db.usr db.cred r
          → (b : Bool) → p r ≡ b
          → IsLiveBacked usr cred (if b then set_revoked_at now r else r)
      row r h true e live = absurd (ground arith)
      row r h false e live = keep r live e (h live)

  usr_unaffected :
      (uuid : Str) (status : Status) (t : Time) (r : SesRow)
      → r.revoked_at ≡ none
      → live_of_user uuid r ≡ false
      → IsActiveUsr (fetchone (usr_has_id r.usr_id) db.usr)
      → IsActiveUsr (
          fetchone
            (usr_has_id r.usr_id)
            (update (usr_has_id uuid) (set_usr_status status t) db.usr))
  unfolding decide
  usr_unaffected uuid status t r live other b = grind (
    arith,
    fetchone_satisfies (usr_has_id r.usr_id) db.usr,
    fetchone-update (usr_has_id r.usr_id) (usr_has_id uuid) (set_usr_status status t) (λ u. refl)
        db.usr,
  )

  cred_unaffected :
      (p : CredRow → Bool) (status : Status) (t : Time) (r : SesRow)
      → ((c : CredRow) → cred_has_id r.cred_id c ≡ true → c.usr_id ≡ r.usr_id → p c ≡ false)
      → IsActiveCredOf r.usr_id (fetchone (cred_has_id r.cred_id) db.cred)
      → IsActiveCredOf r.usr_id
          (fetchone (cred_has_id r.cred_id) (update p (set_cred_status status t) db.cred))
  cred_unaffected p status t r other b = grind (
    arith,
    fetchone_satisfies (cred_has_id r.cred_id) db.cred,
    fetchone-update (cred_has_id r.cred_id) p (set_cred_status status t) (λ u. refl) db.cred,
  )

  -- A user is suspended with the sessions of the user.
  pub end_user-IsAuthorized :
      (uuid : Str) (status : Status) (t now : Time)
      → IsAuthorized (record db {
        usr = update (usr_has_id uuid) (set_usr_status status t) db.usr;
        ses = update (live_of_user uuid) (set_revoked_at now) db.ses;
      })
  end_user-IsAuthorized uuid status t now = record {
    backed =
        cascade (live_of_user uuid) now _ db.cred
          (λ r live other b. (usr_unaffected uuid status t r live other b.0, b.1));
  }

  -- A user is revoked with the active credentials and the sessions of the user.
  pub revoke_user-IsAuthorized :
      (uuid : Str) (t now : Time)
      → IsAuthorized (record db {
        usr = update (usr_has_id uuid) (set_usr_status Status.revoked t) db.usr;
        cred = update (active_cred_of uuid) (set_cred_status Status.revoked t) db.cred;
        ses = update (live_of_user uuid) (set_revoked_at now) db.ses;
      })
  unfolding decide
  revoke_user-IsAuthorized uuid t now = record {
    backed = cascade (live_of_user uuid) now _ _ (λ r live other b. (
      usr_unaffected uuid Status.revoked t r live other b.0,
      cred_unaffected (active_cred_of uuid) Status.revoked t r (λ c named of_it. ground arith) b.1,
    ));
  }

  -- A credential ends with its sessions.
  pub end_cred-IsAuthorized :
      (uuid : Str) (status : Status) (t now : Time)
      → IsAuthorized (record db {
        cred = update (cred_has_id uuid) (set_cred_status status t) db.cred;
        ses = update (live_of_cred uuid) (set_revoked_at now) db.ses;
      })
  unfolding decide
  end_cred-IsAuthorized uuid status t now = record {
    backed = cascade (live_of_cred uuid) now db.usr _ (λ r live other b.
        (b.0, cred_unaffected (cred_has_id uuid) status t r (λ c named of_it. ground arith) b.1));
  }
