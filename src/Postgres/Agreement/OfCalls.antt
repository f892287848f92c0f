-- ===== src/Postgres/Agreement/OfCalls.antt =====
-- Each call on users, on both stores.
use identity_python.Base.{
  ◌≡◌, refl, arith, Option, none, some, inl, inr, Option-cases, Bool, false, Bool-cases, List, [],
  ◌∷◌,
}
use identity_python.Base.Dict.{insert}
use identity_python.Base.Text.{Str, codes}
use identity_python.Errors.{already_terminal}
use identity_python.Postgres.Agreement.{
  IsRoundTrip, IsSame, Agrees, UserCall, wire, in_memory, in_postgres, update-IsSame, append-IsSame,
}
use identity_python.Postgres.Query.{Database, fetchone, transaction}
use identity_python.Postgres.Rows.{Ids, UsrRow, row_to_user}
use identity_python.Postgres.Rowwise.{fetchone-update, fetchone_satisfies}
use identity_python.Postgres.Users as Rows
use identity_python.Postgres.Users.{set_display_name}
use identity_python.Postgres.Writes.{usr_has_id, update, any, insert_usr}
use identity_python.Result.{Result, ok, raised}
use identity_python.Tables.{Store}
use identity_python.Types.{User, Status, status_eq, Time}
use identity_python.Users as Dicts
use identity_python.Users.{Update, new_name, option_str_discrete}

any-fetchone :
    {A : Type 0} (p : A → Bool) (rows : List A) → fetchone p rows ≡ none → any p rows ≡ false
unfolding any fetchone
any-fetchone p [] e = refl
any-fetchone p (r ∷ rows) e = ground (arith, e, any-fetchone p rows)

-- An UPDATE of a row by its id, read back.
pub fetchone-update_same :
    (u : Str) (f : UsrRow → UsrRow) (usr : List UsrRow) (row : UsrRow)
    → ((x : UsrRow) → (f x).id ≡ x.id)
    → fetchone (usr_has_id u) usr ≡ some row
    → fetchone (usr_has_id u) (update (usr_has_id u) f usr) ≡ some (f row)
fetchone-update_same u f usr row keep found = ground (
  arith,
  found,
  fetchone-update (usr_has_id u) (usr_has_id u) f (λ x. rw (keep x) refl) usr,
  fetchone_satisfies (usr_has_id u) usr row found,
)

module _ (ids : Ids) (IsUuid : Str → Type 0) (r : IsRoundTrip ids IsUuid) (s : Store)
    (db : Database) (h : IsSame ids IsUuid s.users db.usr) where
  pub reads-Agrees : (u : Str) → IsUuid u → Agrees ids IsUuid (UserCall.reads u) s db
  unfolding in_memory in_postgres Rows.get_user
  reads-Agrees u hu = elim (Option-cases (fetchone (usr_has_id u) db.usr)) [
    | inl q ↦ (
      ground (arith, q, r.decoded (codes "usr") u hu, h.same_user u hu),
      ground (arith, q, h, r.decoded (codes "usr") u hu, h.same_user u hu),
    )
    | inr (row, q) ↦ (
      ground (arith, q, r.decoded (codes "usr") u hu, h.same_user u hu),
      ground (arith, q, h, r.decoded (codes "usr") u hu, h.same_user u hu),
    )
  ]

  pub creates-Agrees :
      (u : Str) (name : Option Str) (now : Time)
      → IsUuid u
      → fetchone (usr_has_id u) db.usr ≡ none
      → Agrees ids IsUuid (UserCall.creates u name now) s db
  unfolding in_memory in_postgres Rows.create_user Dicts.create_user transaction insert_usr
      row_to_user
  creates-Agrees u name now hu new =
      let row : UsrRow = record {
        id = u;
        status = Status.active;
        display_name = name;
        created_at = now;
        updated_at = now;
      } in
      (
        ground (arith, any-fetchone (usr_has_id u) db.usr new),
        ground (
          arith,
          any-fetchone (usr_has_id u) db.usr new,
          append-IsSame ids IsUuid r s.users db.usr h row hu new,
        ),
      )

  -- What both stores do, as an equation for each.
  pub agree :
      (c : UserCall) (res : Result User) (t : Store) (e : Database)
      → in_memory ids c s ≡ (res, t)
      → in_postgres ids c db ≡ (res, e)
      → IsSame ids IsUuid t.users e.usr
      → Agrees ids IsUuid c s db
  agree c res t e p q k = rw (p, q) (refl, k)

  pub updates-Agrees :
      (u : Str) (name : Update) (now : Time)
      → IsUuid u
      → Agrees ids IsUuid (UserCall.updates u name now) s db
  unfolding in_memory in_postgres Rows.update_user Dicts.update_user transaction row_to_user
  updates-Agrees u name now hu = elim (Option-cases (fetchone (usr_has_id u) db.usr)) [
    | inl q ↦ (
      ground (arith, q, r.decoded (codes "usr") u hu, h.same_user u hu),
      ground (arith, q, h, r.decoded (codes "usr") u hu, h.same_user u hu),
    )
    | inr (row, q) ↦ elim (Bool-cases (status_eq row.status Status.revoked)) [
      | inl b ↦
          agree (UserCall.updates u name now) (raised already_terminal) s db
            (ground (arith, q, b, h.same_user u hu))
            (ground (arith, q, b, r.decoded (codes "usr") u hu)) h
      | inr b ↦
          updated row q b (option_str_discrete (new_name name row.display_name) row.display_name)
            refl
    ]
  ]
    where
      updated :
          (row : UsrRow)
          → fetchone (usr_has_id u) db.usr ≡ some row
          → status_eq row.status Status.revoked ≡ false
          → (d : Dec (new_name name row.display_name ≡ row.display_name))
          → option_str_discrete (new_name name row.display_name) row.display_name ≡ d
          → Agrees ids IsUuid (UserCall.updates u name now) s db
      updated row q b (yes p) e =
          agree (UserCall.updates u name now) (ok (row_to_user ids row)) s db
            (ground (arith, e, b, q, h.same_user u hu))
            (ground (arith, e, b, q, r.decoded (codes "usr") u hu)) h
      updated row q b (no p) e =
          let f : UsrRow → UsrRow = set_display_name (new_name name row.display_name) now in
          agree (UserCall.updates u name now) (ok (row_to_user ids (f row)))
            (record s { users = insert (wire ids u) (row_to_user ids (f row)) s.users })
            (record db { usr = update (usr_has_id u) f db.usr })
            (ground (arith, e, b, q, h.same_user u hu))
            (ground (
              arith,
              e,
              b,
              q,
              r.decoded (codes "usr") u hu,
              fetchone-update_same u f db.usr row (λ x. refl) q,
            ))
            (update-IsSame ids IsUuid r s.users db.usr h u row f hu q (λ x. refl))
