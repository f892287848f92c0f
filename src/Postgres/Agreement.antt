-- ===== src/Postgres/Agreement.antt =====
-- The relation of the users of the two stores, and the calls on users of in_memory.py and postgres.py.
pub mod OfCalls
pub mod Cascades
pub mod Runs
use identity_python.Base.{
  ℕ, ◌≡◌, ◌≢◌, refl, sym, ap, ◌∙◌, arith, Option, none, some, inl, inr, Option-cases, Bool, true,
  false, Bool-cases, List, [], ◌∷◌, ◌++◌, if◌then◌else◌, ite, decide,
}
use identity_python.Base.Dict.{Dict, lookup, insert, lookup-insert}
use identity_python.Base.Text.{Str, str_discrete, codes}
use identity_python.Errors.{check_violation}
use identity_python.Exec.{Exec}
use identity_python.Postgres.Query.{Database, Query, fetchone, transaction}
use identity_python.Postgres.Rows.{Ids, UsrRow, row_to_user, map_option}
use identity_python.Postgres.Rowwise.{
  fetchone-update, fetchone-append, fetchone_satisfies, found_first,
}
use identity_python.Postgres.Users as Rows
use identity_python.Postgres.Writes.{
  usr_has_id, update, same, any, set_usr_status, insert_usr, revoke_ses,
}
use identity_python.Requires.{require_user}
use identity_python.Result.{Result, ok, raised}
use identity_python.Tables.{Store}
use identity_python.Types.{User, Status, Time, with_status}
use identity_python.Users as Dicts
use identity_python.Users.{Update, new_name}

-- A uuid that is encoded under a prefix is decoded to itself.
pub record IsRoundTrip (ids : Ids) (IsUuid : Str → Type 0) : Type 0 where
  pub decoded : (kind u : Str) → IsUuid u → ids.decode (ids.encode kind u) ≡ some u

-- The calls on one user, by the uuid.
pub data UserCall : Type 0 where
  creates : (uuid : Str) (name : Option Str) (now : Time) → UserCall
  reads : (uuid : Str) → UserCall
  updates : (uuid : Str) (name : Update) (now : Time) → UserCall
  suspends : (uuid : Str) (now cascade_now : Time) → UserCall
  reinstates : (uuid : Str) (now : Time) → UserCall
  revokes : (uuid : Str) (now cascade_now : Time) → UserCall

abbrev pub subject : UserCall → Str
subject (UserCall.creates u name now) = u
subject (UserCall.reads u) = u
subject (UserCall.updates u name now) = u
subject (UserCall.suspends u now c) = u
subject (UserCall.reinstates u now) = u
subject (UserCall.revokes u now c) = u

-- A uuid that is generated is new.
abbrev pub IsNew : UserCall → List UsrRow → Type 0
IsNew (UserCall.creates u name now) usr = fetchone (usr_has_id u) usr ≡ none
IsNew _ usr = Unit

module _ (ids : Ids) where
  abbrev pub wire : Str → Str
  wire uuid = ids.encode (codes "usr") uuid

  unfoldable pub in_memory : UserCall → Exec User
  in_memory (UserCall.creates u name now) = Dicts.create_user name now (wire u)
  in_memory (UserCall.reads u) = require_user (wire u)
  in_memory (UserCall.updates u name now) = Dicts.update_user (wire u) name now
  in_memory (UserCall.suspends u now c) = Dicts.suspend_user (wire u) now c
  in_memory (UserCall.reinstates u now) = Dicts.reinstate_user (wire u) now
  in_memory (UserCall.revokes u now c) = Dicts.revoke_user (wire u) now c

  unfoldable pub in_postgres : UserCall → Query User
  in_postgres (UserCall.creates u name now) = Rows.create_user ids name now u
  in_postgres (UserCall.reads u) = Rows.get_user ids (wire u)
  in_postgres (UserCall.updates u name now) = Rows.update_user ids (wire u) name now
  in_postgres (UserCall.suspends u now c) = Rows.suspend_user ids (wire u) c now
  in_postgres (UserCall.reinstates u now) = Rows.reinstate_user ids (wire u) now
  in_postgres (UserCall.revokes u now c) = Rows.revoke_user ids (wire u) c now

  module _ (IsUuid : Str → Type 0) where
    -- Under each uuid both stores have the same user, or none.
    pub record IsSame (users : Dict User) (usr : List UsrRow) : Type 0 where
      pub same_user :
          (u : Str)
          → IsUuid u
          → lookup (wire u) users ≡ map_option (row_to_user ids) (fetchone (usr_has_id u) usr)

    -- Both stores return or raise the same and leave the same users.
    abbrev pub Agrees : UserCall → Store → Database → Type 0
    Agrees c s db =
        ((in_memory c s).0 ≡ (in_postgres c db).0)
        × IsSame (in_memory c s).1.users (in_postgres c db).1.usr

    module _ (r : IsRoundTrip ids IsUuid) where
      wire_distinct : (u v : Str) → IsUuid u → IsUuid v → u ≢ v → wire u ≢ wire v
      wire_distinct u v hu hv ne e = ground (
        arith,
        ne,
        e,
        r.decoded (codes "usr") u hu,
        r.decoded (codes "usr") v hv,
        ap ids.decode e,
      )

      module _ (users : Dict User) (usr : List UsrRow) (h : IsSame users usr) where
        pub update-IsSame :
            (u : Str) (row : UsrRow) (f : UsrRow → UsrRow)
            → IsUuid u
            → fetchone (usr_has_id u) usr ≡ some row
            → ((x : UsrRow) → (f x).id ≡ x.id)
            → IsSame (insert (wire u) (row_to_user ids (f row)) users) (update (usr_has_id u) f usr)
        unfolding decide
        update-IsSame u row f hu found keep = record {
          same_user = λ v hv.
              rw
                (
                  lookup-insert (wire u) (wire v) (row_to_user ids (f row)) users,
                  fetchone-update (usr_has_id v) (usr_has_id u) f (λ x. rw (keep x) refl) usr,
                )
                (elim (str_discrete u v) [
                  | yes e ↦ ground (
                    arith,
                    e,
                    found,
                    fetchone_satisfies (usr_has_id u) usr row found,
                    ap (λ x. fetchone (usr_has_id x) usr) e,
                  )
                  | no ne ↦ elim (Option-cases (fetchone (usr_has_id v) usr)) [
                    | inl q ↦ ground (arith, ne, q, h.same_user v hv, wire_distinct u v hu hv ne)
                    | inr (x, q) ↦ ground (
                      arith,
                      ne,
                      q,
                      h.same_user v hv,
                      wire_distinct u v hu hv ne,
                      fetchone_satisfies (usr_has_id v) usr x q,
                    )
                  ]
                ]);
        }

        pub append-IsSame :
            (row : UsrRow)
            → IsUuid row.id
            → fetchone (usr_has_id row.id) usr ≡ none
            → IsSame (insert (wire row.id) (row_to_user ids row) users) (usr ++ (row ∷ []))
        unfolding decide
        append-IsSame row hu new = record {
          same_user = λ v hv.
              rw
                (
                  lookup-insert (wire row.id) (wire v) (row_to_user ids row) users,
                  fetchone-append (usr_has_id v) row usr,
                )
                (elim (str_discrete row.id v) [
                  | yes e ↦ ground (arith, e, new, ap (λ x. fetchone (usr_has_id x) usr) e)
                  | no ne ↦ ground (arith, ne, h.same_user v hv, wire_distinct row.id v hu hv ne)
                ]);
        }
