-- ===== src/Postgres/Agreement/Runs.antt =====
-- Runs of calls on users on both stores.
use identity_python.Base.{◌≡◌, ◌≢◌, refl, List, [], ◌∷◌}
use identity_python.Base.Text.{Str}
use identity_python.Errors.{check_violation}
use identity_python.Postgres.Agreement.{
  IsRoundTrip, IsSame, UserCall, subject, IsNew, in_memory, in_postgres,
}
use identity_python.Postgres.Agreement.Cascades.{user_calls-Agrees}
use identity_python.Postgres.Query.{Database}
use identity_python.Postgres.Rows.{Ids}
use identity_python.Result.{Result, raised}
use identity_python.Tables.{Store}
use identity_python.Types.{User}

module _ (ids : Ids) where
  -- what each call returns or raises, and the store behind them
  unfoldable pub results_in_memory : List UserCall → Store → List (Result User) × Store
  results_in_memory [] s = ([], s)
  results_in_memory (c ∷ cs) s =
      let (res, t) = in_memory ids c s in
      let (rest, last) = results_in_memory cs t in (res ∷ rest, last)

  unfoldable pub results_in_postgres : List UserCall → Database → List (Result User) × Database
  results_in_postgres [] db = ([], db)
  results_in_postgres (c ∷ cs) db =
      let (res, e) = in_postgres ids c db in
      let (rest, last) = results_in_postgres cs e in (res ∷ rest, last)

  module _ (IsUuid : Str → Type 0) where
    -- Each call is for a uuid, a new user has a new one, and the database refuses no time.
    abbrev pub IsAllowed : List UserCall → Database → Type 0
    IsAllowed [] db = Unit
    IsAllowed (c ∷ cs) db =
        IsUuid (subject c)
        × (IsNew c db.usr
            × (((in_postgres ids c db).0 ≢ raised check_violation)
                × IsAllowed cs (in_postgres ids c db).1))

    module _ (r : IsRoundTrip ids IsUuid) where
      -- Where both stores have the same users, calls on users return and raise the same on both, one
      -- after the other, and leave the same users, if each is for a uuid, a new user has a new uuid,
      -- and the database refuses no time at which sessions end.
      pub user_results_agree :
          (cs : List UserCall) (s : Store) (db : Database)
          → IsSame ids IsUuid s.users db.usr
          → IsAllowed cs db
          → ((results_in_memory cs s).0 ≡ (results_in_postgres cs db).0)
            × IsSame ids IsUuid (results_in_memory cs s).1.users (results_in_postgres cs db).1.usr
      unfolding results_in_memory results_in_postgres
      user_results_agree [] s db h a = (refl, h)
      user_results_agree (c ∷ cs) s db h (hu, (new, (fine, a))) =
          let (same, next) = user_calls-Agrees ids IsUuid r s db h c hu new fine in
          let (rest, last) =
            user_results_agree cs (in_memory ids c s).1 (in_postgres ids c db).1 next a in
          (rw (same, rest) refl, last)
