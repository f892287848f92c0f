-- ===== src/Postgres/Pages.antt =====
-- What the listings of `PostgresIdentityStore` return in a page.
use identity_python.Base.{
  ℕ, zero, suc, ◌+◌, ◌≤◌, ◌<◌, ◌≡◌, refl, arith, ap, Option, none, some, List, [], ◌∷◌, map, take,
  length, select, min, ◌&&◌, Option-cases, inl, inr,
}
use identity_python.Base.Text.{Str}
use identity_python.Paging.{sort_by, str_ltb}
use identity_python.Postgres.Query.{Database}
use identity_python.Postgres.Rows.{Ids, SesRow, row_to_session}
use identity_python.Postgres.Sessions.{list_sessions_for_user}
use identity_python.Postgres.Users.{page_of_rows, behind_cursor}
use identity_python.Postgres.Writes.{same}
use identity_python.Result.{ok}
use identity_python.Types.{Page, Session}

length-take_le {ℓ} : {A : Type ℓ} (n : ℕ) (l : List A) → length (take n l) ≤ n
length-take_le zero l = omega arith
length-take_le (suc n) [] = omega arith
length-take_le (suc n) (x ∷ xs) = omega (arith, length-take_le n xs)

length-take_le_length {ℓ} : {A : Type ℓ} (n : ℕ) (l : List A) → length (take n l) ≤ length l
length-take_le_length zero l = omega arith
length-take_le_length (suc n) [] = omega arith
length-take_le_length (suc n) (x ∷ xs) = omega (arith, length-take_le_length n xs)

length-map {ℓ κ} : {A : Type ℓ} {B : Type κ} (f : A → B) (l : List A) → length (map f l) ≡ length l
length-map f [] = refl
length-map f (x ∷ xs) = ap suc (length-map f xs)

page_of_rows_full :
    {A R : Type 0} (id : A → Str) (of_row : R → A) (limit : ℕ) (rows : List R)
    → length rows ≤ limit
    → ((page_of_rows id of_row limit rows).next_cursor ≡ none)
      × (length (page_of_rows id of_row limit rows).items ≤ length rows)
unfolding page_of_rows
page_of_rows_full id of_row limit rows e = (
  ground arith,
  omega (arith, length-map of_row (take limit rows), length-take_le_length limit rows),
)

capped_page :
    {A R : Type 0} (id : A → Str) (of_row : R → A) (limit : ℕ) (rows : List R)
    → 200 < limit
    → let page = page_of_rows id of_row limit (take (min limit 200 + 1) rows) in
      (page.next_cursor ≡ none) × (length page.items ≤ 201)
capped_page id of_row limit rows big =
    let short = length-take_le (min limit 200 + 1) rows in
    let (no_more, few) =
      page_of_rows_full id of_row limit (take (min limit 200 + 1) rows)
        (omega (arith, short, big)) in
    (no_more, omega (arith, few, short, big))

-- With a `limit` above 200, `list_sessions_for_user` returns 201 sessions at most and no cursor,
-- however many sessions there are.
pub list_sessions_for_user_capped :
    (ids : Ids) (usr_id : Str) (cursor : Option Str) (limit : ℕ) (db : Database)
    (page : Page Session)
    → 200 < limit
    → (list_sessions_for_user ids usr_id cursor limit db).0 ≡ ok page
    → (page.next_cursor ≡ none) × (length page.items ≤ 201)
unfolding list_sessions_for_user
list_sessions_for_user_capped ids usr_id cursor limit db page big e =
    elim (Option-cases (ids.decode usr_id)) [
      | inl p ↦ absurd (ground (arith, p))
      | inr (uuid, p) ↦ elim (Option-cases cursor) [
        | inl c ↦ ground (
          arith,
          p,
          c,
          capped_page (λ (x : Session). x.id) (row_to_session ids) limit
              (sort_by (λ (a b : SesRow). str_ltb a.id b.id)
                (select (λ row. same row.usr_id uuid && behind_cursor none row.id) db.ses))
              big,
        )
        | inr (wire, c) ↦ elim (Option-cases (ids.decode wire)) [
          | inl d ↦ absurd (ground (arith, p, c, d))
          | inr (after, d) ↦ ground (
            arith,
            p,
            c,
            d,
            capped_page (λ (x : Session). x.id) (row_to_session ids) limit
                (sort_by (λ (a b : SesRow). str_ltb a.id b.id)
                  (select (λ row. same row.usr_id uuid && behind_cursor (some after) row.id)
                    db.ses))
                big,
          )
        ]
      ]
    ]
