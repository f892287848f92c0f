-- ===== src/Paging.antt =====
-- Listing in pages, as `list_users`, `list_sessions_for_user` and `list_pats_for_user` of
-- in_memory.py do it: sort, skip to the cursor, cut.
use identity_python.Base.{
  ℕ, suc, Bool, true, false, Option, none, some, List, [], ◌∷◌, ◌+◌, ltb, if◌then◌else◌, length,
  take, drop, get_last?,
}
use identity_python.Base.Text.{Str}
use identity_python.Types.{Page}

-- `a < b` on texts: by code points, a proper prefix first.
unfoldable pub str_ltb : Str → Str → Bool
str_ltb [] [] = false
str_ltb [] (b ∷ bs) = true
str_ltb (a ∷ as_) [] = false
str_ltb (a ∷ as_) (b ∷ bs) =
    let rest = str_ltb as_ bs in if ltb a b then true else if ltb b a then false else rest

module _ {A : Type 0} (before : A → A → Bool) where
  -- an element goes behind those that it is not before: the sort is stable
  unfoldable pub sort_insert : A → List A → List A
  sort_insert x [] = x ∷ []
  sort_insert x (y ∷ ys) = if before x y then x ∷ y ∷ ys else y ∷ sort_insert x ys

  unfoldable pub sort_onto : List A → List A → List A
  sort_onto sorted [] = sorted
  sort_onto sorted (x ∷ xs) = sort_onto (sort_insert x sorted) xs

  -- `sorted(l, key=...)`
  unfoldable pub sort_by : List A → List A
  sort_by l = sort_onto [] l

module _ {A : Type 0} (id : A → Str) where
  -- the index of the first element whose id is above the cursor, or the length
  unfoldable pub first_after : Str → ℕ → List A → ℕ
  first_after cursor i [] = i
  first_after cursor i (x ∷ xs) =
      let rest = first_after cursor (suc i) xs in if str_ltb cursor (id x) then i else rest

  abbrev pub start_of : Option Str → List A → ℕ
  start_of none l = 0
  start_of (some cursor) l = first_after cursor 0 l

  abbrev pub last_id : List A → Option Str
  last_id page = elim (get_last? page) [ none ↦ none | some x ↦ some (id x) ]

  -- `l[start : start + limit]`, and the id of its last element where more is left
  unfoldable pub cut_page : ℕ → ℕ → List A → Page A
  cut_page start limit l = record {
    items = take limit (drop start l);
    next_cursor =
        if ltb (start + limit) (length l) then last_id (take limit (drop start l)) else none;
  }

  -- the elements in the order of their ids, from the first above the cursor
  unfoldable pub page_after : Option Str → ℕ → List A → Page A
  page_after cursor limit l =
      let sorted = sort_by (λ x y. str_ltb (id x) (id y)) l in
      cut_page (start_of cursor sorted) limit sorted
