-- ===== src/Postgres/Indexed.antt =====
-- The rows of `cred` under their primary key and the index of active credentials.
pub mod Methods
pub mod Rotations
pub mod Logins
pub mod Run
use identity_python.Base.{
  ◌≡◌, ◌≢◌, refl, sym, ap, arith, Option, none, some, inl, inr, Bool, true, false, Bool-cases, not,
  List, [], ◌∷◌, ◌++◌, ◌&&◌, if◌then◌else◌, All, decide,
}
use identity_python.Base.Text.{Str, str_discrete}
use identity_python.Postgres.Query.{fetchone}
use identity_python.Postgres.Rows.{CredRow}
use identity_python.Postgres.Rowwise.{fetchone_satisfies, All-update, All-mono, All-append}
use identity_python.Postgres.Writes.{
  cred_has_id, cred_conflict, same, same_key, any, update, set_cred_status,
}
use identity_python.Credentials.Entries.{type_eq}
use identity_python.Types.{Status, status_eq, Time}

-- the ids differ, and the rows are not both active under one key
abbrev pub IsApartFrom : CredRow → CredRow → Type 0
IsApartFrom a b = (same a.id b.id ≡ false) × (cred_conflict a b ≡ false)

-- any two rows
abbrev pub IsIndexed : List CredRow → Type 0
IsIndexed [] = Unit
IsIndexed (c ∷ cs) = All (IsApartFrom c) cs × IsIndexed cs

pub same_sym : (a b : Str) → same a b ≡ same b a
unfolding decide
same_sym a b = ground arith

pub cred_conflict_sym : (a b : CredRow) → cred_conflict a b ≡ cred_conflict b a
unfolding cred_conflict
cred_conflict_sym a b = ground (arith, same_sym a.identifier b.identifier)

-- An INSERT that the constraints let pass.
pub insert-IsIndexed :
    (row : CredRow) (cs : List CredRow)
    → any (cred_has_id row.id) cs ≡ false
    → any (cred_conflict row) cs ≡ false
    → IsIndexed cs
    → IsIndexed (cs ++ (row ∷ []))
unfolding any
insert-IsIndexed row [] new free v = (tt, tt)
insert-IsIndexed row (c ∷ cs) new free (a, v) = (
  All-append (IsApartFrom c) row cs a
      (ground (arith, new), ground (arith, free, cred_conflict_sym row c)),
  insert-IsIndexed row cs (ground (arith, new)) (ground (arith, free)) v,
)

-- An UPDATE to a status that is not active.
pub end-IsIndexed :
    (p : CredRow → Bool) (status : Status) (t : Time) (cs : List CredRow)
    → status ≢ Status.active
    → IsIndexed cs
    → IsIndexed (update p (set_cred_status status t) cs)
unfolding update cred_conflict
end-IsIndexed p status t [] ended v = tt
end-IsIndexed p status t (c ∷ cs) ended (a, v) = (
  All-update (IsApartFrom c) _ p (set_cred_status status t) cs
      (λ d h. (ground (arith, h), ground (arith, h, ended))) a,
  end-IsIndexed p status t cs ended v,
)

module _ (row : CredRow) (t : Time) where
  -- another row that is active under the key of the row
  abbrev pub is_taken : CredRow → Bool
  is_taken r = not (cred_has_id row.id r) && (status_eq r.status Status.active && same_key row r)

  abbrev activated : CredRow → CredRow
  activated c = if cred_has_id row.id c then set_cred_status Status.active t c else c

  -- the row is the only one with its id
  abbrev IsOnly : CredRow → Type 0
  IsOnly c = cred_has_id row.id c ≡ true → c ≡ row

  activated-IsApartFrom :
      (c d : CredRow)
      → IsOnly c
      → IsOnly d
      → is_taken c ≡ false
      → is_taken d ≡ false
      → IsApartFrom c d
      → IsApartFrom (activated c) (activated d)
  unfolding cred_conflict decide
  activated-IsApartFrom c d x y p q h = elim (Bool-cases (cred_has_id row.id c)) [
    | inl a ↦ elim (Bool-cases (cred_has_id row.id d)) [
      | inl b ↦ absurd (ground (arith, a, b, h))
      | inr b ↦ (
        ground (arith, a, b, h),
        ground (arith, a, b, q, ap (λ z. z.type) (x a), ap (λ z. z.identifier) (x a)),
      )
    ]
    | inr a ↦ elim (Bool-cases (cred_has_id row.id d)) [
      | inl b ↦ (
        ground (arith, a, b, h),
        ground (
          arith,
          a,
          b,
          p,
          ap (λ z. z.type) (y b),
          ap (λ z. z.identifier) (y b),
          same_sym c.identifier d.identifier,
        ),
      )
      | inr b ↦ (ground (arith, a, b, h), ground (arith, a, b, h))
    ]
  ]

  found_row :
      (c : CredRow) (cs : List CredRow) (i : Str)
      → fetchone (cred_has_id i) (c ∷ cs) ≡ some row
      → cred_has_id i c ≡ true
      → c ≡ row
  unfolding fetchone
  found_row c cs i e p = ground (arith, p, e)

  found-IsOnly :
      (i : Str) (cs : List CredRow)
      → IsIndexed cs
      → fetchone (cred_has_id i) cs ≡ some row
      → All IsOnly cs
  unfolding fetchone decide
  found-IsOnly i [] v e = tt
  found-IsOnly i (c ∷ cs) (a, v) e = elim (Bool-cases (cred_has_id i c)) [
    | inl p ↦ (
      λ named. ground (arith, p, e),
      All-mono (IsApartFrom c) IsOnly cs
          (λ d h named.
            absurd (ground (arith, p, e, h, named, ap (λ z. z.id) (found_row c cs i e p))))
          a,
    )
    | inr p ↦ (
      λ named. absurd (
          ground
            (arith, p, named, fetchone_satisfies (cred_has_id i) cs row (ground (arith, p, e)))),
      found-IsOnly i cs v (ground (arith, p, e)),
    )
  ]

  activated_tail :
      (c : CredRow) (cs : List CredRow)
      → IsOnly c
      → All IsOnly cs
      → is_taken c ≡ false
      → any is_taken cs ≡ false
      → All (IsApartFrom c) cs
      → All
          (IsApartFrom (activated c))
          (update (cred_has_id row.id) (set_cred_status Status.active t) cs)
  unfolding any update
  activated_tail c [] x y p q a = tt
  activated_tail c (d ∷ cs) x (y, ys) p q (h, a) = (
    activated-IsApartFrom c d x y p (ground (arith, q)) h,
    activated_tail c cs x ys p (ground (arith, q)) a,
  )

  activated_index :
      (cs : List CredRow)
      → All IsOnly cs
      → any is_taken cs ≡ false
      → IsIndexed cs
      → IsIndexed (update (cred_has_id row.id) (set_cred_status Status.active t) cs)
  unfolding any update
  activated_index [] y q v = tt
  activated_index (c ∷ cs) (x, ys) q (a, v) = (
    activated_tail c cs x ys (ground (arith, q)) (ground (arith, q)) a,
    activated_index cs ys (ground (arith, q)) v,
  )

  -- An UPDATE of a row to `active` that the index lets pass.
  pub activate-IsIndexed :
      (i : Str) (cs : List CredRow)
      → fetchone (cred_has_id i) cs ≡ some row
      → any is_taken cs ≡ false
      → IsIndexed cs
      → IsIndexed (update (cred_has_id row.id) (set_cred_status Status.active t) cs)
  activate-IsIndexed i cs e q v = activated_index cs (found-IsOnly i cs v e) q v
