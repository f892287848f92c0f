-- ===== src/Postgres/Rowwise.antt =====
-- Lemmas on rows: what a SELECT finds behind an UPDATE or an INSERT, and what all rows satisfy.
use identity_python.Base.{
  ◌≡◌, refl, arith, Option, none, some, inl, inr, Bool, true, Bool-cases, List, [], ◌∷◌, ◌++◌,
  if◌then◌else◌, All, subst,
}
use identity_python.Postgres.Query.{fetchone}
use identity_python.Postgres.Rows.{map_option}
use identity_python.Postgres.Writes.{update}

-- a row that is found behind an INSERT
abbrev pub found_first : {A : Type 0} → Option A → Option A → Option A
found_first none o = o
found_first (some a) o = some a

module _ {A : Type 0} where
  pub fetchone-update :
      (q p : A → Bool) (f : A → A)
      → ((r : A) → q (f r) ≡ q r)
      → (rows : List A)
      → fetchone q (update p f rows) ≡ map_option (λ r. if p r then f r else r) (fetchone q rows)
  unfolding fetchone update
  fetchone-update q p f same [] = refl
  fetchone-update q p f same (r ∷ rows) = elim (Bool-cases (p r)) [
    | inl e ↦ elim (Bool-cases (q r)) [
      | inl d ↦ rw (e, same r, d, e) refl
      | inr d ↦ rw (e, same r, d) (fetchone-update q p f same rows)
    ]
    | inr e ↦ elim (Bool-cases (q r)) [
      | inl d ↦ rw (e, d, e) refl
      | inr d ↦ rw (e, d) (fetchone-update q p f same rows)
    ]
  ]

  pub fetchone-append :
      (q : A → Bool) (r : A) (rows : List A)
      → fetchone q (rows ++ (r ∷ [])) ≡ found_first (fetchone q rows) (if q r then some r else none)
  unfolding fetchone
  fetchone-append q r [] = elim (Bool-cases (q r)) [ inl e ↦ rw e refl | inr e ↦ rw e refl ]
  fetchone-append q r (x ∷ rows) = elim (Bool-cases (q x)) [
    | inl e ↦ rw e refl
    | inr e ↦ rw e (fetchone-append q r rows)
  ]

  pub fetchone_satisfies :
      (q : A → Bool) (rows : List A) (r : A) → fetchone q rows ≡ some r → q r ≡ true
  unfolding fetchone
  fetchone_satisfies q [] r e = absurd (ground arith)
  fetchone_satisfies q (x ∷ rows) r e = ground (arith, fetchone_satisfies q rows r)

  pub fetchone_All :
      (P : A → Type 0) (q : A → Bool) (rows : List A) (r : A)
      → All P rows
      → fetchone q rows ≡ some r
      → P r
  unfolding fetchone
  fetchone_All P q [] r h e = absurd (ground arith)
  fetchone_All P q (x ∷ rows) r (a, h) e = elim (Bool-cases (q x)) [
    | inl d ↦ subst P (ground (arith, d)) a
    | inr d ↦ fetchone_All P q rows r h (ground (arith, d))
  ]

  pub All-update :
      (P Q : A → Type 0) (p : A → Bool) (f : A → A) (rows : List A)
      → ((r : A) → P r → Q (if p r then f r else r))
      → All P rows
      → All Q (update p f rows)
  unfolding update
  All-update P Q p f [] h a = tt
  All-update P Q p f (r ∷ rows) h (a, b) = (h r a, All-update P Q p f rows h b)

  pub All-mono :
      (P Q : A → Type 0) (rows : List A) → ((r : A) → P r → Q r) → All P rows → All Q rows
  All-mono P Q [] h a = tt
  All-mono P Q (r ∷ rows) h (a, b) = (h r a, All-mono P Q rows h b)

  pub All-append :
      (P : A → Type 0) (r : A) (rows : List A) → All P rows → P r → All P (rows ++ (r ∷ []))
  All-append P r [] a b = (b, tt)
  All-append P r (x ∷ rows) (a, c) b = (a, All-append P r rows c b)
