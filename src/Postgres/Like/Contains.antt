-- ===== src/Postgres/Like/Contains.antt =====
-- The escaped pattern of postgres.py beside the substring search of in_memory.py.
use identity_python.Base.{
  ℕ, ◌≡◌, refl, arith, ap, ◌∙◌, inl, inr, Bool, true, false, Bool-cases, ◌&&◌, [], ◌∷◌, ◌++◌, ◌==◌,
  map, if◌then◌else◌,
}
use identity_python.Base.Text.{Str, starts_with}
use identity_python.Postgres.Like.{
  replace, escape_like, like_pattern, some_suffix, like_char, is_empty, ilike,
}
use identity_python.Users.{contains_text}

-- a character of the query in the pattern
abbrev escape_char : ℕ → Str
escape_char c =
    if c == 0x5c
    then 0x5c ∷ 0x5c ∷ []
    else if c == b'%'
    then 0x5c ∷ b'%' ∷ []
    else if c == b'_'
    then 0x5c ∷ b'_' ∷ []
    else c ∷ []

escape_like_nil : escape_like [] ≡ []
unfolding escape_like replace
escape_like_nil = refl

append_assoc : (a b c : Str) → (a ++ b) ++ c ≡ a ++ (b ++ c)
append_assoc [] b c = refl
append_assoc (x ∷ a) b c = ap (◌∷◌ x) (append_assoc a b c)

escape_like_cons : (c : ℕ) (q : Str) → escape_like (c ∷ q) ≡ escape_char c ++ escape_like q
unfolding escape_like replace
escape_like_cons c q = ground arith

equal_of_test : (a b : ℕ) → (a == b) ≡ true → a ≡ b
equal_of_test a b e = ground arith

module _ (fold : ℕ → ℕ) where
  ilike-percent : (r : Str) (s : Str) → ilike fold (b'%' ∷ r) s ≡ some_suffix (ilike fold r) s
  unfolding ilike
  ilike-percent [] s = refl
  ilike-percent (c ∷ r) s = refl

  ilike_literal :
      (c : ℕ) (r s : Str) → ilike fold (0x5c ∷ c ∷ r) s ≡ like_char fold c (ilike fold r) s
  unfolding ilike
  ilike_literal c r s = refl

  ilike_plain :
      (c : ℕ) (r s : Str)
      → (c == 0x5c) ≡ false
      → (c == b'%') ≡ false
      → (c == b'_') ≡ false
      → ilike fold (c ∷ r) s ≡ like_char fold c (ilike fold r) s
  unfolding ilike
  ilike_plain c [] s x y z = rw (x, y, z) refl
  ilike_plain c (d ∷ r) s x y z = rw (x, y, z) refl

  ilike-escape_char :
      (c : ℕ) (r s : Str) → ilike fold (escape_char c ++ r) s ≡ like_char fold c (ilike fold r) s
  ilike-escape_char c r s = elim (Bool-cases (c == 0x5c)) [
    | inl x ↦ rw (equal_of_test c 0x5c x) (ilike_literal 0x5c r s)
    | inr x ↦ elim (Bool-cases (c == b'%')) [
      | inl y ↦ rw (equal_of_test c b'%' y) (ilike_literal b'%' r s)
      | inr y ↦ elim (Bool-cases (c == b'_')) [
        | inl z ↦ rw (equal_of_test c b'_' z) (ilike_literal b'_' r s)
        | inr z ↦ rw (x, y, z) (ilike_plain c r s x y z)
      ]
    ]
  ]

  some_suffix-is_empty : (s : Str) → some_suffix (is_empty fold) s ≡ true
  unfolding some_suffix
  some_suffix-is_empty [] = refl
  some_suffix-is_empty (c ∷ cs) = some_suffix-is_empty cs

  some_suffix-ilike_nil : (s : Str) → some_suffix (ilike fold []) s ≡ true
  unfolding ilike
  some_suffix-ilike_nil s = some_suffix-is_empty s

  like_char-starts_with :
      (c : ℕ) (q : Str) (p : Str → Bool)
      → ((s : Str) → p s ≡ starts_with (map fold q) (map fold s))
      → (s : Str) → like_char fold c p s ≡ starts_with (fold c ∷ map fold q) (map fold s)
  unfolding starts_with
  like_char-starts_with c q p h [] = refl
  like_char-starts_with c q p h (d ∷ ds) = ap (λ b. fold c == fold d && b) (h ds)

  ilike-prefix :
      (q s : Str)
      → ilike fold (escape_like q ++ (b'%' ∷ [])) s ≡ starts_with (map fold q) (map fold s)
  unfolding starts_with
  ilike-prefix [] s = rw escape_like_nil (ilike-percent [] s ∙ some_suffix-ilike_nil s)
  ilike-prefix (c ∷ q) s =
      rw
        (
          escape_like_cons c q,
          append_assoc (escape_char c) (escape_like q) (b'%' ∷ []),
          ilike-escape_char c (escape_like q ++ (b'%' ∷ [])) s,
        )
        (like_char-starts_with c q (ilike fold (escape_like q ++ (b'%' ∷ []))) (ilike-prefix q) s)

  some_suffix-contains_text :
      (p : Str → Bool) (needle : Str)
      → ((s : Str) → p s ≡ starts_with needle (map fold s))
      → (s : Str) → some_suffix p s ≡ contains_text needle (map fold s)
  unfolding some_suffix contains_text
  some_suffix-contains_text p needle h [] = h []
  some_suffix-contains_text p needle h (c ∷ cs) =
      rw (h (c ∷ cs), some_suffix-contains_text p needle h cs) refl

  -- An identifier matches the pattern of a query exactly if it contains the query, both folded
  -- character by character: no character of the query acts as a wildcard.
  pub ilike-like_pattern :
      (query text : Str)
      → ilike fold (like_pattern query) text ≡ contains_text (map fold query) (map fold text)
  ilike-like_pattern query text =
      ilike-percent (escape_like query ++ (b'%' ∷ [])) text
      ∙ some_suffix-contains_text (ilike fold (escape_like query ++ (b'%' ∷ []))) (map fold query)
          (ilike-prefix query) text
