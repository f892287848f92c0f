-- ===== src/Postgres/Like.antt =====
-- The search pattern of `list_users` in postgres.py, and what `ILIKE` matches: `%` is any text, `_` any
-- character, and a backslash takes the next character literally.
pub mod Contains
use identity_python.Base.{ℕ, Bool, true, false, ◌&&◌, ◌||◌, [], ◌∷◌, ◌++◌, ◌==◌, if◌then◌else◌}
use identity_python.Base.Text.{Str}

-- `s.replace(c, new)` for a character `c`
unfoldable pub replace : ℕ → Str → Str → Str
replace c new [] = []
replace c new (d ∷ ds) = (if d == c then new else d ∷ []) ++ replace c new ds

-- `query.replace("\\", "\\\\").replace("%", "\\%").replace("_", "\\_")`
unfoldable pub escape_like : Str → Str
unfolding replace
escape_like query =
    replace b'_' (0x5c ∷ b'_' ∷ [])
      (replace b'%' (0x5c ∷ b'%' ∷ []) (replace 0x5c (0x5c ∷ 0x5c ∷ []) query))

-- `f"%{escaped}%"`
abbrev pub like_pattern : Str → Str
like_pattern query = b'%' ∷ (escape_like query ++ (b'%' ∷ []))

-- some suffix of the text, the text itself among them, passes the test
unfoldable pub some_suffix : (Str → Bool) → Str → Bool
some_suffix p [] = p []
some_suffix p (c ∷ cs) = p (c ∷ cs) || some_suffix p cs

-- The case folding of a character is a parameter.
module _ (fold : ℕ → ℕ) where
  -- a character of the pattern at the start of the text, and the rest
  abbrev pub like_char : ℕ → (Str → Bool) → Str → Bool
  like_char c rest [] = false
  like_char c rest (d ∷ ds) = fold c == fold d && rest ds

  abbrev pub like_any_char : (Str → Bool) → Str → Bool
  like_any_char rest [] = false
  like_any_char rest (d ∷ ds) = rest ds

  abbrev pub is_empty : Str → Bool
  is_empty [] = true
  is_empty (c ∷ cs) = false

  -- One character of the pattern: what follows it, read behind a backslash and read as usual.
  abbrev pub like_step : ℕ → (escaped rest : Str → Bool) → Str → Bool
  like_step c escaped rest =
      if c == 0x5c
      then escaped
      else if c == b'%'
      then some_suffix rest
      else if c == b'_'
      then like_any_char rest
      else like_char c rest

  -- `text ILIKE pattern`, with the pattern first; one that ends in a backslash matches nothing
  unfoldable pub ilike : Str → Str → Bool
  ilike [] = is_empty
  ilike (c ∷ []) = like_step c (λ s. false) is_empty
  ilike (c ∷ d ∷ cs) =
      let escaped = like_char d (ilike cs) in let rest = ilike (d ∷ cs) in like_step c escaped rest
