-- ===== src/Recovery.antt =====
-- The recovery codes of mfa.py: generation, normalisation and the canonical form.
pub mod Valid
use identity_python.Base.{
  ℕ, ◌+◌, Bool, true, false, not, ◌&&◌, ◌||◌, List, [], ◌∷◌, ◌++◌, ◌==◌, if◌then◌else◌, length,
  take, drop,
}
use identity_python.Base.Text.{Str, codes}
use mathlib.Core.List.{reverse}

abbrev pub recovery_alphabet : Str
recovery_alphabet = codes "ABCDEFGHJKMNPQRSTUVWXYZ23456789"

abbrev pub recovery_code_count : ℕ
recovery_code_count = 10

abbrev pub recovery_code_length : ℕ
recovery_code_length = 12

-- `ch in s` of a character
unfoldable pub has_char : ℕ → Str → Bool
has_char c [] = false
has_char c (d ∷ ds) = c == d || has_char c ds

-- `f"{chars[0:4]}-{chars[4:8]}-{chars[8:12]}"` for the characters that `secrets.choice` returned
unfoldable pub generate_recovery_code : Str → Str
generate_recovery_code chars =
    take 4 chars ++ (b'-' ∷ (take 4 (drop 4 chars) ++ (b'-' ∷ take 4 (drop 8 chars))))

-- The characters of Python's `str.strip` and `str.upper` are parameters.
pub record UnicodeTables : Type 0 where
  pub is_space : ℕ → Bool
  pub upper_char : ℕ → Str

module _ (u : UnicodeTables) where
  unfoldable pub skip_spaces : Str → Str
  skip_spaces [] = []
  skip_spaces (c ∷ cs) = elim (u.is_space c) [ true ↦ skip_spaces cs | false ↦ c ∷ cs ]

  -- `s.strip()`
  unfoldable pub strip : Str → Str
  unfolding skip_spaces
  strip s = reverse (skip_spaces (reverse (skip_spaces s)))

  -- `s.upper()`
  unfoldable pub upper : Str → Str
  upper [] = []
  upper (c ∷ cs) = u.upper_char c ++ upper cs

  unfoldable pub normalize_recovery_input : Str → Str
  unfolding strip upper
  normalize_recovery_input code = upper (strip code)

-- a character before the first part
abbrev pub onto_first : ℕ → List Str → List Str
onto_first c [] = (c ∷ []) ∷ []
onto_first c (part ∷ parts) = (c ∷ part) ∷ parts

-- `s.split(sep)`
unfoldable pub split : ℕ → Str → List Str
split sep [] = [] ∷ []
split sep (c ∷ cs) = let rest = split sep cs in if c == sep then [] ∷ rest else onto_first c rest

-- the inner loop: every character is of the alphabet
unfoldable pub all_in_alphabet : Str → Bool
unfolding has_char
all_in_alphabet [] = true
all_in_alphabet (c ∷ cs) = has_char c recovery_alphabet && all_in_alphabet cs

-- the outer loop: every part has four characters of the alphabet
unfoldable pub all_groups : List Str → Bool
unfolding all_in_alphabet
all_groups [] = true
all_groups (part ∷ parts) = length part == 4 && (all_in_alphabet part && all_groups parts)

unfoldable pub is_valid_recovery_code : Str → Bool
unfolding split all_groups
is_valid_recovery_code code =
    if not (length code == recovery_code_length + 2)
    then false
    else if not (length (split b'-' code) == 3)
    then false
    else all_groups (split b'-' code)
