-- ===== src/Pats/Wire.antt =====
-- The wire format of a personal access token and the bearer classifier, from types.py.
use identity_python.Base.{
  ℕ, zero, suc, Bool, true, false, ◌&&◌, ◌||◌, leb, ◌==◌, [], ◌∷◌, if◌then◌else◌, drop,
}
use identity_python.Base.Text.{Str, starts_with, codes}

pub data AuthKind : Type 0 where
  pat share session system : AuthKind

unfoldable pub classify_bearer : Str → AuthKind
unfolding starts_with
classify_bearer token =
    if starts_with (codes "pat_") token
    then pat
    else if starts_with (codes "shr_") token
    then share
    else session

-- `[0-9a-f]`
unfoldable pub is_hex : ℕ → Bool
is_hex c = (leb b'0' c && leb c b'9') || (leb b'a' c && leb c b'f')

-- `[A-Za-z0-9_-]`
unfoldable pub is_base64url : ℕ → Bool
is_base64url c =
    (leb b'A' c && leb c b'Z')
    || (leb b'a' c && leb c b'z')
    || (leb b'0' c && leb c b'9')
    || c == b'_'
    || c == b'-'

-- `[A-Za-z0-9_-]*$`: `$` matches at the end, and before a newline that ends the text.
unfoldable pub secret_tail : Str → Bool
unfolding is_base64url
secret_tail [] = true
secret_tail (c ∷ []) = is_base64url c || c == 0x0a
secret_tail (c ∷ d ∷ cs) = is_base64url c && secret_tail (d ∷ cs)

-- `[A-Za-z0-9_-]+$`
unfoldable pub secret_part : Str → Bool
unfolding secret_tail
secret_part [] = false
secret_part (c ∷ cs) = is_base64url c && secret_tail cs

-- `_[A-Za-z0-9_-]+$`
unfoldable pub separator_part : Str → Bool
unfolding secret_part
separator_part [] = false
separator_part (c ∷ cs) = c == b'_' && secret_part cs

-- `[0-9a-f]{n}_[A-Za-z0-9_-]+$`
unfoldable pub hex_part : ℕ → Str → Bool
unfolding is_hex separator_part
hex_part zero s = separator_part s
hex_part (suc n) [] = false
hex_part (suc n) (c ∷ cs) = is_hex c && hex_part n cs

-- `^pat_[0-9a-f]{32}_[A-Za-z0-9_-]+$`
unfoldable pub is_structurally_valid_pat_token : Str → Bool
unfolding hex_part starts_with
is_structurally_valid_pat_token token =
    starts_with (codes "pat_") token && hex_part 32 (drop 4 token)
