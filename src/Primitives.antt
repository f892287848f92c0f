-- ===== src/Primitives.antt =====
-- What the library takes from hashlib, argon2-cffi and `hashing.py`, which wraps the latter.
use identity_python.Base.{ℕ, ltb, Bool, length}
use identity_python.Base.Text.{Str, Bytes, utf8}
use identity_python.Errors.{value_error}
use identity_python.Exec.{Exec, pure, raise_if, ◌>>◌}

-- The functions of other packages: SHA-256 as hex digits; Argon2id hashing with a salt, and its
-- verification, where `false` stands for every `Argon2Error`.
pub record Hashes : Type 0 where
  pub sha256_hex : Bytes → Str
  pub argon2_hash : Str → Str → Str
  pub argon2_verify : Str → Str → Bool

module _ (h : Hashes) where
  -- `_hash_token` of in_memory.py
  unfoldable pub hash_token : Str → Str
  hash_token token = h.sha256_hex (utf8 token)

-- hashing.py
abbrev pub max_password_bytes : ℕ
max_password_bytes = 1024

-- the test of `_check_password_length`
unfoldable pub is_too_long : Str → Bool
is_too_long plaintext = ltb max_password_bytes (length (utf8 plaintext))

module _ (h : Hashes) where
  unfoldable pub verify_password_hash : Str → Str → Exec Bool
  verify_password_hash phc_hash candidate_password = do
    raise_if (is_too_long candidate_password) value_error
    pure (h.argon2_verify phc_hash candidate_password)

  unfoldable pub hash_password : Str → Str → Exec Str
  hash_password salt plaintext = do
    raise_if (is_too_long plaintext) value_error
    pure (h.argon2_hash salt plaintext)
