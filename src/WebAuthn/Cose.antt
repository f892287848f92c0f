-- ===== src/WebAuthn/Cose.antt =====
-- `_parse_cose_key` of webauthn.py with its three algorithms, and `cose_key_es256`.
use identity_python.Base.{
  ℕ, ◌^◌, Bool, false, ◌||◌, not, Option, some, ◌∷◌, ◌++◌, ltb, ◌==◌, if◌then◌else◌, length,
}
use identity_python.Base.Int.{ℤ, pos, negsuc, int_eq, from_bytes}
use identity_python.Base.Text.{Bytes}
use identity_python.Errors.{webauthn, malformed, unsupported_key, value_error}
use identity_python.Result.{Result, ok, raised, ◌>>=◌, ◌>>◌, fail_unless, fail_if}
use identity_python.WebAuthn.Cbor.{Item, int, bytes, Fields, get_field, decode_cbor_map}

-- The public key objects of `cryptography`, by the numbers that they are made of.
pub data PublicKey : Type 0 where
  es256 : (x y : ℕ) → PublicKey
  rs256 : (n e : ℕ) → PublicKey
  eddsa : Bytes → PublicKey

abbrev pub is_int : Option Item → ℤ → Bool
is_int (some (int a)) b = int_eq a b
is_int _ b = false

-- `isinstance(x, (bytes, bytearray))`
abbrev pub as_bytes : Option Item → Result Bytes
as_bytes (some (bytes b)) = ok b
as_bytes _ = raised (webauthn malformed)

-- a byte string of 32 bytes
unfoldable pub coordinate : Option Item → Result Bytes
coordinate o = do b ← as_bytes o; fail_unless (length b == 32) (webauthn malformed); ok b

-- `accepts` is false where the key's constructor in `cryptography` raises `ValueError`.
module _ (accepts : PublicKey → Bool) where
  unfoldable pub make_key : PublicKey → Result PublicKey
  make_key key = do fail_unless (accepts key) value_error; ok key

  unfoldable pub parse_cose_es256 : Fields → Result PublicKey
  unfolding make_key coordinate
  parse_cose_es256 fields = do
    fail_unless (is_int (get_field (pos 1) fields) (pos 2)) (webauthn unsupported_key)
    fail_unless (is_int (get_field (negsuc 0) fields) (pos 1)) (webauthn unsupported_key)
    x ← coordinate (get_field (negsuc 1) fields)
    y ← coordinate (get_field (negsuc 2) fields)
    make_key (es256 (from_bytes x) (from_bytes y))

  abbrev pub rsa_min_key_size_bits : ℕ
  rsa_min_key_size_bits = 2048

  unfoldable pub parse_cose_rs256 : Fields → Result PublicKey
  unfolding make_key
  parse_cose_rs256 fields = do
    fail_unless (is_int (get_field (pos 1) fields) (pos 3)) (webauthn unsupported_key)
    n ← as_bytes (get_field (negsuc 0) fields)
    e ← as_bytes (get_field (negsuc 1) fields)
    fail_if (ltb (from_bytes n) (2 ^ 2047)) (webauthn unsupported_key)
    make_key (rs256 (from_bytes n) (from_bytes e))

  unfoldable pub parse_cose_eddsa : Fields → Result PublicKey
  unfolding make_key coordinate
  parse_cose_eddsa fields = do
    fail_unless (is_int (get_field (pos 1) fields) (pos 1)) (webauthn unsupported_key)
    fail_unless (is_int (get_field (negsuc 0) fields) (pos 6)) (webauthn unsupported_key)
    x ← coordinate (get_field (negsuc 1) fields)
    make_key (eddsa x)

  -- The algorithms -7, -257 and -8; the key's constructor stands for the number.
  unfoldable pub parse_key_fields : Fields → Result PublicKey
  unfolding parse_cose_es256 parse_cose_rs256 parse_cose_eddsa
  parse_key_fields fields =
      let alg = get_field (pos 3) fields in
      if is_int alg (negsuc 6)
      then parse_cose_es256 fields
      else if is_int alg (negsuc 256)
      then parse_cose_rs256 fields
      else if is_int alg (negsuc 7)
      then parse_cose_eddsa fields
      else raised (webauthn unsupported_key)

  unfoldable pub parse_cose_key : Bytes → Result PublicKey
  unfolding parse_key_fields
  parse_cose_key cose_key = do fields ← decode_cbor_map cose_key; parse_key_fields fields

-- `cose_key_es256`
unfoldable pub cose_key_es256 : Bytes → Bytes → Result Bytes
cose_key_es256 x y = do
  fail_if (not (length x == 32) || not (length y == 32)) value_error
  ok (
      0xa5
      ∷ 0x01
      ∷ 0x02
      ∷ 0x03
      ∷ 0x26
      ∷ 0x20
      ∷ 0x01
      ∷ 0x21
      ∷ 0x58
      ∷ 0x20
      ∷ (x ++ (0x22 ∷ 0x58 ∷ 0x20 ∷ y)))
