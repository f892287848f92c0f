-- ===== src/WebAuthn.antt =====
-- `webauthn_verify_assertion` of webauthn.py.
pub mod Cbor
pub mod Cose
pub mod Fuel
pub mod Assertions
use Cose.{PublicKey, es256, rs256, eddsa, parse_cose_key}
use identity_python.Base.{
  ℕ, ◌+◌, ◌-◌, ◌/◌, ◌%◌, Bool, true, false, not, ◌&&◌, ◌||◌, Option, none, some, [], ◌∷◌, ◌++◌, ltb,
  leb, ◌==◌, if◌then◌else◌, length, take, drop, replicate, get_elem?, decide,
}
use identity_python.Base.Dict.{Dict, lookup}
use identity_python.Base.Int.{from_bytes}
use identity_python.Base.Text.{Str, Bytes, codes, utf8, str_discrete}
use identity_python.Errors.{
  webauthn, malformed, type_mismatch, origin_mismatch, challenge_mismatch, rp_id_mismatch,
  user_not_present, user_not_verified, counter_regression, signature_invalid, index_error,
}
use identity_python.Result.{Result, ok, raised, ◌>>=◌, ◌>>◌, fail_if, fail_unless, or_fail}

-- A value of the JSON object: a text, or another value, which equals no text.
pub data JsonField : Type 0 where
  text : Str → JsonField
  other : JsonField

-- What `json.loads` returns, as far as the code looks at it.
pub data Json : Type 0 where
  object : Dict JsonField → Json
  not_object : Json

-- The functions of other packages: SHA-256; `json.loads` of UTF-8 bytes, `none` for the errors that
-- the code catches; `base64.urlsafe_b64decode`, `none` for `ValueError`; the keys that
-- `cryptography` accepts; and its signature check, `false` for `InvalidSignature`.
pub record Libraries : Type 0 where
  pub sha256 : Bytes → Bytes
  pub load_json : Bytes → Option Json
  pub urlsafe_b64decode : Str → Option Bytes
  pub accepts_key : PublicKey → Bool
  pub verify_signature : PublicKey → (signature signed : Bytes) → Bool

-- The arguments of `webauthn_verify_assertion`.
pub record Assertion : Type 0 where
  pub cose_public_key : Bytes
  pub stored_sign_count : ℕ
  pub stored_rp_id : Str
  pub expected_challenge : Bytes
  pub expected_origin : Str
  pub authenticator_data : Bytes
  pub client_data_json : Bytes
  pub signature : Bytes
  pub require_user_verified : Bool
  pub require_user_present : Bool

pub record AuthenticatorData : Type 0 where
  pub rp_id_hash : Bytes
  pub flags : ℕ
  pub sign_count : ℕ

-- `flags & 0x01` and `flags & 0x04`
unfoldable pub user_present : AuthenticatorData → Bool
user_present auth = auth.flags % 2 == 1

unfoldable pub user_verified : AuthenticatorData → Bool
user_verified auth = (auth.flags / 4) % 2 == 1

-- `_parse_authenticator_data`
unfoldable pub parse_authenticator_data : Bytes → Result AuthenticatorData
parse_authenticator_data buf = do
  fail_if (ltb (length buf) 37) (webauthn malformed)
  flags ← or_fail (get_elem? buf 32) index_error
  ok (record {
    rp_id_hash = take 32 buf;
    flags = flags;
    sign_count = from_bytes (take 4 (drop 33 buf));
  })

-- `_is_valid_der_ecdsa_signature`
abbrev pub starts_with_sequence : Bytes → Bool
starts_with_sequence [] = false
starts_with_sequence (b ∷ bs) = b == 0x30

unfoldable pub is_valid_der_ecdsa_signature : Bytes → Bool
is_valid_der_ecdsa_signature sig = leb 8 (length sig) && starts_with_sequence sig

-- `"=" * (-len(s) % 4)`
abbrev pub padding : Str → Str
padding s = replicate ((4 - length s % 4) % 4) b'='

-- `client_data.get(name) == expected`
unfoldable pub is_text : Option JsonField → Str → Bool
is_text (some (text s)) expected = decide (str_discrete s expected)
is_text _ expected = false

abbrev pub as_object : Json → Result (Dict JsonField)
as_object (object d) = ok d
as_object not_object = raised (webauthn malformed)

abbrev pub as_text : Option JsonField → Result Str
as_text (some (text s)) = ok s
as_text _ = raised (webauthn malformed)

-- The counter test: the new sign count, or the sign of a cloned authenticator.
unfoldable pub check_counter : (stored got : ℕ) → Result ℕ
check_counter stored got =
    if got == 0 && stored == 0
    then ok 0
    else if ltb stored got
    then ok got
    else raised (webauthn counter_regression)

-- the form that the signature of an algorithm must have
unfoldable pub has_signature_form : PublicKey → Bytes → Bool
unfolding is_valid_der_ecdsa_signature
has_signature_form (es256 _ _) sig = is_valid_der_ecdsa_signature sig
has_signature_form (rs256 _ _) sig = true
has_signature_form (eddsa _) sig = length sig == 64

module _ (lib : Libraries) where
  -- `_b64url_decode`
  unfoldable pub b64url_decode : Str → Option Bytes
  b64url_decode s = lib.urlsafe_b64decode (s ++ padding s)

  -- the checks on clientDataJSON
  unfoldable pub check_client_data : Assertion → Result (Unit {0})
  unfolding is_text b64url_decode
  check_client_data a = do
    json ← or_fail (lib.load_json a.client_data_json) (webauthn malformed)
    client_data ← as_object json
    fail_unless (is_text (lookup (codes "type") client_data) (codes "webauthn.get"))
        (webauthn type_mismatch)
    fail_unless (is_text (lookup (codes "origin") client_data) a.expected_origin)
        (webauthn origin_mismatch)
    challenge_b64u ← as_text (lookup (codes "challenge") client_data)
    challenge_bytes ← or_fail (b64url_decode challenge_b64u) (webauthn malformed)
    fail_unless (decide (str_discrete challenge_bytes a.expected_challenge))
        (webauthn challenge_mismatch)

  -- the checks on the RP id, the flags and the counter
  unfoldable pub check_parsed : Assertion → AuthenticatorData → Result ℕ
  check_parsed a auth = do
    fail_unless (decide (str_discrete auth.rp_id_hash (lib.sha256 (utf8 a.stored_rp_id))))
        (webauthn rp_id_mismatch)
    fail_if (a.require_user_present && not (user_present auth)) (webauthn user_not_present)
    fail_if (a.require_user_verified && not (user_verified auth)) (webauthn user_not_verified)
    check_counter a.stored_sign_count auth.sign_count

  -- the checks on authenticatorData, which return the new sign count
  unfoldable pub check_authenticator_data : Assertion → Result ℕ
  check_authenticator_data a = parse_authenticator_data a.authenticator_data >>= check_parsed a

  -- the check of the signature over authData || sha256(clientDataJSON)
  unfoldable pub check_signature : Assertion → Result (Unit {0})
  unfolding has_signature_form
  check_signature a = do
    key ← parse_cose_key lib.accepts_key a.cose_public_key
    fail_unless (has_signature_form key a.signature) (webauthn signature_invalid)
    fail_unless
        (lib.verify_signature key a.signature
          (a.authenticator_data ++ lib.sha256 a.client_data_json))
        (webauthn signature_invalid)

  -- Returns the new sign count.
  unfoldable pub webauthn_verify_assertion : Assertion → Result ℕ
  webauthn_verify_assertion a = do
    check_client_data a
    new_sign_count ← check_authenticator_data a
    check_signature a
    ok new_sign_count
