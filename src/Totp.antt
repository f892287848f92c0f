-- ===== src/Totp.antt =====
-- TOTP of mfa.py: the code of a time, its verification with drift, and the otpauth URI.
pub mod Windows
use identity_python.Base.{
  ℕ, zero, suc, ◌+◌, ◌-◌, ◌*◌, ◌/◌, ◌%◌, ◌^◌, Bool, true, false, not, ◌&&◌, ◌||◌, [], ◌∷◌, ◌++◌,
  ltb, ◌==◌, if◌then◌else◌, length, take, drop, replicate, get_last?, decide,
}
use identity_python.Base.Int.{from_bytes, to_bytes}
use identity_python.Base.Text.{Str, Bytes, codes, str_discrete}
use identity_python.Errors.{value_error, type_error, struct_error, index_error, zero_division_error}
use identity_python.Result.{Result, ok, ◌>>=◌, ◌>>◌, fail_if, fail_unless, or_fail}

-- The functions of Python that the code calls: `hmac.digest` by the name of the hash; and
-- `str.isdigit` of a character above the ASCII range.
pub record TotpLibraries : Type 0 where
  pub hmac_digest : (secret message : Bytes) (algorithm : Str) → Bytes
  pub unicode_digit : ℕ → Bool

pub record TotpConfig : Type 0 where
  pub period : ℕ
  pub digits : ℕ
  pub algorithm : Str

abbrev pub default_totp_config : TotpConfig
default_totp_config = record { period = 30; digits = 6; algorithm = codes "sha1" }

-- `str(n)`, with fuel for the number of digits
unfoldable pub decimal_fuel : ℕ → ℕ → Str
decimal_fuel zero n = (b'0' + n % 10) ∷ []
decimal_fuel (suc fuel) n =
    let rest = decimal_fuel fuel (n / 10) in
    if ltb n 10 then (b'0' + n) ∷ [] else rest ++ (b'0' + n % 10) ∷ []

-- a number is below ten to its own power, so the fuel is enough
unfoldable pub decimal : ℕ → Str
unfolding decimal_fuel
decimal n = decimal_fuel n n

-- `s.zfill(width)` of a text of digits
unfoldable pub zfill : ℕ → Str → Str
zfill width s = replicate (width - length s) b'0' ++ s

-- `struct.pack(">Q", counter)`
unfoldable pub pack_counter : ℕ → Result Bytes
pack_counter counter = do fail_unless (ltb counter (2 ^ 64)) struct_error; ok (to_bytes 8 counter)

-- `struct.unpack(">I", code_bytes)`
unfoldable pub unpack_code : Bytes → Result ℕ
unpack_code code_bytes = do
  fail_unless (length code_bytes == 4) struct_error
  ok (from_bytes code_bytes)

-- The dynamic truncation of RFC 4226: the four bytes at the offset that the last byte gives.
unfoldable pub truncate : Bytes → Result ℕ
unfolding unpack_code
truncate digest = do
  last ← or_fail (get_last? digest) index_error
  code ← unpack_code (take 4 (drop (last % 16) digest))
  ok (code % 2 ^ 31)

module _ (lib : TotpLibraries) where
  unfoldable pub totp_compute : (secret : Bytes) (timestamp : ℕ) → TotpConfig → Result Str
  unfolding truncate pack_counter
  totp_compute secret timestamp c = do
    fail_if (c.period == 0) zero_division_error
    counter_bytes ← pack_counter (timestamp / c.period)
    code_int ← truncate (lib.hmac_digest secret counter_bytes c.algorithm)
    ok (zfill c.digits (decimal (code_int % 10 ^ c.digits)))

  unfoldable pub is_digit : ℕ → Bool
  is_digit c = if ltb c 128 then not (ltb c b'0') && ltb c 58 else lib.unicode_digit c

  -- `candidate.isdigit()` of a text that is not empty
  unfoldable pub all_digits : Str → Bool
  all_digits [] = true
  all_digits (c ∷ cs) = is_digit c && all_digits cs

-- `s.isascii()`
unfoldable pub is_ascii : Str → Bool
is_ascii [] = true
is_ascii (c ∷ cs) = ltb c 128 && is_ascii cs

-- `hmac.compare_digest` of an ASCII text and a text, which must be ASCII too
unfoldable pub compare_digest : Str → Str → Result Bool
unfolding is_ascii
compare_digest expected candidate = do
  fail_unless (is_ascii candidate) type_error
  ok (decide (str_discrete expected candidate))

module _ (lib : TotpLibraries) (secret : Bytes) (candidate : Str) (c : TotpConfig) where
  -- One round of the loop, `shift` periods after the first window. A negative counter cannot be
  -- packed.
  unfoldable pub check_window : (timestamp drift shift : ℕ) → Result Bool
  unfolding totp_compute compare_digest
  check_window timestamp drift shift = do
    fail_if (c.period == 0) zero_division_error
    fail_if (ltb (timestamp + shift * c.period) (drift * c.period)) struct_error
    expected ← totp_compute lib secret (timestamp + shift * c.period - drift * c.period) c
    compare_digest expected candidate

  -- The loop, with the windows that are left.
  unfoldable pub check_windows : (timestamp drift left shift : ℕ) → Result Bool
  unfolding check_window
  check_windows timestamp drift zero shift = ok false
  check_windows timestamp drift (suc left) shift = do
    matches ← check_window timestamp drift shift
    elim matches [ true ↦ ok true | false ↦ check_windows timestamp drift left (suc shift) ]

  unfoldable pub totp_verify : (timestamp drift_windows : ℕ) → Result Bool
  unfolding check_windows all_digits
  totp_verify timestamp drift_windows = do
    fail_if (ltb 10 drift_windows) value_error
    if length candidate == 0 || not (length candidate == c.digits) || not (all_digits lib candidate)
        then ok false
        else check_windows timestamp drift_windows (suc (drift_windows + drift_windows)) 0

-- `s.rstrip("=")` of an encoded text
unfoldable pub strip_padding : Str → Str
strip_padding [] = []
strip_padding (c ∷ cs) = elim (strip_padding cs) [
  | [] ↦ if c == b'=' then [] else c ∷ []
  | d ∷ ds ↦ c ∷ d ∷ ds
]

-- `b32encode`, `urllib.parse.quote(s, safe="")` and `str.upper` are parameters.
module _ (b32encode : Bytes → Str) (quote upper : Str → Str) where
  unfoldable pub totp_otpauth_uri : Bytes → (label issuer : Str) → TotpConfig → Str
  unfolding strip_padding decimal
  totp_otpauth_uri secret label issuer c =
      codes "otpauth://totp/"
      ++ (quote (issuer ++ codes ":" ++ label)
          ++ (codes "?secret="
              ++ (strip_padding (b32encode secret)
                  ++ (codes "&issuer="
                      ++ (quote issuer
                          ++ (codes "&algorithm="
                              ++ (upper c.algorithm
                                  ++ (codes "&digits="
                                      ++ (decimal c.digits
                                          ++ (codes "&period=" ++ decimal c.period))))))))))
