-- ===== src/Totp/Windows.antt =====
-- Which codes `totp_verify` of mfa.py accepts.
use identity_python.Base.{
  ℕ, zero, suc, ◌+◌, ◌-◌, ◌*◌, ◌≤◌, ◌<◌, ◌≡◌, arith, inl, inr, true, false, decide,
}
use identity_python.Base.Text.{Str, Bytes}
use identity_python.Result.{ok, Result-cases}
use identity_python.Totp.{
  TotpLibraries, TotpConfig, totp_compute, compare_digest, check_window, check_windows, totp_verify,
}

compare_digest_ok :
    (expected candidate : Str) → compare_digest expected candidate ≡ ok true → expected ≡ candidate
unfolding compare_digest decide
compare_digest_ok expected candidate e = ground arith

module _ (lib : TotpLibraries) (secret : Bytes) (candidate : Str) (c : TotpConfig) where
  -- The candidate is the code of the window that is `shift` periods after the first.
  abbrev pub IsCodeAt : (timestamp drift shift : ℕ) → Type 0
  IsCodeAt timestamp drift shift =
      (drift * c.period ≤ timestamp + shift * c.period)
      × (totp_compute lib secret (timestamp + shift * c.period - drift * c.period) c ≡ ok candidate)

  check_window_ok :
      (timestamp drift shift : ℕ)
      → check_window lib secret candidate c timestamp drift shift ≡ ok true
      → IsCodeAt timestamp drift shift
  unfolding check_window
  check_window_ok timestamp drift shift e =
      elim (Result-cases
        (totp_compute lib secret (timestamp + shift * c.period - drift * c.period) c)) [
          | inr (x, p) ↦ absurd (ground (arith, p))
          | inl (code, p) ↦ (ground (arith, p), ground (arith, p, compare_digest_ok code candidate))
        ]

  check_windows_ok :
      (timestamp drift left shift : ℕ)
      → check_windows lib secret candidate c timestamp drift left shift ≡ ok true
      → (k : ℕ) × (k < shift + left) × IsCodeAt timestamp drift k
  unfolding check_windows
  check_windows_ok timestamp drift zero shift e = absurd (ground arith)
  check_windows_ok timestamp drift (suc left) shift e =
      elim (Result-cases (check_window lib secret candidate c timestamp drift shift)) [
        | inr (x, p) ↦ absurd (ground (arith, p))
        | inl (true, p) ↦ (shift, omega arith, check_window_ok timestamp drift shift p)
        | inl (false, p) ↦
            let (k, below, is_code) =
              check_windows_ok timestamp drift left (suc shift) (ground (arith, p)) in
            (k, omega (arith, below), is_code)
      ]

  -- A candidate that verifies is the code of one of the windows from `drift` periods before the
  -- time to `drift` periods after it, at most ten each way.
  pub totp_verify_sound :
      (timestamp drift : ℕ)
      → totp_verify lib secret candidate c timestamp drift ≡ ok true
      → (drift ≤ 10) × ((k : ℕ) × (k ≤ drift + drift) × IsCodeAt timestamp drift k)
  unfolding totp_verify
  totp_verify_sound timestamp drift e =
      let (k, below, is_code) =
        check_windows_ok timestamp drift (suc (drift + drift)) 0 (ground arith) in
      (ground arith, (k, omega (arith, below), is_code))
