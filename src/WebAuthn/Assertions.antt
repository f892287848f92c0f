-- ===== src/WebAuthn/Assertions.antt =====
-- What a successful verification of a WebAuthn assertion guarantees.
use identity_python.Base.{
  ℕ, ◌<◌, ◌≡◌, ◌≢◌, ◌⊎◌, refl, arith, Option, none, some, inl, inr, Option-cases, true, false, ◌++◌,
  decide, not, ◌&&◌,
}
use identity_python.Base.Text.{Str, codes, utf8}
use identity_python.Errors.{webauthn, counter_regression, malformed}
use identity_python.Result.{ok, raised, Result-cases}
use identity_python.WebAuthn.{
  Libraries, Assertion, AuthenticatorData, parse_authenticator_data, user_present, user_verified,
  check_counter, check_parsed, check_client_data, check_authenticator_data, check_signature,
  webauthn_verify_assertion, has_signature_form, object, not_object, JsonField, text, other,
  as_text, is_text, b64url_decode,
}
use identity_python.WebAuthn.Cose.{PublicKey, parse_cose_key}
use identity_python.Base.Dict.{Dict, lookup}

-- The counter is accepted if it is zero on both sides or grows, and then is the new count.
pub check_counter_ok :
    (stored got n : ℕ)
    → check_counter stored got ≡ ok n
    → (n ≡ got) × (((stored ≡ 0) × (got ≡ 0)) ⊎ (stored < got))
unfolding check_counter
check_counter_ok stored got n e = ground arith

is_text_lem : (o : Option JsonField) (s : Str) → is_text o s ≡ true → o ≡ some (text s)
unfolding is_text decide
is_text_lem none s h = cc
is_text_lem (some other) s h = cc
is_text_lem (some (text r)) s h = ground arith

as_text-cases :
    (o : Option JsonField)
    → ((s : Str) × (o ≡ some (text s))) ⊎ (as_text o ≡ raised (webauthn malformed))
as_text-cases none = inr refl
as_text-cases (some other) = inr refl
as_text-cases (some (text s)) = inl (s, refl)

module _ (lib : Libraries) (a : Assertion) where
  check_parsed_lem :
      (auth : AuthenticatorData) (n : ℕ)
      → check_parsed lib a auth ≡ ok n
      → (auth.rp_id_hash ≡ lib.sha256 (utf8 a.stored_rp_id))
        × ((a.require_user_present && not (user_present auth)) ≡ false)
        × ((a.require_user_verified && not (user_verified auth)) ≡ false)
        × (check_counter a.stored_sign_count auth.sign_count ≡ ok n)
  unfolding check_parsed decide
  check_parsed_lem auth n e = ground arith

  check_authenticator_data_lem :
      (n : ℕ)
      → check_authenticator_data lib a ≡ ok n
      → (auth : AuthenticatorData) × (parse_authenticator_data a.authenticator_data ≡ ok auth)
        × (check_parsed lib a auth ≡ ok n)
  unfolding check_authenticator_data
  check_authenticator_data_lem n e =
      elim (Result-cases (parse_authenticator_data a.authenticator_data)) [
        | inr (x, p) ↦ absurd (ground arith)
        | inl (auth, p) ↦ (auth, p, ground arith)
      ]

  check_signature_lem :
      check_signature lib a ≡ ok tt
      → (key : PublicKey) × (parse_cose_key lib.accepts_key a.cose_public_key ≡ ok key)
        × (has_signature_form key a.signature ≡ true)
        × (lib.verify_signature key a.signature
              (a.authenticator_data ++ lib.sha256 a.client_data_json)
            ≡ true)
  unfolding check_signature
  check_signature_lem e = elim (Result-cases (parse_cose_key lib.accepts_key a.cose_public_key)) [
    | inr (x, p) ↦ absurd (ground arith)
    | inl (key, p) ↦ (key, p, ground arith, ground arith)
  ]

  -- the client data that the browser signed
  pub record IsForChallenge : Type 0 where
    pub client_data : Dict JsonField
    pub challenge : Str
    pub parsed : lib.load_json a.client_data_json ≡ some (object client_data)
    pub type : lookup (codes "type") client_data ≡ some (text (codes "webauthn.get"))
    pub origin : lookup (codes "origin") client_data ≡ some (text a.expected_origin)
    pub has_challenge : lookup (codes "challenge") client_data ≡ some (text challenge)
    pub decoded : b64url_decode lib challenge ≡ some a.expected_challenge

  object-IsForChallenge :
      (d : Dict JsonField) (challenge : Str)
      → lib.load_json a.client_data_json ≡ some (object d)
      → lookup (codes "challenge") d ≡ some (text challenge)
      → check_client_data lib a ≡ ok tt
      → IsForChallenge
  unfolding check_client_data decide
  object-IsForChallenge d challenge p c e = record {
    client_data = d;
    challenge = challenge;
    parsed = p;
    type = ground (arith, is_text_lem (lookup (codes "type") d) (codes "webauthn.get"));
    origin = ground (arith, is_text_lem (lookup (codes "origin") d) a.expected_origin);
    has_challenge = c;
    decoded = elim (Option-cases (b64url_decode lib challenge)) [
      | inl q ↦ absurd (ground (arith, q))
      | inr (b, q) ↦ ground (arith, q)
    ];
  }

  check_client_data_lem : check_client_data lib a ≡ ok tt → IsForChallenge
  unfolding check_client_data
  check_client_data_lem e = elim (Option-cases (lib.load_json a.client_data_json)) [
    | inl p ↦ absurd (ground (arith, p))
    | inr (not_object, p) ↦ absurd (ground (arith, p))
    | inr (object d, p) ↦ elim (as_text-cases (lookup (codes "challenge") d)) [
      | inl (c, q) ↦ object-IsForChallenge d c p q e
      | inr q ↦ absurd (ground (arith, p, q))
    ]
  ]

  -- A verified assertion answers the challenge for the origin; it is for the RP id, shows the user
  -- present and verified where that is asked for; its counter has grown, or is zero on both sides,
  -- and is returned; and its signature over the authenticator data and the hash of the client data
  -- verifies against the stored key.
  pub webauthn_verify_assertion_sound :
      (n : ℕ)
      → webauthn_verify_assertion lib a ≡ ok n
      → IsForChallenge
        × ((auth : AuthenticatorData) × (parse_authenticator_data a.authenticator_data ≡ ok auth)
            × (auth.rp_id_hash ≡ lib.sha256 (utf8 a.stored_rp_id))
            × ((a.require_user_present && not (user_present auth)) ≡ false)
            × ((a.require_user_verified && not (user_verified auth)) ≡ false)
            × (n ≡ auth.sign_count))
        × (((a.stored_sign_count ≡ 0) × (n ≡ 0)) ⊎ (a.stored_sign_count < n))
        × ((key : PublicKey) × (parse_cose_key lib.accepts_key a.cose_public_key ≡ ok key)
            × (has_signature_form key a.signature ≡ true)
            × (lib.verify_signature key a.signature
                  (a.authenticator_data ++ lib.sha256 a.client_data_json)
                ≡ true))
  unfolding webauthn_verify_assertion
  webauthn_verify_assertion_sound n e =
      let (auth, parsed, checked) = check_authenticator_data_lem n (ground arith) in
      let (rp, up, uv, counter) = check_parsed_lem auth n checked in
      let (same, grows) = check_counter_ok a.stored_sign_count auth.sign_count n counter in
      (
        check_client_data_lem (ground arith),
        (auth, parsed, rp, up, uv, same),
        ground arith,
        check_signature_lem (ground arith),
      )

  abbrev pub counted_to : ℕ → Assertion
  counted_to n = record a { stored_sign_count = n }

  check_client_data-counted_to :
      (n : ℕ) → check_client_data lib (counted_to n) ≡ check_client_data lib a
  unfolding check_client_data
  check_client_data-counted_to n = refl

  check_parsed-counted_to :
      (auth : AuthenticatorData) (n : ℕ)
      → check_parsed lib a auth ≡ ok n
      → n ≢ 0
      → check_parsed lib (counted_to n) auth ≡ raised (webauthn counter_regression)
  unfolding check_parsed check_counter
  check_parsed-counted_to auth n e ne = ground arith

  check_authenticator_data-counted_to :
      (n : ℕ)
      → check_authenticator_data lib a ≡ ok n
      → n ≢ 0
      → check_authenticator_data lib (counted_to n) ≡ raised (webauthn counter_regression)
  unfolding check_authenticator_data
  check_authenticator_data-counted_to n e ne =
      let (auth, parsed, checked) = check_authenticator_data_lem n e in
      ground (arith, parsed, check_parsed-counted_to auth n checked ne)

  -- An assertion that was verified is refused when its counter has been stored, unless the
  -- authenticator does not count.
  pub webauthn_verify_assertion_replay :
      (n : ℕ)
      → webauthn_verify_assertion lib a ≡ ok n
      → n ≢ 0
      → webauthn_verify_assertion lib (counted_to n) ≡ raised (webauthn counter_regression)
  unfolding webauthn_verify_assertion
  webauthn_verify_assertion_replay n e ne = ground (
    arith,
    check_client_data-counted_to n,
    check_authenticator_data-counted_to n (ground arith) ne,
  )
