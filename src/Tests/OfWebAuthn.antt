-- ===== src/Tests/OfWebAuthn.antt =====
-- An assertion that verifies, with a counter that goes from 4 to 5.
use identity_python.Base.{
  ℕ, ◌≡◌, ◌≢◌, ◌⊎◌, ◌<◌, refl, arith, true, false, not, ◌&&◌, [], ◌∷◌, ◌++◌, replicate, decide,
}
use identity_python.Base.Dict.{lookup}
use identity_python.Base.Int.{from_bytes}
use identity_python.Base.Text.{Bytes, codes, str_discrete, utf8}
use identity_python.Errors.{webauthn, counter_regression, out_of_fuel}
use identity_python.Result.{ok, raised}
use identity_python.Tests.Data.{libraries}
use identity_python.WebAuthn.{
  Assertion, AuthenticatorData, parse_authenticator_data, user_present, user_verified,
  webauthn_verify_assertion, check_client_data, check_authenticator_data, check_parsed,
  check_counter, check_signature, has_signature_form,
}
use identity_python.WebAuthn.Assertions.{
  IsForChallenge, webauthn_verify_assertion_sound, webauthn_verify_assertion_replay, counted_to,
}
use identity_python.WebAuthn.Fuel.{decode_cbor_map-ne-out_of_fuel}
use identity_python.WebAuthn.Cose.{PublicKey, parse_cose_key}
use identity_python.WebAuthn.Cbor.{decode_cbor_map, get_field, set_field}

-- the COSE form of an ES256 key: {1: 2, 3: -7, -1: 1, -2: x, -3: y}
abbrev cose_key : Bytes
cose_key =
    0xa5
    ∷ 0x01
    ∷ 0x02
    ∷ 0x03
    ∷ 0x26
    ∷ 0x20
    ∷ 0x01
    ∷ 0x21
    ∷ 0x58
    ∷ 0x20
    ∷ (replicate 32 1 ++ (0x22 ∷ 0x58 ∷ 0x20 ∷ replicate 32 2))

abbrev assertion : Assertion
assertion = record {
  cose_public_key = cose_key;
  stored_sign_count = 4;
  stored_rp_id = replicate 32 b'r';
  expected_challenge = codes "AAAA";
  expected_origin = codes "o";
  authenticator_data = replicate 32 b'r' ++ (1 ∷ 0 ∷ 0 ∷ 0 ∷ 5 ∷ []);
  client_data_json = [];
  signature = replicate 8 0x30;
  require_user_verified = false;
  require_user_present = true;
}

abbrev new_count : ℕ
new_count = 5

webauthn_verify_assertion_replay_example :
    webauthn_verify_assertion libraries (counted_to libraries assertion 5)
    ≡ raised (webauthn counter_regression)
unfolding webauthn_verify_assertion check_client_data lookup str_discrete decide
    check_authenticator_data parse_authenticator_data check_parsed utf8 user_present check_counter
    from_bytes check_signature parse_cose_key decode_cbor_map get_field set_field
webauthn_verify_assertion_replay_example =
    webauthn_verify_assertion_replay libraries assertion 5 refl (λ e. omega (arith, e))

webauthn_verify_assertion_sound_example :
    IsForChallenge libraries assertion
    × ((auth : AuthenticatorData) × (parse_authenticator_data assertion.authenticator_data
          ≡ ok auth)
        × (auth.rp_id_hash ≡ libraries.sha256 (utf8 assertion.stored_rp_id))
        × ((true && not (user_present auth)) ≡ false)
        × ((false && not (user_verified auth)) ≡ false)
        × (5 ≡ auth.sign_count))
    × (((assertion.stored_sign_count ≡ 0) × (new_count ≡ 0)) ⊎ (assertion.stored_sign_count < 5))
    × ((key : PublicKey) × (parse_cose_key libraries.accepts_key cose_key ≡ ok key)
        × (has_signature_form key assertion.signature ≡ true)
        × (libraries.verify_signature key assertion.signature
              (assertion.authenticator_data ++ libraries.sha256 assertion.client_data_json)
            ≡ true))
unfolding webauthn_verify_assertion check_client_data lookup str_discrete decide
    check_authenticator_data parse_authenticator_data check_parsed utf8 user_present check_counter
    from_bytes check_signature parse_cose_key decode_cbor_map get_field set_field
webauthn_verify_assertion_sound_example = webauthn_verify_assertion_sound libraries assertion 5 refl

decode_cbor_map-ne-out_of_fuel_example : decode_cbor_map cose_key ≢ raised out_of_fuel
decode_cbor_map-ne-out_of_fuel_example = decode_cbor_map-ne-out_of_fuel cose_key
