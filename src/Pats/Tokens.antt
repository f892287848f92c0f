-- ===== src/Pats/Tokens.antt =====
-- Which personal access tokens verify: after one is created, after it is revoked, and which errors
-- there are.
use identity_python.Base.{
  ℕ, suc, ◌≤◌, ◌≡◌, refl, arith, Option, none, some, true, false, List, [], ◌∷◌, ◌++◌, length, take,
  drop, ap, sym,
}
use identity_python.Base.Dict.{lookup, lookup-insert}
use identity_python.Base.Text.{Str, codes}
use identity_python.Credentials.Passwords.{IsExact}
use identity_python.Errors.{pat_revoked}
use identity_python.Pats.{
  create_pat, revoke_pat, verify_pat_token, verify_parts, verify_secret, find_pat, check_wire,
  has_expired, revoked_pat,
}
use identity_python.Pats.Wire.{is_structurally_valid_pat_token}
use identity_python.Primitives.{Hashes, hash_password, verify_password_hash}
use identity_python.Result.{ok, raised}
use identity_python.Tables.{Store}
use identity_python.Types.{PersonalAccessToken, CreatePatResult, Time}

take_separator : (xs ys : Str) → take (length xs) (xs ++ codes "_" ++ ys) ≡ xs
take_separator [] ys = refl
take_separator (x ∷ xs) ys = ap (◌∷◌ x) (take_separator xs ys)

drop_separator : (xs ys : Str) → drop (suc (length xs)) (xs ++ codes "_" ++ ys) ≡ ys
drop_separator [] ys = refl
drop_separator (x ∷ xs) ys = drop_separator xs ys

-- A token is cut into the id and the secret at the length of the id.
token_parts :
    (n : ℕ) (pat_id secret : Str)
    → length pat_id ≡ n
    → (take n (pat_id ++ codes "_" ++ secret) ≡ pat_id)
      × (drop (suc n) (pat_id ++ codes "_" ++ secret) ≡ secret)
token_parts n pat_id secret e =
    (rw (sym e) (take_separator pat_id secret), rw (sym e) (drop_separator pat_id secret))

module _ (h : Hashes) where
  create_pat_token :
      (usr_id name : Str) (scope : List Str) (expires_at : Option Time) (now : Time)
      (pat_id secret salt : Str) (s s' : Store) (r : CreatePatResult)
      → create_pat h usr_id name scope expires_at now pat_id secret salt s ≡ (ok r, s')
      → r.token ≡ pat_id ++ codes "_" ++ secret
  unfolding create_pat
  create_pat_token usr_id name scope expires_at now pat_id secret salt s s' r e = ground arith

  -- The secret of a new access token verifies for its id until the token expires.
  pub verify_secret-create_pat :
      (x : IsExact h) (usr_id name : Str) (scope : List Str) (expires_at : Option Time)
      (now later : Time) (pat_id secret salt : Str) (s s' : Store) (r : CreatePatResult)
      → create_pat h usr_id name scope expires_at now pat_id secret salt s ≡ (ok r, s')
      → has_expired expires_at later ≡ false
      → (verify_parts h pat_id secret later s').0
        ≡ ok (record { pat_id = pat_id; usr_id = usr_id; scope = scope })
  unfolding create_pat verify_parts find_pat verify_secret hash_password verify_password_hash
  verify_secret-create_pat x usr_id name scope expires_at now later pat_id secret salt s s' r e
        unexpired =
      grind (arith, lookup-insert, x.verifies salt secret)

  -- A revocation of an access token that is live revokes it, and from then on a token of the wire
  -- format with its id, and a secret not above the cap, is refused with `PatRevokedError`.
  pub verify_pat_token-revoke_pat :
      (pat_id token : Str) (now later : Time) (s : Store) (p : PersonalAccessToken)
      → lookup pat_id s.pats ≡ some p
      → p.revoked_at ≡ none
      → is_structurally_valid_pat_token token ≡ true
      → length (drop 37 token) ≤ 256
      → take 36 token ≡ pat_id
      → let s' = (revoke_pat pat_id now s).1 in
        (lookup pat_id s'.pats ≡ some (revoked_pat p now))
        × (verify_pat_token h token later s' ≡ (raised (pat_revoked pat_id), s'))
  unfolding revoke_pat verify_pat_token verify_parts find_pat verify_secret check_wire
  verify_pat_token-revoke_pat pat_id token now later s p found live wire short of_it =
      grind (arith, lookup-insert)

  -- Where Argon2 is exact, the token of a new access token verifies until it expires, if it has the
  -- wire format and the secret is not above the cap.
  pub verify_pat_token-create_pat :
      (x : IsExact h) (usr_id name : Str) (scope : List Str) (expires_at : Option Time)
      (now later : Time) (pat_id secret salt : Str) (s s' : Store) (r : CreatePatResult)
      → create_pat h usr_id name scope expires_at now pat_id secret salt s ≡ (ok r, s')
      → length pat_id ≡ 36
      → is_structurally_valid_pat_token r.token ≡ true
      → length secret ≤ 256
      → has_expired expires_at later ≡ false
      → (verify_pat_token h r.token later s').0
        ≡ ok (record { pat_id = pat_id; usr_id = usr_id; scope = scope })
  unfolding verify_pat_token check_wire
  verify_pat_token-create_pat x usr_id name scope expires_at now later pat_id secret salt s s' r e
        of_id valid short unexpired =
      let (front, back) = token_parts 36 pat_id secret of_id in
      ground (
        arith,
        front,
        back,
        create_pat_token usr_id name scope expires_at now pat_id secret salt s s' r e,
        verify_secret-create_pat x usr_id name scope expires_at now later pat_id secret salt s s' r
            e unexpired,
      )
