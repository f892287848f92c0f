-- ===== src/Tests/OfPats.antt =====
-- The operations on personal access tokens at concrete stores.
use identity_python.Base.{◌≡◌, refl, arith, some, ◌++◌, [], replicate}
use identity_python.Base.Dict.{lookup, insert}
use identity_python.Base.Text.{Str, codes, str_discrete, utf8}
use identity_python.Errors.{pat_revoked}
use identity_python.Pats.{create_pat, revoke_pat, revoked_pat, verify_pat_token, check_expiry}
use identity_python.Pats.Tokens.{verify_pat_token-create_pat, verify_pat_token-revoke_pat}
use identity_python.Pats.Wire.{is_structurally_valid_pat_token}
use identity_python.Primitives.{hash_password, is_too_long}
use identity_python.Result.{ok, raised}
use identity_python.Tables.{Store}
use identity_python.Tests.Data.{store, hashes, alice_pat}
use identity_python.Tests.OfCredentials.{hashes-IsExact}
use identity_python.Types.{PersonalAccessToken, CreatePatResult}

abbrev new_id : Str
new_id = codes "pat_" ++ replicate 32 b'0'

abbrev new_pat : PersonalAccessToken
new_pat = record alice_pat {
  id = new_id;
  created_at = 9;
  updated_at = 9;
  expires_at = some 1_000_000;
}

abbrev new_result : CreatePatResult
new_result = record { pat = new_pat; token = new_id ++ codes "_" ++ codes "sEcr-t" }

abbrev with_new : Store
with_new =
    (create_pat hashes (codes "a") (codes "ci") [] (some 1_000_000) 9 new_id (codes "sEcr-t") []
      store).1

verify_pat_token-create_pat_example :
    (verify_pat_token hashes new_result.token 10 with_new).0
    ≡ ok (record { pat_id = new_id; usr_id = codes "a"; scope = [] })
unfolding create_pat lookup str_discrete is_structurally_valid_pat_token hash_password is_too_long
    utf8 check_expiry
verify_pat_token-create_pat_example =
    verify_pat_token-create_pat hashes hashes-IsExact (codes "a") (codes "ci") [] (some 1_000_000) 9
      10 new_id (codes "sEcr-t") [] store with_new new_result refl refl refl (omega arith) refl

verify_pat_token-revoke_pat_example :
    let s' = (revoke_pat new_id 11 with_new).1 in
    (lookup new_id s'.pats ≡ some (revoked_pat new_pat 11))
    × (verify_pat_token hashes new_result.token 12 s' ≡ (raised (pat_revoked new_id), s'))
unfolding create_pat lookup str_discrete is_structurally_valid_pat_token hash_password is_too_long
    utf8 check_expiry insert
verify_pat_token-revoke_pat_example =
    verify_pat_token-revoke_pat hashes new_id new_result.token 11 12 with_new new_pat refl refl refl
      (omega arith) refl
