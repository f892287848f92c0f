-- ===== src/Credentials/Keys.antt =====
-- The natural keys of credentials.
use identity_python.Base.{◌≡◌, arith}
use identity_python.Base.Text.{Str}
use identity_python.Credentials.Entries.{identifier_key}
use identity_python.Types.{CredentialType, password}

-- No two pairs of a type and an identifier have the same key.
identifier_key_injective :
    (a b : CredentialType) (x y : Str) → identifier_key a x ≡ identifier_key b y → (a ≡ b) × (x ≡ y)
unfolding identifier_key
identifier_key_injective password password x y e = ground arith
identifier_key_injective _ _ x y e = ground arith
