-- ===== src/Base/Int.antt =====
-- Integers, and numbers in big-endian bytes.
use Prim.Native.Nat.{ℕ, zero, suc, ◌+◌, ◌*◌, ◌/◌, ◌%◌}
use mathlib.Core.Bool.{Bool, false}
use mathlib.Core.List.{[], ◌∷◌, ◌++◌}
use identity_python.Base.Numbers.{◌==◌}
use identity_python.Base.Text.{Bytes}

-- `negsuc n` is -(n + 1), Python's `-1 - n`.
pub data ℤ : Type 0 where
  pos : ℕ → ℤ
  negsuc : ℕ → ℤ

abbrev pub int_eq : ℤ → ℤ → Bool
int_eq (pos a) (pos b) = a == b
int_eq (negsuc a) (negsuc b) = a == b
int_eq _ _ = false

unfoldable pub from_bytes_onto : ℕ → Bytes → ℕ
from_bytes_onto acc [] = acc
from_bytes_onto acc (b ∷ bs) = from_bytes_onto (acc * 256 + b) bs

-- `int.from_bytes(bs, "big")`, and `struct.unpack` of an unsigned big-endian integer
unfoldable pub from_bytes : Bytes → ℕ
unfolding from_bytes_onto
from_bytes = from_bytes_onto 0

-- the `n` low bytes of a number, as `struct.pack` of an unsigned big-endian integer writes them
unfoldable pub to_bytes : ℕ → ℕ → Bytes
to_bytes zero x = []
to_bytes (suc n) x = to_bytes n (x / 256) ++ (x % 256) ∷ []
