-- ===== src/WebAuthn/Cbor.antt =====
-- `_CborDecoder` and `_decode_cbor_map` of webauthn.py. The decoder's buffer and offset are the
-- bytes that are left. The depth of nested maps is fuel.
use identity_python.Base.{
  ℕ, zero, suc, ◌/◌, ◌%◌, Option, none, some, [], ltb, ◌==◌, if◌then◌else◌, length, take, drop,
}
use identity_python.Base.Int.{ℤ, pos, negsuc, int_eq, from_bytes}
use identity_python.Base.Text.{Bytes}
use identity_python.Errors.{Error, webauthn, malformed, out_of_fuel}
use identity_python.Result.{Result, ok, raised}

mutual
  pub data Item : Type 0 where
    int : ℤ → Item
    bytes : Bytes → Item
    map : Fields → Item

  -- a dict keyed by integers, in insertion order
  pub data Fields : Type 0 where
    nil : Fields
    field : ℤ → Item → Fields → Fields

-- `out[key] = value`
unfoldable pub set_field : ℤ → Item → Fields → Fields
set_field k v nil = field k v nil
set_field k v (field j w rest) =
    if int_eq j k then field k v rest else field j w (set_field k v rest)

-- `fields.get(key)`
unfoldable pub get_field : ℤ → Fields → Option Item
get_field k nil = none
get_field k (field j w rest) = if int_eq j k then some w else get_field k rest

abbrev pub Decoder : Type 0 → Type 0
Decoder A = Bytes → Result (A × Bytes)

abbrev pub pure : {A : Type 0} → A → Decoder A
pure a buf = ok (a, buf)

abbrev pub fail : {A : Type 0} → Error → Decoder A
fail e buf = raised e

infixl 5 ◌>>=◌
abbrev pub ◌>>=◌ : {A B : Type 0} → Decoder A → (A → Decoder B) → Decoder B
◌>>=◌ m f buf = elim (m buf) [ ok (a, rest) ↦ f a rest | raised e ↦ raised e ]

-- `_read`
unfoldable pub read : ℕ → Decoder Bytes
read n buf = if ltb (length buf) n then raised (webauthn malformed) else ok (take n buf, drop n buf)

-- a big-endian unsigned integer of `n` bytes
unfoldable pub read_number : ℕ → Decoder ℕ
unfolding read
read_number n = do out ← read n; pure (from_bytes out)

-- `_read_uint`
unfoldable pub read_uint : ℕ → Decoder ℕ
unfolding read_number
read_uint info =
    if ltb info 24
    then pure info
    else if info == 24
    then read_number 1
    else if info == 25
    then read_number 2
    else if info == 26
    then read_number 4
    else if info == 27
    then read_number 8
    else fail (webauthn malformed)

-- The body of the loop over the entries of a map, and what is left of the loop.
abbrev pub add_entry : Item → Item → Fields → (Fields → Decoder Fields) → Decoder Fields
add_entry (int key) value out next = next (set_field key value out)
add_entry (bytes _) value out next = fail (webauthn malformed)
add_entry (map _) value out next = fail (webauthn malformed)

unfoldable pub decode_entries : Decoder Item → ℕ → Fields → Decoder Fields
decode_entries item zero out buf = pure out buf
decode_entries item (suc n) out buf =
    (do key ← item; value ← item; add_entry key value out (decode_entries item n)) buf

-- What `decode_item` does with the major type and the additional information.
unfoldable pub decode_body : Decoder Item → ℕ → ℕ → Decoder Item
unfolding read_uint read decode_entries
decode_body item major info =
    if major == 0
    then (do n ← read_uint info; pure (int (pos n)))
    else if major == 1
    then (do n ← read_uint info; pure (int (negsuc n)))
    else if major == 2
    then (do n ← read_uint info; out ← read n; pure (bytes out))
    else if major == 5
    then (do n ← read_uint info; out ← decode_entries item n nil; pure (map out))
    else fail (webauthn malformed)

-- `decode_item`
unfoldable pub decode_item : ℕ → Decoder Item
unfolding decode_body
decode_item zero buf = raised out_of_fuel
decode_item (suc fuel) buf =
    (do first ← read_number 1; decode_body (decode_item fuel) (first / 32) (first % 32)) buf

abbrev pub as_map : Item → Result Fields
as_map (map fields) = ok fields
as_map (int _) = raised (webauthn malformed)
as_map (bytes _) = raised (webauthn malformed)

-- the tests on the trailing bytes and on the type of the value
abbrev pub whole_map : Result (Item × Bytes) → Result Fields
whole_map (raised e) = raised e
whole_map (ok (value, rest)) = elim rest [ [] ↦ as_map value | _ ↦ raised (webauthn malformed) ]

-- `_decode_cbor_map`; an item takes a byte at least, so the fuel is enough
unfoldable pub decode_cbor_map : Bytes → Result Fields
unfolding decode_item
decode_cbor_map buf = whole_map (decode_item (suc (length buf)) buf)
