-- ===== src/WebAuthn/Fuel.antt =====
-- The fuel of the CBOR decoder is enough: it never runs out on a buffer.
use identity_python.Base.{
  ℕ, zero, suc, ◌+◌, ◌≤◌, ◌<◌, ◌/◌, ◌%◌, ◌≡◌, ◌≢◌, arith, inl, inr, Bool-cases, [], ◌==◌, ◌∷◌,
  length, drop,
}
use identity_python.Base.Text.{Bytes}
use identity_python.Errors.{out_of_fuel}
use identity_python.Result.{Result, ok, raised}
use identity_python.WebAuthn.Cbor.{
  Item, int, bytes, map, Fields, nil, Decoder, ◌>>=◌, add_entry, read, read_number, read_uint,
  decode_entries, decode_body, decode_item, decode_cbor_map, set_field, whole_map, as_map,
}

-- The decoder stops with an error of the source, or leaves at least `used` bytes fewer than it met.
abbrev Consumes : {A : Type 0} → ℕ → Bytes → Result (A × Bytes) → Type 0
Consumes used buf (ok (a, rest)) = length rest + used ≤ length buf
Consumes used buf (raised e) = e ≢ out_of_fuel

length-drop : (n : ℕ) (buf : Bytes) → n ≤ length buf → length (drop n buf) + n ≡ length buf
length-drop zero buf h = omega arith
length-drop (suc n) [] h = absurd (omega arith)
length-drop (suc n) (b ∷ buf) h = omega (arith, length-drop n buf)

read-Consumes : (n : ℕ) (buf : Bytes) → Consumes n buf (read n buf)
unfolding read
read-Consumes n buf = ground (arith, length-drop n buf)

read_number-Consumes : (n : ℕ) (buf : Bytes) → Consumes n buf (read_number n buf)
unfolding read_number read
read_number-Consumes n buf = ground (arith, length-drop n buf)

read_uint-Consumes : (info : ℕ) (buf : Bytes) → Consumes 0 buf (read_uint info buf)
unfolding read_uint
read_uint-Consumes info buf = ground (
  arith,
  read_number-Consumes 1 buf,
  read_number-Consumes 2 buf,
  read_number-Consumes 4 buf,
  read_number-Consumes 8 buf,
)

-- The rule of a sequence of two decoders.
bind-Consumes :
    {A B : Type 0} (m : Decoder A) (k : A → Decoder B) (used : ℕ) (buf : Bytes)
    → Consumes used buf (m buf)
    → ((a : A) (rest : Bytes) → length rest + used ≤ length buf → Consumes 0 rest (k a rest))
    → Consumes used buf ((m >>= k) buf)
bind-Consumes {A} {B} m k used buf first next = go (m buf) first
  where
    go : (r : Result (A × Bytes)) → Consumes used buf r → Consumes used buf (((λ _. r) >>= k) buf)
    go (raised e) h = h
    go (ok (a, rest)) h = shift (k a rest) (next a rest h)
      where
        shift : (r : Result (B × Bytes)) → Consumes 0 rest r → Consumes used buf r
        shift (raised e) p = p
        shift (ok (b, left)) p = omega arith

weaken :
    {A : Type 0} (used : ℕ) (buf : Bytes) (r : Result (A × Bytes))
    → Consumes used buf r
    → Consumes 0 buf r
weaken used buf (raised e) h = h
weaken used buf (ok (a, rest)) h = omega arith

module _ (item : Decoder Item) (fuel : ℕ)
    (ih : (buf : Bytes) → length buf < fuel → Consumes 1 buf (item buf)) where
  decode_entries-Consumes :
      (n : ℕ) (out : Fields) (buf : Bytes)
      → length buf < fuel
      → Consumes 0 buf (decode_entries item n out buf)
  unfolding decode_entries
  decode_entries-Consumes zero out buf h = omega arith
  decode_entries-Consumes (suc n) out buf h =
      let rest_of = decode_entries-Consumes n in
      bind-Consumes item _ 0 buf (weaken 1 buf (item buf) (ih buf h)) (λ key rest p.
        bind-Consumes item _ 0 rest (weaken 1 rest (item rest) (ih rest (omega arith)))
          (λ value left q. entry key value left (omega arith) rest_of))
    where
      entry :
          (key value : Item) (left : Bytes)
          → length left < fuel
          → ((out' : Fields) (buf' : Bytes)
              → length buf' < fuel
              → Consumes 0 buf' (decode_entries item n out' buf'))
          → Consumes 0 left (add_entry key value out (decode_entries item n) left)
      entry (int k) value left p rest_of = rest_of (set_field k value out) left p
      entry (bytes b) value left p rest_of = λ e. cc
      entry (map m) value left p rest_of = λ e. cc

  decode_body-Consumes :
      (major info : ℕ) (buf : Bytes)
      → length buf < fuel
      → Consumes 0 buf (decode_body item major info buf)
  unfolding decode_body
  decode_body-Consumes major info buf h = elim (Bool-cases (major == 0)) [
    | inl a ↦ rw a (
        bind-Consumes (read_uint info) _ 0 buf (read_uint-Consumes info buf)
          (λ n rest p. omega arith))
    | inr a ↦ elim (Bool-cases (major == 1)) [
      | inl b ↦
          rw (a, b)
            (bind-Consumes (read_uint info) _ 0 buf (read_uint-Consumes info buf)
              (λ n rest p. omega arith))
      | inr b ↦ elim (Bool-cases (major == 2)) [
        | inl c ↦
            rw (a, b, c)
              (bind-Consumes (read_uint info) _ 0 buf (read_uint-Consumes info buf) (λ n rest p.
                bind-Consumes (read n) _ 0 rest (weaken n rest (read n rest) (read-Consumes n rest))
                  (λ out left q. omega arith)))
        | inr c ↦ elim (Bool-cases (major == 5)) [
          | inl d ↦
              rw (a, b, c, d)
                (bind-Consumes (read_uint info) _ 0 buf (read_uint-Consumes info buf) (λ n rest p.
                  bind-Consumes (decode_entries item n nil) _ 0 rest
                    (decode_entries-Consumes n nil rest (omega arith)) (λ out left q. omega arith)))
          | inr d ↦ rw (a, b, c, d) (λ e. cc)
        ]
      ]
    ]
  ]

decode_item-Consumes :
    (fuel : ℕ) (buf : Bytes) → length buf < fuel → Consumes 1 buf (decode_item fuel buf)
unfolding decode_item
decode_item-Consumes zero buf h = elim h [ ]
decode_item-Consumes (suc fuel) buf h =
    let ih = decode_item-Consumes fuel in
    bind-Consumes (read_number 1) _ 1 buf (read_number-Consumes 1 buf) (λ first rest p.
      decode_body-Consumes (decode_item fuel) fuel ih (first / 32) (first % 32) rest (omega arith))

as_map-ne-out_of_fuel : (i : Item) → as_map i ≢ raised out_of_fuel
as_map-ne-out_of_fuel (int k) = λ e. cc
as_map-ne-out_of_fuel (bytes b) = λ e. cc
as_map-ne-out_of_fuel (map f) = λ e. cc

whole_map-ne-out_of_fuel :
    (buf : Bytes) (r : Result (Item × Bytes)) → Consumes 1 buf r → whole_map r ≢ raised out_of_fuel
whole_map-ne-out_of_fuel buf (raised e) h = λ p. h (cc)
whole_map-ne-out_of_fuel buf (ok (i, [])) h = as_map-ne-out_of_fuel i
whole_map-ne-out_of_fuel buf (ok (i, b ∷ rest)) h = λ e. cc

-- On every buffer the decoder ends with a value or with an error of the source.
pub decode_cbor_map-ne-out_of_fuel : (buf : Bytes) → decode_cbor_map buf ≢ raised out_of_fuel
unfolding decode_cbor_map
decode_cbor_map-ne-out_of_fuel buf =
    whole_map-ne-out_of_fuel buf _ (decode_item-Consumes (suc (length buf)) buf (omega arith))
