-- ===== src/Migration/Wire/Sound.antt =====
-- A value that is not null is read back from the bytes that it is encoded in.
use wasm_dbms.Prelude.{
  ℕ, ◌+◌, ◌-◌, ◌*◌, ◌^◌, ◌≤◌, ◌<◌, ◌≡◌, refl, ap, ◌∙◌, arith, List, ◌++◌, true, false, ltb, length,
  length-append, take, take-append, take-append_le, take_all,
}
use wasm_dbms.Prelude.Bytes.{
  to_le_bytes, from_le_bytes, length-to_le_bytes, from_le_bytes-to_le_bytes,
}
use wasm_dbms.Prelude.Result.{ok}
use wasm_dbms.Encode.{IsStorable, MemoryResult}
use wasm_dbms.Query.Filter.{WireSize, fixed, length_prefixed}
use wasm_dbms.Value.{
  Value, ℤ, pos, negsuc, int8, int16, int32, int64, uint8, uint16, uint32, uint64, other,
}
use wasm_dbms.Migration.Widen.{
  DataTypeSnapshot, blob_type, boolean_type, date_type, datetime_type, decimal_type, int16_type,
  int32_type, int64_type, int8_type, json_type, text_type, uuid_type, uint16_type, uint32_type,
  uint64_type, uint8_type, custom_type,
}
use wasm_dbms.Migration.Wire.{
  to_signed, from_signed, decode_unsigned, decode_signed, decode_fixed, decode_length_prefixed,
  Codec, map_value, fixed_other, prefixed_other, custom_other, encode_other, decode_non_nullable,
  encode_non_nullable,
}

-- The integer is one of `w` bytes.
abbrev pub InRange : ℕ → ℤ → Type 0
InRange w (pos n) = 2 * n < 256 ^ w
InRange w (negsuc n) = 2 * n + 2 ≤ 256 ^ w

to_signed-from_signed : (w : ℕ) (z : ℤ) → InRange w z → to_signed w (from_signed w z) ≡ z
to_signed-from_signed w (pos n) h =
    let small : ltb (2 * n) (256 ^ w) ≡ true = ground arith in rw small refl
to_signed-from_signed w (negsuc n) h =
    let big : ltb (2 * (256 ^ w - 1 - n)) (256 ^ w) ≡ false = ground arith in
    rw big (ap negsuc (omega arith))

from_signed_lt : (w : ℕ) (z : ℤ) → InRange w z → from_signed w z < 256 ^ w
from_signed_lt w (pos n) h = omega arith
from_signed_lt w (negsuc n) h = omega arith

decode_unsigned-to_le_bytes : (w n : ℕ) → n < 256 ^ w → decode_unsigned w (to_le_bytes w n) ≡ ok n
unfolding decode_unsigned
decode_unsigned-to_le_bytes w n h =
    let long : ltb (length (to_le_bytes w n)) w ≡ false = ground (arith, length-to_le_bytes w n) in
    rw
      (
        long,
        take_all w (to_le_bytes w n) (omega (arith, length-to_le_bytes w n)),
        from_le_bytes-to_le_bytes w n h,
      )
      refl

decode_signed-to_le_bytes :
    (w : ℕ) (z : ℤ) → InRange w z → decode_signed w (to_le_bytes w (from_signed w z)) ≡ ok z
unfolding decode_signed
decode_signed-to_le_bytes w z h =
    let bytes = to_le_bytes w (from_signed w z) in
    let width = length-to_le_bytes w (from_signed w z) in
    let long : ltb (length bytes) w ≡ false = ground (arith, width) in
    rw
      (
        long,
        take_all w bytes (omega (arith, width)),
        from_le_bytes-to_le_bytes w (from_signed w z) (from_signed_lt w z h),
        to_signed-from_signed w z h,
      )
      refl

-- The bytes start with the length of what follows it in two bytes.
abbrev pub HasPrefix : List ℕ → Type 0
HasPrefix bytes = (2 ≤ length bytes) × (2 + from_le_bytes (take 2 bytes) ≡ length bytes)

module _ {A : Type 0} (decode : List ℕ → MemoryResult A) (a : A) (bytes : List ℕ)
    (decoded : decode bytes ≡ ok a) where
  decode_fixed-append :
      (size : ℕ) (rest : List ℕ)
      → length bytes ≡ size
      → decode_fixed decode size (bytes ++ rest) ≡ ok (a, length bytes)
  unfolding decode_fixed
  decode_fixed-append size rest h =
      let room : ltb (length (bytes ++ rest)) (length bytes) ≡ false =
        ground (arith, length-append bytes rest) in
      rw (← h, room, take-append bytes rest, decoded) refl

  decode_length_prefixed-append :
      (rest : List ℕ)
      → HasPrefix bytes
      → decode_length_prefixed decode (bytes ++ rest) ≡ ok (a, length bytes)
  unfolding decode_length_prefixed
  decode_length_prefixed-append rest (two, whole) =
      let room : ltb (length (bytes ++ rest)) 2 ≡ false =
        ground (arith, length-append bytes rest) in
      let room' : ltb (length (bytes ++ rest)) (length bytes) ≡ false =
        ground (arith, length-append bytes rest) in
      rw (take-append_le 2 bytes rest two, whole, room, room', take-append bytes rest, decoded) refl

module _ {C V : Type 0} (codec : Codec C V) where
  -- The value is of the type's variant, and its `Encode` implementation stores it, in `size` bytes.
  abbrev pub StoredFixed : DataTypeSnapshot C → ℕ → V → Type 0
  StoredFixed dt size v =
      let e = codec.encoding dt in (codec.is_of dt v ≡ true) × IsStorable e v × (e.size v ≡ size)

  -- The same of a value whose bytes start with their length.
  abbrev pub StoredPrefixed : DataTypeSnapshot C → V → Type 0
  StoredPrefixed dt v =
      let e = codec.encoding dt in
      (codec.is_of dt v ≡ true) × IsStorable e v × HasPrefix (e.encode v)

  -- The bytes of a custom value are as long as its wire size says.
  abbrev pub HasWireSize : WireSize → List ℕ → Type 0
  HasWireSize (fixed n) bytes = length bytes ≡ n
  HasWireSize length_prefixed bytes = HasPrefix bytes

  -- The value is one of the type: an integer in its range, another value that its type's `Encode`
  -- implementation stores, or a custom value of the type's tag and wire size, without a display.
  unfoldable pub IsOf : Value V → DataTypeSnapshot C → Type 0
  IsOf (int8 z) int8_type = InRange 1 z
  IsOf (int16 z) int16_type = InRange 2 z
  IsOf (int32 z) int32_type = InRange 4 z
  IsOf (int64 z) int64_type = InRange 8 z
  IsOf (uint8 n) uint8_type = n < 256 ^ 1
  IsOf (uint16 n) uint16_type = n < 256 ^ 2
  IsOf (uint32 n) uint32_type = n < 256 ^ 4
  IsOf (uint64 n) uint64_type = n < 256 ^ 8
  IsOf (other v) boolean_type = StoredFixed boolean_type 1 v
  IsOf (other v) date_type = StoredFixed date_type 4 v
  IsOf (other v) datetime_type = StoredFixed datetime_type 13 v
  IsOf (other v) decimal_type = StoredFixed decimal_type 16 v
  IsOf (other v) uuid_type = StoredFixed uuid_type 16 v
  IsOf (other v) text_type = StoredPrefixed text_type v
  IsOf (other v) blob_type = StoredPrefixed blob_type v
  IsOf (other v) json_type = StoredPrefixed json_type v
  IsOf (other v) (custom_type c) =
      (codec.is_of (custom_type c) v ≡ true)
      × (codec.custom_value c (codec.encoded v) ≡ v)
      × HasWireSize (codec.wire_size c) (codec.encoded v)
  IsOf _ _ = ⊥

  -- The value is encoded, and decoded with whatever follows it.
  abbrev pub Codes : DataTypeSnapshot C → Value V → Type 0
  Codes dt v =
      (bytes : List ℕ) × (encode_non_nullable codec dt v ≡ ok bytes)
      × ((rest : List ℕ) → decode_non_nullable codec dt (bytes ++ rest) ≡ ok (v, length bytes))

  fixed_lem :
      {A : Type 0} (f : A → Value V) (decode : List ℕ → MemoryResult A) (a : A) (bytes : List ℕ)
      (size : ℕ)
      → decode bytes ≡ ok a
      → length bytes ≡ size
      → (rest : List ℕ)
      → map_value f (decode_fixed decode size (bytes ++ rest)) ≡ ok (f a, length bytes)
  fixed_lem f decode a bytes size decoded h rest =
      rw (decode_fixed-append decode a bytes decoded size rest h) refl

  prefixed_lem :
      {A : Type 0} (f : A → Value V) (decode : List ℕ → MemoryResult A) (a : A) (bytes : List ℕ)
      → decode bytes ≡ ok a
      → HasPrefix bytes
      → (rest : List ℕ)
      → map_value f (decode_length_prefixed decode (bytes ++ rest)) ≡ ok (f a, length bytes)
  prefixed_lem f decode a bytes decoded h rest =
      rw (decode_length_prefixed-append decode a bytes decoded rest h) refl

  signed_lem :
      (f : ℤ → Value V) (w : ℕ) (z : ℤ)
      → InRange w z
      → (rest : List ℕ)
      → map_value f (decode_fixed (decode_signed w) w (to_le_bytes w (from_signed w z) ++ rest))
        ≡ ok (f z, length (to_le_bytes w (from_signed w z)))
  signed_lem f w z h =
      fixed_lem f (decode_signed w) z (to_le_bytes w (from_signed w z)) w
        (decode_signed-to_le_bytes w z h) (length-to_le_bytes w (from_signed w z))

  unsigned_lem :
      (f : ℕ → Value V) (w n : ℕ)
      → n < 256 ^ w
      → (rest : List ℕ)
      → map_value f (decode_fixed (decode_unsigned w) w (to_le_bytes w n ++ rest))
        ≡ ok (f n, length (to_le_bytes w n))
  unsigned_lem f w n h =
      fixed_lem f (decode_unsigned w) n (to_le_bytes w n) w (decode_unsigned-to_le_bytes w n h)
        (length-to_le_bytes w n)

  stored_fixed_lem :
      (dt : DataTypeSnapshot C) (size : ℕ) (v : V)
      → StoredFixed dt size v
      → (bytes : List ℕ) × (encode_other codec dt v ≡ ok bytes)
        × ((rest : List ℕ) → fixed_other codec dt size (bytes ++ rest) ≡ ok (other v, length bytes))
  stored_fixed_lem dt size v (is, s, width) =
      let e = codec.encoding dt in
      (
        e.encode v,
        rw (encode_other, is) refl,
        fixed_lem other e.decode v (e.encode v) size s.decode-encode (s.length-encode ∙ width),
      )

  stored_prefixed_lem :
      (dt : DataTypeSnapshot C) (v : V)
      → StoredPrefixed dt v
      → (bytes : List ℕ) × (encode_other codec dt v ≡ ok bytes)
        × ((rest : List ℕ) → prefixed_other codec dt (bytes ++ rest) ≡ ok (other v, length bytes))
  stored_prefixed_lem dt v (is, s, starts) =
      let e = codec.encoding dt in
      (
        e.encode v,
        rw (encode_other, is) refl,
        prefixed_lem other e.decode v (e.encode v) s.decode-encode starts,
      )

  custom_lem :
      (c : C) (size : WireSize) (v : V)
      → codec.custom_value c (codec.encoded v) ≡ v
      → HasWireSize size (codec.encoded v)
      → (rest : List ℕ)
      → custom_other codec c size (codec.encoded v ++ rest) ≡ ok (other v, length (codec.encoded v))
  custom_lem c (fixed n) v same h rest =
      fixed_lem (λ slice. other (codec.custom_value c slice)) (λ slice. ok slice) (codec.encoded v)
        (codec.encoded v) n refl h rest
      ∙ ap (λ u. ok (other u, length (codec.encoded v))) same
  custom_lem c length_prefixed v same h rest =
      prefixed_lem (λ slice. other (codec.custom_value c slice)) (λ slice. ok slice)
        (codec.encoded v) (codec.encoded v) refl h rest
      ∙ ap (λ u. ok (other u, length (codec.encoded v))) same

  -- A value of a type is encoded, and decoded again with whatever follows it.
  pub decode_non_nullable-encode_non_nullable :
      (v : Value V) (dt : DataTypeSnapshot C) → IsOf v dt → Codes dt v
  unfolding IsOf encode_non_nullable decode_non_nullable
  decode_non_nullable-encode_non_nullable (int8 z) int8_type h = (_, refl, signed_lem int8 1 z h)
  decode_non_nullable-encode_non_nullable (int16 z) int16_type h = (_, refl, signed_lem int16 2 z h)
  decode_non_nullable-encode_non_nullable (int32 z) int32_type h = (_, refl, signed_lem int32 4 z h)
  decode_non_nullable-encode_non_nullable (int64 z) int64_type h = (_, refl, signed_lem int64 8 z h)
  decode_non_nullable-encode_non_nullable (uint8 n) uint8_type h =
      (_, refl, unsigned_lem uint8 1 n h)
  decode_non_nullable-encode_non_nullable (uint16 n) uint16_type h =
      (_, refl, unsigned_lem uint16 2 n h)
  decode_non_nullable-encode_non_nullable (uint32 n) uint32_type h =
      (_, refl, unsigned_lem uint32 4 n h)
  decode_non_nullable-encode_non_nullable (uint64 n) uint64_type h =
      (_, refl, unsigned_lem uint64 8 n h)
  decode_non_nullable-encode_non_nullable (other v) boolean_type h =
      stored_fixed_lem boolean_type 1 v h
  decode_non_nullable-encode_non_nullable (other v) date_type h = stored_fixed_lem date_type 4 v h
  decode_non_nullable-encode_non_nullable (other v) datetime_type h =
      stored_fixed_lem datetime_type 13 v h
  decode_non_nullable-encode_non_nullable (other v) decimal_type h =
      stored_fixed_lem decimal_type 16 v h
  decode_non_nullable-encode_non_nullable (other v) uuid_type h = stored_fixed_lem uuid_type 16 v h
  decode_non_nullable-encode_non_nullable (other v) text_type h = stored_prefixed_lem text_type v h
  decode_non_nullable-encode_non_nullable (other v) blob_type h = stored_prefixed_lem blob_type v h
  decode_non_nullable-encode_non_nullable (other v) json_type h = stored_prefixed_lem json_type v h
  decode_non_nullable-encode_non_nullable (other v) (custom_type c) (is, same, width) =
      (codec.encoded v, rw is refl, custom_lem c (codec.wire_size c) v same width)
  decode_non_nullable-encode_non_nullable _ _ h = absurd h
