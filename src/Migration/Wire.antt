-- ===== src/Migration/Wire.antt =====
-- migration/codec.rs, the values that are not null, and wasm-dbms-api/src/dbms/types/integers.rs: the
-- bytes of a value, by the type that a snapshot keeps. A signed integer is in two's complement.
pub mod Sound
use wasm_dbms.Prelude.{ℕ, ◌+◌, ◌-◌, ◌*◌, ◌^◌, List, Bool, String, ltb, if◌then◌else◌, length, take}
use wasm_dbms.Prelude.Bytes.{to_le_bytes, from_le_bytes}
use wasm_dbms.Prelude.Names.{Name}
use wasm_dbms.Prelude.Result
use wasm_dbms.Prelude.Result.{ok, err}
use wasm_dbms.Encode.{Encode, MemoryResult, decode_error, too_short, identity_decode_error}
use wasm_dbms.Query.Filter.{WireSize, fixed, length_prefixed}
use wasm_dbms.Value.{
  Value, ℤ, pos, negsuc, int8, int16, int32, int64, uint8, uint16, uint32, uint64, other,
}
use wasm_dbms.Migration.Widen.{
  DataTypeSnapshot, blob_type, boolean_type, date_type, datetime_type, decimal_type, float32_type,
  float64_type, int16_type, int32_type, int64_type, int8_type, json_type, text_type, uuid_type,
  uint16_type, uint32_type, uint64_type, uint8_type, custom_type,
}

-- `from_le_bytes` of a `w`-byte signed integer, from the unsigned one.
abbrev pub to_signed : ℕ → ℕ → ℤ
to_signed w n = if ltb (2 * n) (256 ^ w) then pos n else negsuc (256 ^ w - 1 - n)

abbrev pub from_signed : ℕ → ℤ → ℕ
from_signed w (pos n) = n
from_signed w (negsuc n) = 256 ^ w - 1 - n

unfoldable pub decode_unsigned : ℕ → List ℕ → MemoryResult ℕ
decode_unsigned w bytes =
    if ltb (length bytes) w then err (decode_error too_short) else ok (from_le_bytes (take w bytes))

unfoldable pub decode_signed : ℕ → List ℕ → MemoryResult ℤ
decode_signed w bytes =
    if ltb (length bytes) w
    then err (decode_error too_short)
    else ok (to_signed w (from_le_bytes (take w bytes)))

module _ {A : Type 0} (decode : List ℕ → MemoryResult A) where
  unfoldable pub decode_fixed : ℕ → List ℕ → MemoryResult (A × ℕ)
  decode_fixed size bytes =
      if ltb (length bytes) size
      then err (decode_error too_short)
      else Result.◌>>=◌ (decode (take size bytes)) (λ value. ok (value, size))

  unfoldable pub decode_length_prefixed : List ℕ → MemoryResult (A × ℕ)
  decode_length_prefixed bytes =
      let total = 2 + from_le_bytes (take 2 bytes) in
      if ltb (length bytes) 2
      then err (decode_error too_short)
      else if ltb (length bytes) total
      then err (decode_error too_short)
      else Result.◌>>=◌ (decode (take total bytes)) (λ value. ok (value, total))

-- The `Encode` implementations of the types that are no integers, by the type; whether a value is of the
-- type's variant of `Value`; custom values with their bytes and the wire size of their type; and the
-- texts of the messages.
pub record Codec (C V : Type 0) : Type 0 where
  pub encoding : DataTypeSnapshot C → Encode V
  pub is_of : DataTypeSnapshot C → V → Bool
  pub custom_value : C → List ℕ → V
  pub encoded : V → List ℕ
  pub wire_size : C → WireSize
  pub not_wired : DataTypeSnapshot C → String
  pub mismatch : DataTypeSnapshot C → Value V → String
  pub invalid_flag : ℕ → String
  pub wrong_count : ℕ → ℕ → String
  pub wrong_name : Name → Name → String
  pub unexpected_null : String

abbrev pub map_value :
    {A V : Type 0} → (A → Value V) → MemoryResult (A × ℕ) → MemoryResult (Value V × ℕ)
map_value f r = Result.◌>>=◌ r λ decoded. ok (f decoded.0, decoded.1)

module _ {C V : Type 0} (codec : Codec C V) where
  abbrev pub fixed_other : DataTypeSnapshot C → ℕ → List ℕ → MemoryResult (Value V × ℕ)
  fixed_other dt size bytes =
      let e = codec.encoding dt in map_value other (decode_fixed e.decode size bytes)

  abbrev pub prefixed_other : DataTypeSnapshot C → List ℕ → MemoryResult (Value V × ℕ)
  prefixed_other dt bytes =
      let e = codec.encoding dt in map_value other (decode_length_prefixed e.decode bytes)

  -- The leading bytes of a custom value are the value.
  abbrev pub custom_other : C → WireSize → List ℕ → MemoryResult (Value V × ℕ)
  custom_other c (fixed n) bytes =
      map_value (λ slice. other (codec.custom_value c slice))
        (decode_fixed (λ slice. ok slice) n bytes)
  custom_other c length_prefixed bytes =
      map_value (λ slice. other (codec.custom_value c slice))
        (decode_length_prefixed (λ slice. ok slice) bytes)

  unfoldable pub decode_non_nullable : DataTypeSnapshot C → List ℕ → MemoryResult (Value V × ℕ)
  decode_non_nullable int8_type bytes = map_value int8 (decode_fixed (decode_signed 1) 1 bytes)
  decode_non_nullable uint8_type bytes = map_value uint8 (decode_fixed (decode_unsigned 1) 1 bytes)
  decode_non_nullable boolean_type bytes = fixed_other boolean_type 1 bytes
  decode_non_nullable int16_type bytes = map_value int16 (decode_fixed (decode_signed 2) 2 bytes)
  decode_non_nullable uint16_type bytes =
      map_value uint16 (decode_fixed (decode_unsigned 2) 2 bytes)
  decode_non_nullable int32_type bytes = map_value int32 (decode_fixed (decode_signed 4) 4 bytes)
  decode_non_nullable uint32_type bytes =
      map_value uint32 (decode_fixed (decode_unsigned 4) 4 bytes)
  decode_non_nullable date_type bytes = fixed_other date_type 4 bytes
  decode_non_nullable int64_type bytes = map_value int64 (decode_fixed (decode_signed 8) 8 bytes)
  decode_non_nullable uint64_type bytes =
      map_value uint64 (decode_fixed (decode_unsigned 8) 8 bytes)
  decode_non_nullable datetime_type bytes = fixed_other datetime_type 13 bytes
  decode_non_nullable decimal_type bytes = fixed_other decimal_type 16 bytes
  decode_non_nullable uuid_type bytes = fixed_other uuid_type 16 bytes
  decode_non_nullable text_type bytes = prefixed_other text_type bytes
  decode_non_nullable blob_type bytes = prefixed_other blob_type bytes
  decode_non_nullable json_type bytes = prefixed_other json_type bytes
  decode_non_nullable (custom_type c) bytes = custom_other c (codec.wire_size c) bytes
  decode_non_nullable float32_type bytes =
      err (decode_error (identity_decode_error (codec.not_wired float32_type)))
  decode_non_nullable float64_type bytes =
      err (decode_error (identity_decode_error (codec.not_wired float64_type)))

  abbrev pub mismatched : DataTypeSnapshot C → Value V → MemoryResult (List ℕ)
  mismatched dt value = err (decode_error (identity_decode_error (codec.mismatch dt value)))

  abbrev pub encode_other : DataTypeSnapshot C → V → MemoryResult (List ℕ)
  encode_other dt v =
      let e = codec.encoding dt in
      if codec.is_of dt v then ok (e.encode v) else mismatched dt (other v)

  -- The bytes that are appended.
  unfoldable pub encode_non_nullable : DataTypeSnapshot C → Value V → MemoryResult (List ℕ)
  encode_non_nullable int8_type (int8 z) = ok (to_le_bytes 1 (from_signed 1 z))
  encode_non_nullable uint8_type (uint8 n) = ok (to_le_bytes 1 n)
  encode_non_nullable int16_type (int16 z) = ok (to_le_bytes 2 (from_signed 2 z))
  encode_non_nullable uint16_type (uint16 n) = ok (to_le_bytes 2 n)
  encode_non_nullable int32_type (int32 z) = ok (to_le_bytes 4 (from_signed 4 z))
  encode_non_nullable uint32_type (uint32 n) = ok (to_le_bytes 4 n)
  encode_non_nullable int64_type (int64 z) = ok (to_le_bytes 8 (from_signed 8 z))
  encode_non_nullable uint64_type (uint64 n) = ok (to_le_bytes 8 n)
  encode_non_nullable boolean_type (other v) = encode_other boolean_type v
  encode_non_nullable date_type (other v) = encode_other date_type v
  encode_non_nullable datetime_type (other v) = encode_other datetime_type v
  encode_non_nullable decimal_type (other v) = encode_other decimal_type v
  encode_non_nullable uuid_type (other v) = encode_other uuid_type v
  encode_non_nullable text_type (other v) = encode_other text_type v
  encode_non_nullable blob_type (other v) = encode_other blob_type v
  encode_non_nullable json_type (other v) = encode_other json_type v
  encode_non_nullable (custom_type c) (other v) =
      if codec.is_of (custom_type c) v
      then ok (codec.encoded v)
      else mismatched (custom_type c) (other v)
  encode_non_nullable float32_type value =
      err (decode_error (identity_decode_error (codec.not_wired float32_type)))
  encode_non_nullable float64_type value =
      err (decode_error (identity_decode_error (codec.not_wired float64_type)))
  encode_non_nullable dt value = mismatched dt value
