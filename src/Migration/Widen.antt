-- ===== src/Migration/Widen.antt =====
-- migration/widen.rs: the conversions of a column's values to a wider type. A cast of an integer to a
-- type that has its value is the integer.
pub mod Ranges
use wasm_dbms.Prelude.{ℕ, ◌≡◌, ◌⊎◌, refl, Bool, true, false, String, inl, inr}
use wasm_dbms.Prelude.Result.{Result, ok, err}
use wasm_dbms.Value.{
  Value, ℤ, pos, negsuc, int8, int16, int32, int64, uint8, uint16, uint32, uint64, null, other,
}

-- A custom type carries its name and layout, `C`.
pub data DataTypeSnapshot (C : Type 0) : Type 0 where
  blob_type : DataTypeSnapshot C
  boolean_type : DataTypeSnapshot C
  date_type : DataTypeSnapshot C
  datetime_type : DataTypeSnapshot C
  decimal_type : DataTypeSnapshot C
  float32_type : DataTypeSnapshot C
  float64_type : DataTypeSnapshot C
  int16_type : DataTypeSnapshot C
  int32_type : DataTypeSnapshot C
  int64_type : DataTypeSnapshot C
  int8_type : DataTypeSnapshot C
  json_type : DataTypeSnapshot C
  text_type : DataTypeSnapshot C
  uuid_type : DataTypeSnapshot C
  uint16_type : DataTypeSnapshot C
  uint32_type : DataTypeSnapshot C
  uint64_type : DataTypeSnapshot C
  uint8_type : DataTypeSnapshot C
  custom_type : C → DataTypeSnapshot C

pub data MigrationError (C : Type 0) : Type 0 where
  widening_incompatible :
      (table column : String) (old_type new_type : DataTypeSnapshot C) → MigrationError C

module _ {V C : Type 0} where
  unfoldable pub widen_value :
      (table column : String) (old_type new_type : DataTypeSnapshot C)
      → Value V
      → Result (MigrationError C) (Value V)
  widen_value table column old_type new_type null = ok null
  widen_value table column int8_type int16_type (int8 v) = ok (int16 v)
  widen_value table column int8_type int32_type (int8 v) = ok (int32 v)
  widen_value table column int8_type int64_type (int8 v) = ok (int64 v)
  widen_value table column int16_type int32_type (int16 v) = ok (int32 v)
  widen_value table column int16_type int64_type (int16 v) = ok (int64 v)
  widen_value table column int32_type int64_type (int32 v) = ok (int64 v)
  widen_value table column uint8_type uint16_type (uint8 v) = ok (uint16 v)
  widen_value table column uint8_type uint32_type (uint8 v) = ok (uint32 v)
  widen_value table column uint8_type uint64_type (uint8 v) = ok (uint64 v)
  widen_value table column uint16_type uint32_type (uint16 v) = ok (uint32 v)
  widen_value table column uint16_type uint64_type (uint16 v) = ok (uint64 v)
  widen_value table column uint32_type uint64_type (uint32 v) = ok (uint64 v)
  widen_value table column uint8_type int16_type (uint8 v) = ok (int16 (pos v))
  widen_value table column uint8_type int32_type (uint8 v) = ok (int32 (pos v))
  widen_value table column uint8_type int64_type (uint8 v) = ok (int64 (pos v))
  widen_value table column uint16_type int32_type (uint16 v) = ok (int32 (pos v))
  widen_value table column uint16_type int64_type (uint16 v) = ok (int64 (pos v))
  widen_value table column uint32_type int64_type (uint32 v) = ok (int64 (pos v))
  widen_value table column old_type new_type _ =
      err (widening_incompatible table column old_type new_type)
