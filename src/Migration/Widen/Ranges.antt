-- ===== src/Migration/Widen/Ranges.antt =====
-- Which conversions of a column's type are accepted, by the ranges of the types.
use wasm_dbms.Prelude.{
  ℕ, ◌≡◌, ◌⊎◌, refl, Bool, true, false, ◌&&◌, Option, none, some, String, inl, inr, leb, ltb,
}
use wasm_dbms.Prelude.Result.{ok, err}
use wasm_dbms.Value.{
  Value, ℤ, pos, int8, int16, int32, int64, uint8, uint16, uint32, uint64, null, other,
}
use wasm_dbms.Migration.Widen.{
  DataTypeSnapshot, int8_type, int16_type, int32_type, int64_type, uint8_type, uint16_type,
  uint32_type, uint64_type, widen_value, widening_incompatible,
}

module _ {V : Type 0} where
  abbrev pub integer : Value V → Option ℤ
  integer (int8 v) = some v
  integer (int16 v) = some v
  integer (int32 v) = some v
  integer (int64 v) = some v
  integer (uint8 v) = some (pos v)
  integer (uint16 v) = some (pos v)
  integer (uint32 v) = some (pos v)
  integer (uint64 v) = some (pos v)
  integer null = none
  integer (other v) = none

abbrev includes : Option (ℕ × ℕ) → Option (ℕ × ℕ) → Bool
includes (some (low, high)) (some (low', high')) = leb low low' && ltb high high'
includes _ _ = false

module _ {C : Type 0} where
  -- The distance from zero down to the least integer of a type, and its largest.
  abbrev range : DataTypeSnapshot C → Option (ℕ × ℕ)
  range int8_type = some (128, 127)
  range int16_type = some (32768, 32767)
  range int32_type = some (2147483648, 2147483647)
  range int64_type = some (9223372036854775808, 9223372036854775807)
  range uint8_type = some (0, 255)
  range uint16_type = some (0, 65535)
  range uint32_type = some (0, 4294967295)
  range uint64_type = some (0, 18446744073709551615)
  range _ = none

  -- Whether both are integer types, and the second reaches further up and at least as far down.
  unfoldable pub wider : DataTypeSnapshot C → DataTypeSnapshot C → Bool
  wider old new = includes (range old) (range new)

  -- Whether the value is an integer of the type.
  abbrev pub is_of : {V : Type 0} → DataTypeSnapshot C → Value V → Bool
  is_of int8_type (int8 v) = true
  is_of int16_type (int16 v) = true
  is_of int32_type (int32 v) = true
  is_of int64_type (int64 v) = true
  is_of uint8_type (uint8 v) = true
  is_of uint16_type (uint16 v) = true
  is_of uint32_type (uint32 v) = true
  is_of uint64_type (uint64 v) = true
  is_of _ _ = false

module _ {V C : Type 0} where
  -- Null stays null; an integer of the old type is converted to the same integer of the new type when
  -- the new type's range includes the old one's and reaches further up; all else is refused.
  pub widen_value_cases :
      (table column : String) (old new : DataTypeSnapshot C) (v : Value V)
      → ((v ≡ null) × (widen_value table column old new v ≡ ok null))
        ⊎ (((w : Value V) × (widen_value table column old new v ≡ ok w)
              × (integer w ≡ integer v)
              × (is_of new w ≡ true)
              × ((is_of old v && wider old new) ≡ true))
            ⊎ ((widen_value table column old new v
                  ≡ err (widening_incompatible table column old new))
                × ((is_of old v && wider old new) ≡ false)))
  unfolding widen_value wider
  widen_value_cases table column old new null = inl (refl, refl)
  widen_value_cases table column int8_type int16_type (int8 v) =
      inr (inl (int16 v, refl, refl, refl, refl))
  widen_value_cases table column int8_type int32_type (int8 v) =
      inr (inl (int32 v, refl, refl, refl, refl))
  widen_value_cases table column int8_type int64_type (int8 v) =
      inr (inl (int64 v, refl, refl, refl, refl))
  widen_value_cases table column int16_type int32_type (int16 v) =
      inr (inl (int32 v, refl, refl, refl, refl))
  widen_value_cases table column int16_type int64_type (int16 v) =
      inr (inl (int64 v, refl, refl, refl, refl))
  widen_value_cases table column int32_type int64_type (int32 v) =
      inr (inl (int64 v, refl, refl, refl, refl))
  widen_value_cases table column uint8_type uint16_type (uint8 v) =
      inr (inl (uint16 v, refl, refl, refl, refl))
  widen_value_cases table column uint8_type uint32_type (uint8 v) =
      inr (inl (uint32 v, refl, refl, refl, refl))
  widen_value_cases table column uint8_type uint64_type (uint8 v) =
      inr (inl (uint64 v, refl, refl, refl, refl))
  widen_value_cases table column uint16_type uint32_type (uint16 v) =
      inr (inl (uint32 v, refl, refl, refl, refl))
  widen_value_cases table column uint16_type uint64_type (uint16 v) =
      inr (inl (uint64 v, refl, refl, refl, refl))
  widen_value_cases table column uint32_type uint64_type (uint32 v) =
      inr (inl (uint64 v, refl, refl, refl, refl))
  widen_value_cases table column uint8_type int16_type (uint8 v) =
      inr (inl (int16 (pos v), refl, refl, refl, refl))
  widen_value_cases table column uint8_type int32_type (uint8 v) =
      inr (inl (int32 (pos v), refl, refl, refl, refl))
  widen_value_cases table column uint8_type int64_type (uint8 v) =
      inr (inl (int64 (pos v), refl, refl, refl, refl))
  widen_value_cases table column uint16_type int32_type (uint16 v) =
      inr (inl (int32 (pos v), refl, refl, refl, refl))
  widen_value_cases table column uint16_type int64_type (uint16 v) =
      inr (inl (int64 (pos v), refl, refl, refl, refl))
  widen_value_cases table column uint32_type int64_type (uint32 v) =
      inr (inl (int64 (pos v), refl, refl, refl, refl))
  widen_value_cases table column int64_type int64_type (int64 v) = inr (inr (refl, refl))
  widen_value_cases table column uint64_type uint64_type (uint64 v) = inr (inr (refl, refl))
  widen_value_cases table column int8_type new (other v) = inr (inr (refl, refl))
  widen_value_cases table column old new _ = inr (inr (refl, refl))
