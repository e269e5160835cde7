-- ===== src/Migration/Codec.antt =====
-- migration/codec.rs: a record's bytes, column by column, under the schema that a snapshot keeps.
pub mod RoundTrip
use wasm_dbms.Prelude.{
  ℕ, zero, suc, ◌+◌, List, [], ◌∷◌, ◌++◌, Bool, true, false, String, ltb, ◌==◌, if◌then◌else◌,
  length, drop,
}
use wasm_dbms.Prelude.Names.{Name, name_eq}
use wasm_dbms.Prelude.Result
use wasm_dbms.Prelude.Result.{ok, err}
use wasm_dbms.Encode.{MemoryResult, decode_error, too_short, identity_decode_error}
use wasm_dbms.Value.{Value, null}
use wasm_dbms.Migration.Widen.{DataTypeSnapshot}
use wasm_dbms.Migration.Wire.{Codec, decode_non_nullable, encode_non_nullable}

-- The fields that the codec reads.
pub record ColumnSnapshot (C : Type 0) : Type 0 where
  pub name : Name
  pub data_type : DataTypeSnapshot C
  pub nullable : Bool

module _ {C V : Type 0} (codec : Codec C V) where
  abbrev pub is_null : Value V → Bool
  is_null null = true
  is_null _ = false

  unfoldable pub decode_column : ColumnSnapshot C → List ℕ → MemoryResult (Value V × ℕ)
  decode_column column [] =
      if column.nullable
      then err (decode_error too_short)
      else decode_non_nullable codec column.data_type []
  decode_column column (flag ∷ bytes) =
      if column.nullable
      then (if flag == 0
          then ok (null, 1)
          else if flag == 1
          then Result.◌>>=◌ (decode_non_nullable codec column.data_type bytes)
              (λ decoded. ok (decoded.0, 1 + decoded.1))
          else err (decode_error (identity_decode_error (codec.invalid_flag flag))))
      else decode_non_nullable codec column.data_type (flag ∷ bytes)

  -- The loop of `decode_record_by_snapshot` from `offset` on.
  unfoldable pub decode_columns :
      List (ColumnSnapshot C) → ℕ → List ℕ → MemoryResult (List (Name × Value V))
  unfolding decode_column
  decode_columns [] offset bytes = ok []
  decode_columns (column ∷ columns) offset bytes =
      if ltb (length bytes) offset
      then err (decode_error too_short)
      else Result.◌>>=◌ (decode_column column (drop offset bytes)) λ decoded.
        Result.◌>>=◌ (decode_columns columns (offset + decoded.1) bytes)
          λ out. ok ((column.name, decoded.0) ∷ out)

  unfoldable pub decode_record_by_snapshot :
      List ℕ → List (ColumnSnapshot C) → MemoryResult (List (Name × Value V))
  unfolding decode_columns
  decode_record_by_snapshot bytes columns = decode_columns columns 0 bytes

  -- The bytes that are appended.
  unfoldable pub encode_column : ColumnSnapshot C → Value V → MemoryResult (List ℕ)
  encode_column column value =
      if column.nullable
      then (if is_null value
          then ok (0 ∷ [])
          else Result.◌>>=◌ (encode_non_nullable codec column.data_type value)
              λ bytes. ok (1 ∷ bytes))
      else if is_null value
      then err (decode_error (identity_decode_error codec.unexpected_null))
      else encode_non_nullable codec column.data_type value

  unfoldable pub encode_columns :
      List (ColumnSnapshot C) → List (Name × Value V) → MemoryResult (List ℕ)
  unfolding encode_column
  encode_columns (column ∷ columns) ((name, value) ∷ values) =
      if name_eq column.name name
      then Result.◌>>=◌ (encode_column column value)
          (λ bytes. Result.◌>>=◌ (encode_columns columns values) λ out. ok (bytes ++ out))
      else err (decode_error (identity_decode_error (codec.wrong_name name column.name)))
  encode_columns _ _ = ok []

  unfoldable pub encode_record_by_snapshot :
      List (Name × Value V) → List (ColumnSnapshot C) → MemoryResult (List ℕ)
  unfolding encode_columns
  encode_record_by_snapshot values columns =
      if length values == length columns
      then encode_columns columns values
      else err (
          decode_error (identity_decode_error (codec.wrong_count (length values) (length columns))))
