-- ===== src/Migration/Codec/RoundTrip.antt =====
-- A record is read back from the bytes that it is encoded in.
use mathlib.Core.List.{append_assoc}
use wasm_dbms.Prelude.{
  ℕ, ◌+◌, List, [], ◌∷◌, ◌++◌, true, false, ltb, ◌==◌, length, ◌≡◌, ◌⊎◌, inl, inr, refl, ap, ◌∙◌,
  arith, length-append, drop-append, Bool-cases,
}
use wasm_dbms.Prelude.Names.{Name, name_eq_refl}
use wasm_dbms.Prelude.Result.{ok}
use wasm_dbms.Value.{Value, null}
use wasm_dbms.Migration.Widen.{DataTypeSnapshot}
use wasm_dbms.Migration.Wire.{Codec, decode_non_nullable}
use wasm_dbms.Migration.Wire.Sound.{IsOf, decode_non_nullable-encode_non_nullable}
use wasm_dbms.Migration.Codec.{
  ColumnSnapshot, is_null, decode_column, decode_columns, decode_record_by_snapshot, encode_column,
  encode_columns, encode_record_by_snapshot,
}

module _ {C V : Type 0} (codec : Codec C V) where
  IsOf-is_null : (v : Value V) (dt : DataTypeSnapshot C) → IsOf codec v dt → is_null codec v ≡ false
  unfolding IsOf
  IsOf-is_null null dt h = absurd h
  IsOf-is_null _ dt h = refl

  -- The row has a value for each column, under its name: null where the column is nullable, or one of the
  -- column's type.
  unfoldable pub Fits : List (ColumnSnapshot C) → List (Name × Value V) → Type 0
  Fits [] [] = Unit
  Fits (column ∷ columns) ((name, v) ∷ values) =
      (column.name ≡ name)
      × (((column.nullable ≡ true) × (v ≡ null)) ⊎ IsOf codec v column.data_type)
      × Fits columns values
  Fits _ _ = ⊥

  decode_column-plain :
      (column : ColumnSnapshot C) (bytes : List ℕ)
      → column.nullable ≡ false
      → decode_column codec column bytes ≡ decode_non_nullable codec column.data_type bytes
  unfolding decode_column
  decode_column-plain column [] h = rw h refl
  decode_column-plain column (b ∷ bytes) h = rw h refl

  column_lem :
      (column : ColumnSnapshot C) (v : Value V)
      → ((column.nullable ≡ true) × (v ≡ null)) ⊎ IsOf codec v column.data_type
      → (bytes : List ℕ) × (encode_column codec column v ≡ ok bytes)
        × ((rest : List ℕ) → decode_column codec column (bytes ++ rest) ≡ ok (v, length bytes))
  unfolding encode_column decode_column
  column_lem column v (inl (nullable, is)) =
      (0 ∷ [], rw (nullable, is) refl, λ rest. rw (nullable, is) refl)
  column_lem column v (inr h) =
      let some = IsOf-is_null v column.data_type h in
      let (bytes, enc, dec) = decode_non_nullable-encode_non_nullable codec v column.data_type h in
      elim (Bool-cases column.nullable) [
        | inl t ↦ (
          1 ∷ bytes,
          rw (t, some, enc) refl,
          λ rest. rw (t, dec rest) (ap (λ n. ok (v, n)) (omega arith)),
        )
        | inr t ↦ (
          bytes,
          rw (t, some, enc) refl,
          λ rest. decode_column-plain column (bytes ++ rest) t ∙ dec rest,
        )
      ]

  decode_columns_step :
      (column : ColumnSnapshot C) (columns : List (ColumnSnapshot C)) (pre bytes : List ℕ)
      (v : Value V) (n : ℕ) (out : List (Name × Value V))
      → decode_column codec column bytes ≡ ok (v, n)
      → decode_columns codec columns (length pre + n) (pre ++ bytes) ≡ ok out
      → decode_columns codec (column ∷ columns) (length pre) (pre ++ bytes)
        ≡ ok ((column.name, v) ∷ out)
  unfolding decode_columns
  decode_columns_step column columns pre bytes v n out here there =
      let room : ltb (length (pre ++ bytes)) (length pre) ≡ false =
        ground (arith, length-append pre bytes) in
      rw (room, drop-append pre bytes, here, there) refl

  columns_lem :
      (columns : List (ColumnSnapshot C)) (values : List (Name × Value V))
      → Fits columns values
      → (bytes : List ℕ) × (encode_columns codec columns values ≡ ok bytes)
        × ((pre rest : List ℕ)
            → decode_columns codec columns (length pre) (pre ++ (bytes ++ rest)) ≡ ok values)
  unfolding Fits encode_columns decode_columns
  columns_lem [] [] h = ([], refl, λ pre rest. refl)
  columns_lem (column ∷ columns) ((name, v) ∷ values) (same, fits, hs) =
      let (b, enc, dec) = column_lem column v fits in
      let (bs, encs, decs) = columns_lem columns values hs in
      (
        b ++ bs,
        rw (← same, name_eq_refl column.name, enc, encs) refl,
        λ pre rest. rw (append_assoc b bs rest) (
            decode_columns_step column columns pre (b ++ (bs ++ rest)) v (length b) values
              (dec (bs ++ rest))
              (rw (← length-append pre b, ← append_assoc pre b (bs ++ rest)) (decs (pre ++ b) rest))
            ∙ ap (λ n. ok ((n, v) ∷ values)) same),
      )
  columns_lem [] (_ ∷ _) h = absurd h
  columns_lem (_ ∷ _) [] h = absurd h

  length-Fits :
      (columns : List (ColumnSnapshot C)) (values : List (Name × Value V))
      → Fits columns values
      → length values ≡ length columns
  unfolding Fits
  length-Fits [] [] h = refl
  length-Fits (column ∷ columns) ((name, v) ∷ values) h =
      omega (arith, length-Fits columns values h.2)
  length-Fits [] (_ ∷ _) h = absurd h
  length-Fits (_ ∷ _) [] h = absurd h

  counted :
      (columns : List (ColumnSnapshot C)) (values : List (Name × Value V))
      → Fits columns values
      → (length values == length columns) ≡ true
  counted columns values h = ground (arith, length-Fits columns values h)

  -- A row that fits the columns of a snapshot, each value null in a nullable column or of the column's
  -- type, is encoded, and decoded again from its bytes, whatever follows them. An integer is of a type
  -- when it is in its range, a custom value when its bytes are as long as the wire size says; of a value
  -- of another type it is a hypothesis that the type's `Encode` implementation gives it back, in its
  -- fixed size or behind a prefix with its length.
  pub decode_record-encode_record :
      (columns : List (ColumnSnapshot C)) (values : List (Name × Value V))
      → Fits columns values
      → (bytes : List ℕ) × (encode_record_by_snapshot codec values columns ≡ ok bytes)
        × ((rest : List ℕ) → decode_record_by_snapshot codec (bytes ++ rest) columns ≡ ok values)
  unfolding encode_record_by_snapshot decode_record_by_snapshot
  decode_record-encode_record columns values h =
      let (bytes, enc, dec) = columns_lem columns values h in
      (bytes, rw (counted columns values h) enc, λ rest. dec [] rest)
