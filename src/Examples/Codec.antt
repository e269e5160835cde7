-- ===== src/Examples/Codec.antt =====
-- A row of a negative integer, a boolean, a blob, a custom value and null.
use wasm_dbms.Prelude.{
  ℕ, ◌≡◌, refl, arith, List, [], ◌∷◌, ◌++◌, Bool, true, false, length, inl, inr,
}
use wasm_dbms.Prelude.Names.{Name}
use wasm_dbms.Prelude.Result.{ok, ◌>>=◌}
use wasm_dbms.Encode.{Encode, IsStorable, fixed, dynamic, saturating_size, length_prefix}
use wasm_dbms.Value.Stored.{
  encode_boolean, decode_boolean, encode_blob, decode_blob, IsStorable-blob, HasPrefix-blob,
}
use wasm_dbms.Query.Filter.{WireSize}
use wasm_dbms.Value.{Value, negsuc, int16, null, other}
use wasm_dbms.Migration.Widen.{
  DataTypeSnapshot, blob_type, boolean_type, custom_type, int16_type, uint8_type,
}
use wasm_dbms.Migration.Wire.{Codec, encode_non_nullable}
use wasm_dbms.Migration.Wire.Sound.{IsOf}
use wasm_dbms.Migration.Codec.{ColumnSnapshot, encode_record_by_snapshot, decode_record_by_snapshot}
use wasm_dbms.Migration.Codec.RoundTrip.{Fits, decode_record-encode_record}

-- The values that are no integers: booleans, blobs, and the bytes of custom values.
data Payload : Type 0 where
  truth : Bool → Payload
  blob : List ℕ → Payload
  custom : List ℕ → Payload

abbrev booleans : Encode Payload
booleans = record {
  data_size = fixed 1;
  alignment = 1;
  encode = λ p. elim p [ truth b ↦ encode_boolean b | _ ↦ [] ];
  decode = λ bytes. decode_boolean bytes >>= λ b. ok (truth b);
  size = λ p. 1;
}

abbrev blobs : Encode Payload
blobs = record {
  data_size = dynamic;
  alignment = 32;
  encode = λ p. elim p [ blob b ↦ encode_blob b | _ ↦ [] ];
  decode = λ bytes. decode_blob bytes >>= λ b. ok (blob b);
  size = λ p. elim p [ blob b ↦ saturating_size 2 (length b) | _ ↦ 0 ];
}

abbrev encoding : DataTypeSnapshot WireSize → Encode Payload
encoding boolean_type = booleans
encoding _ = blobs

abbrev is_of : DataTypeSnapshot WireSize → Payload → Bool
is_of boolean_type (truth b) = true
is_of blob_type (blob b) = true
is_of (custom_type c) (custom bytes) = true
is_of _ _ = false

abbrev codec : Codec WireSize Payload
codec = record {
  encoding = encoding;
  is_of = is_of;
  custom_value = λ c bytes. custom bytes;
  encoded = λ p. elim p [ custom bytes ↦ bytes | _ ↦ [] ];
  wire_size = λ c. c;
  not_wired = λ dt. "float";
  mismatch = λ dt v. "mismatch";
  invalid_flag = λ n. "flag";
  wrong_count = λ m n. "count";
  wrong_name = λ a b. "name";
  unexpected_null = "null";
}

abbrev delta : ColumnSnapshot WireSize
delta = record { name = b'd' ∷ []; data_type = int16_type; nullable = false }

abbrev done : ColumnSnapshot WireSize
done = record { name = b'o' ∷ []; data_type = boolean_type; nullable = true }

abbrev photo : ColumnSnapshot WireSize
photo = record { name = b'p' ∷ []; data_type = blob_type; nullable = false }

abbrev color : ColumnSnapshot WireSize
color = record { name = b'c' ∷ []; data_type = custom_type (WireSize.fixed 3); nullable = false }

abbrev size : ColumnSnapshot WireSize
size = record { name = b's' ∷ []; data_type = uint8_type; nullable = true }

abbrev columns : List (ColumnSnapshot WireSize)
columns = delta ∷ done ∷ photo ∷ color ∷ size ∷ []

-- -2, true, two bytes of a blob, three of a custom value, and null.
abbrev row : List (Name × Value Payload)
row =
    (delta.name, int16 (negsuc 1))
    ∷ (done.name, other (truth true))
    ∷ (photo.name, other (blob (5 ∷ 6 ∷ [])))
    ∷ (color.name, other (custom (9 ∷ 8 ∷ 7 ∷ [])))
    ∷ (size.name, null)
    ∷ []

truth-IsStorable : IsStorable booleans (truth true)
truth-IsStorable = record {
  alignment_pos = omega arith;
  length-encode = refl;
  fixed_size = λ n e. cc;
  decode-encode = refl;
  decode-append = λ e rest. cc;
}

blob-IsStorable : IsStorable blobs (blob (5 ∷ 6 ∷ []))
blob-IsStorable =
    let s = IsStorable-blob (5 ∷ 6 ∷ []) (omega arith) in
    record {
      alignment_pos = omega arith;
      length-encode = s.length-encode;
      fixed_size = λ n e. cc;
      decode-encode = rw s.decode-encode refl;
      decode-append = λ e rest. rw (s.decode-append refl rest) refl;
    }

row-Fits : Fits codec columns row
unfolding Fits IsOf
row-Fits = (
  refl,
  inr (omega arith),
  (
    refl,
    inr (refl, truth-IsStorable, refl),
    (
      refl,
      inr (refl, blob-IsStorable, HasPrefix-blob (5 ∷ 6 ∷ []) (omega arith)),
      (refl, inr (refl, refl, refl), (refl, inl (refl, refl), tt)),
    ),
  ),
)

decode_record-encode_record_example :
    (bytes : List ℕ) × (encode_record_by_snapshot codec row columns ≡ ok bytes)
    × ((rest : List ℕ) → decode_record_by_snapshot codec (bytes ++ rest) columns ≡ ok row)
decode_record-encode_record_example = decode_record-encode_record codec columns row row-Fits

row_test :
    encode_record_by_snapshot codec row columns
    ≡ ok (254 ∷ 255 ∷ 1 ∷ 1 ∷ 2 ∷ 0 ∷ 5 ∷ 6 ∷ 9 ∷ 8 ∷ 7 ∷ 0 ∷ [])
unfolding encode_record_by_snapshot encode_non_nullable encode_blob length_prefix
row_test = refl
