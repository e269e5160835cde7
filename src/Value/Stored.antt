-- ===== src/Value/Stored.antt =====
-- wasm-dbms-api/src/dbms/types/boolean.rs and blob.rs: how booleans and blobs are stored.
use mathlib.Core.List.{append-nil}
use wasm_dbms.Prelude.{
  ℕ, suc, ◌+◌, ◌<◌, ◌≡◌, refl, sym, ap, ◌∙◌, arith, List, [], ◌∷◌, ◌++◌, Bool, true, false, not,
  ◌==◌, ltb, if◌then◌else◌, length, length-append, take, take-append,
}
use wasm_dbms.Prelude.Slices.{slice}
use wasm_dbms.Prelude.Bytes.{to_le_bytes, from_le_bytes, from_le_bytes-to_le_bytes}
use wasm_dbms.Prelude.Result.{ok, err}
use wasm_dbms.Migration.Wire.Sound.{HasPrefix}
use wasm_dbms.Encode.{
  Encode, IsStorable, MemoryResult, fixed, dynamic, default_alignment, saturating_size,
  length_prefix, decode_error, too_short,
}

abbrev pub encode_boolean : Bool → List ℕ
encode_boolean true = 1 ∷ []
encode_boolean false = 0 ∷ []

abbrev pub decode_boolean : List ℕ → MemoryResult Bool
decode_boolean [] = err (decode_error too_short)
decode_boolean (b ∷ bytes) = ok (not (b == 0))

abbrev pub boolean_encode : Encode Bool
boolean_encode = record {
  data_size = fixed 1;
  alignment = 1;
  encode = encode_boolean;
  decode = decode_boolean;
  size = λ b. 1;
}

-- A boolean is stored in one byte and read back.
pub IsStorable-boolean : (b : Bool) → IsStorable boolean_encode b
IsStorable-boolean true = record {
  alignment_pos = omega arith;
  length-encode = refl;
  fixed_size = λ n e. cc;
  decode-encode = refl;
  decode-append = λ e rest. cc;
}
IsStorable-boolean false = record {
  alignment_pos = omega arith;
  length-encode = refl;
  fixed_size = λ n e. cc;
  decode-encode = refl;
  decode-append = λ e rest. cc;
}

unfoldable pub encode_blob : List ℕ → List ℕ
unfolding length_prefix
encode_blob b = length_prefix (length b) ++ b

unfoldable pub decode_blob : List ℕ → MemoryResult (List ℕ)
decode_blob bytes =
    let buf_len = from_le_bytes (take 2 bytes) in
    if ltb (length bytes) 2
    then err (decode_error too_short)
    else if ltb (length bytes) (2 + buf_len)
    then err (decode_error too_short)
    else ok (slice 2 buf_len bytes)

abbrev pub blob_encode : Encode (List ℕ)
blob_encode = record {
  data_size = dynamic;
  alignment = default_alignment;
  encode = encode_blob;
  decode = decode_blob;
  size = λ b. saturating_size 2 (length b);
}

encode_blob_lem : (b : List ℕ) → length b < 65534 → encode_blob b ≡ to_le_bytes 2 (length b) ++ b
unfolding encode_blob length_prefix
encode_blob_lem b h = let small : ltb (length b) 65536 ≡ true = ground arith in rw small refl

decode_blob-encode_blob :
    (b rest : List ℕ) → length b < 65534 → decode_blob (encode_blob b ++ rest) ≡ ok b
unfolding decode_blob
decode_blob-encode_blob b rest h =
    let value : from_le_bytes (to_le_bytes 2 (length b)) ≡ length b =
      from_le_bytes-to_le_bytes 2 (length b) (omega (arith, h)) in
    let long : ltb (2 + length (b ++ rest)) 2 ≡ false = ground arith in
    let all : ltb (2 + length (b ++ rest)) (2 + length b) ≡ false =
      ground (arith, length-append b rest) in
    let shift : (n : ℕ) → suc (suc n) ≡ 2 + n = λ n. omega arith in
    rw (encode_blob_lem b h, value, shift (length (b ++ rest)), long, all, take-append b rest) refl

length-encode_blob : (b : List ℕ) → length b < 65534 → length (encode_blob b) ≡ 2 + length b
length-encode_blob b h = rw (encode_blob_lem b h) (omega arith)

-- A blob of at most 65533 bytes is stored with its length before it, and read back with whatever
-- follows it.
pub IsStorable-blob : (b : List ℕ) → length b < 65534 → IsStorable blob_encode b
unfolding saturating_size
IsStorable-blob b h = record {
  alignment_pos = omega arith;
  length-encode = ground (arith, length-encode_blob b h);
  fixed_size = λ n e. cc;
  decode-encode =
      ap decode_blob (sym (append-nil (encode_blob b))) ∙ decode_blob-encode_blob b [] h;
  decode-append = λ e rest. decode_blob-encode_blob b rest h;
}

-- The first two bytes of a stored blob are the length of what follows.
pub HasPrefix-blob : (b : List ℕ) → length b < 65534 → HasPrefix (encode_blob b)
HasPrefix-blob b h =
    let value : from_le_bytes (to_le_bytes 2 (length b)) ≡ length b =
      from_le_bytes-to_le_bytes 2 (length b) (omega (arith, h)) in
    rw (encode_blob_lem b h) (omega arith, omega (arith, value))
