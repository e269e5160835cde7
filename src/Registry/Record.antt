-- ===== src/Registry/Record.antt =====
-- table_registry/raw_record.rs, record_address.rs and write_at.rs: a record with its length in front
-- of it, and where a record lies.
use mathlib.Core.List.{append-nil}
use wasm_dbms.Prelude.{
  ℕ, suc, ◌+◌, ◌<◌, ◌≡◌, refl, sym, ap, ◌∙◌, arith, ltb, le→ltb, if◌then◌else◌, min,
}
use wasm_dbms.Prelude.{List, [], ◌++◌, length, length-append, take, take-append}
use wasm_dbms.Prelude.Bytes.{to_le_bytes, from_le_bytes, from_le_bytes-to_le_bytes}
use wasm_dbms.Prelude.Slices.{slice}
use wasm_dbms.Prelude.Result.{ok, err, ◌>>=◌}
use wasm_dbms.Encode.{
  Page, PageOffset, MSize, MemoryResult, Encode, DataSize, fixed, dynamic, IsStorable,
}
use wasm_dbms.Encode.{u16_mod, u32_mod, msize_max, decode_error, too_short}
use wasm_dbms.Segments.Table.{FreeSegment}

abbrev pub raw_record_header_size : MSize
raw_record_header_size = 2

pub record RawRecord (E : Type 0) : Type 0 where
  pub length : MSize
  pub content : E

abbrev pub raw_size : DataSize → DataSize
raw_size (fixed size) = fixed (raw_record_header_size + size)
raw_size dynamic = dynamic

abbrev pub raw_alignment : DataSize → PageOffset → PageOffset
raw_alignment (fixed size) alignment = size + raw_record_header_size
raw_alignment dynamic alignment = alignment

module _ {E : Type 0} (e : Encode E) where
  unfoldable pub new : E → RawRecord E
  new content = record { length = e.size content; content = content }

  unfoldable pub encode_raw : RawRecord E → List ℕ
  encode_raw r = to_le_bytes 2 r.length ++ e.encode r.content

  unfoldable pub decode_raw : List ℕ → MemoryResult (RawRecord E)
  decode_raw bytes =
      let len = from_le_bytes (take 2 bytes) in
      if ltb (length bytes) 2
      then err (decode_error too_short)
      else if ltb (length bytes) (raw_record_header_size + len)
      then err (decode_error too_short)
      else e.decode (slice 2 len bytes) >>= λ content.
          ok (record { length = len; content = content })

  abbrev pub raw_encode : Encode (RawRecord E)
  raw_encode = record {
    data_size = raw_size e.data_size;
    alignment = raw_alignment e.data_size e.alignment;
    encode = encode_raw;
    decode = decode_raw;
    size = λ r. min (raw_record_header_size + r.length) msize_max;
  }

pub record RecordAddress : Type 0 where
  pub page : Page
  pub offset : PageOffset

unfoldable pub encode_address : RecordAddress → List ℕ
encode_address a = to_le_bytes 4 a.page ++ to_le_bytes 2 a.offset

unfoldable pub decode_address : List ℕ → MemoryResult RecordAddress
decode_address bytes =
    if ltb (length bytes) 6
    then err (decode_error too_short)
    else ok (record {
      page = from_le_bytes (slice 0 4 bytes);
      offset = from_le_bytes (slice 4 2 bytes);
    })

abbrev pub address_encode : Encode RecordAddress
address_encode = record {
  data_size = fixed 6;
  alignment = 6;
  encode = encode_address;
  decode = decode_address;
  size = λ a. 6;
}

-- `FreeSegmentTicket`
pub record FreeSegmentTicket : Type 0 where
  pub segment : FreeSegment
  pub table : Page

pub data WriteAt : Type 0 where
  reused_segment : FreeSegmentTicket → WriteAt
  end : Page → PageOffset → WriteAt

unfoldable pub page : WriteAt → Page
page (reused_segment ticket) = ticket.segment.page
page (end p offset) = p

unfoldable pub offset : WriteAt → PageOffset
offset (reused_segment ticket) = ticket.segment.offset
offset (end p o) = o

decode_raw-append :
    {E : Type 0} (e : Encode E) (content : E) (rest : List ℕ)
    → IsStorable e content
    → e.size content + raw_record_header_size < u16_mod
    → decode_raw e (encode_raw e (new e content) ++ rest) ≡ ok (new e content)
unfolding decode_raw encode_raw new
decode_raw-append e content rest h small =
    let n = e.size content in
    let count : from_le_bytes (to_le_bytes 2 n) ≡ n = from_le_bytes-to_le_bytes 2 n (omega arith) in
    let tail = e.encode content ++ rest in
    let front : take n tail ≡ e.encode content =
      rw⁻¹ h.length-encode (take-append (e.encode content) rest) in
    rw
      (
        le→ltb (suc (suc (length tail))) 2 (omega arith),
        count,
        le→ltb (suc (suc (length tail))) (2 + n)
            (omega (arith, length-append (e.encode content) rest, h.length-encode)),
        front,
        h.decode-encode,
      )
      refl

raw_alignment_pos : (d : DataSize) (a : PageOffset) → 0 < a → 0 < raw_alignment d a
raw_alignment_pos (fixed size) a h = omega arith
raw_alignment_pos dynamic a h = h

raw_size-fixed :
    (d : DataSize) (n : MSize) → raw_size d ≡ fixed n → (m : MSize) × (d ≡ fixed m) × (n ≡ 2 + m)
raw_size-fixed (fixed size) n h =
    let same : raw_record_header_size + size ≡ n = cc in (size, refl, omega arith)
raw_size-fixed dynamic n h = cc

-- A raw record of a value that is written and read back is itself written and read back, with whatever
-- follows it, when its size with the header is in the range of a u16.
pub IsStorable-raw :
    {E : Type 0} (e : Encode E) (content : E)
    → IsStorable e content
    → e.size content + raw_record_header_size < u16_mod
    → IsStorable (raw_encode e) (new e content)
unfolding new encode_raw
IsStorable-raw e content h small = record {
  alignment_pos = raw_alignment_pos e.data_size e.alignment h.alignment_pos;
  length-encode = omega (arith, h.length-encode, small);
  fixed_size = λ n f.
      let (m, is_fixed, total) = raw_size-fixed e.data_size n f in
      omega (arith, h.fixed_size m is_fixed, total, small);
  decode-encode =
      ap (decode_raw e) (sym (append-nil (encode_raw e (new e content))))
      ∙ decode_raw-append e content [] h small;
  decode-append = λ _ rest. decode_raw-append e content rest h small;
}

-- An address in range is written with six bytes and is read back.
pub IsStorable-address :
    (a : RecordAddress) → a.page < u32_mod → a.offset < u16_mod → IsStorable address_encode a
unfolding encode_address decode_address
IsStorable-address a page offset = record {
  alignment_pos = omega arith;
  length-encode = refl;
  fixed_size = λ n e. cc;
  decode-encode =
      cc (from_le_bytes-to_le_bytes 4 a.page page, from_le_bytes-to_le_bytes 2 a.offset offset);
  decode-append = λ e. cc;
}
