-- ===== src/Encode.antt =====
-- crates/wasm-dbms/wasm-dbms-api/src/memory.rs and memory/: page numbers, the memory errors and the
-- trait by which data types are stored.
use wasm_dbms.Prelude.{ℕ, ◌+◌, ◌^◌, ◌<◌, ◌≡◌, String, List, ◌++◌, Option, none, some, ltb}
use wasm_dbms.Prelude.{if◌then◌else◌, length, min}
use wasm_dbms.Prelude.Bytes.{to_le_bytes}
use wasm_dbms.Prelude.Result.{Result, ok}

-- `Page` is a u32, `PageOffset` and `MSize` are a u16.
abbrev pub Page : Type 0
Page = ℕ

abbrev pub PageOffset : Type 0
PageOffset = ℕ

abbrev pub MSize : Type 0
MSize = ℕ

abbrev pub u16_mod : ℕ
u16_mod = 2 ^ 16

abbrev pub u32_mod : ℕ
u32_mod = 2 ^ 32

abbrev pub u64_mod : ℕ
u64_mod = 2 ^ 64

-- `MSize::MAX`
abbrev pub msize_max : ℕ
msize_max = 65535

pub data DecodeError : Type 0 where
  bad_raw_record_header : DecodeError
  invalid_json : String → DecodeError
  identity_decode_error : String → DecodeError
  try_from_slice_error : String → DecodeError
  utf8_error : String → DecodeError
  too_short : DecodeError
  invalid_discriminant : ℕ → DecodeError
  uuid_error : String → DecodeError

-- The fields stand in the source's order.
pub data MemoryError : Type 0 where
  autoincrement_overflow : String → MemoryError
  constraint_violation : String → MemoryError
  data_too_large : (page_size requested : ℕ) → MemoryError
  decode_error : DecodeError → MemoryError
  failed_to_allocate_page : MemoryError
  unclaimed_pages_full : (capacity : ℕ) → MemoryError
  index_not_found : List String → MemoryError
  name_collision : (candidate existing : String) → MemoryError
  entry_not_found : MemoryError
  key_too_large : (size max : ℕ) → MemoryError
  offset_not_aligned : (offset alignment : ℕ) → MemoryError
  out_of_bounds : MemoryError
  segmentation_fault : (page offset data_size page_size : ℕ) → MemoryError
  provider_error : String → MemoryError

abbrev pub MemoryResult {ℓ} : Type ℓ → Type ℓ
MemoryResult A = Result MemoryError A

pub data DataSize : Type 0 where
  fixed : MSize → DataSize
  dynamic : DataSize

unfoldable pub get_fixed_size : DataSize → Option MSize
get_fixed_size (fixed size) = some size
get_fixed_size dynamic = none

abbrev pub default_alignment : ℕ
default_alignment = 32

-- The trait `Encode`; `data_size` is its constant `SIZE`.
pub record Encode (A : Type 0) : Type 0 where
  pub data_size : DataSize
  pub alignment : PageOffset
  pub encode : A → List ℕ
  pub decode : List ℕ → MemoryResult A
  pub size : A → MSize

-- What the trait's documentation asks of an implementation, at a value that fits a page.
pub record IsStorable {A : Type 0} (e : Encode A) (a : A) : Type 0 where
  pub alignment_pos : 0 < e.alignment
  pub length-encode : length (e.encode a) ≡ e.size a
  pub fixed_size : (n : MSize) → e.data_size ≡ fixed n → e.size a ≡ n
  pub decode-encode : e.decode (e.encode a) ≡ ok a
  -- A dynamic value is read with all that follows it on its page.
  pub decode-append : e.data_size ≡ dynamic → (rest : List ℕ) → e.decode (e.encode a ++ rest) ≡ ok a

-- A payload's encoded size behind a header, saturating at `MSize::MAX`.
unfoldable pub saturating_size : MSize → ℕ → MSize
saturating_size header payload_len =
    if ltb payload_len u16_mod then min (header + payload_len) msize_max else msize_max

unfoldable pub length_prefix : ℕ → List ℕ
length_prefix len = to_le_bytes 2 (if ltb len u16_mod then len else msize_max)
