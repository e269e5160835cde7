-- ===== src/Memory/Manager.antt =====
-- memory_manager.rs: the memory manager over any provider. Its only field is the provider, so its
-- state is the provider's. Arithmetic is on u64 and usize; where the source cannot overflow no wrap
-- is written, and `expect` and a division by zero are panics.
pub mod Effects
pub mod RoundTrip
pub mod Reads
use wasm_dbms.Prelude.{ℕ, ◌+◌, ◌-◌, ◌*◌, ◌/◌, ◌%◌, List, ◌++◌, Bool, true, ◌&&◌, Option, none, some}
use wasm_dbms.Prelude.{ltb, leb, ◌==◌, if◌then◌else◌, length, take, drop, replicate, min}
use wasm_dbms.Prelude.Result.{ok, err, panic}
use wasm_dbms.Encode.{Page, PageOffset, Encode, DataSize, fixed, dynamic, MemoryError, MemoryResult}
use wasm_dbms.Encode.{u16_mod, u32_mod, u64_mod, segmentation_fault, offset_not_aligned}
use wasm_dbms.Encode.{failed_to_allocate_page}
use wasm_dbms.Memory.Exec.{Exec, pure, raise, lift, gets, ◌>>=◌, ◌>>◌}
use wasm_dbms.Memory.Provider.{MemoryProvider}
use wasm_dbms.Memory.Access.{MemoryAccess}

abbrev pub reserved_pages : ℕ
reserved_pages = 2

-- `offset.div_ceil(alignment) * alignment`
abbrev pub round_up : ℕ → ℕ → ℕ
round_up alignment offset = (offset + alignment - 1) / alignment * alignment

-- `offset` rounded up to a multiple of the alignment; `div_ceil` by zero panics.
unfoldable pub align_up : ℕ → ℕ → MemoryResult ℕ
align_up alignment offset = if alignment == 0 then panic else ok (round_up alignment offset)

-- The bytes that `read_at` asks for.
abbrev pub read_len : ℕ → DataSize → PageOffset → ℕ
read_len page_size (fixed size) offset = size
read_len page_size dynamic offset = page_size - offset

unfoldable pub check_alignment : {D : Type 0} → Encode D → PageOffset → MemoryResult {0} Unit
check_alignment e offset =
    if e.alignment == 0
    then ok tt
    else if offset % e.alignment == 0
    then ok tt
    else err (offset_not_aligned offset e.alignment)

module _ {P : Type 0} (mp : MemoryProvider P) where
  unfoldable pub last_page : P → Option Page
  last_page p =
      if mp.pages p == 0 then none else some ((mp.pages p % u32_mod + u32_mod - 1) % u32_mod)

  -- `last_page().is_none_or(|last_page| page > last_page)`
  unfoldable pub is_unallocated : P → Page → Bool
  unfolding last_page
  is_unallocated p page = elim (last_page p) [ none ↦ true | some last ↦ ltb last page ]

  unfoldable pub init : Exec P (Unit {0})
  init p =
      if leb reserved_pages (mp.pages p)
      then (ok tt, p)
      else (let (grown, p') = mp.grow (reserved_pages - mp.pages p) p in
          elim grown [ ok _ ↦ (ok tt, p') | err _ ↦ (panic, p') | panic ↦ (panic, p') ])

  abbrev pub pages_count : P → ℕ
  pages_count p = mp.pages p

  abbrev pub flush : Exec P (Unit {0})
  flush = mp.flush

  unfoldable pub absolute_offset : Page → PageOffset → MemoryResult ℕ
  absolute_offset page offset =
      if ltb (page * mp.page_size) u64_mod && ltb (page * mp.page_size + offset) u64_mod
      then ok (page * mp.page_size + offset)
      else panic

  -- The answer of a method that refuses an unallocated page.
  abbrev pub check_unallocated_page : Page → PageOffset → ℕ → Exec P (Unit {0})
  check_unallocated_page page offset data_size p =
      if is_unallocated p page
      then (err (segmentation_fault page offset data_size mp.page_size), p)
      else (ok tt, p)

  abbrev unwrap_or : Option Page → Page
  unwrap_or none = 0
  unwrap_or (some page) = page

  abbrev or_failed : Option Page → Exec P Page
  or_failed none = raise failed_to_allocate_page
  or_failed (some page) = pure page

  unfoldable pub grow_one_page : Exec P Page
  grow_one_page = do
    _ ← mp.grow 1
    last ← gets last_page
    start ← lift (absolute_offset (unwrap_or last) 0)
    mp.write start (replicate mp.page_size 0)
    last' ← gets last_page
    or_failed last'

  unfoldable pub zero_page : Page → Exec P (Unit {0})
  zero_page page = do
    check_unallocated_page page 0 mp.page_size
    start ← lift (absolute_offset page 0)
    mp.write start (replicate mp.page_size 0)

  -- A page is at most 64 KiB and the offset a u16, so the source's subtraction does not wrap.
  unfoldable pub read_at_raw : Page → PageOffset → List ℕ → Exec P (ℕ × List ℕ)
  read_at_raw page offset buf = do
    check_unallocated_page page offset (length buf)
    let n = min (mp.page_size - offset) (length buf)
    start ← lift (absolute_offset page offset)
    bytes ← mp.read start n
    pure (n, bytes ++ drop n buf)

  unfoldable pub read_at : (D : Type 0) → Encode D → Page → PageOffset → Exec P D
  read_at D e page offset = do
    lift (check_alignment e offset)
    let len = read_len mp.page_size e.data_size offset
    (n, bytes) ← read_at_raw page offset (replicate len 0)
    if ltb n len
        then raise (segmentation_fault page offset len mp.page_size)
        else lift (e.decode bytes)

  -- The end of every write: the bounds check of `len` bytes, and the provider's write.
  abbrev pub write_within : Page → PageOffset → ℕ → MemoryError → List ℕ → Exec P (Unit {0})
  write_within page offset len too_big buf =
      if ltb mp.page_size (offset + len)
      then raise too_big
      else (do start ← lift (absolute_offset page offset); mp.write start buf)

  -- `provider.write` of the padding, where there is any.
  unfoldable pub write_padding : ℕ → ℕ → Exec P (Unit {0})
  write_padding start padding =
      if ltb 0 padding then mp.write start (replicate padding 0) else pure tt

  unfoldable pub write_at : (D : Type 0) → Encode D → Page → PageOffset → D → Exec P (Unit {0})
  write_at D e page offset a = do
    check_unallocated_page page offset (e.size a)
    lift (check_alignment e offset)
    padded_len ← lift (align_up e.alignment (length (e.encode a)))
    if ltb mp.page_size (offset + padded_len)
        then raise (segmentation_fault page offset padded_len mp.page_size)
        else (do
          start ← lift (absolute_offset page offset)
          mp.write start (e.encode a)
          write_padding (start + length (e.encode a)) (padded_len - length (e.encode a)))

  unfoldable pub write_at_raw : Page → PageOffset → List ℕ → Exec P (Unit {0})
  write_at_raw page offset buf = do
    check_unallocated_page page offset (length buf % u16_mod)
    write_within page offset (length buf) (segmentation_fault page offset (length buf) mp.page_size)
        buf

  unfoldable pub zero : (D : Type 0) → Encode D → Page → PageOffset → D → Exec P (Unit {0})
  zero D e page offset a = do
    check_unallocated_page page offset (e.size a)
    lift (check_alignment e offset)
    len ← lift (align_up e.alignment (e.size a))
    write_within page offset len (segmentation_fault page offset (e.size a) mp.page_size)
        (replicate len 0)

  unfoldable pub zero_raw : Page → PageOffset → PageOffset → Exec P (Unit {0})
  zero_raw page offset len = do
    check_unallocated_page page offset len
    write_within page offset len (segmentation_fault page offset len mp.page_size) (replicate len 0)

  abbrev pub manager_access : MemoryAccess P
  manager_access = record {
    page_size = mp.page_size;
    grow_one_page = grow_one_page;
    zero_page = zero_page;
    read_at = read_at;
    write_at = write_at;
    write_at_raw = write_at_raw;
    zero = zero;
    zero_raw = zero_raw;
    read_at_raw = read_at_raw;
  }
