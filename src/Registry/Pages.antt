-- ===== src/Registry/Pages.antt =====
-- table_registry/page_ledger.rs and page_ledger/page_table.rs: the pages of a table's records, each
-- with the bytes that are free at its end. A method works on the ledger and on the state behind `mm`.
pub mod Stored
pub mod Space
pub mod Walk
use wasm_dbms.Prelude.{
  ℕ, zero, suc, ◌+◌, ◌-◌, ◌*◌, ◌/◌, ◌%◌, List, [], ◌∷◌, ◌++◌, Bool, true, false, Option, none, some,
}
use wasm_dbms.Prelude.{ltb, leb, ◌==◌, if◌then◌else◌, length, get_elem?, take}
use wasm_dbms.Prelude.Names.{find}
use wasm_dbms.Prelude.Slices.{slice}
use wasm_dbms.Prelude.Bytes.{to_le_bytes, from_le_bytes}
use wasm_dbms.Prelude.Result
use wasm_dbms.Prelude.Result.{ok, err, panic}
use wasm_dbms.Encode.{
  Page, PageOffset, MSize, MemoryResult, Encode, dynamic, u16_mod, u32_mod, default_alignment,
}
use wasm_dbms.Encode.{data_too_large, out_of_bounds}
use wasm_dbms.Memory.Exec.{Exec, pure, raise, lift, ◌>>=◌, ◌>>◌}
use wasm_dbms.Memory.Access.{MemoryAccess, claim_page, unclaim_page}
use wasm_dbms.Memory.Manager.{align_up}
use wasm_dbms.Registry.Sized.{read_sized}

pub record PageRecord : Type 0 where
  pub page : Page
  pub free : ℕ

unfoldable pub encode_record : PageRecord → List ℕ
encode_record r = to_le_bytes 4 r.page ++ to_le_bytes 8 r.free

-- A slice out of range panics.
unfoldable pub decode_record : List ℕ → MemoryResult PageRecord
decode_record bytes =
    if ltb (length bytes) 12
    then panic
    else ok
        (record { page = from_le_bytes (slice 0 4 bytes); free = from_le_bytes (slice 4 8 bytes) })

unfoldable pub encode_records : List PageRecord → List ℕ
unfolding encode_record
encode_records [] = []
encode_records (r ∷ pages) = encode_record r ++ encode_records pages

unfoldable pub encode_table : List PageRecord → List ℕ
unfolding encode_records
encode_table pages = to_le_bytes 4 (length pages % u32_mod) ++ encode_records pages

-- The loop of `decode`, with the number of records left and the bytes from `start` on.
unfoldable pub decode_records : ℕ → List ℕ → MemoryResult (List PageRecord)
unfolding decode_record
decode_records zero bytes = ok []
decode_records (suc n) bytes =
    let rest = decode_records n (slice 12 (length bytes - 12) bytes) in
    Result.◌>>=◌ (decode_record (slice 0 12 bytes)) λ r. Result.◌>>=◌ rest λ pages. ok (r ∷ pages)

unfoldable pub decode_table : List ℕ → MemoryResult (List PageRecord)
unfolding decode_records
decode_table bytes =
    if ltb (length bytes) 4
    then panic
    else decode_records (from_le_bytes (slice 0 4 bytes)) (slice 4 (length bytes - 4) bytes)

-- The size in u16 arithmetic, which wraps.
unfoldable pub table_size : List PageRecord → MSize
table_size pages = (4 + length pages % u16_mod * 12) % u16_mod

unfoldable pub encoded_len : List ℕ → Option ℕ
encoded_len prefix =
    if ltb (length prefix) 4 then none else some (4 + from_le_bytes (take 4 prefix) * 12)

abbrev pub table_encode : Encode (List PageRecord)
table_encode = record {
  data_size = dynamic;
  alignment = default_alignment;
  encode = encode_table;
  decode = decode_table;
  size = table_size;
}

pub record PageLedger : Type 0 where
  pub ledger_page : Page
  pub pages : List PageRecord

unfoldable pub align_up_u64 : ℕ → ℕ → ℕ
align_up_u64 offset alignment =
    if alignment == 0
    then offset
    else if offset % alignment == 0
    then offset
    else offset + (alignment - offset % alignment)

abbrev pub is_page : Page → PageRecord → Bool
is_page page r = r.page == page

-- `iter_mut().find(..)`: the first record of the page, with other free space.
abbrev pub set_free : Page → ℕ → List PageRecord → List PageRecord
set_free page free [] = []
set_free page free (r ∷ pages) =
    if is_page page r then record r { free = free } ∷ pages else r ∷ set_free page free pages

-- `iter().position(..)`
unfoldable pub position : Page → List PageRecord → Option ℕ
position page [] = none
position page (r ∷ pages) =
    let later = position page pages in
    if is_page page r then some 0 else (elim later [ none ↦ none | some i ↦ some (suc i) ])

unfoldable pub next_page_after : Page → List PageRecord → Option Page
unfolding position
next_page_after current pages = elim (position current pages) [
  | none ↦ none
  | some index ↦ elim (get_elem? pages (index + 1)) [ none ↦ none | some r ↦ some r.page ]
]

unfoldable pub releasable_pages_count : PageLedger → ℕ
releasable_pages_count l = length l.pages + 1

module _ {S : Type 0} (mm : MemoryAccess S) where
  abbrev pub Method : Type 0 → Type 0
  Method A = Exec (PageLedger × S) A

  abbrev pub on_mm : {A : Type 0} → Exec S A → Method A
  on_mm m (l, s) = let (r, s') = m s in (r, (l, s'))

  abbrev pub set_pages : List PageRecord → Method (Unit {0})
  set_pages pages (l, s) = (ok tt, (record l { pages = pages }, s))

  unfoldable pub load : Page → Exec S PageLedger
  unfolding read_sized encoded_len
  load page = do
    pages ← read_sized mm table_encode page encoded_len
    pure (record { ledger_page = page; pages = pages })

  unfoldable pub write : Method (Unit {0})
  write (l, s) = on_mm (mm.write_at (List PageRecord) table_encode l.ledger_page 0 l.pages) (l, s)

  -- A new page, behind the others, with all its space free.
  unfoldable pub add_page : Method (Page × PageOffset)
  unfolding claim_page
  add_page (l, s) =
      (on_mm (claim_page mm) >>= λ new_page.
      set_pages (l.pages ++ (record { page = new_page; free = mm.page_size } ∷ []))
      >> pure (new_page, 0))
        (l, s)

  -- The bytes taken at the front of a page.
  abbrev pub taken : PageRecord → ℕ
  taken r = mm.page_size - r.free

  abbrev pub place_record : ℕ → Method (Page × PageOffset)
  unfolding add_page
  place_record required_size (l, s) =
      if ltb mm.page_size required_size
      then (err (data_too_large mm.page_size required_size), (l, s))
      else (elim (find (λ r. leb (taken r + required_size) mm.page_size) l.pages) [
        | some r ↦ (ok (r.page, taken r % u16_mod), (l, s))
        | none ↦ add_page (l, s)
      ])

  unfoldable pub get_page_and_offset_for_record :
      {R : Type 0} → Encode R → R → Method (Page × PageOffset)
  unfolding place_record
  get_page_and_offset_for_record e a =
      lift (align_up e.alignment (e.size a)) >>= λ required_size. place_record required_size

  abbrev pub take_space : Page → ℕ → Method (Unit {0})
  unfolding write
  take_space page free (l, s) = (set_pages (set_free page free l.pages) >> write) (l, s)

  unfoldable pub commit : {R : Type 0} → Page → Encode R → R → Method (Unit {0})
  unfolding take_space
  commit page e a (l, s) = elim (find (is_page page) l.pages) [
    | none ↦ (err out_of_bounds, (l, s))
    | some r ↦
        if ltb r.free (e.size a)
        then (err (data_too_large r.free (e.size a)), (l, s))
        else (lift (align_up e.alignment (e.size a)) >>= λ padding.
              take_space page (r.free - (e.size a + (padding - e.size a))))
            (l, s)
  ]

  unfoldable pub get_page_and_offset_raw : ℕ → PageOffset → Method (Page × PageOffset)
  unfolding align_up_u64 add_page
  get_page_and_offset_raw physical_size alignment (l, s) =
      if ltb mm.page_size physical_size
      then (err (data_too_large mm.page_size physical_size), (l, s))
      else (elim (find (λ r. leb (align_up_u64 (taken r) alignment + physical_size) mm.page_size)
          l.pages) [
            | some r ↦ (ok (r.page, align_up_u64 (taken r) alignment % u16_mod), (l, s))
            | none ↦ add_page (l, s)
          ])

  -- `div_ceil(alignment) * alignment`, or the size itself.
  abbrev pub padded_size : ℕ → PageOffset → ℕ
  padded_size size alignment =
      if alignment == 0 then size else (size + alignment - 1) / alignment * alignment

  unfoldable pub commit_raw : Page → ℕ → PageOffset → Method (Unit {0})
  unfolding take_space align_up_u64
  commit_raw page record_size alignment (l, s) = elim (find (is_page page) l.pages) [
    | none ↦ (err out_of_bounds, (l, s))
    | some r ↦
        let consumed =
          align_up_u64 (taken r) alignment - taken r + padded_size record_size alignment in
        if ltb r.free consumed
        then (err (data_too_large r.free consumed), (l, s))
        else take_space page (r.free - consumed) (l, s)
  ]

  unfoldable pub release_all : List PageRecord → Exec S (Unit {0})
  unfolding unclaim_page
  release_all [] = pure tt
  release_all (r ∷ pages) = unclaim_page mm r.page >> release_all pages

  unfoldable pub release_pages : PageLedger → Exec S (Unit {0})
  unfolding release_all unclaim_page
  release_pages l = release_all l.pages >> unclaim_page mm l.ledger_page
