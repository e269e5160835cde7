-- ===== src/Segments/Ledger.antt =====
-- free_segments_ledger.rs, pages_table.rs and tables_iter.rs: the tables of free segments of a table of
-- records, on pages of their own. A method works on the ledger and on the state behind `mm`.
pub mod Search
pub mod Stored
use wasm_dbms.Prelude.{
  ℕ, zero, suc, ◌+◌, ◌-◌, ◌*◌, ◌%◌, List, [], ◌∷◌, ◌++◌, Bool, true, false, Option, none, some,
}
use wasm_dbms.Prelude.{ltb, leb, ◌==◌, if◌then◌else◌, length, take}
use wasm_dbms.Prelude.Slices.{slice}
use wasm_dbms.Prelude.Bytes.{to_le_bytes, from_le_bytes}
use wasm_dbms.Prelude.Result
use wasm_dbms.Prelude.Result.{ok, err, panic}
use wasm_dbms.Encode.{
  Page, PageOffset, MSize, MemoryResult, Encode, dynamic, u16_mod, default_alignment, out_of_bounds,
}
use wasm_dbms.Memory.Exec.{Exec, pure, raise, lift, ◌>>=◌, ◌>>◌}
use wasm_dbms.Memory.Access.{MemoryAccess, claim_page, unclaim_page}
use wasm_dbms.Memory.Manager.{align_up}
use wasm_dbms.Registry.Sized.{read_sized}
use wasm_dbms.Registry.Record.{FreeSegmentTicket}
use wasm_dbms.Segments.Table
use wasm_dbms.Segments.Table.{FreeSegment, FreeSegmentsTable, is_full, find}

unfoldable pub encode_pages : List Page → List ℕ
encode_pages [] = []
encode_pages (p ∷ pages) = to_le_bytes 4 p ++ encode_pages pages

unfoldable pub encode_table : List Page → List ℕ
unfolding encode_pages
encode_table pages = to_le_bytes 2 (length pages % u16_mod) ++ encode_pages pages

-- The loop of `decode`, with the number of pages left and the bytes from `offset` on; a slice out of
-- range panics.
unfoldable pub decode_pages : ℕ → List ℕ → MemoryResult (List Page)
decode_pages zero bytes = ok []
decode_pages (suc n) bytes =
    let rest = decode_pages n (slice 4 (length bytes - 4) bytes) in
    if ltb (length bytes) 4
    then panic
    else Result.◌>>=◌ rest λ pages. ok (from_le_bytes (slice 0 4 bytes) ∷ pages)

unfoldable pub decode_table : List ℕ → MemoryResult (List Page)
unfolding decode_pages
decode_table bytes =
    if ltb (length bytes) 2
    then panic
    else decode_pages (from_le_bytes (slice 0 2 bytes)) (slice 2 (length bytes - 2) bytes)

unfoldable pub table_size : List Page → MSize
table_size pages = (2 + length pages * 4) % u16_mod

unfoldable pub encoded_len : List ℕ → Option ℕ
encoded_len prefix =
    if ltb (length prefix) 2 then none else some (2 + from_le_bytes (take 2 prefix) * 4)

abbrev pub pages_encode : Encode (List Page)
pages_encode = record {
  data_size = dynamic;
  alignment = default_alignment;
  encode = encode_table;
  decode = decode_table;
  size = table_size;
}

pub record FreeSegmentsLedger : Type 0 where
  pub free_segments_page : Page
  pub tables : List Page

unfoldable pub releasable_pages_count : FreeSegmentsLedger → ℕ
releasable_pages_count l = length l.tables + 1

module _ {S : Type 0} (mm : MemoryAccess S) where
  unfoldable pub load : Page → Exec S FreeSegmentsLedger
  unfolding read_sized encoded_len
  load page = do
    tables ← read_sized mm pages_encode page encoded_len
    pure (record { free_segments_page = page; tables = tables })

  -- `iter().find(..)` over the tables, each loaded when it is reached.
  unfoldable pub find_table :
      (FreeSegmentsTable → Bool) → List Page → Exec S (Option FreeSegmentsTable)
  unfolding Table.load
  find_table test [] = pure none
  find_table test (page ∷ pages) = do
    table ← Table.load mm page
    if test table then pure (some table) else find_table test pages

  -- The first segment of the tables that passes the test, with its table.
  unfoldable pub find_segment : (FreeSegment → Bool) → List Page → Exec S (Option FreeSegmentTicket)
  unfolding Table.load find
  find_segment test [] = pure none
  find_segment test (page ∷ pages) = do
    table ← Table.load mm page
    elim (find test table.records) [
      | some segment ↦ pure (some (record { segment = segment; table = table.page }))
      | none ↦ find_segment test pages
    ]

  abbrev pub Method : Type 0 → Type 0
  Method A = Exec (FreeSegmentsLedger × S) A

  abbrev pub on_mm : {A : Type 0} → Exec S A → Method A
  on_mm m (l, s) = let (r, s') = m s in (r, (l, s'))

  -- A method of a table, which is then dropped.
  abbrev pub on_table : Table.Method mm → FreeSegmentsTable → Exec S (Unit {0})
  on_table m table s = let (r, (table', s')) = m (table, s) in (r, s')

  unfoldable pub commit : Method (Unit {0})
  commit (l, s) =
      on_mm (mm.write_at (List Page) pages_encode l.free_segments_page 0 l.tables) (l, s)

  abbrev pub push_table : Page → Method (Unit {0})
  push_table page (l, s) = (ok tt, (record l { tables = l.tables ++ (page ∷ []) }, s))

  unfoldable pub create_new_page : Method Page
  unfolding claim_page commit
  create_new_page = do
    new_page ← on_mm (claim_page mm)
    push_table new_page
    commit >> pure new_page

  abbrev pub has_room : FreeSegmentsTable → Bool
  unfolding is_full
  has_room table = if is_full table then false else true

  abbrev pub insert_into : Page → PageOffset → MSize → FreeSegmentsTable → Exec S (Unit {0})
  unfolding Table.insert_free_segment
  insert_into page offset size table =
      on_table (Table.insert_free_segment mm (length table.records + 1) page offset size) table

  unfoldable pub insert_free_segment_raw : Page → PageOffset → MSize → Method (Unit {0})
  unfolding find_table create_new_page insert_into has_room Table.load
  insert_free_segment_raw page offset size (l, s) =
      (on_mm (find_table has_room l.tables) >>= λ found. elim found [
        | some table ↦ on_mm (insert_into page offset size table)
        | none ↦ create_new_page >>= λ new_page.
            on_mm (Table.load mm new_page >>= insert_into page offset size)
      ])
        (l, s)

  unfoldable pub insert_free_segment :
      {E : Type 0} → Encode E → Page → PageOffset → E → Method (Unit {0})
  unfolding insert_free_segment_raw
  insert_free_segment e page offset a = do
    physical_size ← lift (align_up e.alignment (e.size a))
    insert_free_segment_raw page offset (physical_size % u16_mod)

  unfoldable pub find_reusable_segment_raw :
      MSize → FreeSegmentsLedger → Exec S (Option FreeSegmentTicket)
  unfolding find_segment
  find_reusable_segment_raw required_size l = find_segment (λ r. leb required_size r.size) l.tables

  unfoldable pub find_reusable_segment :
      {E : Type 0} → Encode E → E → FreeSegmentsLedger → Exec S (Option FreeSegmentTicket)
  unfolding find_reusable_segment_raw
  find_reusable_segment e a l = find_reusable_segment_raw (e.size a) l

  unfoldable pub commit_reused_space_raw :
      MSize → FreeSegmentTicket → FreeSegmentsLedger → Exec S (Unit {0})
  unfolding find_table Table.remove
  commit_reused_space_raw physical_size ticket l = do
    found ← find_table (λ t. t.page == ticket.table) l.tables
    elim found [
      | none ↦ raise out_of_bounds
      | some table ↦ on_table (Table.remove mm ticket.segment physical_size) table
    ]

  unfoldable pub commit_reused_space :
      {E : Type 0} → Encode E → E → FreeSegmentTicket → FreeSegmentsLedger → Exec S (Unit {0})
  unfolding commit_reused_space_raw
  commit_reused_space e a ticket l = do
    physical_size ← lift (align_up e.alignment (e.size a))
    commit_reused_space_raw (physical_size % u16_mod) ticket l

  unfoldable pub release_all : List Page → Exec S (Unit {0})
  unfolding unclaim_page
  release_all [] = pure tt
  release_all (page ∷ pages) = unclaim_page mm page >> release_all pages

  unfoldable pub release_pages : FreeSegmentsLedger → Exec S (Unit {0})
  unfolding release_all unclaim_page
  release_pages l = release_all l.tables >> unclaim_page mm l.free_segments_page
