-- ===== src/Examples/Segments.antt =====
-- A table of free segments on a heap of two pages: the new segment is merged with both neighbours.
use wasm_dbms.Prelude.{ℕ, [], ◌∷◌, ◌≡◌, refl, arith, ◌+◌}
use wasm_dbms.Prelude.Result.{ok}
use wasm_dbms.Encode.{Page}
use wasm_dbms.Memory.Manager.{manager_access}
use wasm_dbms.Segments.Table.{
  FreeSegmentsTable, insert_free_segment, remove, position, is_full, max_segments,
}
use wasm_dbms.Segments.Space.{total, excess, times_free, covers}
use wasm_dbms.Segments.Merge.{segment}
use wasm_dbms.Segments.Accounting.{Inserted, insert_free_segment_lem, remove-times_free}
use wasm_dbms.Segments.Stored.{Allocated, Accepts-manager, insert_free_segment-manager}
use wasm_dbms.Examples.Heap.{small, small_IsProvider, two_pages, two_pages-HasRoom}

abbrev table : FreeSegmentsTable
table = record {
  max_records = 7;
  records = segment 5 0 32 ∷ segment 5 64 32 ∷ segment 6 0 64 ∷ [];
  page = 1;
}

insert_free_segment_lem_example :
    Inserted
      (manager_access small)
      (Allocated small_IsProvider 1 1)
      (table, two_pages)
      (segment 5 32 32)
      (insert_free_segment (manager_access small) 4 5 32 32 (table, two_pages))
unfolding is_full max_segments
insert_free_segment_lem_example =
    insert_free_segment_lem (manager_access small) (Allocated small_IsProvider 1 1) 4 5 32 32 table
      two_pages (omega arith) (Accepts-manager small_IsProvider 1 table refl (omega arith)) refl
      refl (omega arith) (two_pages-HasRoom, omega arith)

insert_free_segment-manager_example :
    Inserted
      (manager_access small)
      (Allocated small_IsProvider 1 1)
      (table, two_pages)
      (segment 5 32 32)
      (insert_free_segment (manager_access small) 4 5 32 32 (table, two_pages))
unfolding is_full max_segments
insert_free_segment-manager_example =
    insert_free_segment-manager small_IsProvider 1 5 32 32 table two_pages refl (omega arith) refl
      refl (omega arith) two_pages-HasRoom (omega arith)

remove-times_free_example :
    let r = remove (manager_access small) (segment 6 0 64) 32 (table, two_pages) in
    (r.0 ≡ ok tt)
    × Allocated small_IsProvider 1 1 r.1.1
    × (total excess r.1.0.records ≡ 0)
    × ((p : Page) (b : ℕ)
        → times_free p b r.1.0.records + covers p b (segment 6 0 32) ≡ times_free p b table.records)
unfolding position max_segments
remove-times_free_example =
    remove-times_free (manager_access small) (Allocated small_IsProvider 1 1) (segment 6 0 64) 32
      table two_pages 2 (Accepts-manager small_IsProvider 1 table refl (omega arith)) refl
      (omega arith) refl (two_pages-HasRoom, omega arith)
