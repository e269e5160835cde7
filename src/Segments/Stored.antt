-- ===== src/Segments/Stored.antt =====
-- Tables of free segments in the pages of a memory manager.
use wasm_dbms.Prelude.{ℕ, ◌+◌, ◌*◌, ◌%◌, ◌≤◌, ◌<◌, ◌≡◌, refl, ap, arith}
use wasm_dbms.Prelude.{List, [], ◌∷◌, length, false}
use wasm_dbms.Encode.{Page, PageOffset, MSize, msize_max}
use wasm_dbms.Memory.Provider.{MemoryProvider, IsProvider}
use wasm_dbms.Memory.Manager.{manager_access, check_alignment, round_up}
use wasm_dbms.Memory.Manager.Effects.{HasRoom, HasRoom-same, write_at_lem}
use wasm_dbms.Prelude.Slices.{length-splice}
use wasm_dbms.Segments.Table.{
  FreeSegment, FreeSegmentsTable, encode_segment, encode_segments, encode_list,
}
use wasm_dbms.Segments.Table.{list_encode, max_segments, is_full, insert_free_segment}
use wasm_dbms.Segments.Space.{total, excess}
use wasm_dbms.Segments.Merge.{segment}
use wasm_dbms.Segments.Accounting.{Accepts, Inserted, insert_free_segment_lem}

length-encode_segments : (xs : List FreeSegment) → length (encode_segments xs) ≡ length xs * 8
unfolding encode_segments encode_segment
length-encode_segments [] = refl
length-encode_segments (x ∷ xs) = omega (arith, length-encode_segments xs)

length-encode_list : (xs : List FreeSegment) → length (encode_list xs) ≡ length xs * 8 + 2
unfolding encode_list
length-encode_list xs = omega (arith, length-encode_segments xs)

max_segments_fit :
    (page_size n : ℕ)
    → page_size % 32 ≡ 0
    → 0 < page_size
    → n ≤ max_segments page_size
    → round_up 32 (n * 8 + 2) ≤ page_size
unfolding max_segments
max_segments_fit page_size n h k l = omega arith

module _ {P : Type 0} {mp : MemoryProvider P} {bytes : P → List ℕ} (L : IsProvider mp bytes) where
  -- Memory with room in which the page of a table is allocated.
  abbrev pub Allocated : ℕ → Page → P → Type 0
  Allocated k page p = HasRoom mp bytes k p × (page < mp.pages p)

  pub Accepts-manager :
      (k : ℕ) (t : FreeSegmentsTable)
      → mp.page_size % 32 ≡ 0
      → t.max_records ≤ max_segments mp.page_size
      → Accepts (manager_access mp) (Allocated k t.page) t
  unfolding check_alignment
  Accepts-manager k t whole small records s h (room, allocated) =
      let fits =
        max_segments_fit mp.page_size (length records) whole L.page_size_pos (omega arith) in
      let (_, _, done, after) =
        write_at_lem L room (List FreeSegment) list_encode t.page 0 records (omega arith) refl
          allocated (omega (arith, fits, ap (round_up 32) (length-encode_list records))) in
      let (room', pages) = HasRoom-same L room _ (rw (after, length-splice)) in
      (done, (room', omega (arith, pages)))

  -- Freeing a segment over the memory manager, with pages of a multiple of 32 bytes, in a table that
  -- is not full, holds no more segments than its page has room for and lies in an allocated page,
  -- where all segments end within the range of an offset: it succeeds, and makes exactly the bytes
  -- of the segment free once more.
  pub insert_free_segment-manager :
      (k : ℕ) (page : Page) (offset : PageOffset) (size : MSize) (t : FreeSegmentsTable) (p : P)
      → mp.page_size % 32 ≡ 0
      → t.max_records ≤ max_segments mp.page_size
      → is_full t ≡ false
      → total excess t.records ≡ 0
      → offset + size ≤ msize_max
      → HasRoom mp bytes k p
      → t.page < mp.pages p
      → Inserted
          (manager_access mp)
          (Allocated k t.page)
          (t, p)
          (segment page offset size)
          (insert_free_segment (manager_access mp) (length t.records + 1) page offset size (t, p))
  insert_free_segment-manager k page offset size t p whole small not_full bounded fits room
        allocated =
      insert_free_segment_lem (manager_access mp) (Allocated k t.page) (length t.records + 1) page
        offset size t p (omega arith) (Accepts-manager k t whole small) not_full bounded fits
        (room, allocated)
