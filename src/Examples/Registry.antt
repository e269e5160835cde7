-- ===== src/Examples/Registry.antt =====
-- A page ledger, its encoding, and records, on a heap of two pages.
use mathlib.Core.List.{append-nil}
use wasm_dbms.Prelude.{
  ℕ, [], ◌∷◌, ◌++◌, ◌≡◌, refl, some, false, arith, List, length, take, min, ap, sym, All, ◌∙◌,
  take-append_le, drop_all, replicate, ◌==◌, ◌≤◌, ◌+◌,
}
use wasm_dbms.Prelude.Result.{ok}
use wasm_dbms.Encode.{Page, MemoryResult}
use wasm_dbms.Memory.Manager
use wasm_dbms.Memory.Manager.{manager_access, round_up}
use wasm_dbms.Memory.Provider.{HeapMemoryProvider, heap_read, heap_write, heap_grow}
use wasm_dbms.Memory.Access.{claim_page}
use wasm_dbms.Memory.Unclaimed
use mathlib.Core.Path.{subst}
use wasm_dbms.Registry.Sized.{Reads, read_sized, read_sized_lem}
use wasm_dbms.Registry.Pages.{
  PageRecord, PageLedger, encode_table, decode_table, table_encode, load, encoded_len, commit,
  get_page_and_offset_for_record,
}
use wasm_dbms.Registry.Pages.Stored.{IsTable, load-encode_table, Tells-table}
use wasm_dbms.Registry.Pages.Space.{taken_at, IsLedger, commit-get_page_and_offset}
use wasm_dbms.Registry.Pages.Walk.{walk, walk-pages}
use wasm_dbms.Registry.Record.{RecordAddress, address_encode}
use wasm_dbms.Examples.Heap.{small, small_IsProvider}

abbrev first : PageRecord
first = record { page = 5; free = 20 }

abbrev pages : List PageRecord
pages = first ∷ record { page = 3; free = 64 } ∷ []

walk-pages_example : walk 4 5 pages ≡ 5 ∷ 3 ∷ []
walk-pages_example =
    walk-pages first (record { page = 3; free = 64 } ∷ []) 4 ((refl, tt), (tt, tt)) (omega arith)

pages-IsTable : IsTable pages
pages-IsTable = record {
  within = omega arith;
  are_records = ((omega arith, omega arith), ((omega arith, omega arith), tt));
}

abbrev rest : List ℕ
rest = replicate 36 7

abbrev stored : HeapMemoryProvider
stored = record { memory = (encode_table pages ++ rest) ++ replicate 64 7 }

abbrev address : RecordAddress
address = record { page = 5; offset = 44 }

heap_read_lem :
    (n : ℕ) → n ≤ 64 → small.read 0 n stored ≡ (ok (take n (encode_table pages ++ rest)), stored)
unfolding encode_table
heap_read_lem n h =
    let got = small_IsProvider.read_in 0 n stored (omega arith) (omega arith) in
    let same = small_IsProvider.bytes-read 0 n stored in
    let front =
      got ∙ ap ok (take-append_le n (encode_table pages ++ rest) (replicate 64 7) (omega arith)) in
    λ i. (front i, record { memory = same i })

stored-Reads : Reads (manager_access small) 0 (encode_table pages ++ rest) stored
unfolding encode_table Manager.read_at_raw Manager.is_unallocated Manager.absolute_offset
stored-Reads = record {
  length_lem = refl;
  read_lem = λ buf h.
      let n : min 64 (length buf) ≡ length buf = omega arith in
      rw
        (
          n,
          heap_read_lem (length buf) h,
          drop_all (length buf) buf (omega arith),
          append-nil,
          Manager.read_at_raw,
        )
        refl;
}

read_sized_lem_example :
    read_sized (manager_access small) table_encode 0 encoded_len stored ≡ (ok pages, stored)
unfolding encode_table decode_table
read_sized_lem_example =
    read_sized_lem (manager_access small) stored-Reads table_encode encoded_len 28
      (Tells-table pages rest pages-IsTable) (omega arith) (omega arith)

load-encode_table_example :
    load (manager_access small) 0 stored ≡ (ok (record { ledger_page = 0; pages = pages }), stored)
load-encode_table_example =
    load-encode_table (manager_access small) 0 pages rest stored stored-Reads pages-IsTable

-- Memory with no unclaimed page, and a ledger of a page that it has.
abbrev zeros : HeapMemoryProvider
zeros = record { memory = replicate 192 0 }

abbrev ledger : PageLedger
ledger = record { ledger_page = 2; pages = record { page = 5; free = 20 } ∷ [] }

zeros-claim_page : (claim_page (manager_access small) zeros).0 ≡ ok 3
unfolding claim_page Manager.read_at Manager.read_at_raw Manager.is_unallocated
    Manager.absolute_offset Manager.check_alignment Unclaimed.decode Unclaimed.pop
    Manager.grow_one_page Manager.last_page heap_read heap_write heap_grow
zeros-claim_page = refl

ledger-IsLedger : IsLedger (manager_access small) ledger zeros
ledger-IsLedger = record {
  page_size_le = omega arith;
  free_le = (omega arith, tt);
  distinct = (tt, tt);
  claims_new = λ page e.
      let same : Path (MemoryResult Page) (ok 3) (ok page) = sym zeros-claim_page ∙ e in
      let three : 3 ≡ page = cc in
      subst (λ p. All (λ r. r.page == p ≡ false) ledger.pages) three (refl, tt);
}

commit-get_page_and_offset_example :
    let mm = manager_access small in
    let (l', s') = (get_page_and_offset_for_record mm address_encode address (ledger, zeros)).1 in
    let after = (commit mm 5 address_encode address (l', s')).1.0.pages in
    (44 + round_up 6 6 ≤ 64)
    × (taken_at 64 5 l'.pages ≡ some 44)
    × (taken_at 64 5 after ≡ some (44 + round_up 6 6))
    × (taken_at 64 3 after ≡ taken_at 64 3 ledger.pages)
unfolding get_page_and_offset_for_record Manager.align_up
commit-get_page_and_offset_example =
    commit-get_page_and_offset (manager_access small) address_encode address 5 3 44 ledger zeros
      ledger-IsLedger (omega arith) (omega arith) refl refl
