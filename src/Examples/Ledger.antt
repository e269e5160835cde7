-- ===== src/Examples/Ledger.antt =====
-- A ledger of free segments on a heap of two pages.
use wasm_dbms.Prelude.{
  [], ◌∷◌, ◌++◌, ◌≡◌, ◌≤◌, ◌⊎◌, refl, some, none, All, arith, List, replicate, leb,
}
use wasm_dbms.Prelude.Result.{ok}
use wasm_dbms.Memory.Manager
use wasm_dbms.Memory.Manager.{manager_access, round_up}
use wasm_dbms.Memory.Provider.{HeapMemoryProvider, heap_read}
use wasm_dbms.Registry.Record.{RecordAddress, address_encode, FreeSegmentTicket}
use wasm_dbms.Segments.Table
use wasm_dbms.Segments.Table.{FreeSegment, encode_list, decode_list, max_segments}
use wasm_dbms.Segments.Ledger.{FreeSegmentsLedger, find_reusable_segment}
use wasm_dbms.Segments.Ledger.Search.{find_reusable_segment_cases, HasNone, IsOf}
use wasm_dbms.Examples.Heap.{small}

abbrev held : List FreeSegment
held = record { page = 4; offset = 12; size = 18 } ∷ []

stored : HeapMemoryProvider
stored = record { memory = encode_list held ++ replicate 118 0 }

abbrev ledger : FreeSegmentsLedger
ledger = record { free_segments_page = 1; tables = 0 ∷ [] }

abbrev address : RecordAddress
address = record { page = 5; offset = 44 }

find_reusable_segment_cases_example :
    ((find_reusable_segment (manager_access small) address_encode address ledger stored
        ≡ (ok none, stored))
      × All (HasNone (manager_access small) (λ r. leb 6 r.size) stored) ledger.tables)
    ⊎ ((ticket : FreeSegmentTicket) × (find_reusable_segment
            (manager_access small)
            address_encode
            address
            ledger
            stored
          ≡ (ok (some ticket), stored))
        × (round_up 6 6 ≤ ticket.segment.size)
        × IsOf (manager_access small) stored ledger.tables ticket)
unfolding Table.load Manager.read_at Manager.read_at_raw Manager.is_unallocated
    Manager.absolute_offset Manager.check_alignment encode_list decode_list max_segments heap_read
    stored
find_reusable_segment_cases_example =
    find_reusable_segment_cases (manager_access small) address_encode address ledger stored
      ((_, refl, (refl, tt)), tt) (omega arith)
