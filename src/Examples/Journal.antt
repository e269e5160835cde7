-- ===== src/Examples/Journal.antt =====
-- The journal's theorems on a heap of two pages.
use wasm_dbms.Prelude.{ℕ, List, [], ◌∷◌, ◌++◌, ◌≡◌, arith}
use wasm_dbms.Prelude.Result.{ok, err}
use wasm_dbms.Encode.{segmentation_fault}
use wasm_dbms.Journal
use wasm_dbms.Journal.{JournaledWriter, rollback}
use wasm_dbms.Journal.Rollback.{Op, run, rollback-run}
use wasm_dbms.Journal.Overrun.{rollback_overrun}
use wasm_dbms.Memory.Provider.{HeapMemoryProvider}
use wasm_dbms.Examples.Heap.{small, small_bytes, small_IsProvider, two_pages, two_pages-HasRoom}

abbrev calls : List Op
calls =
    Op.write_at_raw 1 8 (1 ∷ 2 ∷ [])
    ∷ Op.grow_one_page
    ∷ Op.zero_page 0
    ∷ Op.write_at_raw 9 0 []
    ∷ []

abbrev after_calls : JournaledWriter HeapMemoryProvider
after_calls = run small calls (record { mm = two_pages; journal = Journal.new })

rollback-run_example :
    ((rollback small after_calls.journal after_calls.mm).0 ≡ ok tt)
    × ((extra : List ℕ) × (small_bytes (rollback small after_calls.journal after_calls.mm).1
          ≡ small_bytes two_pages ++ extra))
rollback-run_example = rollback-run small_IsProvider calls two_pages two_pages-HasRoom (omega arith)

abbrev before_overrun : JournaledWriter HeapMemoryProvider
before_overrun = record { mm = two_pages; journal = Journal.new }

rollback_overrun_example :
    let (answer, w) = Journal.write_at_raw small 1 62 (1 ∷ 2 ∷ 3 ∷ []) before_overrun in
    (answer ≡ err (segmentation_fault 1 62 3 64))
    × ((rollback small w.journal w.mm).0 ≡ err (segmentation_fault 1 62 3 64))
    × (small_bytes (rollback small w.journal w.mm).1 ≡ small_bytes two_pages)
rollback_overrun_example =
    rollback_overrun small_IsProvider before_overrun two_pages-HasRoom 1 62 (1 ∷ 2 ∷ 3 ∷ [])
      (omega arith) (omega arith) (omega arith)
