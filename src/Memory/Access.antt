-- ===== src/Memory/Access.antt =====
-- memory_access.rs: the interface by which the engine reads and writes pages, over the state `S` of
-- its implementation, with its two provided methods.
use wasm_dbms.Prelude.{ℕ, List, none, some}
use wasm_dbms.Encode.{Page, PageOffset, Encode}
use wasm_dbms.Memory.Exec.{Exec, pure, lift, ◌>>=◌, ◌>>◌}
use wasm_dbms.Memory.Unclaimed
use wasm_dbms.Memory.Unclaimed.{UnclaimedPages, unclaimed_encode}

abbrev pub schema_page : Page
schema_page = 0

abbrev pub unclaimed_pages_page : Page
unclaimed_pages_page = 1

-- `read_at_raw` is given the buffer and returns the number of bytes read with the buffer after it.
pub record MemoryAccess (S : Type 0) : Type 1 where
  pub page_size : ℕ
  pub grow_one_page : Exec S Page
  pub zero_page : Page → Exec S (Unit {0})
  pub read_at : (D : Type 0) → Encode D → Page → PageOffset → Exec S D
  pub write_at : (D : Type 0) → Encode D → Page → PageOffset → D → Exec S (Unit {0})
  pub write_at_raw : Page → PageOffset → List ℕ → Exec S (Unit {0})
  pub zero : (D : Type 0) → Encode D → Page → PageOffset → D → Exec S (Unit {0})
  pub zero_raw : Page → PageOffset → PageOffset → Exec S (Unit {0})
  pub read_at_raw : Page → PageOffset → List ℕ → Exec S (ℕ × List ℕ)

module _ {S : Type 0} (mm : MemoryAccess S) where
  unfoldable pub claim_page : Exec S Page
  claim_page = do
    ledger ← mm.read_at UnclaimedPages unclaimed_encode unclaimed_pages_page 0
    elim (Unclaimed.pop ledger) [
      | some (page, rest) ↦
          mm.write_at UnclaimedPages unclaimed_encode unclaimed_pages_page 0 rest >> pure page
      | none ↦ mm.grow_one_page
    ]

  unfoldable pub unclaim_page : Page → Exec S (Unit {0})
  unclaim_page page = do
    mm.zero_page page
    ledger ← mm.read_at UnclaimedPages unclaimed_encode unclaimed_pages_page 0
    pushed ← lift (Unclaimed.push page ledger)
    mm.write_at UnclaimedPages unclaimed_encode unclaimed_pages_page 0 pushed
