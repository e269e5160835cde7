-- ===== src/Journal.antt =====
-- crates/wasm-dbms/wasm-dbms/src/transaction/journal.rs: the write-ahead journal, and the writer that
-- records the bytes that stand where it is about to write.
pub mod Undo
pub mod Rollback
pub mod Overrun
pub mod Wrote
use wasm_dbms.Prelude.{ℕ, List, [], ◌∷◌, ◌++◌, reverse, length, replicate}
use wasm_dbms.Encode.{Page, PageOffset, Encode}
use wasm_dbms.Prelude.Result.{ok}
use wasm_dbms.Memory.Exec.{Exec, pure, lift, ◌>>=◌, ◌>>◌}
use wasm_dbms.Memory.Provider.{MemoryProvider}
use wasm_dbms.Memory.Access.{MemoryAccess}
use wasm_dbms.Memory.Manager
use wasm_dbms.Memory.Manager.{align_up}

pub record JournalEntry : Type 0 where
  pub page : Page
  pub offset : PageOffset
  pub original_bytes : List ℕ

pub record Journal : Type 0 where
  pub entries : List JournalEntry

abbrev pub new : Journal
new = record { entries = [] }

-- What a `JournaledWriter` borrows: the memory manager and the journal.
pub record JournaledWriter (P : Type 0) : Type 0 where
  pub mm : P
  pub journal : Journal

module _ {P : Type 0} (mp : MemoryProvider P) where
  -- A call of the memory manager, which leaves the journal alone.
  abbrev pub on_mm {ℓ} : {A : Type ℓ} → Exec P A → Exec (JournaledWriter P) A
  on_mm m w = let (r, p) = m w.mm in (r, record w { mm = p })

  unfoldable pub record_original : Page → PageOffset → ℕ → Exec (JournaledWriter P) (Unit {0})
  record_original page offset len = do
    (_, original) ← on_mm (Manager.read_at_raw mp page offset (replicate len 0))
    λ w. (
      ok tt,
      record w {
        journal = record {
          entries =
              w.journal.entries
              ++ (record { page = page; offset = offset; original_bytes = original } ∷ []);
        };
      },
    )

  -- The loop of `rollback` over the entries, newest first.
  pub replay : List JournalEntry → Exec P (Unit {0})
  replay [] = pure tt
  replay (entry ∷ rest) = do
    Manager.write_at_raw mp entry.page entry.offset entry.original_bytes
    replay rest

  unfoldable pub rollback : Journal → Exec P (Unit {0})
  unfolding replay
  rollback journal = replay (reverse journal.entries)

  unfoldable pub grow_one_page : Exec (JournaledWriter P) Page
  grow_one_page = on_mm (Manager.grow_one_page mp)

  unfoldable pub zero_page : Page → Exec (JournaledWriter P) (Unit {0})
  zero_page page = do record_original page 0 mp.page_size; on_mm (Manager.zero_page mp page)

  unfoldable pub write_at :
      (D : Type 0) → Encode D → Page → PageOffset → D → Exec (JournaledWriter P) (Unit {0})
  write_at D e page offset a = do
    total_len ← lift (align_up e.alignment (e.size a))
    record_original page offset total_len
    on_mm (Manager.write_at mp D e page offset a)

  unfoldable pub write_at_raw : Page → PageOffset → List ℕ → Exec (JournaledWriter P) (Unit {0})
  write_at_raw page offset buf = do
    record_original page offset (length buf)
    on_mm (Manager.write_at_raw mp page offset buf)

  unfoldable pub zero :
      (D : Type 0) → Encode D → Page → PageOffset → D → Exec (JournaledWriter P) (Unit {0})
  zero D e page offset a = do
    total_len ← lift (align_up e.alignment (e.size a))
    record_original page offset total_len
    on_mm (Manager.zero mp D e page offset a)

  unfoldable pub zero_raw : Page → PageOffset → PageOffset → Exec (JournaledWriter P) (Unit {0})
  zero_raw page offset len = do
    record_original page offset len
    on_mm (Manager.zero_raw mp page offset len)

  unfoldable pub read_at : (D : Type 0) → Encode D → Page → PageOffset → Exec (JournaledWriter P) D
  read_at D e page offset = on_mm (Manager.read_at mp D e page offset)

  unfoldable pub read_at_raw : Page → PageOffset → List ℕ → Exec (JournaledWriter P) (ℕ × List ℕ)
  read_at_raw page offset buf = on_mm (Manager.read_at_raw mp page offset buf)

  abbrev pub journaled_access : MemoryAccess (JournaledWriter P)
  journaled_access = record {
    page_size = mp.page_size;
    grow_one_page = grow_one_page;
    zero_page = zero_page;
    read_at = read_at;
    write_at = write_at;
    write_at_raw = write_at_raw;
    zero = zero;
    zero_raw = zero_raw;
    read_at_raw = read_at_raw;
  }
