-- ===== src/Examples/Heap.antt =====
-- A heap provider with small pages, for the examples.
use wasm_dbms.Prelude.{ℕ, true, List, replicate, arith, refl}
use wasm_dbms.Memory.Provider.{
  MemoryProvider, HeapMemoryProvider, heap_provider, heap_IsProvider, IsProvider,
}
use wasm_dbms.Memory.Manager.Effects.{HasRoom}

-- Pages of 64 bytes on a 32-bit platform whose allocator never refuses.
abbrev pub small : MemoryProvider HeapMemoryProvider
small = heap_provider 64 4294967295 (λ _ _. true)

abbrev pub small_bytes : HeapMemoryProvider → List ℕ
small_bytes h = h.memory

pub small_IsProvider : IsProvider small small_bytes
small_IsProvider = heap_IsProvider 64 4294967295 (λ _ _. true) (omega arith)

abbrev pub two_pages : HeapMemoryProvider
two_pages = record { memory = replicate 128 7 }

pub two_pages-HasRoom : HasRoom small small_bytes 1 two_pages
two_pages-HasRoom = record {
  page_size_lt = omega arith;
  whole_pages = refl;
  length_le = omega arith;
}
