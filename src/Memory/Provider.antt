-- ===== src/Memory/Provider.antt =====
-- provider.rs: the interface of a memory provider, and the provider on the heap.
use mathlib.Core.Logic.{◌⊎◌}
use wasm_dbms.Prelude.{
  ℕ, refl, arith, ◌+◌, ◌-◌, ◌*◌, ◌/◌, ◌≤◌, ◌<◌, ◌≡◌, ◌&&◌, Bool, List, ◌++◌, ltb, leb,
}
use wasm_dbms.Prelude.{if◌then◌else◌, length, replicate}
use wasm_dbms.Prelude.Slices.{slice, splice}
use wasm_dbms.Prelude.Result.{ok, err}
use wasm_dbms.Encode.{u64_mod, MemoryError, MemoryResult, out_of_bounds, failed_to_allocate_page}
use wasm_dbms.Memory.Exec.{Exec, pure, raise, lift, gets, ◌>>=◌}

abbrev pub wasm_page_size : ℕ
wasm_page_size = 65536

-- The trait `MemoryProvider` over the provider's state `P`. `read` takes the length of the buffer to
-- fill and returns the bytes.
pub record MemoryProvider (P : Type 0) : Type 0 where
  pub page_size : ℕ
  pub size : P → ℕ
  pub pages : P → ℕ
  pub grow : ℕ → Exec P ℕ
  pub read : ℕ → ℕ → Exec P (List ℕ)
  pub write : ℕ → List ℕ → Exec P (Unit {0})
  pub flush : Exec P (Unit {0})

-- What the trait's documentation promises, of the memory `bytes p` that a provider stands for.
pub record IsProvider {P : Type 0} (mp : MemoryProvider P) (bytes : P → List ℕ) : Type 0 where
  pub page_size_pos : 0 < mp.page_size
  pub size_lem : (p : P) → mp.size p ≡ length (bytes p)
  pub pages_lem : (p : P) → mp.pages p ≡ length (bytes p) / mp.page_size
  pub read_in :
      (off n : ℕ) (p : P)
      → off + n ≤ length (bytes p)
      → off + n < u64_mod
      → (mp.read off n p).0 ≡ ok (slice off n (bytes p))
  pub read_out :
      (off n : ℕ) (p : P)
      → length (bytes p) < off + n
      → (e : MemoryError) × ((mp.read off n p).0 ≡ err e)
  pub bytes-read : (off n : ℕ) (p : P) → bytes (mp.read off n p).1 ≡ bytes p
  pub write_in :
      (off : ℕ) (buf : List ℕ) (p : P)
      → off + length buf ≤ length (bytes p)
      → off + length buf < u64_mod
      → ((mp.write off buf p).0 ≡ ok tt) × (bytes (mp.write off buf p).1 ≡ splice off buf (bytes p))
  pub write_out :
      (off : ℕ) (buf : List ℕ) (p : P)
      → length (bytes p) < off + length buf
      → ((e : MemoryError) × ((mp.write off buf p).0 ≡ err e))
        × (bytes (mp.write off buf p).1 ≡ bytes p)
  pub grow_cases :
      (n : ℕ) (p : P)
      → (((e : MemoryError) × ((mp.grow n p).0 ≡ err e)) × (bytes (mp.grow n p).1 ≡ bytes p))
        ⊎ (((mp.grow n p).0 ≡ ok (length (bytes p)))
            × (bytes (mp.grow n p).1 ≡ bytes p ++ replicate (n * mp.page_size) 0))

pub record HeapMemoryProvider : Type 0 where
  pub memory : List ℕ

-- `checked_range` returns the start of the range: its length is known to the caller.
checked_range : ℕ → ℕ → HeapMemoryProvider → MemoryResult ℕ
checked_range offset len s =
    if ltb (offset + len) u64_mod && leb (offset + len) (length s.memory)
    then ok offset
    else err out_of_bounds

-- The page size is 65536 in the source. `usize_max` and the allocator's verdict on reserving some
-- more bytes are the platform's.
module _ (page_size usize_max : ℕ) (try_reserve_exact : HeapMemoryProvider → ℕ → Bool) where
  new_size : HeapMemoryProvider → ℕ → MemoryResult ℕ
  new_size s new_pages =
      if ltb (new_pages * page_size) u64_mod
        && ltb (length s.memory + new_pages * page_size) u64_mod
        && leb (length s.memory + new_pages * page_size) usize_max
      then ok (length s.memory + new_pages * page_size)
      else err failed_to_allocate_page

  unfoldable pub heap_grow : ℕ → Exec HeapMemoryProvider ℕ
  unfolding new_size
  heap_grow new_pages s =
      (do
        size ← lift (new_size s new_pages)
        if try_reserve_exact s (size - length s.memory)
            then (λ h. (
              ok (length s.memory),
              record h { memory = s.memory ++ replicate (size - length s.memory) 0 },
            ))
            else raise failed_to_allocate_page)
        s

  unfoldable pub heap_read : ℕ → ℕ → Exec HeapMemoryProvider (List ℕ)
  unfolding checked_range
  heap_read offset n s =
      (do start ← lift (checked_range offset n s); gets (λ h. slice start n h.memory)) s

  unfoldable pub heap_write : ℕ → List ℕ → Exec HeapMemoryProvider (Unit {0})
  unfolding checked_range
  heap_write offset buf s =
      (do
        start ← lift (checked_range offset (length buf) s)
        λ h. (ok tt, record h { memory = splice start buf h.memory }))
        s

  abbrev pub heap_provider : MemoryProvider HeapMemoryProvider
  heap_provider = record {
    page_size = page_size;
    size = λ s. length s.memory;
    pages = λ s. length s.memory / page_size;
    grow = heap_grow;
    read = heap_read;
    write = heap_write;
    flush = pure tt;
  }

  heap_grow_cases :
      (n : ℕ) (p : HeapMemoryProvider)
      → (((e : MemoryError) × ((heap_grow n p).0 ≡ err e)) × ((heap_grow n p).1.memory ≡ p.memory))
        ⊎ (((heap_grow n p).0 ≡ ok (length p.memory))
            × ((heap_grow n p).1.memory ≡ p.memory ++ replicate (n * page_size) 0))
  unfolding heap_grow
  heap_grow_cases n p = ground arith

  -- The heap meets what the trait documents, whatever the allocator answers: its size and its pages are
  -- those of its bytes; a read or a write within them, whose end is a u64, succeeds and gives or sets
  -- those bytes; one that ends past them fails and changes nothing; a growth fails and changes nothing,
  -- or it gives the size before and adds zeroed pages.
  pub heap_IsProvider : 0 < page_size → IsProvider heap_provider (λ s. s.memory)
  unfolding heap_read heap_write
  heap_IsProvider pos = record {
    page_size_pos = pos;
    size_lem = λ p. refl;
    pages_lem = λ p. refl;
    read_in = λ off n p h k. ground arith;
    read_out = λ off n p h. (out_of_bounds, ground arith);
    bytes-read = λ off n p. ground arith;
    write_in = λ off buf p h k. ground arith;
    write_out = λ off buf p h. ((out_of_bounds, ground arith), ground arith);
    grow_cases = heap_grow_cases;
  }
