-- ===== src/Examples/Memory.antt =====
-- The memory manager and the ledger of released pages on a heap of two pages.
use wasm_dbms.Prelude.{[], ◌∷◌, ◌≡◌, refl, arith, ◌⊎◌, some, true, length}
use wasm_dbms.Prelude.Result.{ok, err}
use wasm_dbms.Encode.{unclaimed_pages_full}
use wasm_dbms.Memory.Provider.{heap_provider, heap_IsProvider, IsProvider}
use wasm_dbms.Memory.Manager.{write_at, read_at}
use wasm_dbms.Memory.Manager.RoundTrip.{read_at-write_at}
use wasm_dbms.Memory.Unclaimed.{
  UnclaimedPages, unclaimed_encode, unclaimed_pages_capacity, push, pop, encode,
}
use wasm_dbms.Memory.Unclaimed.Codec.{IsLedger, push_cases, IsStorable-ledger}
use wasm_dbms.Examples.Heap.{small, small_IsProvider, two_pages, two_pages-HasRoom}

abbrev released : UnclaimedPages
released = record { pages = 5 ∷ 3 ∷ [] }

released-IsLedger : IsLedger released
released-IsLedger = record { within = omega arith; are_pages = (omega arith, (omega arith, tt)) }

push_cases_example :
    ((push 9 released ≡ err (unclaimed_pages_full unclaimed_pages_capacity))
      × (length released.pages ≡ unclaimed_pages_capacity))
    ⊎ ((u' : UnclaimedPages) × (push 9 released ≡ ok u')
        × (pop u' ≡ some (9, released))
        × IsLedger u')
push_cases_example = push_cases 9 released released-IsLedger (omega arith)

read_at-write_at_example :
    ((write_at small UnclaimedPages unclaimed_encode 1 32 released two_pages).0 ≡ ok tt)
    × ((read_at small UnclaimedPages unclaimed_encode 1 32
          (write_at small UnclaimedPages unclaimed_encode 1 32 released two_pages).1).0
        ≡ ok released)
unfolding encode
read_at-write_at_example =
    read_at-write_at small_IsProvider two_pages-HasRoom UnclaimedPages unclaimed_encode 1 32
      released (IsStorable-ledger released released-IsLedger) refl (omega arith) (omega arith)

heap_IsProvider_example : IsProvider (heap_provider 64 4294967295 (λ _ _. true)) (λ s. s.memory)
heap_IsProvider_example = heap_IsProvider 64 4294967295 (λ _ _. true) (omega arith)
