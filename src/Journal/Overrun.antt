-- ===== src/Journal/Overrun.antt =====
-- A refused write past the end of its page stays in the journal, and stops the rollback.
use mathlib.Core.List.{reverse-append}
use wasm_dbms.Prelude.{ℕ, ◌+◌, ◌-◌, ◌*◌, ◌≤◌, ◌<◌, ◌≡◌, refl, ap, arith, min, lt→ltb}
use wasm_dbms.Prelude.{List, ◌++◌, length, replicate}
use wasm_dbms.Prelude.{length-append, length-replicate, drop, length-drop}
use wasm_dbms.Prelude.Slices.{slice, length-slice}
use wasm_dbms.Prelude.Result.{ok, err}
use wasm_dbms.Encode.{segmentation_fault}
use wasm_dbms.Memory.Provider.{MemoryProvider, IsProvider}
use wasm_dbms.Memory.Manager
use wasm_dbms.Memory.Manager.{is_unallocated, read_at_raw}
use wasm_dbms.Memory.Manager.Effects.{
  HasRoom, HasRoom-same, allocated, range_end, absolute_offset_lem,
}
use wasm_dbms.Journal.{JournaledWriter, record_original, replay, rollback, write_at_raw}

short_read :
    (ps offset n : ℕ)
    → ps < offset + n
    → min (ps - offset) (length (replicate {A = ℕ} n 0)) ≡ ps - offset
short_read ps offset n h = rw length-replicate (omega arith)

module _ {P : Type 0} {mp : MemoryProvider P} {bytes : P → List ℕ} (L : IsProvider mp bytes) where
  overrun_refused :
      {k : ℕ} {p : P}
      → HasRoom mp bytes k p
      → (page offset : ℕ) (buf : List ℕ) → page < mp.pages p
      → mp.page_size < offset + length buf
      → Manager.write_at_raw mp page offset buf p
        ≡ (err (segmentation_fault page offset (length buf) mp.page_size), p)
  unfolding Manager.write_at_raw
  overrun_refused room page offset buf h over =
      rw (allocated L room page h, lt→ltb mp.page_size _ over)

  module _ {k : ℕ} (w : JournaledWriter P) (room : HasRoom mp bytes k w.mm) where
    padded_read :
        (page offset : ℕ) (buf : List ℕ)
        → page < mp.pages w.mm
        → offset ≤ mp.page_size
        → mp.page_size < offset + length buf
        → (original : List ℕ) × ((read_at_raw mp page offset (replicate (length buf) 0) w.mm).0
            ≡ ok (mp.page_size - offset, original))
          × (length original ≡ length buf)
          × (bytes (read_at_raw mp page offset (replicate (length buf) 0) w.mm).1 ≡ bytes w.mm)
    unfolding read_at_raw
    padded_read page offset buf h le over =
        let n = mp.page_size - offset in
        let start = page * mp.page_size + offset in
        let (inside, below) = range_end L room page offset n h (omega arith) in
        let got = L.read_in start n w.mm inside below in
        (
          slice start n (bytes w.mm) ++ drop n (replicate (length buf) 0),
          rw
              (
                allocated L room page h,
                absolute_offset_lem L room page offset h le,
                short_read mp.page_size offset (length buf) over,
                got,
              )
              refl,
          rw
              (
                length-append,
                length-slice start n (bytes w.mm) inside,
                length-drop,
                length-replicate,
              )
              (omega arith),
          rw
              (
                allocated L room page h,
                absolute_offset_lem L room page offset h le,
                short_read mp.page_size offset (length buf) over,
                got,
              )
              (L.bytes-read start n w.mm),
        )

    -- A raw write that starts in an allocated page and passes its end is refused, and whatever the
    -- journal held before, rolling it back then answers with the same segmentation fault and has
    -- restored nothing: memory is as the refused write left it, with every earlier write in it.
    pub rollback_overrun :
        (page offset : ℕ) (buf : List ℕ)
        → page < mp.pages w.mm
        → offset ≤ mp.page_size
        → mp.page_size < offset + length buf
        → let (answer, w') = write_at_raw mp page offset buf w in
          let fault = segmentation_fault page offset (length buf) mp.page_size in
          (answer ≡ err fault)
          × ((rollback mp w'.journal w'.mm).0 ≡ err fault)
          × (bytes (rollback mp w'.journal w'.mm).1 ≡ bytes w.mm)
    unfolding write_at_raw record_original rollback replay
    rollback_overrun page offset buf h le over =
        let (original, got, len, same) = padded_read page offset buf h le over in
        let q = (read_at_raw mp page offset (replicate (length buf) 0) w.mm).1 in
        let (room', pages) = HasRoom-same L room q (ap length same) in
        let h' : page < mp.pages q = omega (arith, pages) in
        let again = overrun_refused room' page offset original h' (omega (arith, len)) in
        rw (got, overrun_refused room' page offset buf h' over, reverse-append, again, len)
          (refl, refl, same)
