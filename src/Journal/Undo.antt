-- ===== src/Journal/Undo.antt =====
-- What a journal undoes, and that each recorded write keeps it so.
use mathlib.Core.List.{reverse-append}
use wasm_dbms.Prelude.{ℕ, ◌+◌, ◌-◌, ◌*◌, ◌/◌, ◌≤◌, ◌<◌, ◌≡◌, refl, ap, ◌∙◌, arith}
use wasm_dbms.Prelude.{List, [], ◌∷◌, ◌++◌, reverse, length, replicate, All, inl, inr}
use wasm_dbms.Prelude.{length-append, Bool-cases, length-replicate}
use wasm_dbms.Prelude.Slices.{
  slice, splice, splice_self, splice_undo, length-splice, length-slice, splice-append,
}
use wasm_dbms.Prelude.Result.{ok}
use wasm_dbms.Encode.{Encode, MemoryResult}
use wasm_dbms.Memory.Exec.{Exec, ◌>>◌}
use wasm_dbms.Memory.Provider.{MemoryProvider, IsProvider}
use wasm_dbms.Memory.Manager
use wasm_dbms.Memory.Manager.{round_up, is_unallocated}
use wasm_dbms.Memory.Manager.Effects.{le-round_up}
use wasm_dbms.Memory.Manager.Effects.{
  HasRoom, HasRoom-same, Writes, allocated_lt, range_end, write_at_raw_lem, page_end_le,
}
use wasm_dbms.Memory.Manager.Reads.{read_at_raw_unallocated, read_at_raw_lem}
use wasm_dbms.Journal.{JournalEntry, JournaledWriter, record_original, replay, on_mm}

module _ (ps : ℕ) where
  -- What the entries, newest first, say of the memory that they were recorded in.
  abbrev pub undo : List JournalEntry → List ℕ → List ℕ
  undo [] b = b
  undo (e ∷ es) b = undo es (splice (e.page * ps + e.offset) e.original_bytes b)

  -- The entry lies in one of `n` pages.
  abbrev pub IsInPages : ℕ → JournalEntry → Type 0
  IsInPages n e = (e.page < n) × (e.offset + length e.original_bytes ≤ ps)

  pub IsInPages-le :
      (es : List JournalEntry) {n m : ℕ} → n ≤ m → All (IsInPages n) es → All (IsInPages m) es
  IsInPages-le [] h k = k
  IsInPages-le (e ∷ es) h (k, ks) = ((omega arith, k.1), IsInPages-le es h ks)

  pub undo-append :
      (es : List JournalEntry) (b z : List ℕ)
      → All (IsInPages (length b / ps)) es
      → undo es (b ++ z) ≡ undo es b ++ z
  undo-append [] b z h = refl
  undo-append (e ∷ es) b z ((page, fits), hs) =
      let start = e.page * ps + e.offset in
      let inside : start + length e.original_bytes ≤ length b =
        omega (arith, page_end_le e.page (length b) ps page) in
      rw (splice-append start e.original_bytes b z inside) (
        undo-append es (splice start e.original_bytes b) z
          (rw (length-splice start e.original_bytes b) hs))

module _ {P : Type 0} {mp : MemoryProvider P} {bytes : P → List ℕ} (L : IsProvider mp bytes) where
  pub replay-undo :
      (es : List JournalEntry) {k : ℕ} {p : P}
      → HasRoom mp bytes k p
      → All (IsInPages mp.page_size (mp.pages p)) es
      → ((replay mp es p).0 ≡ ok tt) × (bytes (replay mp es p).1 ≡ undo mp.page_size es (bytes p))
  unfolding replay
  replay-undo [] room h = (refl, refl)
  replay-undo (e ∷ es) {k} {p} room ((page, fits), hs) =
      let (done, after) = write_at_raw_lem L room e.page e.offset e.original_bytes page fits in
      let q = (Manager.write_at_raw mp e.page e.offset e.original_bytes p).1 in
      let (room', pages) = HasRoom-same L room q (rw (after, length-splice)) in
      let (ok', after') = replay-undo es room' (rw pages hs) in
      rw done (ok', after' ∙ ap (undo mp.page_size es) after)

pub length_padded :
    {D : Type 0} (e : Encode D) (a : D)
    → 0 < e.alignment
    → length (e.encode a) ≡ e.size a
    → length (
        e.encode a
        ++ replicate {A = ℕ} (round_up e.alignment (length (e.encode a)) - length (e.encode a)) 0)
      ≡ round_up e.alignment (e.size a)
length_padded e a pos law =
    rw (length-append, length-replicate, law)
      (omega (arith, le-round_up e.alignment (e.size a) pos))

module _ {P : Type 0} (mp : MemoryProvider P) (bytes : P → List ℕ) where
  -- The journal undoes what was written since memory was `b0`, up to pages added behind it.
  pub record IsUndoable (b0 : List ℕ) (k : ℕ) (w : JournaledWriter P) : Type 0 where
    pub room : HasRoom mp bytes k w.mm
    pub in_pages : All (IsInPages mp.page_size (mp.pages w.mm)) (reverse w.journal.entries)
    pub extra : List ℕ
    pub undoes : undo mp.page_size (reverse w.journal.entries) (bytes w.mm) ≡ b0 ++ extra

module _ {P : Type 0} {mp : MemoryProvider P} {bytes : P → List ℕ} (L : IsProvider mp bytes) where
  -- The bytes after the method, with the recorded ones written back, are those before it.
  Writes-undo :
      {k : ℕ} {p : P} (room : HasRoom mp bytes k p) (page offset : ℕ) (buf : List ℕ)
      (r : MemoryResult (Unit {0}) × P)
      → page < mp.pages p
      → offset + length buf ≤ mp.page_size
      → Writes mp bytes page offset buf p r
      → (length (bytes r.1) ≡ length (bytes p))
        × (splice
              (page * mp.page_size + offset)
              (slice (page * mp.page_size + offset) (length buf) (bytes p))
              (bytes r.1)
            ≡ bytes p)
  Writes-undo {p = p} room page offset buf r h fits (inl (_, same)) =
      (ap length same, rw same (splice_self (page * mp.page_size + offset) (length buf) (bytes p)))
  Writes-undo {p = p} room page offset buf r h fits (inr (_, _, _, after)) =
      let start = page * mp.page_size + offset in
      (
        ap length after ∙ length-splice start buf (bytes p),
        rw after
            (splice_undo start buf (bytes p) (range_end L room page offset (length buf) h fits).0),
      )

  pub journaled-IsUndoable :
      (m : Exec P (Unit {0})) (page offset : ℕ) (buf : List ℕ) {b0 : List ℕ} {k : ℕ}
      (w : JournaledWriter P)
      → offset + length buf ≤ mp.page_size
      → ((p : P) → HasRoom mp bytes k p → Writes mp bytes page offset buf p (m p))
      → IsUndoable mp bytes b0 k w
      → IsUndoable mp bytes b0 k ((record_original mp page offset (length buf) >> on_mm mp m) w).1
  unfolding record_original
  journaled-IsUndoable m page offset buf {b0} {k} w fits effect u =
      elim (Bool-cases (is_unallocated mp w.mm page)) [
        | inl out ↦ rw (read_at_raw_unallocated L w.mm page offset _ out) u
        | inr in_page ↦
            let h : page < mp.pages w.mm = allocated_lt L w.mm page in_page in
            let (got, same) = read_at_raw_lem L u.room page offset (length buf) h fits in
            let p1 = (Manager.read_at_raw mp page offset (replicate (length buf) 0) w.mm).1 in
            let (room1, pages1) = HasRoom-same L u.room p1 (ap length same) in
            let r = m p1 in
            let (len, back) =
              Writes-undo room1 page offset buf r (rw pages1 h) fits (effect p1 room1) in
            let (room2, pages2) = HasRoom-same L room1 r.1 len in
            let start = page * mp.page_size + offset in
            let n : length (slice start (length buf) (bytes w.mm)) ≡ length buf =
              length-slice start (length buf) (bytes w.mm)
                (range_end L u.room page offset (length buf) h fits).0 in
            rw got (record {
              room = room2;
              in_pages = rw reverse-append (
                (omega (arith, h, pages1, pages2), omega (arith, n, fits)),
                IsInPages-le mp.page_size (reverse w.journal.entries)
                    (omega (arith, pages1, pages2)) u.in_pages,
              );
              extra = u.extra;
              undoes = rw (reverse-append, ← same, back, same) u.undoes;
            })
      ]
