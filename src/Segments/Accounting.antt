-- ===== src/Segments/Accounting.antt =====
-- Freeing and reusing bytes through a table: no byte is lost, none becomes free twice.
use wasm_dbms.Prelude.{ℕ, zero, suc, ◌+◌, ◌≤◌, ◌<◌, ◌≡◌, refl, ap, arith, inl, inr}
use wasm_dbms.Prelude.{List, [], ◌∷◌, ◌++◌, false, none, some}
use wasm_dbms.Prelude.{length, min, length-append}
use wasm_dbms.Prelude.Result.{Result, ok}
use wasm_dbms.Encode.{Page, PageOffset, MSize, MemoryError, msize_max}
use wasm_dbms.Memory.Access.{MemoryAccess}
use wasm_dbms.Segments.Table.{
  FreeSegment, FreeSegmentsTable, position, swap_remove, is_segment, remainder,
}
use wasm_dbms.Segments.Table.{saturating_add}
use wasm_dbms.Segments.Table.{
  has_adjacent_segment, list_encode, commit, remove, is_full, insert_free_segment, Method,
}
use wasm_dbms.Memory.Exec
use wasm_dbms.Segments.Space.{total, covers, excess, one, times_free, length-total, total-append}
use wasm_dbms.Segments.Space.{total-swap_remove}
use wasm_dbms.Segments.Merge.{
  segment, covers_before, covers_after, ends_at_lem, starts_at_lem, total_removed, length-removed,
  length-remainder, excess-remainder, covers-remainder, le→leb_false, adjacent_cases,
}

module _ {S : Type 0} (mm : MemoryAccess S) where
  -- A table of at most as many segments as it may hold is written, from the states of `I`.
  abbrev pub Accepts : (S → Type 0) → FreeSegmentsTable → Type 0
  Accepts I t =
      (records : List FreeSegment) (s : S)
      → length records ≤ t.max_records
      → I s
      → ((mm.write_at (List FreeSegment) list_encode t.page 0 records s).0 ≡ ok tt)
        × I (mm.write_at (List FreeSegment) list_encode t.page 0 records s).1

  module _ (I : S → Type 0) where
    Accepts-same :
        (t t' : FreeSegmentsTable)
        → t'.page ≡ t.page
        → t'.max_records ≡ t.max_records
        → Accepts I t
        → Accepts I t'
    Accepts-same t t' page max accepts records s h inv =
        rw page (accepts records s (omega (arith, max)) inv)

    commit_lem :
        (t : FreeSegmentsTable) (s : S)
        → Accepts I t
        → length t.records ≤ t.max_records
        → I s
        → (s' : S) × (commit mm (t, s) ≡ (ok tt, (t, s'))) × I s'
    unfolding commit
    commit_lem t s accepts fits inv =
        let (done, inv') = accepts t.records s fits inv in
        ((commit mm (t, s)).1.1, ap (λ r. (r, (commit mm (t, s)).1)) done, inv')

    remove_lem :
        (seg : FreeSegment) (used : MSize) (t : FreeSegmentsTable) (s : S) (i : ℕ)
        → Accepts I t
        → position (is_segment seg) t.records ≡ some i
        → length (swap_remove i t.records ++ remainder seg used) ≤ t.max_records
        → I s
        → (s' : S) × (remove mm seg used (t, s)
            ≡ (ok tt, (record t { records = swap_remove i t.records ++ remainder seg used }, s')))
          × I s'
    unfolding remove
    remove_lem seg used t s i accepts found fits inv =
        let t' = record t { records = swap_remove i t.records ++ remainder seg used } in
        let (s', done, inv') = commit_lem t' s accepts fits inv in
        (s', rw (found, remove) done, inv')

    -- What `insert_free_segment` is to do: the bytes of the segment become free once more each, and
    -- no other byte does.
    pub record Inserted (w : FreeSegmentsTable × S) (added : FreeSegment)
        (r : Result MemoryError (Unit {0}) × (FreeSegmentsTable × S)) : Type 0 where
      pub done : r.0 ≡ ok tt
      pub same_page : r.1.0.page ≡ w.0.page
      pub same_max : r.1.0.max_records ≡ w.0.max_records
      pub length_le : length r.1.0.records ≤ length w.0.records + 1
      pub excess_eq : total excess r.1.0.records ≡ 0
      pub keeps : I r.1.1
      pub adds :
          (p : Page) (b : ℕ)
          → times_free p b r.1.0.records ≡ times_free p b w.0.records + covers p b added

    insert_new :
        (fuel : ℕ) (page : Page) (offset : PageOffset) (size : MSize) (t : FreeSegmentsTable)
        (s : S)
        → Accepts I t
        → is_full t ≡ false
        → has_adjacent_segment t.records page offset size ≡ none
        → total excess t.records ≡ 0
        → offset + size ≤ msize_max
        → I s
        → Inserted
            (t, s)
            (segment page offset size)
            (insert_free_segment mm (suc fuel) page offset size (t, s))
    unfolding is_full insert_free_segment
    insert_new fuel page offset size t s accepts room alone bounded fits inv =
        let t' = record t { records = t.records ++ (segment page offset size ∷ []) } in
        let n = length-append t.records (segment page offset size ∷ []) in
        let (s', done, inv') = commit_lem t' s accepts (ground arith) inv in
        let r : insert_free_segment mm (suc fuel) page offset size (t, s) ≡ (ok tt, (t', s')) =
          rw (room, alone, insert_free_segment) done in
        rw r record {
          done = refl;
          same_page = refl;
          same_max = refl;
          length_le = omega (arith, n);
          excess_eq = omega (arith, total-append excess t.records (segment page offset size ∷ []));
          keeps = inv';
          adds = λ p b.
              omega (arith, total-append (covers p b) t.records (segment page offset size ∷ []));
        }

    -- A merge: the adjacent segment is taken out, and the joined one is inserted instead.
    insert_joined :
        (seg added joined : FreeSegment) (insert_joined_segment : Method mm) (t : FreeSegmentsTable)
        (s : S) (i : ℕ)
        → Accepts I t
        → position (is_segment seg) t.records ≡ some i
        → length t.records ≤ t.max_records
        → ((p : Page) (b : ℕ) → covers p b joined ≡ covers p b seg + covers p b added)
        → ((s' : S)
            → let t' = record t { records = swap_remove i t.records ++ remainder seg seg.size } in
              I s' → Inserted (t', s') joined (insert_joined_segment (t', s')))
        → I s
        → Inserted
            (t, s)
            added
            (Exec.◌>>◌
              (remove mm seg seg.size)
              (Exec.◌>>◌ insert_joined_segment (commit mm))
              (t, s))
    insert_joined seg added joined insert_joined_segment t s i accepts found room covers_joined
          inserts inv =
        let t' = record t { records = swap_remove i t.records ++ remainder seg seg.size } in
        let shorter : length t'.records + 1 ≡ length t.records =
          rw (← length-total t'.records, ← length-total t.records)
            (total_removed one seg t.records i found) in
        let (s', removed, inv') =
          remove_lem seg seg.size t s i accepts found (omega (arith, shorter)) inv in
        let ins = inserts s' inv' in
        let r = insert_joined_segment (t', s') in
        let (s'', committed, inv'') =
          commit_lem r.1.0 r.1.1 (Accepts-same t r.1.0 ins.same_page ins.same_max accepts)
            (omega (arith, ins.length_le, shorter, ins.same_max)) ins.keeps in
        let parts : r ≡ (ok tt, r.1) = ap (λ x. (x, r.1)) ins.done in
        let whole : Exec.◌>>◌ (remove mm seg seg.size) (Exec.◌>>◌ insert_joined_segment (commit mm))
              (t, s)
            ≡ (ok tt, (r.1.0, s'')) =
          rw (removed, ins.done) committed in
        rw whole record {
          done = refl;
          same_page = ins.same_page;
          same_max = ins.same_max;
          length_le = omega (arith, ins.length_le, shorter);
          excess_eq = ins.excess_eq;
          keeps = inv'';
          adds = λ p b. omega (
            arith,
            ins.adds p b,
            covers_joined p b,
            total_removed (covers p b) seg t.records i found,
          );
        }

    -- Inserting a segment into a table that is not full, whose offsets are in range and which can be
    -- written, succeeds with `fuel` above the number of segments, whatever it is merged with: every
    -- byte of the segment becomes free once more, no other byte does, the offsets stay in range and
    -- the table grows by one segment at most.
    pub insert_free_segment_lem :
        (fuel : ℕ) (page : Page) (offset : PageOffset) (size : MSize) (t : FreeSegmentsTable)
        (s : S)
        → length t.records < fuel
        → Accepts I t
        → is_full t ≡ false
        → total excess t.records ≡ 0
        → offset + size ≤ msize_max
        → I s
        → Inserted
            (t, s)
            (segment page offset size)
            (insert_free_segment mm fuel page offset size (t, s))
    unfolding insert_free_segment is_full
    insert_free_segment_lem zero page offset size t s enough accepts room bounded fits inv =
        absurd (omega arith)
    insert_free_segment_lem (suc fuel) page offset size t s enough accepts room bounded fits inv =
        let space : length t.records < t.max_records = ground arith in
        elim (adjacent_cases t.records page offset size) [
          | inl alone ↦ insert_new fuel page offset size t s accepts room alone bounded fits inv
          | inr (inl (seg, adjacent, holds, (i, found))) ↦
              let gone = total_removed excess seg t.records i found in
              let shorter = length-removed seg t.records i found in
              let t' = record t { records = swap_remove i t.records ++ remainder seg seg.size } in
              let (same_page, same_end) = ends_at_lem page offset seg holds (omega (arith, gone)) in
              let sum : saturating_add seg.size size ≡ seg.size + size = omega arith in
              rw (room, adjacent, insert_free_segment)
                (insert_joined seg (segment page offset size)
                  (segment page seg.offset (saturating_add seg.size size))
                  (insert_free_segment mm fuel page seg.offset (saturating_add seg.size size)) t s i
                  accepts found (omega arith)
                  (covers_before page offset size seg same_page same_end sum)
                  (λ s' inv'.
                    insert_free_segment_lem fuel page seg.offset (saturating_add seg.size size) t'
                      s' (omega (arith, shorter)) accepts
                      (le→leb_false t.max_records (length t'.records) (omega (arith, shorter)))
                      (omega (arith, gone)) (omega arith) inv')
                  inv)
          | inr (inr (seg, adjacent, holds, (i, found))) ↦
              let gone = total_removed excess seg t.records i found in
              let shorter = length-removed seg t.records i found in
              let t' = record t { records = swap_remove i t.records ++ remainder seg seg.size } in
              let (same_page, same_start) =
                starts_at_lem page (saturating_add offset size) seg holds in
              let sum : saturating_add size seg.size ≡ size + seg.size = omega (arith, gone) in
              let start : seg.offset ≡ offset + size = omega arith in
              rw (room, adjacent, insert_free_segment)
                (insert_joined seg (segment page offset size)
                  (segment page offset (saturating_add size seg.size))
                  (insert_free_segment mm fuel page offset (saturating_add size seg.size)) t s i
                  accepts found (omega arith)
                  (covers_after page offset size seg same_page start sum)
                  (λ s' inv'.
                    insert_free_segment_lem fuel page offset (saturating_add size seg.size) t' s'
                      (omega (arith, shorter)) accepts
                      (le→leb_false t.max_records (length t'.records) (omega (arith, shorter)))
                      (omega (arith, gone)) (omega (arith, gone)) inv')
                  inv)
        ]

    -- Taking `used` bytes of a segment that the table holds succeeds when the table can be written and
    -- its segments end within the range of an offset: the first `used` bytes of the segment, or all
    -- of it if it is no longer, stop being free once, and no other byte does.
    pub remove-times_free :
        (seg : FreeSegment) (used : MSize) (t : FreeSegmentsTable) (s : S) (i : ℕ)
        → Accepts I t
        → position (is_segment seg) t.records ≡ some i
        → length t.records ≤ t.max_records
        → total excess t.records ≡ 0
        → I s
        → let r = remove mm seg used (t, s) in
          (r.0 ≡ ok tt)
          × I r.1.1
          × (total excess r.1.0.records ≡ 0)
          × ((p : Page) (b : ℕ)
              → times_free p b r.1.0.records
                  + covers p b (segment seg.page seg.offset (min used seg.size))
                ≡ times_free p b t.records)
    remove-times_free seg used t s i accepts found room bounded inv =
        let left = swap_remove i t.records in
        let gone = total-swap_remove excess seg t.records i found in
        let shorter : length left + 1 ≡ length t.records = omega (
          arith,
          total-swap_remove one seg t.records i found,
          length-total left,
          length-total t.records,
        ) in
        let (s', done, inv') =
          remove_lem seg used t s i accepts found
            (omega
              (arith, length-append left (remainder seg used), length-remainder seg used, shorter))
            inv in
        rw done (
          refl,
          inv',
          omega (
            arith,
            total-append excess left (remainder seg used),
            excess-remainder seg used (omega (arith, gone)),
            gone,
          ),
          λ p b. omega (
            arith,
            total-append (covers p b) left (remainder seg used),
            covers-remainder p b seg used (omega (arith, gone)),
            total-swap_remove (covers p b) seg t.records i found,
          ),
        )
