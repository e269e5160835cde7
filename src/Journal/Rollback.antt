-- ===== src/Journal/Rollback.antt =====
-- Rolling a journal back restores the memory that its writer found.
use mathlib.Core.List.{append_assoc, append-nil}
use native.Mathlib.Nat.{add-mod_right}
use wasm_dbms.Prelude.{ℕ, suc, ◌+◌, ◌≤◌, ◌<◌, ◌≡◌, refl, sym, ap, ◌∙◌, arith}
use mathlib.Core.Path.{subst}
use wasm_dbms.Prelude.{List, [], ◌∷◌, ◌++◌, reverse, length, replicate, All, inl, inr}
use wasm_dbms.Prelude.{length-append, length-replicate}
use wasm_dbms.Prelude.Result.{ok}
use wasm_dbms.Encode.{Page, PageOffset, Encode}
use wasm_dbms.Memory.Exec.{Exec, ◌>>◌}
use wasm_dbms.Memory.Provider.{MemoryProvider, IsProvider}
use wasm_dbms.Memory.Manager
use wasm_dbms.Memory.Manager.{round_up, is_unallocated}
use wasm_dbms.Memory.Manager.Effects.{Writes-zero_page, Writes-write_at_raw, Writes-zero_raw}
use wasm_dbms.Memory.Manager.Effects.{Writes-zero, Writes-write_at, align_up_lem}
use wasm_dbms.Memory.Manager.Effects.{HasRoom, HasRoom-same, Writes}
use wasm_dbms.Memory.Manager.Reads.{KeepsBytes-read_at_raw, KeepsBytes-read_at}
use wasm_dbms.Memory.Manager.Reads.{one_more_page, grow_one_page_lem}
use wasm_dbms.Journal
use wasm_dbms.Journal.{
  JournalEntry, Journal, JournaledWriter, record_original, replay, rollback, on_mm,
}
use wasm_dbms.Journal.Undo.{
  undo, IsInPages, IsInPages-le, undo-append, replay-undo, length_padded, IsUndoable,
  journaled-IsUndoable,
}

-- A call of the writer, by whoever holds it. Reads are calls too: a provider may keep a cache.
pub data Op : Type 1 where
  grow_one_page : Op
  zero_page : Page → Op
  read_at : (D : Type 0) → Encode D → Page → PageOffset → Op
  write_at : (D : Type 0) → Encode D → Page → PageOffset → D → Op
  write_at_raw : Page → PageOffset → List ℕ → Op
  zero_at : (D : Type 0) → Encode D → Page → PageOffset → D → Op
  zero_raw : Page → PageOffset → PageOffset → Op
  read_at_raw : Page → PageOffset → List ℕ → Op

-- The writes whose footprint lies in one page, and of values whose `size` is that of their encoding.
abbrev pub IsInPage : ℕ → Op → Type 0
IsInPage ps (write_at D e page offset a) =
    (0 < e.alignment)
    × (length (e.encode a) ≡ e.size a)
    × (offset + round_up e.alignment (e.size a) ≤ ps)
IsInPage ps (write_at_raw page offset buf) = offset + length buf ≤ ps
IsInPage ps (zero_at D e page offset a) =
    (0 < e.alignment) × (offset + round_up e.alignment (e.size a) ≤ ps)
IsInPage ps (zero_raw page offset len) = offset + len ≤ ps
IsInPage ps _ = Unit

-- The pages that must be free before a call, for `k` to be free after it.
abbrev pub with_grow : Op → ℕ → ℕ
with_grow grow_one_page k = suc k
with_grow _ k = k

abbrev pub count_grows : List Op → ℕ
count_grows [] = 0
count_grows (op ∷ ops) = with_grow op (count_grows ops)

module _ {P : Type 0} (mp : MemoryProvider P) where
  -- The state after a call, whatever it returned.
  unfoldable pub step : Op → JournaledWriter P → JournaledWriter P
  step grow_one_page w = (Journal.grow_one_page mp w).1
  step (zero_page page) w = (Journal.zero_page mp page w).1
  step (read_at D e page offset) w = (Journal.read_at mp D e page offset w).1
  step (write_at D e page offset a) w = (Journal.write_at mp D e page offset a w).1
  step (write_at_raw page offset buf) w = (Journal.write_at_raw mp page offset buf w).1
  step (zero_at D e page offset a) w = (Journal.zero mp D e page offset a w).1
  step (zero_raw page offset len) w = (Journal.zero_raw mp page offset len w).1
  step (read_at_raw page offset buf) w = (Journal.read_at_raw mp page offset buf w).1

  unfoldable pub run : List Op → JournaledWriter P → JournaledWriter P
  run [] w = w
  run (op ∷ ops) w = run ops (step op w)

module _ {P : Type 0} {mp : MemoryProvider P} {bytes : P → List ℕ} (L : IsProvider mp bytes) where
  recorded-IsUndoable :
      (m : Exec P (Unit {0})) (page offset len : ℕ) (buf : List ℕ) {b0 : List ℕ} {k : ℕ}
      (w : JournaledWriter P)
      → length buf ≡ len
      → offset + len ≤ mp.page_size
      → ((p : P) → HasRoom mp bytes k p → Writes mp bytes page offset buf p (m p))
      → IsUndoable mp bytes b0 k w
      → IsUndoable mp bytes b0 k ((record_original mp page offset len >> on_mm mp m) w).1
  recorded-IsUndoable m page offset len buf {b0} {k} w e fits effect u =
      subst
        (λ (n : ℕ). IsUndoable mp bytes b0 k ((record_original mp page offset n >> on_mm mp m) w).1)
        e (journaled-IsUndoable L m page offset buf w (omega arith) effect u)

  same-IsUndoable :
      {b0 : List ℕ} {k : ℕ} (w : JournaledWriter P) (p : P)
      → bytes p ≡ bytes w.mm
      → IsUndoable mp bytes b0 k w
      → IsUndoable mp bytes b0 k (record w { mm = p })
  same-IsUndoable w p same u =
      let (room, pages) = HasRoom-same L u.room p (ap length same) in
      record {
        room = room;
        in_pages =
            IsInPages-le mp.page_size (reverse w.journal.entries) (omega (arith, pages)) u.in_pages;
        extra = u.extra;
        undoes = rw same u.undoes;
      }

  grown-IsUndoable :
      {b0 : List ℕ} {k : ℕ} (w : JournaledWriter P) (p : P)
      → bytes p ≡ bytes w.mm ++ replicate mp.page_size 0
      → IsUndoable mp bytes b0 (suc k) w
      → IsUndoable mp bytes b0 k (record w { mm = p })
  grown-IsUndoable {b0} w p more u =
      let es = reverse w.journal.entries in
      let len : length (bytes p) ≡ length (bytes w.mm) + mp.page_size =
        rw (more, length-append) (omega (arith, length-replicate {A = ℕ} mp.page_size 0)) in
      let page =
        one_more_page L (length (bytes w.mm)) mp.page_size L.page_size_pos u.room.whole_pages in
      let pages : mp.pages p ≡ mp.pages w.mm + 1 = rw (L.pages_lem, L.pages_lem, len) page.0 in
      record {
        room = record {
          page_size_lt = u.room.page_size_lt;
          whole_pages = rw (len, add-mod_right) u.room.whole_pages;
          length_le = grind (arith, u.room.length_le, len);
        };
        in_pages = IsInPages-le mp.page_size es (omega (arith, pages)) u.in_pages;
        extra = u.extra ++ replicate mp.page_size 0;
        undoes =
            ap (undo mp.page_size es) more
            ∙ undo-append mp.page_size es (bytes w.mm) (replicate mp.page_size 0)
                (subst (λ (n : ℕ). All (IsInPages mp.page_size n) es) (L.pages_lem w.mm) u.in_pages)
            ∙ ap (λ t. t ++ replicate mp.page_size 0) u.undoes
            ∙ append_assoc b0 u.extra (replicate mp.page_size 0);
      }

  fewer-IsUndoable :
      {b0 : List ℕ} {k : ℕ} {w : JournaledWriter P}
      → IsUndoable mp bytes b0 (suc k) w
      → IsUndoable mp bytes b0 k w
  fewer-IsUndoable u = record {
    room = record {
      page_size_lt = u.room.page_size_lt;
      whole_pages = u.room.whole_pages;
      length_le = grind (arith, u.room.length_le);
    };
    in_pages = u.in_pages;
    extra = u.extra;
    undoes = u.undoes;
  }

  step-IsUndoable :
      (op : Op) {b0 : List ℕ} {k : ℕ} (w : JournaledWriter P)
      → IsInPage mp.page_size op
      → IsUndoable mp bytes b0 (with_grow op k) w
      → IsUndoable mp bytes b0 k (step mp op w)
  unfolding step
  step-IsUndoable grow_one_page w fits u =
      unfold Journal.grow_one_page in
      (elim (grow_one_page_lem L u.room) [
        | inl (_, same) ↦ same-IsUndoable w _ same (fewer-IsUndoable u)
        | inr (_, more) ↦ grown-IsUndoable w _ more u
      ])
  step-IsUndoable (zero_page page) w fits u =
      unfold Journal.zero_page in
      recorded-IsUndoable (Manager.zero_page mp page) page 0 mp.page_size _ w
        (length-replicate mp.page_size 0) (omega arith) (λ p room. Writes-zero_page L room page) u
  step-IsUndoable (read_at D e page offset) w fits u =
      unfold Journal.read_at in
      same-IsUndoable w _ ((KeepsBytes-read_at L D e page offset).at w.mm) u
  step-IsUndoable (write_at D e page offset a) w (pos, law, fits) u =
      unfold Journal.write_at in
      rw (align_up_lem e.alignment (e.size a) pos, step, Journal.write_at)
        (recorded-IsUndoable (Manager.write_at mp D e page offset a) page offset
          (round_up e.alignment (e.size a)) _ w (length_padded e a pos law) fits
          (λ p room. Writes-write_at L room D e page offset a pos) u)
  step-IsUndoable (write_at_raw page offset buf) w fits u =
      unfold Journal.write_at_raw in
      recorded-IsUndoable (Manager.write_at_raw mp page offset buf) page offset (length buf) buf w
        refl fits (λ p room. Writes-write_at_raw L room page offset buf) u
  step-IsUndoable (zero_at D e page offset a) w (pos, fits) u =
      unfold Journal.zero in
      rw (align_up_lem e.alignment (e.size a) pos, step, Journal.zero)
        (recorded-IsUndoable (Manager.zero mp D e page offset a) page offset
          (round_up e.alignment (e.size a)) _ w
          (length-replicate (round_up e.alignment (e.size a)) 0) fits
          (λ p room. Writes-zero L room D e page offset a pos) u)
  step-IsUndoable (zero_raw page offset len) w fits u =
      unfold Journal.zero_raw in
      recorded-IsUndoable (Manager.zero_raw mp page offset len) page offset len _ w
        (length-replicate len 0) fits (λ p room. Writes-zero_raw L room page offset len) u
  step-IsUndoable (read_at_raw page offset buf) w fits u =
      unfold Journal.read_at_raw in
      same-IsUndoable w _ ((KeepsBytes-read_at_raw L page offset buf).at w.mm) u

  run-IsUndoable :
      (ops : List Op) {b0 : List ℕ} (w : JournaledWriter P)
      → All (IsInPage mp.page_size) ops
      → IsUndoable mp bytes b0 (count_grows ops) w
      → IsUndoable mp bytes b0 0 (run mp ops w)
  unfolding run
  run-IsUndoable [] w fits u = u
  run-IsUndoable (op ∷ ops) w (fit, fits) u =
      run-IsUndoable ops (step mp op w) fits (step-IsUndoable op w fit u)

  -- From any memory of whole pages, with room for the pages that the calls may add: whatever calls
  -- of the writer are made with a new journal, each returning or failing, and each write of them
  -- with a footprint inside one page, rolling the journal back succeeds, and leaves the memory as it
  -- was, up to pages added behind it.
  pub rollback-run :
      (ops : List Op) (p : P)
      → HasRoom mp bytes (count_grows ops) p
      → All (IsInPage mp.page_size) ops
      → let w = run mp ops (record { mm = p; journal = Journal.new }) in
        ((rollback mp w.journal w.mm).0 ≡ ok tt)
        × ((extra : List ℕ) × (bytes (rollback mp w.journal w.mm).1 ≡ bytes p ++ extra))
  unfolding rollback
  rollback-run ops p room fits =
      let w = run mp ops (record { mm = p; journal = Journal.new }) in
      let u =
        run-IsUndoable ops {b0 = bytes p} (record { mm = p; journal = Journal.new }) fits
          (record {
            room = room;
            in_pages = tt;
            extra = [];
            undoes = sym (append-nil (bytes p));
          }) in
      let (done, after) = replay-undo L (reverse w.journal.entries) u.room u.in_pages in
      (done, (u.extra, after ∙ u.undoes))
