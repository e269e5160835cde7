-- ===== src/Index/View/Search.antt =====
-- The binary search of a view, on entries that a test parts in two.
use wasm_dbms.Prelude.{
  ℕ, zero, suc, ◌+◌, ◌-◌, ◌/◌, ◌≤◌, ◌<◌, ◌≡◌, refl, ap, arith, All, List, [], ◌∷◌, ◌++◌, length,
  length-append, get_elem?, Bool, true, false, some, ltb, Bool-cases, ltb→le, ltb→lt, inl, inr,
}
use wasm_dbms.Prelude.Slices.{slice}
use wasm_dbms.Prelude.Bytes.{from_le_bytes}
use wasm_dbms.Prelude.Result.{ok}
use wasm_dbms.Encode.{MemoryResult}
use wasm_dbms.Index.Key.{Key}
use wasm_dbms.Index.Node.{Entry, key_bytes}
use wasm_dbms.Index.Node.Codec.{IsEntry, entries_bytes}
use wasm_dbms.Index.View.{
  NodeView, NodeKind, key_at, partition_loop, partition_point, key_range, len,
}
use wasm_dbms.Index.View.Entries.{offsets_of, offset_at}

module _ {A : Type 0} (P Q : A → Type 0) where
  -- An element of either part, as its place tells.
  at_front :
      (front back : List A) (i : ℕ)
      → All P front
      → i < length front
      → (x : A) × (get_elem? (front ++ back) i ≡ some x) × P x
  at_front [] back i h lt = absurd (omega arith)
  at_front (a ∷ front) back zero h lt = (a, refl, h.0)
  at_front (a ∷ front) back (suc i) h lt = at_front front back i h.1 (omega arith)

  at_back :
      (front back : List A) (i : ℕ)
      → All Q back
      → length front ≤ i
      → i < length (front ++ back)
      → (x : A) × (get_elem? (front ++ back) i ≡ some x) × Q x
  at_back [] [] i h le lt = absurd (omega arith)
  at_back [] (b ∷ back) zero h le lt = (b, refl, h.0)
  at_back [] (b ∷ back) (suc i) h le lt = at_back [] back i h.1 (omega arith) (omega arith)
  at_back (a ∷ front) back zero h le lt = absurd (omega arith)
  at_back (a ∷ front) back (suc i) h le lt = at_back front back i h (omega arith) (omega arith)

module _ {K : Type 0} (key : Key K) {T : Type 0} (target_size : ℕ)
    (encode_target : T → List ℕ) where
  -- The view has the entries: their number, their keys, and their targets behind the keys.
  pub record Shows (view : NodeView) (entries : List (Entry K T)) : Type 0 where
    pub len_lem : len view ≡ length entries
    pub key_lem :
        (i : ℕ) (entry : Entry K T)
        → get_elem? entries i ≡ some entry
        → key_at key view i ≡ ok entry.key
    pub target_lem :
        (i : ℕ) (entry : Entry K T)
        → get_elem? entries i ≡ some entry
        → (start after : ℕ) × (key_range view i ≡ ok (start, after))
          × (slice after target_size view.buf ≡ encode_target entry.target)

  module _ (view : NodeView) (front back : List (Entry K T)) (pred : K → Bool)
      (shows : Shows view (front ++ back)) (all_front : All (λ e. pred e.key ≡ true) front)
      (all_back : All (λ e. pred e.key ≡ false) back) where
    partition_loop_lem :
        (fuel low high : ℕ)
        → low ≤ length front
        → length front ≤ high
        → high ≤ length (front ++ back)
        → high - low < fuel
        → partition_loop key fuel pred view low high ≡ ok (length front)
    unfolding partition_loop
    partition_loop_lem zero low high above below inside enough = absurd (omega arith)
    partition_loop_lem (suc fuel) low high above below inside enough =
        elim (Bool-cases (ltb low high)) [
          | inr done ↦ rw (done, partition_loop) (ap ok (omega (arith, ltb→le low high done)))
          | inl more ↦
              let less : low < high = ltb→lt low high more in
              let mid = low + (high - low) / 2 in
              elim (Bool-cases (ltb mid (length front))) [
                | inl before ↦
                    let (x, at, t) =
                      at_front (λ e. pred e.key ≡ true) (λ e. pred e.key ≡ true) front back mid
                        all_front (ltb→lt mid (length front) before) in
                    rw (more, shows.key_lem mid x at, t, partition_loop)
                      (partition_loop_lem fuel (mid + 1) high
                        (omega (arith, ltb→lt mid (length front) before)) below inside
                        (omega arith))
                | inr past ↦
                    let (x, at, t) =
                      at_back (λ e. pred e.key ≡ true) (λ e. pred e.key ≡ false) front back mid
                        all_back (ltb→le mid (length front) past) (omega arith) in
                    rw (more, shows.key_lem mid x at, t, partition_loop)
                      (partition_loop_lem fuel low mid above (ltb→le mid (length front) past)
                        (omega arith) (omega arith))
              ]
        ]

    -- The search ends within its fuel at the first entry that fails the test.
    pub partition_point_lem : partition_point key pred view ≡ ok (length front)
    unfolding partition_point
    partition_point_lem =
        partition_loop_lem (len view + 1) 0 (len view) (omega arith)
          (omega (arith, shows.len_lem, length-append front back)) (omega (arith, shows.len_lem))
          (omega arith)

  length_offsets :
      (header_size : ℕ) (entries : List (Entry K T)) (offset : ℕ)
      → length (offsets_of key header_size target_size encode_target offset entries)
        ≡ length entries
  length_offsets header_size [] offset = refl
  length_offsets header_size (entry ∷ entries) offset =
      ap suc (
        length_offsets header_size entries
          (offset + 2 + length (key_bytes key entry) + target_size))

  range_lem :
      (view : NodeView) (pos i n : ℕ)
      → get_elem? view.key_offsets i ≡ some (pos + 2)
      → from_le_bytes (slice pos 2 view.buf) ≡ n
      → key_range view i ≡ ok (pos + 2, pos + 2 + n)
  range_lem view pos i n offset size =
      let start : pos + 2 - 2 ≡ pos = omega arith in rw (offset, start, size, key_range) refl

  -- The view of a page with the entries at that place.
  abbrev pub page : List (Entry K T) → (pre rest : List ℕ) → ℕ → NodeKind → NodeView
  page entries pre rest header_size kind = record {
    buf = pre ++ (entries_bytes key header_size target_size encode_target entries ++ rest);
    kind = kind;
    key_offsets = offsets_of key header_size target_size encode_target (length pre) entries;
  }

  pub Shows-entries :
      (header_size : ℕ) (decode_target : List ℕ → MemoryResult T) (kind : NodeKind)
      (entries : List (Entry K T)) (pre rest : List ℕ)
      → All (IsEntry key header_size target_size encode_target decode_target) entries
      → Shows (page entries pre rest header_size kind) entries
  unfolding key_at
  Shows-entries header_size decode_target kind entries pre rest hs =
      let place =
        offset_at key header_size target_size encode_target decode_target entries pre rest in
      record {
        len_lem = length_offsets header_size entries (length pre);
        key_lem = λ i entry at.
            let (pos, offset, here, is) = place i entry hs at in
            let n = length (key_bytes key entry) in
            let size : pos + 2 + n - (pos + 2) ≡ n = omega arith in
            rw
              (
                range_lem (page entries pre rest header_size kind) pos i n offset here.key_size_lem,
                size,
                here.key_lem,
                key_at,
              )
              is.decode_key;
        target_lem = λ i entry at.
            let (pos, offset, here, is) = place i entry hs at in
            (
              pos + 2,
              pos + 2 + length (key_bytes key entry),
              range_lem (page entries pre rest header_size kind) pos i
                  (length (key_bytes key entry)) offset here.key_size_lem,
              here.target_lem,
            );
      }
