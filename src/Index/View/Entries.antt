-- ===== src/Index/View/Entries.antt =====
-- A view of a node's page finds the entries that were written there.
use wasm_dbms.Prelude.{
  ℕ, zero, suc, ◌+◌, ◌≡◌, refl, arith, All, List, [], ◌∷◌, ◌++◌, length, get_elem?, some, le→ltb,
}
use wasm_dbms.Prelude.Result.{ok}
use wasm_dbms.Encode.{MemoryResult}
use wasm_dbms.Index.Key.{Key}
use wasm_dbms.Index.Node.{Entry, key_bytes}
use wasm_dbms.Index.Node.Codec.{
  IsEntry, EntryAt, entry_bytes, entries_bytes, EntryAt-first, append_next,
}
use wasm_dbms.Index.View.{parse_offsets}

module _ {K : Type 0} (key : Key K) {T : Type 0} (header_size target_size : ℕ)
    (encode_target : T → List ℕ) where
  -- Where the keys start, from the first entry's place on.
  abbrev pub offsets_of : ℕ → List (Entry K T) → List ℕ
  offsets_of offset [] = []
  offsets_of offset (entry ∷ entries) =
      (offset + 2) ∷ offsets_of (offset + 2 + length (key_bytes key entry) + target_size) entries

  pub parse_offsets_lem :
      (decode_target : List ℕ → MemoryResult T) (entries : List (Entry K T)) (pre rest : List ℕ)
      → All (IsEntry key header_size target_size encode_target decode_target) entries
      → parse_offsets
          (length entries)
          target_size
          (length pre)
          (pre ++ (entries_bytes key header_size target_size encode_target entries ++ rest))
        ≡ ok (offsets_of (length pre) entries)
  unfolding parse_offsets
  parse_offsets_lem decode_target [] pre rest hs = refl
  parse_offsets_lem decode_target (entry ∷ entries) pre rest (h, hs) =
      let buf =
        pre
        ++ (entries_bytes key header_size target_size encode_target (entry ∷ entries) ++ rest) in
      let here =
        EntryAt-first key header_size target_size encode_target decode_target entry entries pre rest
          h in
      let (at_rest, after) =
        append_next key header_size target_size encode_target decode_target entry entries pre rest
          h in
      let n = length (key_bytes key entry) in
      let regroup : length pre + 2 + (n + target_size) ≡ length pre + 2 + n + target_size =
        omega arith in
      let again : parse_offsets (length entries) target_size (length pre + 2 + n + target_size) buf
          ≡ ok (offsets_of (length pre + 2 + n + target_size) entries) =
        rw (← after, at_rest)
          (parse_offsets_lem decode_target entries
            (pre ++ entry_bytes key header_size target_size encode_target entry) rest hs) in
      rw
        (
          here.key_size_lem,
          le→ltb (length buf) (length pre + 2) (omega (arith, here.inside)),
          le→ltb (length buf) (length pre + 2 + n + target_size) here.inside,
          regroup,
          again,
        )
        refl

  -- The entry with an index stands at its offset.
  pub offset_at :
      (decode_target : List ℕ → MemoryResult T) (entries : List (Entry K T)) (pre rest : List ℕ)
      (i : ℕ) (entry : Entry K T)
      → All (IsEntry key header_size target_size encode_target decode_target) entries
      → get_elem? entries i ≡ some entry
      → (pos : ℕ) × (get_elem? (offsets_of (length pre) entries) i ≡ some (pos + 2))
        × EntryAt key header_size target_size encode_target
            (pre ++ (entries_bytes key header_size target_size encode_target entries ++ rest))
            pos
            entry
        × IsEntry key header_size target_size encode_target decode_target entry
  offset_at decode_target [] pre rest i entry hs at = cc
  offset_at decode_target (x ∷ entries) pre rest zero entry (h, hs) at =
      let same : x ≡ entry = cc at in
      (
        length pre,
        refl,
        rw (← same) (
            EntryAt-first key header_size target_size encode_target decode_target x entries pre rest
              h),
        rw (← same) h,
      )
  offset_at decode_target (x ∷ entries) pre rest (suc i) entry (h, hs) at =
      let (at_rest, after) =
        append_next key header_size target_size encode_target decode_target x entries pre rest h in
      rw (← after, at_rest)
        (offset_at decode_target entries
          (pre ++ entry_bytes key header_size target_size encode_target x) rest i entry hs at)
