-- ===== src/Index/Node/Codec.antt =====
-- A node of the tree is read back from the page that it is encoded on.
use mathlib.Core.List.{append_assoc}
use wasm_dbms.Prelude.{
  ℕ, zero, suc, ◌+◌, ◌≤◌, ◌<◌, ◌≡◌, refl, sym, ap, ◌∙◌, arith, All, List, [], ◌∷◌, ◌++◌, length,
  length-append, take-append, drop, replicate, length-replicate, length-drop,
}
use wasm_dbms.Prelude.{Bool, Option, none, some, le→ltb, ◌==◌, false}
use wasm_dbms.Prelude.Slices.{slice, splice, splice-splice}
use wasm_dbms.Prelude.Bytes.{to_le_bytes, from_le_bytes, from_le_bytes-to_le_bytes}
use wasm_dbms.Prelude.Result.{ok}
use wasm_dbms.Encode.{Page, MemoryResult, u16_mod, u32_mod}
use wasm_dbms.Registry.Record.{RecordAddress, encode_address, decode_address}
use wasm_dbms.Index.Key.{Key}
use wasm_dbms.Index.Node.{
  Entry, write_entries, read_entries, key_bytes, entry_size_from_len, link, unlink,
  no_page_sentinel, internal_header_size, leaf_header_size, record_pointer_size, child_page_size,
  NodeBody, internal, leaf, NodeHeader, BTreeNode, LeafNodeBody, InternalNodeBody, leaf_header,
  internal_header, serialize, deserialize,
}

slice_at :
    {A : Type 0} (pre b rest xs : List A) (o n : ℕ)
    → xs ≡ pre ++ (b ++ rest)
    → o ≡ length pre
    → n ≡ length b
    → slice o n xs ≡ b
slice_at [] b rest xs o n e eo en = rw (e, eo, en) (take-append b rest)
slice_at (p ∷ pre) b rest xs o n e eo en =
    rw (e, eo) (slice_at pre b rest (pre ++ (b ++ rest)) (length pre) n refl refl en)

module _ {A : Type 0} where
  splice_empty : (off : ℕ) (xs : List A) → splice off [] xs ≡ xs
  splice_empty zero xs = refl
  splice_empty (suc off) [] = refl
  splice_empty (suc off) (x ∷ xs) = ap (λ t. x ∷ t) (splice_empty off xs)

  splice_front : (b xs : List A) → length b ≤ length xs → splice 0 b xs ≡ b ++ drop (length b) xs
  splice_front [] xs h = refl
  splice_front (c ∷ b) [] h = absurd (omega arith)
  splice_front (c ∷ b) (x ∷ xs) h = ap (λ t. c ∷ t) (splice_front b xs (omega arith))

module _ {K : Type 0} (key : Key K) {T : Type 0} (header_size target_size : ℕ)
    (encode_target : T → List ℕ) where
  abbrev pub entry_bytes : Entry K T → List ℕ
  entry_bytes entry =
      to_le_bytes 2 (length (key_bytes key entry))
      ++ (key_bytes key entry ++ encode_target entry.target)

  abbrev pub entries_bytes : List (Entry K T) → List ℕ
  entries_bytes [] = []
  entries_bytes (entry ∷ entries) = entry_bytes entry ++ entries_bytes entries

  -- An entry whose key and target are written and read back, each in its size.
  pub record IsEntry (decode_target : List ℕ → MemoryResult T) (entry : Entry K T) : Type 0 where
    pub key_fits : length (key_bytes key entry) < u16_mod
    pub decode_key : key.e.decode (key_bytes key entry) ≡ ok entry.key
    pub target_length : length (encode_target entry.target) ≡ target_size
    pub decode_target_lem : decode_target (encode_target entry.target) ≡ ok entry.target

  length-entry_bytes :
      (decode_target : List ℕ → MemoryResult T) (entry : Entry K T)
      → IsEntry decode_target entry
      → length (entry_bytes entry) ≡ 2 + length (key_bytes key entry) + target_size
  length-entry_bytes decode_target entry h =
      omega
        (arith, length-append (key_bytes key entry) (encode_target entry.target), h.target_length)

  entry_size_lem :
      (key_len page_size : ℕ)
      → key_len < u16_mod
      → header_size + (2 + key_len + target_size) ≤ page_size
      → entry_size_from_len header_size target_size key_len page_size
        ≡ ok (2 + key_len + target_size)
  entry_size_lem key_len page_size short fits =
      rw
        (
          le→ltb 65535 key_len (omega arith),
          le→ltb page_size (header_size + (2 + key_len + target_size)) fits,
        )
        refl

  write_entries_lem :
      (decode_target : List ℕ → MemoryResult T) (page_size : ℕ) (entries : List (Entry K T))
      (offset : ℕ) (buf : List ℕ)
      → All (IsEntry decode_target) entries
      → header_size ≤ offset
      → offset + length (entries_bytes entries) ≤ page_size
      → write_entries key header_size target_size encode_target page_size entries offset buf
        ≡ ok (splice offset (entries_bytes entries) buf)
  unfolding write_entries
  write_entries_lem decode_target page_size [] offset buf hs after fits =
      ap ok (sym (splice_empty offset buf))
  write_entries_lem decode_target page_size (entry ∷ entries) offset buf (h, hs) after fits =
      let bytes = entry_bytes entry in
      let n = length (key_bytes key entry) in
      let size : length bytes ≡ 2 + n + target_size = length-entry_bytes decode_target entry h in
      let total : length (bytes ++ entries_bytes entries)
          ≡ length bytes + length (entries_bytes entries) =
        length-append bytes (entries_bytes entries) in
      let rest : write_entries key header_size target_size encode_target page_size entries
            (offset + length bytes) (splice offset bytes buf)
          ≡ ok (splice offset (bytes ++ entries_bytes entries) buf) =
        write_entries_lem decode_target page_size entries (offset + length bytes)
          (splice offset bytes buf) hs (omega arith) (omega (arith, total))
        ∙ ap ok (splice-splice offset bytes (entries_bytes entries) buf) in
      rw
        (
          entry_size_lem n page_size h.key_fits (omega (arith, total, size)),
          le→ltb page_size (offset + (2 + n + target_size)) (omega (arith, total, size)),
        )
        rest

  -- The entry stands at that place of a page.
  pub record EntryAt (buf : List ℕ) (pos : ℕ) (entry : Entry K T) : Type 0 where
    pub key_size_lem : from_le_bytes (slice pos 2 buf) ≡ length (key_bytes key entry)
    pub key_lem : slice (pos + 2) (length (key_bytes key entry)) buf ≡ key_bytes key entry
    pub target_lem :
        slice (pos + 2 + length (key_bytes key entry)) target_size buf ≡ encode_target entry.target
    pub inside : pos + 2 + length (key_bytes key entry) + target_size ≤ length buf

  pub EntryAt-append :
      (decode_target : List ℕ → MemoryResult T) (entry : Entry K T) (pre more buf : List ℕ)
      → IsEntry decode_target entry
      → buf ≡ pre ++ (entry_bytes entry ++ more)
      → EntryAt buf (length pre) entry
  EntryAt-append decode_target entry pre more buf h e =
      let n = length (key_bytes key entry) in
      let len = to_le_bytes 2 n in
      let k = key_bytes key entry in
      let t = encode_target entry.target in
      let at_len : buf ≡ pre ++ (len ++ (k ++ (t ++ more))) =
        e
        ∙ ap (λ x. pre ++ x)
            (append_assoc len (k ++ t) more ∙ ap (λ x. len ++ x) (append_assoc k t more)) in
      let at_key : buf ≡ (pre ++ len) ++ (k ++ (t ++ more)) =
        at_len ∙ sym (append_assoc pre len (k ++ (t ++ more))) in
      let at_target : buf ≡ ((pre ++ len) ++ k) ++ (t ++ more) =
        at_key ∙ sym (append_assoc (pre ++ len) k (t ++ more)) in
      let o1 : length (pre ++ len) ≡ length pre + 2 = length-append pre len in
      let o2 : length ((pre ++ len) ++ k) ≡ length pre + 2 + n =
        omega (arith, o1, length-append (pre ++ len) k) in
      let s1 : slice (length pre) 2 buf ≡ len =
        slice_at pre len (k ++ (t ++ more)) buf (length pre) 2 at_len refl refl in
      record {
        key_size_lem = ap from_le_bytes s1 ∙ from_le_bytes-to_le_bytes 2 n h.key_fits;
        key_lem = slice_at (pre ++ len) k (t ++ more) buf (length pre + 2) n at_key (sym o1) refl;
        target_lem =
            slice_at ((pre ++ len) ++ k) t more buf (length pre + 2 + n) target_size at_target
              (sym o2) (sym h.target_length);
        inside = omega (
          arith,
          ap length at_target,
          o2,
          length-append ((pre ++ len) ++ k) (t ++ more),
          length-append t more,
          h.target_length,
        );
      }

  -- The entry after one starts where that one ends.
  pub append_next :
      (decode_target : List ℕ → MemoryResult T) (entry : Entry K T) (entries : List (Entry K T))
      (pre rest : List ℕ)
      → IsEntry decode_target entry
      → (pre ++ (entries_bytes (entry ∷ entries) ++ rest)
          ≡ (pre ++ entry_bytes entry) ++ (entries_bytes entries ++ rest))
        × (length (pre ++ entry_bytes entry)
            ≡ length pre + 2 + length (key_bytes key entry) + target_size)
  append_next decode_target entry entries pre rest h = (
    rw (append_assoc (entry_bytes entry) (entries_bytes entries) rest)
        (sym (append_assoc pre (entry_bytes entry) (entries_bytes entries ++ rest))),
    omega (arith, length-append pre (entry_bytes entry), length-entry_bytes decode_target entry h),
  )

  pub EntryAt-first :
      (decode_target : List ℕ → MemoryResult T) (entry : Entry K T) (entries : List (Entry K T))
      (pre rest : List ℕ)
      → IsEntry decode_target entry
      → EntryAt (pre ++ (entries_bytes (entry ∷ entries) ++ rest)) (length pre) entry
  EntryAt-first decode_target entry entries pre rest h =
      EntryAt-append decode_target entry pre (entries_bytes entries ++ rest)
        (pre ++ (entries_bytes (entry ∷ entries) ++ rest)) h
        (ap (λ x. pre ++ x) (append_assoc (entry_bytes entry) (entries_bytes entries) rest))

  read_entries_lem :
      (decode_target : List ℕ → MemoryResult T) (entries : List (Entry K T)) (pre rest : List ℕ)
      → All (IsEntry decode_target) entries
      → read_entries key target_size decode_target
          (length entries)
          (length pre)
          (pre ++ (entries_bytes entries ++ rest))
        ≡ ok entries
  unfolding read_entries
  read_entries_lem decode_target [] pre rest hs = refl
  read_entries_lem decode_target (entry ∷ entries) pre rest (h, hs) =
      let buf = pre ++ (entries_bytes (entry ∷ entries) ++ rest) in
      let here = EntryAt-first decode_target entry entries pre rest h in
      let (at_rest, after) = append_next decode_target entry entries pre rest h in
      let n = length (key_bytes key entry) in
      let again : read_entries key target_size decode_target (length entries)
            (length pre + 2 + n + target_size) buf
          ≡ ok entries =
        rw (← after, at_rest)
          (read_entries_lem decode_target entries (pre ++ entry_bytes entry) rest hs) in
      rw
        (
          here.key_size_lem,
          le→ltb (length buf) (length pre + 2) (omega (arith, here.inside)),
          le→ltb (length buf) (length pre + 2 + n + target_size) here.inside,
          here.key_lem,
          h.decode_key,
          here.target_lem,
          h.decode_target_lem,
          again,
        )
        refl

-- A page that is missing, or that the sentinel does not stand for.
abbrev pub IsLink : Option Page → Type 0
IsLink none = Unit
IsLink (some page) = page < no_page_sentinel

sentinel_ne : (page : Page) → page < no_page_sentinel → (page == no_page_sentinel) ≡ false
sentinel_ne page h = ground arith

unlink-link : (p : Option Page) → IsLink p → unlink (from_le_bytes (to_le_bytes 4 (link p))) ≡ p
unlink-link none h = refl
unlink-link (some page) h =
    rw (from_le_bytes-to_le_bytes 4 page (omega arith), sentinel_ne page h) refl

module _ {K : Type 0} (key : Key K) where
  abbrev pub decode_page : List ℕ → MemoryResult Page
  decode_page b = ok (from_le_bytes b)

  abbrev pub IsInternalEntry : Entry K Page → Type 0
  IsInternalEntry = IsEntry key internal_header_size child_page_size (to_le_bytes 4) decode_page

  abbrev pub IsLeafEntry : Entry K RecordAddress → Type 0
  IsLeafEntry = IsEntry key leaf_header_size record_pointer_size encode_address decode_address

  abbrev pub internal_bytes : List (Entry K Page) → List ℕ
  internal_bytes = entries_bytes key internal_header_size child_page_size (to_le_bytes 4)

  abbrev pub leaf_bytes : List (Entry K RecordAddress) → List ℕ
  leaf_bytes = entries_bytes key leaf_header_size record_pointer_size encode_address

  -- The body of a node with that many entries that fits a page.
  abbrev pub IsBody : ℕ → ℕ → NodeBody K → Type 0
  IsBody num_entries page_size (internal b) =
      (num_entries ≡ length b.entries)
      × All IsInternalEntry b.entries
      × (b.rightmost_child < u32_mod)
      × (internal_header_size + length (internal_bytes b.entries) ≤ page_size)
  IsBody num_entries page_size (leaf b) =
      (num_entries ≡ length b.entries)
      × All IsLeafEntry b.entries
      × IsLink b.prev_leaf
      × IsLink b.next_leaf
      × (leaf_header_size + length (leaf_bytes b.entries) ≤ page_size)

  pub record IsNode (page_size : ℕ) (node : BTreeNode K) : Type 0 where
    pub parent_lem : IsLink node.header.parent_page
    pub count_fits : node.header.num_entries < u16_mod
    pub is_body : IsBody node.header.num_entries page_size node.body

  header_front :
      (header ents : List ℕ) (page_size : ℕ)
      → length header + length ents ≤ page_size
      → splice (length header) ents (splice 0 header (replicate page_size 0))
        ≡ header ++ (ents ++ drop (length (header ++ ents)) (replicate page_size 0))
  header_front header ents page_size h =
      let zero_start : 0 + length header ≡ length header = omega arith in
      ap (λ (o : ℕ). splice o ents (splice 0 header (replicate page_size 0))) (sym zero_start)
      ∙ splice-splice 0 header ents (replicate page_size 0)
      ∙ splice_front (header ++ ents) (replicate page_size 0)
          (omega (arith, length-append header ents, length-replicate {A = ℕ} page_size 0))
      ∙ append_assoc header ents (drop (length (header ++ ents)) (replicate page_size 0))

  length-page :
      (header ents : List ℕ) (page_size : ℕ)
      → length header + length ents ≤ page_size
      → length (header ++ (ents ++ drop (length (header ++ ents)) (replicate page_size 0)))
        ≡ page_size
  length-page header ents page_size h =
      let pad : List ℕ = drop (length (header ++ ents)) (replicate page_size 0) in
      omega (
        arith,
        length-append header (ents ++ pad),
        length-append ents pad,
        length-append header ents,
        length-drop {A = ℕ} (length (header ++ ents)) (replicate page_size 0),
        length-replicate {A = ℕ} page_size 0,
      )

  pub serialize_leaf :
      (page : Page) (h : NodeHeader) (b : LeafNodeBody K) (dirty : Bool) (page_size : ℕ)
      → IsBody h.num_entries page_size (leaf b)
      → serialize key (record { page = page; header = h; body = leaf b; dirty = dirty }) page_size
        ≡ ok (
            leaf_header key h b
            ++ (leaf_bytes b.entries
                ++ drop
                    (length (leaf_header key h b ++ leaf_bytes b.entries))
                    (replicate page_size 0)))
  unfolding serialize
  serialize_leaf page h b dirty page_size (num, es, prev, next, fits) =
      rw
        (
          le→ltb page_size leaf_header_size (omega arith),
          write_entries_lem key leaf_header_size record_pointer_size encode_address decode_address
              page_size b.entries leaf_header_size
              (splice 0 (leaf_header key h b) (replicate page_size 0)) es (omega arith) fits,
        )
        (ap ok (header_front (leaf_header key h b) (leaf_bytes b.entries) page_size fits))

  deserialize_leaf :
      (page : Page) (h : NodeHeader) (b : LeafNodeBody K) (pad : List ℕ)
      → IsLink h.parent_page
      → h.num_entries < u16_mod
      → h.num_entries ≡ length b.entries
      → All IsLeafEntry b.entries
      → IsLink b.prev_leaf
      → IsLink b.next_leaf
      → deserialize key page (leaf_header key h b ++ (leaf_bytes b.entries ++ pad))
        ≡ ok (record { page = page; header = h; body = leaf b; dirty = false })
  unfolding deserialize
  deserialize_leaf page h b pad parent small num es prev next =
      let buf = leaf_header key h b ++ (leaf_bytes b.entries ++ pad) in
      let total : length buf ≡ leaf_header_size + length (leaf_bytes b.entries ++ pad) =
        length-append (leaf_header key h b) (leaf_bytes b.entries ++ pad) in
      let count : from_le_bytes (to_le_bytes 2 h.num_entries) ≡ length b.entries =
        from_le_bytes-to_le_bytes 2 h.num_entries small ∙ num in
      let entries =
        read_entries_lem key leaf_header_size record_pointer_size encode_address decode_address
          b.entries (leaf_header key h b) pad es in
      rw
        (
          le→ltb (length buf) internal_header_size (omega (arith, total)),
          le→ltb (length buf) leaf_header_size (omega (arith, total)),
          count,
          entries,
          unlink-link h.parent_page parent,
          unlink-link b.prev_leaf prev,
          unlink-link b.next_leaf next,
        )
        (ap
          (λ (n : ℕ). ok (record {
            page = page;
            header = record h { num_entries = n };
            body = leaf b;
            dirty = false;
          }))
          (sym num))

  pub serialize_internal :
      (page : Page) (h : NodeHeader) (b : InternalNodeBody K) (dirty : Bool) (page_size : ℕ)
      → IsBody h.num_entries page_size (internal b)
      → serialize key
          (record { page = page; header = h; body = internal b; dirty = dirty })
          page_size
        ≡ ok (
            internal_header key h b
            ++ (internal_bytes b.entries
                ++ drop
                    (length (internal_header key h b ++ internal_bytes b.entries))
                    (replicate page_size 0)))
  unfolding serialize
  serialize_internal page h b dirty page_size (num, es, right, fits) =
      rw
        (
          le→ltb page_size internal_header_size (omega arith),
          write_entries_lem key internal_header_size child_page_size (to_le_bytes 4) decode_page
              page_size b.entries internal_header_size
              (splice 0 (internal_header key h b) (replicate page_size 0)) es (omega arith) fits,
        )
        (ap ok (header_front (internal_header key h b) (internal_bytes b.entries) page_size fits))

  deserialize_internal :
      (page : Page) (h : NodeHeader) (b : InternalNodeBody K) (pad : List ℕ)
      → IsLink h.parent_page
      → h.num_entries < u16_mod
      → h.num_entries ≡ length b.entries
      → All IsInternalEntry b.entries
      → b.rightmost_child < u32_mod
      → deserialize key page (internal_header key h b ++ (internal_bytes b.entries ++ pad))
        ≡ ok (record { page = page; header = h; body = internal b; dirty = false })
  unfolding deserialize
  deserialize_internal page h b pad parent small num es right =
      let buf = internal_header key h b ++ (internal_bytes b.entries ++ pad) in
      let total : length buf ≡ internal_header_size + length (internal_bytes b.entries ++ pad) =
        length-append (internal_header key h b) (internal_bytes b.entries ++ pad) in
      let count : from_le_bytes (to_le_bytes 2 h.num_entries) ≡ length b.entries =
        from_le_bytes-to_le_bytes 2 h.num_entries small ∙ num in
      let entries =
        read_entries_lem key internal_header_size child_page_size (to_le_bytes 4) decode_page
          b.entries (internal_header key h b) pad es in
      rw
        (
          le→ltb (length buf) internal_header_size (omega (arith, total)),
          count,
          entries,
          unlink-link h.parent_page parent,
          from_le_bytes-to_le_bytes 4 b.rightmost_child right,
        )
        (ap
          (λ (n : ℕ). ok (record {
            page = page;
            header = record h { num_entries = n };
            body = internal b;
            dirty = false;
          }))
          (sym num))

  by_body :
      (page : Page) (h : NodeHeader) (body : NodeBody K) (dirty : Bool) (page_size : ℕ)
      → IsNode page_size (record { page = page; header = h; body = body; dirty = dirty })
      → (buf : List ℕ) × (serialize key
            (record { page = page; header = h; body = body; dirty = dirty })
            page_size
          ≡ ok buf)
        × (length buf ≡ page_size)
        × (deserialize key page buf
            ≡ ok (record { page = page; header = h; body = body; dirty = false }))
  by_body page h (leaf b) dirty page_size is =
      let (num, es, prev, next, fits) = is.is_body in
      let pad : List ℕ =
        drop (length (leaf_header key h b ++ leaf_bytes b.entries)) (replicate page_size 0) in
      (
        leaf_header key h b ++ (leaf_bytes b.entries ++ pad),
        serialize_leaf page h b dirty page_size is.is_body,
        length-page (leaf_header key h b) (leaf_bytes b.entries) page_size fits,
        deserialize_leaf page h b pad is.parent_lem is.count_fits num es prev next,
      )
  by_body page h (internal b) dirty page_size is =
      let (num, es, right, fits) = is.is_body in
      let pad : List ℕ =
        drop (length (internal_header key h b ++ internal_bytes b.entries))
          (replicate page_size 0) in
      (
        internal_header key h b ++ (internal_bytes b.entries ++ pad),
        serialize_internal page h b dirty page_size is.is_body,
        length-page (internal_header key h b) (internal_bytes b.entries) page_size fits,
        deserialize_internal page h b pad is.parent_lem is.count_fits num es right,
      )

  -- A node of a page is encoded on a page of that size, from which it is read back, not dirty.
  pub deserialize-serialize :
      (node : BTreeNode K) (page_size : ℕ)
      → IsNode page_size node
      → (buf : List ℕ) × (serialize key node page_size ≡ ok buf)
        × (length buf ≡ page_size)
        × (deserialize key node.page buf ≡ ok (record node { dirty = false }))
  deserialize-serialize node page_size h =
      by_body node.page node.header node.body node.dirty page_size h
