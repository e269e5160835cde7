-- ===== src/Index/Node.antt =====
-- index_ledger/index_tree.rs: the nodes of the tree and their encoding on a page.
pub mod Codec
use wasm_dbms.Prelude.{
  ℕ, zero, suc, ◌+◌, ◌-◌, ◌%◌, List, [], ◌∷◌, ◌++◌, map, length, replicate, Bool, true, false,
}
use wasm_dbms.Prelude.{Option, none, some, ltb, ◌==◌, if◌then◌else◌}
use wasm_dbms.Prelude.Slices.{slice, splice}
use wasm_dbms.Prelude.Bytes.{to_le_bytes, from_le_bytes}
use wasm_dbms.Prelude.Result
use wasm_dbms.Prelude.Result.{ok, err, panic}
use wasm_dbms.Encode.{Page, MemoryResult, u16_mod, decode_error, too_short, key_too_large}
use wasm_dbms.Memory.Exec.{Exec, pure, lift, ◌>>=◌, ◌>>◌}
use wasm_dbms.Memory.Access.{MemoryAccess}
use wasm_dbms.Registry.Record.{RecordAddress, encode_address, decode_address}
use wasm_dbms.Index.Key.{Key}

-- `u32::MAX`
abbrev pub no_page_sentinel : Page
no_page_sentinel = 4294967295

abbrev pub internal_header_size : ℕ
internal_header_size = 11

abbrev pub leaf_header_size : ℕ
leaf_header_size = 15

abbrev pub record_pointer_size : ℕ
record_pointer_size = 6

abbrev pub child_page_size : ℕ
child_page_size = 4

-- `InternalEntry`, whose target is its child page, and `LeafEntry`, whose target is its pointer.
pub record Entry (K T : Type 0) : Type 0 where
  pub key : K
  pub target : T

pub record InternalNodeBody (K : Type 0) : Type 0 where
  pub entries : List (Entry K Page)
  pub rightmost_child : Page

pub record LeafNodeBody (K : Type 0) : Type 0 where
  pub entries : List (Entry K RecordAddress)
  pub prev_leaf : Option Page
  pub next_leaf : Option Page

pub data NodeBody (K : Type 0) : Type 0 where
  internal : InternalNodeBody K → NodeBody K
  leaf : LeafNodeBody K → NodeBody K

pub record NodeHeader : Type 0 where
  pub parent_page : Option Page
  pub num_entries : ℕ

pub record BTreeNode (K : Type 0) : Type 0 where
  pub page : Page
  pub header : NodeHeader
  pub body : NodeBody K
  pub dirty : Bool

unfoldable pub new_leaf : {K : Type 0} → Page → Option Page → BTreeNode K
new_leaf page parent_page = record {
  page = page;
  header = record { parent_page = parent_page; num_entries = 0 };
  body = leaf (record { entries = []; prev_leaf = none; next_leaf = none });
  dirty = true;
}

-- `unwrap_or(NO_PAGE_SENTINEL)`, and back.
abbrev pub link : Option Page → Page
link none = no_page_sentinel
link (some page) = page

abbrev pub unlink : Page → Option Page
unlink raw = if raw == no_page_sentinel then none else some raw

-- `leaf_entry_size_from_len` and `internal_entry_size_from_len`, with the size of what follows the key.
abbrev pub entry_size_from_len : (header_size target_size key_len page_size : ℕ) → MemoryResult ℕ
entry_size_from_len header_size target_size key_len page_size =
    if ltb 65535 key_len
    then err (key_too_large key_len 65535)
    else if ltb page_size (header_size + (2 + key_len + target_size))
    then (if ltb page_size header_size
        then panic
        else err (key_too_large (2 + key_len + target_size) (page_size - header_size)))
    else ok (2 + key_len + target_size)

module _ {K : Type 0} (key : Key K) where
  abbrev pub key_bytes : {T : Type 0} → Entry K T → List ℕ
  key_bytes entry = key.e.encode entry.key

  module _ {T : Type 0} (header_size target_size : ℕ) (encode_target : T → List ℕ) where
    -- The loop of `serialize` over the entries.
    unfoldable pub write_entries : ℕ → List (Entry K T) → ℕ → List ℕ → MemoryResult (List ℕ)
    write_entries page_size [] offset buf = ok buf
    write_entries page_size (entry ∷ entries) offset buf =
        Result.◌>>=◌
          (entry_size_from_len header_size target_size (length (key_bytes entry)) page_size)
          λ entry_size.
            let bytes =
              to_le_bytes 2 (length (key_bytes entry))
              ++ (key_bytes entry ++ encode_target entry.target) in
            let rest =
              write_entries page_size entries (offset + length bytes) (splice offset bytes buf) in
            if ltb page_size (offset + entry_size)
            then err (key_too_large entry_size (page_size - header_size))
            else rest

  abbrev pub leaf_header : NodeHeader → LeafNodeBody K → List ℕ
  leaf_header header body =
      1
      ∷ (to_le_bytes 4 (link header.parent_page)
          ++ (to_le_bytes 2 header.num_entries
              ++ (to_le_bytes 4 (link body.prev_leaf) ++ to_le_bytes 4 (link body.next_leaf))))

  abbrev pub internal_header : NodeHeader → InternalNodeBody K → List ℕ
  internal_header header body =
      0
      ∷ (to_le_bytes 4 (link header.parent_page)
          ++ (to_le_bytes 2 header.num_entries ++ to_le_bytes 4 body.rightmost_child))

  abbrev serialize_body : NodeHeader → NodeBody K → ℕ → MemoryResult (List ℕ)
  unfolding write_entries
  serialize_body header (internal body) page_size =
      if ltb page_size internal_header_size
      then panic
      else write_entries internal_header_size child_page_size (to_le_bytes 4) page_size body.entries
          internal_header_size (splice 0 (internal_header header body) (replicate page_size 0))
  serialize_body header (leaf body) page_size =
      if ltb page_size leaf_header_size
      then panic
      else write_entries leaf_header_size record_pointer_size encode_address page_size body.entries
          leaf_header_size (splice 0 (leaf_header header body) (replicate page_size 0))

  unfoldable pub serialize : BTreeNode K → ℕ → MemoryResult (List ℕ)
  unfolding serialize_body
  serialize node page_size = serialize_body node.header node.body page_size

  module _ {T : Type 0} (target_size : ℕ) (decode_target : List ℕ → MemoryResult T) where
    -- The loop of `deserialize`, with the number of entries left.
    unfoldable pub read_entries : ℕ → ℕ → List ℕ → MemoryResult (List (Entry K T))
    read_entries zero offset buf = ok []
    read_entries (suc n) offset buf =
        let key_size = from_le_bytes (slice offset 2 buf) in
        if ltb (length buf) (offset + 2)
        then err (decode_error too_short)
        else if ltb (length buf) (offset + 2 + key_size + target_size)
        then err (decode_error too_short)
        else Result.◌>>=◌ (key.e.decode (slice (offset + 2) key_size buf)) λ k.
          Result.◌>>=◌ (decode_target (slice (offset + 2 + key_size) target_size buf)) λ target.
            Result.◌>>=◌ (read_entries n (offset + 2 + key_size + target_size) buf)
              λ entries. ok (record { key = k; target = target } ∷ entries)

  abbrev pub read_page : List ℕ → ℕ → Page
  read_page buf offset = from_le_bytes (slice offset 4 buf)

  abbrev node_of : Page → List ℕ → NodeBody K → BTreeNode K
  node_of page buf body = record {
    page = page;
    header = record {
      parent_page = unlink (read_page buf 1);
      num_entries = from_le_bytes (slice 5 2 buf);
    };
    body = body;
    dirty = false;
  }

  unfoldable pub deserialize : Page → List ℕ → MemoryResult (BTreeNode K)
  unfolding read_entries
  deserialize page buf =
      let num_entries = from_le_bytes (slice 5 2 buf) in
      if ltb (length buf) internal_header_size
      then err (decode_error too_short)
      else if from_le_bytes (slice 0 1 buf) == 0
      then Result.◌>>=◌
          (read_entries child_page_size (λ b. ok (from_le_bytes b)) num_entries internal_header_size
            buf)
          (λ entries. ok (
            node_of page buf
              (internal (record { entries = entries; rightmost_child = read_page buf 7 }))))
      else if from_le_bytes (slice 0 1 buf) == 1
      then (if ltb (length buf) leaf_header_size
          then err (decode_error too_short)
          else Result.◌>>=◌
              (read_entries record_pointer_size decode_address num_entries leaf_header_size buf)
              (λ entries. ok (
                node_of page buf (
                  leaf (record {
                    entries = entries;
                    prev_leaf = unlink (read_page buf 7);
                    next_leaf = unlink (read_page buf 11);
                  })))))
      else err (decode_error too_short)

  module _ {S : Type 0} (mm : MemoryAccess S) where
    unfoldable pub read : Page → Exec S (BTreeNode K)
    unfolding deserialize
    read page =
        mm.read_at_raw page 0 (replicate mm.page_size 0) >>= λ read. lift (deserialize page read.1)

    unfoldable pub flush : BTreeNode K → Exec S (BTreeNode K)
    unfolding serialize
    flush node =
        if node.dirty
        then (lift (serialize node mm.page_size) >>= λ buf.
            mm.write_at_raw node.page 0 buf >> pure (record node { dirty = false }))
        else pure node

  -- The sizes of the entries, or the first error.
  abbrev pub entry_sizes : {T : Type 0} → ℕ → ℕ → List (Entry K T) → ℕ → MemoryResult (List ℕ)
  entry_sizes header_size target_size [] page_size = ok []
  entry_sizes header_size target_size (entry ∷ entries) page_size =
      Result.◌>>=◌
        (entry_size_from_len header_size target_size (length (key_bytes entry)) page_size)
        λ size.
          Result.◌>>=◌ (entry_sizes header_size target_size entries page_size)
            λ sizes. ok (size ∷ sizes)
