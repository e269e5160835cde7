-- ===== src/Index/View.antt =====
-- index_ledger/index_tree/node_view.rs: a view of a node's page that decodes its keys on demand.
pub mod Entries
pub mod Search
pub mod Child
use wasm_dbms.Prelude.{
  ℕ, zero, suc, ◌+◌, ◌-◌, ◌/◌, List, [], ◌∷◌, length, get_elem?, Bool, true, false, Option, none,
  some, ltb, ◌==◌, if◌then◌else◌,
}
use wasm_dbms.Prelude.Slices.{slice}
use wasm_dbms.Prelude.Bytes.{from_le_bytes}
use wasm_dbms.Prelude.Result
use wasm_dbms.Prelude.Result.{ok, err, panic}
use wasm_dbms.Encode.{Page, MemoryResult, decode_error, too_short}
use wasm_dbms.Registry.Record.{RecordAddress, decode_address}
use wasm_dbms.Index.Key.{Key, le}
use wasm_dbms.Index.Node.{
  internal_header_size, leaf_header_size, record_pointer_size, child_page_size, read_page, unlink,
}

pub data NodeKind : Type 0 where
  internal : (rightmost_child : Page) → NodeKind
  leaf : (prev_leaf next_leaf : Option Page) → NodeKind

pub record NodeView : Type 0 where
  pub buf : List ℕ
  pub kind : NodeKind
  pub key_offsets : List ℕ

-- The loop of `parse` over the entries left.
unfoldable pub parse_offsets : ℕ → ℕ → ℕ → List ℕ → MemoryResult (List ℕ)
parse_offsets zero tail_size offset buf = ok []
parse_offsets (suc n) tail_size offset buf =
    let key_size = from_le_bytes (slice offset 2 buf) in
    let rest = parse_offsets n tail_size (offset + 2 + (key_size + tail_size)) buf in
    if ltb (length buf) (offset + 2)
    then err (decode_error too_short)
    else if ltb (length buf) (offset + 2 + key_size + tail_size)
    then err (decode_error too_short)
    else Result.◌>>=◌ rest (λ offsets. ok ((offset + 2) ∷ offsets))

abbrev parse_kind : NodeKind → ℕ → ℕ → List ℕ → MemoryResult NodeView
unfolding parse_offsets
parse_kind kind header_size tail_size buf =
    Result.◌>>=◌ (parse_offsets (from_le_bytes (slice 5 2 buf)) tail_size header_size buf)
      λ offsets. ok (record { buf = buf; kind = kind; key_offsets = offsets })

unfoldable pub parse : List ℕ → MemoryResult NodeView
unfolding parse_kind
parse buf =
    if ltb (length buf) internal_header_size
    then err (decode_error too_short)
    else if from_le_bytes (slice 0 1 buf) == 0
    then parse_kind (internal (from_le_bytes (slice 7 4 buf))) internal_header_size child_page_size
        buf
    else if from_le_bytes (slice 0 1 buf) == 1
    then (if ltb (length buf) leaf_header_size
        then err (decode_error too_short)
        else parse_kind
            (leaf (unlink (from_le_bytes (slice 7 4 buf)))
              (unlink (from_le_bytes (slice 11 4 buf))))
            leaf_header_size record_pointer_size buf)
    else err (decode_error too_short)

abbrev pub is_leaf_page : List ℕ → Bool
is_leaf_page [] = false
is_leaf_page (b ∷ buf) = b == 1

abbrev pub len : NodeView → ℕ
len view = length view.key_offsets

abbrev is_leaf_kind : NodeKind → Bool
is_leaf_kind (internal rightmost_child) = false
is_leaf_kind (leaf prev_leaf next_leaf) = true

abbrev pub is_leaf : NodeView → Bool
is_leaf view = is_leaf_kind view.kind

abbrev kind_prev : NodeKind → Option Page
kind_prev (internal rightmost_child) = none
kind_prev (leaf prev_leaf next_leaf) = prev_leaf

abbrev kind_next : NodeKind → Option Page
kind_next (internal rightmost_child) = none
kind_next (leaf prev_leaf next_leaf) = next_leaf

abbrev pub prev_leaf : NodeView → Option Page
prev_leaf view = kind_prev view.kind

abbrev pub next_leaf : NodeView → Option Page
next_leaf view = kind_next view.kind

-- Where the key of an entry starts and ends; an index out of range panics.
abbrev pub key_range : NodeView → ℕ → MemoryResult (ℕ × ℕ)
key_range view index = elim (get_elem? view.key_offsets index) [
  | none ↦ panic
  | some start ↦ ok (start, start + from_le_bytes (slice (start - 2) 2 view.buf))
]

unfoldable pub pointer : NodeView → ℕ → MemoryResult RecordAddress
unfolding decode_address
pointer view index =
    Result.◌>>=◌ (key_range view index)
      λ range. decode_address (slice range.1 record_pointer_size view.buf)

module _ {K : Type 0} (key : Key K) where
  unfoldable pub first_leaf_key : List ℕ → MemoryResult (Option K)
  first_leaf_key buf =
      let key_size = from_le_bytes (slice leaf_header_size 2 buf) in
      if ltb (length buf) leaf_header_size
      then err (decode_error too_short)
      else if is_leaf_page buf
      then (if from_le_bytes (slice 5 2 buf) == 0
          then ok none
          else if ltb (length buf) (leaf_header_size + 2)
          then panic
          else if ltb (length buf) (leaf_header_size + 2 + key_size + record_pointer_size)
          then err (decode_error too_short)
          else Result.◌>>=◌ (key.e.decode (slice (leaf_header_size + 2) key_size buf))
              (λ k. ok (some k)))
      else err (decode_error too_short)

  unfoldable pub key_at : NodeView → ℕ → MemoryResult K
  key_at view index =
      Result.◌>>=◌ (key_range view index)
        λ range. key.e.decode (slice range.0 (range.1 - range.0) view.buf)

  -- The binary search, which halves the range, so `fuel` above its length is enough.
  unfoldable pub partition_loop : ℕ → (K → Bool) → NodeView → (low high : ℕ) → MemoryResult ℕ
  unfolding key_at
  partition_loop zero pred view low high = panic
  partition_loop (suc fuel) pred view low high =
      let mid = low + (high - low) / 2 in
      elim (ltb low high) [
        | false ↦ ok low
        | true ↦ Result.◌>>=◌ (key_at view mid) λ k. elim (pred k) [
          | true ↦ partition_loop fuel pred view (mid + 1) high
          | false ↦ partition_loop fuel pred view low mid
        ]
      ]

  unfoldable pub partition_point : (K → Bool) → NodeView → MemoryResult ℕ
  unfolding partition_loop
  partition_point pred view = partition_loop (len view + 1) pred view 0 (len view)

  abbrev pub child_of : NodeKind → K → NodeView → MemoryResult (Option Page)
  unfolding partition_point
  child_of (leaf prev_leaf next_leaf) k view = ok none
  child_of (internal rightmost_child) k view =
      Result.◌>>=◌ (partition_point (λ entry. le key entry k) view) λ index.
        if ltb index (len view)
        then Result.◌>>=◌ (key_range view index)
            (λ range. ok (some (from_le_bytes (slice range.1 4 view.buf))))
        else ok (some rightmost_child)

  unfoldable pub child_for : K → NodeView → MemoryResult (Option Page)
  unfolding child_of
  child_for k view = child_of view.kind k view
