-- ===== src/Index/Tree/Search.antt =====
-- index_ledger/index_tree.rs and walker.rs: lookups, deletion and scans. `fuel` bounds the depth of a
-- descent and the length of the chain of leaves.
use wasm_dbms.Prelude.{
  ℕ, zero, suc, ◌+◌, ◌-◌, List, [], ◌∷◌, ◌++◌, length, replicate, get_elem?, Bool, true, false, not,
  ◌&&◌, Option, none, some, ltb, ◌==◌, if◌then◌else◌,
}
use wasm_dbms.Prelude.Slices.{slice}
use wasm_dbms.Prelude.Bytes.{from_le_bytes}
use wasm_dbms.Prelude.Result
use wasm_dbms.Prelude.Result.{ok, err, panic}
use wasm_dbms.Encode.{Page, MemoryResult, entry_not_found, decode_error, invalid_discriminant}
use wasm_dbms.Memory.Exec.{Exec, pure, raise, lift, ◌>>=◌, ◌>>◌}
use wasm_dbms.Memory.Access.{MemoryAccess, unclaim_page}
use wasm_dbms.Registry.Record.{RecordAddress}
use wasm_dbms.Index.Key.{Key, eq, address_eq}
use wasm_dbms.Index.Node.{
  Entry, NodeBody, internal, leaf, LeafNodeBody, BTreeNode, deserialize, read, flush,
  internal_header_size,
}
use wasm_dbms.Index.View.{
  NodeView, parse, is_leaf, is_leaf_page, len, prev_leaf, next_leaf, first_leaf_key, key_at,
  pointer, partition_point, child_for,
}
use wasm_dbms.Index.Tree.{IndexTree, count}
use wasm_dbms.Index.Tree.Insert
use wasm_dbms.Index.Tree.Insert.{Method, on_mm}

-- What the loop over a leaf's entries does: it ends the search, or goes on to the next leaf.
pub data Collected : Type 0 where
  ended : Option (List RecordAddress) → Collected
  more : List RecordAddress → Collected

pub record IndexTreeWalker (K : Type 0) : Type 0 where
  pub entries : List (Entry K RecordAddress)
  pub cursor : ℕ
  pub next_leaf : Option Page
  pub end_key : Option K

module _ {K S : Type 0} (key : Key K) (mm : MemoryAccess S) where
  abbrev pub Buffer : Type 0
  Buffer = List ℕ

  abbrev pub read_page_into : Page → Buffer → Exec S Buffer
  read_page_into page buf = mm.read_at_raw page 0 buf >>= λ read. pure read.1

  unfoldable pub find_leaf_page_into : ℕ → Page → K → Buffer → Exec S (Page × Buffer)
  unfolding parse child_for
  find_leaf_page_into zero page k buf = lift panic
  find_leaf_page_into (suc fuel) page k buf = read_page_into page buf >>= λ buf'.
      elim (is_leaf_page buf') [
        | true ↦ pure (page, buf')
        | false ↦ lift (Result.◌>>=◌ (parse buf') (child_for key k)) >>= λ child. elim child [
          | some next ↦ find_leaf_page_into fuel next k buf'
          | none ↦ pure (page, buf')
        ]
      ]

  -- The inner loop of `find_search_start_page`: back over emptied leaves.
  unfoldable pub find_earlier : ℕ → Option Page → K → Buffer → Exec S (Option Page × Buffer)
  unfolding parse key_at
  find_earlier zero candidate k buf = lift panic
  find_earlier (suc fuel) none k buf = pure (none, buf)
  find_earlier (suc fuel) (some prev) k buf = read_page_into prev buf >>= λ buf'.
      lift (parse buf') >>= λ view. elim (len view) [
        | zero ↦ find_earlier fuel (prev_leaf view) k buf'
        | suc last ↦ lift (key_at key view last) >>= λ last_key.
            pure (if key.lt last_key k then none else some prev, buf')
      ]

  abbrev is_below : Option K → K → Bool
  is_below none k = false
  is_below (some first) k = key.lt first k

  unfoldable pub start_loop : ℕ → Page → K → Buffer → Exec S (Page × Buffer)
  unfolding first_leaf_key parse find_earlier
  start_loop zero page k buf = lift panic
  start_loop (suc fuel) page k buf = lift (first_leaf_key key buf) >>= λ first.
      elim (is_below first k) [
        | true ↦ pure (page, buf)
        | false ↦ lift (parse buf) >>= λ view.
            find_earlier (suc fuel) (prev_leaf view) k buf >>= λ found. elim found.0 [
              | some prev ↦ start_loop fuel prev k found.1
              | none ↦ elim (prev_leaf view) [
                | some p ↦ read_page_into page found.1 >>= λ buf'. pure (page, buf')
                | none ↦ pure (page, found.1)
              ]
            ]
      ]

  unfoldable pub find_search_start_page : ℕ → Page → K → Buffer → Exec S (Page × Buffer)
  unfolding find_leaf_page_into start_loop
  find_search_start_page fuel root_page k buf =
      find_leaf_page_into fuel root_page k buf >>= λ found. start_loop fuel found.0 k found.1

  unfoldable pub find_search_start_leaf : ℕ → IndexTree → K → Exec S (BTreeNode K)
  unfolding find_search_start_page deserialize
  find_search_start_leaf fuel t k =
      find_search_start_page fuel t.root_page k (replicate mm.page_size 0) >>= λ found.
      lift (deserialize key found.0 found.1)

  -- The loop over the entries of a leaf from `index` on, of which `n` are left.
  unfoldable pub collect : ℕ → ℕ → K → ℕ → NodeView → List RecordAddress → MemoryResult Collected
  unfolding key_at pointer
  collect zero index k limit view results = ok (more results)
  collect (suc n) index k limit view results = Result.◌>>=◌ (key_at key view index) λ entry_key.
      elim (eq key entry_key k) [
        | false ↦ ok (ended (some results))
        | true ↦ elim (length results == limit) [
          | true ↦ ok (ended none)
          | false ↦
              Result.◌>>=◌ (pointer view index)
                λ address. collect n (index + 1) k limit view (results ++ (address ∷ []))
        ]
      ]

  -- What one leaf adds; a page that is no leaf ends the search.
  unfoldable pub search_page :
      K → ℕ → Buffer → List RecordAddress → MemoryResult (Collected × Option Page)
  unfolding parse partition_point collect
  search_page k limit buf results = Result.◌>>=◌ (parse buf) λ view.
      if is_leaf view
      then Result.◌>>=◌ (partition_point key (λ entry. key.lt entry k) view) (λ start.
        Result.◌>>=◌ (collect (len view - start) start k limit view results)
          λ collected. ok (collected, next_leaf view))
      else ok (ended (some results), none)

  unfoldable pub search_loop :
      ℕ → K → ℕ → Buffer → List RecordAddress → Exec S (Option (List RecordAddress))
  unfolding search_page
  search_loop zero k limit buf results = lift panic
  search_loop (suc fuel) k limit buf results = lift (search_page k limit buf results) >>= λ page.
      elim page.0 [
        | ended answer ↦ pure answer
        | more results' ↦ elim page.1 [
          | none ↦ pure (some results')
          | some next ↦ read_page_into next buf >>= λ buf'. search_loop fuel k limit buf' results'
        ]
      ]

  unfoldable pub search_limited : ℕ → IndexTree → K → ℕ → Exec S (Option (List RecordAddress))
  unfolding find_search_start_page search_loop
  search_limited fuel t k limit =
      find_search_start_page fuel t.root_page k (replicate mm.page_size 0) >>= λ found.
      search_loop fuel k limit found.1 []

  -- The position of an entry, and the entries without it.
  unfoldable pub remove_entry :
      K → RecordAddress → List (Entry K RecordAddress) → Option (List (Entry K RecordAddress))
  remove_entry k address [] = none
  remove_entry k address (entry ∷ entries) =
      let rest = remove_entry k address entries in
      if eq key entry.key k && address_eq entry.target address
      then some entries
      else elim rest [ some es ↦ some (entry ∷ es) | none ↦ none ]

  abbrev first_above : NodeBody K → K → Bool
  first_above (leaf body) k = elim body.entries [
    | [] ↦ false
    | entry ∷ entries ↦ key.lt k entry.key
  ]
  first_above (internal body) k = elim body.entries [
    | [] ↦ false
    | entry ∷ entries ↦ key.lt k entry.key
  ]

  abbrev leaf_of : NodeBody K → Option (LeafNodeBody K)
  leaf_of (leaf body) = some body
  leaf_of (internal body) = none

  unfoldable pub delete_loop : ℕ → K → RecordAddress → BTreeNode K → Exec S (Unit {0})
  unfolding flush read remove_entry
  delete_loop zero k address node = lift panic
  delete_loop (suc fuel) k address node = elim (leaf_of node.body) [
    | none ↦ raise entry_not_found
    | some body ↦ elim (remove_entry k address body.entries) [
      | some entries ↦
          flush key mm (record node {
            header = record node.header { num_entries = count entries };
            body = leaf (record body { entries = entries });
            dirty = true;
          })
          >>= λ _. pure tt
      | none ↦ elim body.next_leaf [
        | none ↦ raise entry_not_found
        | some page ↦ read key mm page >>= λ next. elim (first_above next.body k) [
          | true ↦ raise entry_not_found
          | false ↦ delete_loop fuel k address next
        ]
      ]
    ]
  ]

  unfoldable pub delete : ℕ → K → RecordAddress → IndexTree → Exec S (Unit {0})
  unfolding find_search_start_leaf delete_loop
  delete fuel k address t =
      find_search_start_leaf fuel t k >>= λ node. delete_loop fuel k address node

  unfoldable pub update : ℕ → K → RecordAddress → RecordAddress → Insert.Method key mm (Unit {0})
  unfolding delete Insert.insert
  update fuel k old_address new_address (t, s) =
      (Insert.on_mm key mm (delete fuel k old_address t) >> Insert.insert key mm fuel k new_address)
        (t, s)

  -- How many entries stand before the start of the scan.
  abbrev count_below : K → List (Entry K RecordAddress) → ℕ
  count_below k [] = 0
  count_below k (entry ∷ entries) =
      let n = count_below k entries in if key.lt entry.key k then n + 1 else 0

  unfoldable pub range_scan : ℕ → IndexTree → K → Option K → Exec S (IndexTreeWalker K)
  unfolding find_search_start_leaf
  range_scan fuel t start_key end_key = find_search_start_leaf fuel t start_key >>= λ node.
      elim (leaf_of node.body) [
        | none ↦ lift panic
        | some body ↦ pure (record {
          entries = body.entries;
          cursor = count_below start_key body.entries;
          next_leaf = body.next_leaf;
          end_key = end_key;
        })
      ]

  abbrev pub is_past_end : Option K → K → Bool
  is_past_end none k = false
  is_past_end (some end_key) k = not (key.lt k end_key)

  unfoldable pub load_next_leaf : IndexTreeWalker K → Exec S (Bool × IndexTreeWalker K)
  unfolding read
  load_next_leaf w = elim w.next_leaf [
    | none ↦ pure (false, w)
    | some page ↦ read key mm page >>= λ node. elim (leaf_of node.body) [
      | none ↦ pure (false, w)
      | some body ↦
          pure (true, record w { entries = body.entries; cursor = 0; next_leaf = body.next_leaf })
    ]
  ]

  -- `next_entry`; `next` gives its pointer.
  unfoldable pub next_entry :
      ℕ → IndexTreeWalker K → Exec S (Option (Entry K RecordAddress) × IndexTreeWalker K)
  unfolding load_next_leaf
  next_entry zero w = lift panic
  next_entry (suc fuel) w = elim (get_elem? w.entries w.cursor) [
    | some entry ↦ pure (
        if is_past_end w.end_key entry.key
        then (none, w)
        else (some entry, record w { cursor = w.cursor + 1 }))
    | none ↦ load_next_leaf w >>= λ loaded. elim loaded.0 [
      | false ↦ pure (none, loaded.1)
      | true ↦ next_entry fuel loaded.1
    ]
  ]

-- The children of an internal node's page on top of the stack; a slice out of range panics.
unfoldable pub push_children : ℕ → ℕ → List ℕ → List Page → MemoryResult (List Page)
push_children zero offset buf stack = ok stack
push_children (suc n) offset buf stack =
    let key_size = from_le_bytes (slice offset 2 buf) in
    let rest =
      push_children n (offset + 2 + key_size + 4) buf
        (from_le_bytes (slice (offset + 2 + key_size) 4 buf) ∷ stack) in
    if ltb (length buf) (offset + 2)
    then panic
    else if ltb (length buf) (offset + 2 + key_size + 4)
    then panic
    else rest

module _ {S : Type 0} (mm : MemoryAccess S) where
  unfoldable pub children_of : List ℕ → List Page → MemoryResult (List Page)
  unfolding push_children
  children_of buf stack =
      if ltb (length buf) 1
      then panic
      else if from_le_bytes (slice 0 1 buf) == 0
      then (if ltb (length buf) 11
          then panic
          else push_children (from_le_bytes (slice 5 2 buf)) internal_header_size buf
              (from_le_bytes (slice 7 4 buf) ∷ stack))
      else if from_le_bytes (slice 0 1 buf) == 1
      then ok stack
      else err (decode_error (invalid_discriminant (from_le_bytes (slice 0 1 buf))))

  unfoldable pub pages_loop : ℕ → List Page → List ℕ → List Page → Exec S (List Page)
  unfolding children_of
  pages_loop zero stack buf pages = lift panic
  pages_loop (suc fuel) [] buf pages = pure pages
  pages_loop (suc fuel) (page ∷ stack) buf pages = mm.read_at_raw page 0 buf >>= λ read.
      lift (children_of read.1 stack) >>= λ stack'.
      pages_loop fuel stack' read.1 (pages ++ (page ∷ []))

  unfoldable pub index_tree_pages : ℕ → Page → Exec S (List Page)
  unfolding pages_loop
  index_tree_pages fuel root = pages_loop fuel (root ∷ []) (replicate mm.page_size 0) []

  unfoldable pub release_all : List Page → Exec S (Unit {0})
  unfolding unclaim_page
  release_all [] = pure tt
  release_all (page ∷ pages) = unclaim_page mm page >> release_all pages

  unfoldable pub release_index_tree_pages : ℕ → Page → Exec S (Unit {0})
  unfolding index_tree_pages release_all
  release_index_tree_pages fuel root = index_tree_pages fuel root >>= λ pages. release_all pages
