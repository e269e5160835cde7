-- ===== src/Index/Tree.antt =====
-- index_ledger/index_tree.rs: insertion into the tree. A method works on the tree's root page and on the
-- state behind `mm`.
pub mod Promote
pub mod Insert
pub mod Leaf
pub mod Search
use wasm_dbms.Prelude.{
  ℕ, zero, suc, ◌+◌, ◌-◌, ◌%◌, List, [], ◌∷◌, ◌++◌, length, take, drop, Bool, true, false, not,
  ◌&&◌, ◌||◌, Option, none, some, ltb, leb, ◌==◌, if◌then◌else◌,
}
use wasm_dbms.Prelude.Result
use wasm_dbms.Prelude.Result.{ok, err, panic}
use wasm_dbms.Encode.{Page, MemoryResult, u16_mod, key_too_large}
use wasm_dbms.Memory.Exec.{Exec, pure, raise, lift, ◌>>=◌, ◌>>◌}
use wasm_dbms.Memory.Access.{MemoryAccess, claim_page}
use wasm_dbms.Registry.Record.{RecordAddress}
use wasm_dbms.Index.Key.{Key, le, eq, address_lt}
use wasm_dbms.Index.Node.{
  Entry, NodeBody, internal, leaf, InternalNodeBody, LeafNodeBody, BTreeNode, new_leaf, read, flush,
  entry_sizes, leaf_header_size, internal_header_size, record_pointer_size, child_page_size,
}
use wasm_dbms.Index.Split.{sum, byte_balanced_split_index}

pub record Promotion (K : Type 0) : Type 0 where
  pub key : K
  pub left_page : Page
  pub right_page : Page

pub record IndexTree : Type 0 where
  pub root_page : Page

-- `entries.len() as u16`
abbrev pub count {ℓ} : {A : Type ℓ} → List A → ℕ
count entries = length entries % u16_mod

abbrev pub max_size : List ℕ → ℕ
max_size [] = 0
max_size (s ∷ sizes) = let m = max_size sizes in if ltb m s then s else m

module _ {K : Type 0} (key : Key K) where
  -- `partition_point` on the entries' keys, which finds the first entry whose key is greater.
  unfoldable pub find_child_in : List (Entry K Page) → Page → K → Page
  find_child_in [] rightmost_child k = rightmost_child
  find_child_in (entry ∷ entries) rightmost_child k =
      if le key entry.key k then find_child_in entries rightmost_child k else entry.target

  unfoldable pub find_child : InternalNodeBody K → K → Page
  unfolding find_child_in
  find_child body k = find_child_in body.entries body.rightmost_child k

  -- `position` of the child, `insert` of the promoted key there, and the new child at the next place.
  unfoldable pub promote_at : Promotion K → List (Entry K Page) → Option (List (Entry K Page))
  promote_at p [] = none
  promote_at p (entry ∷ entries) =
      let rest = promote_at p entries in
      if entry.target == p.left_page
      then some (
          record { key = p.key; target = p.left_page }
          ∷ record entry { target = p.right_page }
          ∷ entries)
      else elim rest [ some es ↦ some (entry ∷ es) | none ↦ none ]

  unfoldable pub promote_body : Promotion K → InternalNodeBody K → MemoryResult (InternalNodeBody K)
  unfolding promote_at
  promote_body p body =
      if body.rightmost_child == p.left_page
      then ok (record {
        entries = body.entries ++ (record { key = p.key; target = p.left_page } ∷ []);
        rightmost_child = p.right_page;
      })
      else elim (promote_at p body.entries) [
        | some entries ↦ ok (record body { entries = entries })
        | none ↦ panic
      ]

  abbrev pub promote_node : Promotion K → BTreeNode K → NodeBody K → MemoryResult (BTreeNode K)
  unfolding promote_body
  promote_node p parent (leaf body) = panic
  promote_node p parent (internal body) = Result.◌>>=◌ (promote_body p body) λ body'.
      ok (record parent {
        header = record parent.header { num_entries = count body'.entries };
        body = internal body';
        dirty = true;
      })

  unfoldable pub promote_into_internal : BTreeNode K → Promotion K → MemoryResult (BTreeNode K)
  unfolding promote_node
  promote_into_internal parent p = promote_node p parent parent.body

  -- Where `insert` puts an entry: behind every entry that is less.
  unfoldable pub goes_before : Entry K RecordAddress → K → RecordAddress → Bool
  goes_before entry k pointer =
      key.lt entry.key k || (eq key entry.key k && address_lt entry.target pointer)

  unfoldable pub insert_entry :
      K → RecordAddress → List (Entry K RecordAddress) → List (Entry K RecordAddress)
  unfolding goes_before
  insert_entry k pointer [] = record { key = k; target = pointer } ∷ []
  insert_entry k pointer (entry ∷ entries) =
      if goes_before entry k pointer
      then entry ∷ insert_entry k pointer entries
      else record { key = k; target = pointer } ∷ entry ∷ entries

  abbrev insert_body : K → RecordAddress → BTreeNode K → NodeBody K → BTreeNode K
  insert_body k pointer node (internal body) = node
  insert_body k pointer node (leaf body) =
      let entries = insert_entry k pointer body.entries in
      record node {
        header = record node.header { num_entries = count entries };
        body = leaf (record body { entries = entries });
        dirty = true;
      }

  unfoldable pub insert_into_leaf : K → RecordAddress → BTreeNode K → BTreeNode K
  unfolding insert_entry
  insert_into_leaf k pointer node = insert_body k pointer node node.body

  abbrev pub sizes_of : NodeBody K → ℕ → MemoryResult (List ℕ)
  sizes_of (internal body) page_size =
      entry_sizes key internal_header_size child_page_size body.entries page_size
  sizes_of (leaf body) page_size =
      entry_sizes key leaf_header_size record_pointer_size body.entries page_size

  abbrev pub header_size : NodeBody K → ℕ
  header_size (internal body) = internal_header_size
  header_size (leaf body) = leaf_header_size

  unfoldable pub would_overflow : BTreeNode K → ℕ → MemoryResult Bool
  would_overflow node page_size =
      Result.◌>>=◌ (sizes_of node.body page_size)
        λ sizes. ok (ltb page_size (header_size node.body + sum sizes))
