-- ===== src/Index/Tree/Insert.antt =====
-- index_ledger/index_tree.rs: the splits of an insertion, from the leaf up to the root. `fuel` bounds the
-- depth of the descent.
use wasm_dbms.Prelude.{
  ℕ, zero, suc, ◌-◌, List, [], ◌∷◌, take, drop, Bool, true, false, Option, none, some,
  if◌then◌else◌,
}
use wasm_dbms.Prelude.Result.{ok, err, panic}
use wasm_dbms.Encode.{Page, MemoryResult, key_too_large}
use wasm_dbms.Memory.Exec.{Exec, pure, lift, ◌>>=◌, ◌>>◌}
use wasm_dbms.Memory.Access.{MemoryAccess, claim_page}
use wasm_dbms.Registry.Record.{RecordAddress}
use wasm_dbms.Index.Key.{Key}
use wasm_dbms.Index.Node.{
  Entry, NodeBody, internal, leaf, InternalNodeBody, LeafNodeBody, BTreeNode, new_leaf, read, flush,
  leaf_header_size, internal_header_size,
}
use wasm_dbms.Index.Split.{byte_balanced_split_index}
use wasm_dbms.Index.Tree.{
  Promotion, IndexTree, count, max_size, find_child, promote_into_internal, insert_into_leaf,
  sizes_of, would_overflow,
}

module _ {K S : Type 0} (key : Key K) (mm : MemoryAccess S) where
  unfoldable pub init : Exec S IndexTree
  unfolding new_leaf flush claim_page
  init = do
    root_page ← claim_page mm
    _ ← flush key mm (new_leaf root_page none)
    pure (record { root_page = root_page })

  abbrev next_page : NodeBody K → K → Option Page
  unfolding find_child
  next_page (internal body) k = some (find_child key body k)
  next_page (leaf body) k = none

  -- The path from the leaf up.
  unfoldable pub read_path : ℕ → Page → K → List (BTreeNode K) → Exec S (List (BTreeNode K))
  unfolding read next_page
  read_path zero page k path = lift panic
  read_path (suc fuel) page k path = read key mm page >>= λ node. elim (next_page node.body k) [
    | some next ↦ read_path fuel next k (node ∷ path)
    | none ↦ pure (node ∷ path)
  ]

  -- The next leaf is linked to the new right one.
  abbrev set_prev : Page → BTreeNode K → NodeBody K → Exec S (Unit {0})
  unfolding flush
  set_prev right_page next (internal body) = pure tt
  set_prev right_page next (leaf body) = do
    _ ←
        flush key mm
          (record next { body = leaf (record body { prev_leaf = some right_page }); dirty = true })
    pure tt

  unfoldable pub relink : Option Page → Page → Exec S (Unit {0})
  unfolding set_prev read
  relink none right_page = pure tt
  relink (some next_page) right_page =
      read key mm next_page >>= λ next. set_prev right_page next next.body

  abbrev pub split_index : List ℕ → ℕ → Bool → MemoryResult ℕ
  unfolding byte_balanced_split_index
  split_index sizes header promote =
      elim (byte_balanced_split_index sizes header mm.page_size promote) [
        | some index ↦ ok index
        | none ↦ err (key_too_large (max_size sizes) (mm.page_size - header))
      ]

  -- The key of the first entry of the right half; an empty half panics.
  abbrev first_key : List (Entry K RecordAddress) → MemoryResult K
  first_key [] = panic
  first_key (entry ∷ entries) = ok entry.key

  abbrev split_leaf : BTreeNode K → LeafNodeBody K → ℕ → Exec S (BTreeNode K × Promotion K)
  unfolding relink flush claim_page
  split_leaf node body split_at = do
    promote_key ← lift (first_key (drop split_at body.entries))
    right_page ← claim_page mm
    relink body.next_leaf right_page
    _ ← flush key mm (record {
      page = right_page;
      header = record {
        parent_page = node.header.parent_page;
        num_entries = count (drop split_at body.entries);
      };
      body = leaf (record {
        entries = drop split_at body.entries;
        prev_leaf = some node.page;
        next_leaf = body.next_leaf;
      });
      dirty = true;
    })
    pure (
      record node {
        header = record node.header { num_entries = count (take split_at body.entries) };
        body =
            leaf
              (record body { entries = take split_at body.entries; next_leaf = some right_page });
        dirty = true;
      },
      record { key = promote_key; left_page = node.page; right_page = right_page },
    )

  -- The entry at the split is promoted, and its child becomes the left half's last; `remove` out of range
  -- panics.
  abbrev split_internal : BTreeNode K → InternalNodeBody K → ℕ → Exec S (BTreeNode K × Promotion K)
  unfolding flush claim_page
  split_internal node body mid = elim (drop mid body.entries) [
    | [] ↦ lift panic
    | median ∷ right_entries ↦ do
      right_page ← claim_page mm
      _ ← flush key mm (record {
        page = right_page;
        header = record {
          parent_page = node.header.parent_page;
          num_entries = count right_entries;
        };
        body =
            internal (record { entries = right_entries; rightmost_child = body.rightmost_child });
        dirty = true;
      })
      pure (
        record node {
          header = record node.header { num_entries = count (take mid body.entries) };
          body =
              internal
                (record { entries = take mid body.entries; rightmost_child = median.target });
          dirty = true;
        },
        record { key = median.key; left_page = node.page; right_page = right_page },
      )
  ]

  abbrev split_body : BTreeNode K → NodeBody K → Exec S (BTreeNode K × Promotion K)
  unfolding split_leaf split_internal split_index
  split_body node (leaf body) = do
    sizes ← lift (sizes_of key (leaf body) mm.page_size)
    split_at ← lift (split_index sizes leaf_header_size false)
    split_leaf node body split_at
  split_body node (internal body) = do
    sizes ← lift (sizes_of key (internal body) mm.page_size)
    mid ← lift (split_index sizes internal_header_size true)
    split_internal node body mid

  unfoldable pub split_node : BTreeNode K → Exec S (BTreeNode K × Promotion K)
  unfolding split_body
  split_node node = split_body node node.body

  abbrev pub Method : Type 0 → Type 0
  Method A = Exec (IndexTree × S) A

  abbrev pub on_mm : {A : Type 0} → Exec S A → Method A
  on_mm m (t, s) = let (r, s') = m s in (r, (t, s'))

  abbrev set_root : Page → Method (Unit {0})
  set_root page (t, s) = (ok tt, (record { root_page = page }, s))

  -- The root was split: a new one above both halves.
  unfoldable pub grow_root : BTreeNode K → Promotion K → Method (BTreeNode K)
  unfolding flush claim_page
  grow_root node promotion = do
    new_root_page ← on_mm (claim_page mm)
    _ ← on_mm (
        flush key mm (record {
          page = new_root_page;
          header = record { parent_page = none; num_entries = 1 };
          body = internal (record {
            entries = record { key = promotion.key; target = promotion.left_page } ∷ [];
            rightmost_child = promotion.right_page;
          });
          dirty = true;
        }))
    set_root new_root_page
    pure (record node {
      header = record node.header { parent_page = some new_root_page };
      dirty = true;
    })

  -- The loop over the levels, from a node up through its parents; `path` are the nodes below.
  unfoldable pub ascend :
      BTreeNode K → List (BTreeNode K) → List (BTreeNode K) → Method (List (BTreeNode K))
  unfolding would_overflow split_node grow_root promote_into_internal
  ascend node [] path = lift (would_overflow key node mm.page_size) >>= λ overflows.
      if overflows
      then (on_mm (split_node node) >>= λ halves.
          grow_root halves.0 halves.1 >>= λ left. pure (left ∷ path))
      else pure (node ∷ path)
  ascend node (parent ∷ parents) path = lift (would_overflow key node mm.page_size) >>= λ overflows.
      elim overflows [
        | true ↦ on_mm (split_node node) >>= λ halves.
            lift (promote_into_internal key parent halves.1) >>= λ parent'.
            ascend parent' parents (halves.0 ∷ path)
        | false ↦ ascend parent parents (node ∷ path)
      ]

  unfoldable pub flush_all : List (BTreeNode K) → Exec S (Unit {0})
  unfolding flush
  flush_all [] = pure tt
  flush_all (node ∷ nodes) = flush key mm node >>= λ _. flush_all nodes

  abbrev insert_path : K → RecordAddress → List (BTreeNode K) → Method (Unit {0})
  unfolding ascend flush_all insert_into_leaf
  insert_path k pointer [] = lift panic
  insert_path k pointer (node ∷ parents) =
      ascend (insert_into_leaf key k pointer node) parents [] >>= λ path. on_mm (flush_all path)

  unfoldable pub insert : ℕ → K → RecordAddress → Method (Unit {0})
  unfolding read_path insert_path
  insert fuel k pointer (t, s) =
      (on_mm (read_path fuel t.root_page k []) >>= insert_path k pointer) (t, s)
