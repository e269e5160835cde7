-- ===== src/Transaction/Overlay/Table.antt =====
-- overlay/table.rs and overlay/reader.rs: the operations on one table, and its rows as the
-- transaction sees them. A set is a list in which no value stands twice.
pub mod Key
pub mod Merge
pub mod Read
use wasm_dbms.Prelude.{
  ℕ, zero, suc, ◌+◌, get_elem?, List, [], ◌∷◌, ◌++◌, Bool, true, false, ◌&&◌, Option, none, some,
}
use wasm_dbms.Prelude.{if◌then◌else◌}
use wasm_dbms.Prelude.Names.{Eq, Name, name_eq, any, find, second}
use wasm_dbms.Query.Filter.{ColumnDef}
use wasm_dbms.Transaction.Overlay.Index
use wasm_dbms.Transaction.Overlay.Index.{IndexOverlay}

abbrev pub Row : Type 0 → Type 0
Row V = List (ColumnDef × V)

abbrev pub Patch : Type 0 → Type 0
Patch V = List (Name × V)

pub data Operation (V : Type 0) : Type 0 where
  insert : V → Row V → Operation V
  update : V → Patch V → Operation V
  delete : V → Operation V

pub record TableOverlay (V : Type 0) : Type 0 where
  pub operations : List (Operation V)
  pub index_overlay : IndexOverlay V
  pub indexes : List (List Name)

abbrev pub keep {ℓ} : {A : Type ℓ} → Option A → List A → List A
keep none xs = xs
keep (some x) xs = x ∷ xs

-- `DatabaseOverlayReader`, with the rows that the table reader has not returned yet.
pub record DatabaseOverlayReader (V : Type 0) : Type 0 where
  pub inserted_rows : List (Row V)
  pub new_rows_cursor : ℕ
  pub table_overlay : TableOverlay V
  pub stored_rows : List (Row V)

module _ {V : Type 0} where
  abbrev pub primary_key_value : Operation V → V
  primary_key_value (insert pk record') = pk
  primary_key_value (update pk updates) = pk
  primary_key_value (delete pk) = pk

  -- `row.iter_mut().find(..)`: the first column of the name.
  abbrev pub set_column : Name → V → Row V → Row V
  set_column name new_value [] = []
  set_column name new_value ((c, v) ∷ row) =
      if name_eq c.name name then (c, new_value) ∷ row else (c, v) ∷ set_column name new_value row

  unfoldable pub apply_update : Row V → Patch V → Row V
  apply_update row [] = row
  apply_update row ((name, v) ∷ updates) = apply_update (set_column name v row) updates

  unfoldable pub primary_key : Row V → Option V
  primary_key row = second (find (λ cv. cv.0.primary_key) row)

  -- Whether the row has a primary-key column of this name.
  abbrev pub names_key : Row V → Name → Bool
  names_key row name = any (λ cv. cv.0.primary_key && name_eq cv.0.name name) row

  abbrev pub unwrap_or : Option V → V → V
  unwrap_or none pk = pk
  unwrap_or (some v) pk = v

  -- The primary key after the updates, as `replay` follows it.
  unfoldable pub renamed_key : Row V → Patch V → V → V
  renamed_key row updates pk = unwrap_or (second (find (λ u. names_key row u.0) updates)) pk

  module _ ⦃e : Eq V⦄ where
    unfoldable pub replay_from : V → Row V → List (Operation V) → Option (Row V)
    unfolding apply_update renamed_key
    replay_from pk row [] = some row
    replay_from pk row (insert k r ∷ ops) =
        let rest = replay_from pk row ops in if e.eq k pk then none else rest
    replay_from pk row (delete k ∷ ops) =
        let rest = replay_from pk row ops in if e.eq k pk then none else rest
    replay_from pk row (update k updates ∷ ops) =
        let skipped = replay_from pk row ops in
        let row' = apply_update row updates in
        let updated = replay_from (renamed_key row' updates pk) row' ops in
        if e.eq k pk then updated else skipped

    unfoldable pub replay : Row V → List (Operation V) → Option (Row V)
    unfolding replay_from primary_key
    replay row ops = elim (primary_key row) [ none ↦ none | some pk ↦ replay_from pk row ops ]

    unfoldable pub iter_inserted : List (Operation V) → List (Row V)
    unfolding replay
    iter_inserted [] = []
    iter_inserted (insert k r ∷ ops) = keep (replay r ops) (iter_inserted ops)
    iter_inserted (update k updates ∷ ops) = iter_inserted ops
    iter_inserted (delete k ∷ ops) = iter_inserted ops

    unfoldable pub patch_row : TableOverlay V → Row V → Option (Row V)
    unfolding replay
    patch_row t row = replay row t.operations

    unfoldable pub new_reader : TableOverlay V → List (Row V) → DatabaseOverlayReader V
    unfolding iter_inserted
    new_reader t stored = record {
      inserted_rows = iter_inserted t.operations;
      new_rows_cursor = 0;
      table_overlay = t;
      stored_rows = stored;
    }

    unfoldable pub next_overlay_row :
        DatabaseOverlayReader V → Option (Row V) × DatabaseOverlayReader V
    next_overlay_row r = elim (get_elem? r.inserted_rows r.new_rows_cursor) [
      | none ↦ (none, r)
      | some row ↦ (some row, record r { new_rows_cursor = r.new_rows_cursor + 1 })
    ]

    -- The loop of `try_next`, with the stored rows as an argument.
    unfoldable pub next_row :
        DatabaseOverlayReader V → List (Row V) → Option (Row V) × DatabaseOverlayReader V
    unfolding patch_row next_overlay_row
    next_row r [] = next_overlay_row (record r { stored_rows = [] })
    next_row r (stored ∷ more) =
        let later = next_row r more in
        elim (patch_row r.table_overlay stored) [
          | some patched ↦ (some patched, record r { stored_rows = more })
          | none ↦ later
        ]

    unfoldable pub try_next : DatabaseOverlayReader V → Option (Row V) × DatabaseOverlayReader V
    unfolding next_row
    try_next r = next_row r r.stored_rows

    -- The rows that a client reads with at most `fuel` calls of `try_next`.
    unfoldable pub read_all : ℕ → DatabaseOverlayReader V → List (Row V)
    unfolding try_next
    read_all zero r = []
    read_all (suc fuel) r =
        let (next, r') = try_next r in
        let rest = read_all fuel r' in elim next [ none ↦ [] | some row ↦ row ∷ rest ]
