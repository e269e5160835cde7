-- ===== src/Transaction/Overlay/Staging.antt =====
-- overlay/table.rs and overlay.rs: the operations that a transaction stages, with the indexes'
-- overlay kept beside them.
pub mod Moved
use wasm_dbms.Prelude.{
  List, [], ◌∷◌, ◌++◌, Bool, true, false, ◌&&◌, ◌||◌, Option, none, some, if◌then◌else◌, not,
}
use wasm_dbms.Prelude.Result.{Result, ok, err}
use wasm_dbms.Prelude.Names.{Eq, Name, name_eq, any, find, second}
use wasm_dbms.Query.Filter.{ColumnDef}
use wasm_dbms.Transaction.Overlay.Index
use wasm_dbms.Transaction.Overlay.Index.{IndexOverlay, member}
use wasm_dbms.Transaction.Overlay.Table.{
  Row, Patch, Operation, TableOverlay, DatabaseOverlayReader, new_reader,
}
use wasm_dbms.Transaction.Overlay.Table.{unwrap_or}

-- What the overlay asks of a table's schema.
pub record TableSchema : Type 0 where
  pub table_name : Name
  pub primary_key : Name
  pub indexes : List (List Name)

-- `QueryError::MissingNonNullableField`
pub data OverlayError : Type 0 where
  missing_non_nullable_field : Name → OverlayError

pub record DatabaseOverlay (V : Type 0) : Type 0 where
  pub tables : List (Name × TableOverlay V)

-- The value of the first column or patch entry of the name.
abbrev pub column_value : {V : Type 0} → Name → Row V → Option V
column_value name row = second (find (λ cv. name_eq cv.0.name name) row)

abbrev pub patch_value : {V : Type 0} → Name → Patch V → Option V
patch_value name updates = second (find (λ u. name_eq u.0 name) updates)

abbrev pub or_else : {A : Type 0} → Option A → Option A → Option A
or_else none b = b
or_else (some a) b = some a

module _ {V : Type 0} ⦃e : Eq V⦄ (null : V) where
  unfoldable pub extract_indexed_values : List Name → Row V → List V
  extract_indexed_values [] row = []
  extract_indexed_values (c ∷ cs) row =
      unwrap_or (column_value c row) null ∷ extract_indexed_values cs row

  unfoldable pub compute_updated_indexed_values : List Name → Row V → Patch V → List V
  compute_updated_indexed_values [] row updates = []
  compute_updated_indexed_values (c ∷ cs) row updates =
      unwrap_or (or_else (patch_value c updates) (column_value c row)) null
      ∷ compute_updated_indexed_values cs row updates

  abbrev index_insert : List (List Name) → V → Row V → IndexOverlay V → IndexOverlay V
  unfolding extract_indexed_values Index.insert
  index_insert [] pk row i = i
  index_insert (columns ∷ rest) pk row i =
      index_insert rest pk row (Index.insert columns (extract_indexed_values columns row) pk i)

  abbrev index_delete : List (List Name) → V → Row V → IndexOverlay V → IndexOverlay V
  unfolding extract_indexed_values Index.delete
  index_delete [] pk row i = i
  index_delete (columns ∷ rest) pk row i =
      index_delete rest pk row (Index.delete columns (extract_indexed_values columns row) pk i)

  abbrev affects : List Name → Patch V → Bool
  affects columns updates = any (λ c. any (λ u. name_eq u.0 c) updates) columns

  abbrev index_update : List (List Name) → V → Patch V → Row V → IndexOverlay V → IndexOverlay V
  unfolding extract_indexed_values compute_updated_indexed_values Index.update
  index_update [] pk updates row i = i
  index_update (columns ∷ rest) pk updates row i =
      let old = extract_indexed_values columns row in
      let new = compute_updated_indexed_values columns row updates in
      index_update rest pk updates row
        (if affects columns updates then Index.update columns old new pk i else i)

  unfoldable pub table_insert : V → Row V → TableOverlay V → TableOverlay V
  unfolding index_insert
  table_insert pk r t = record t {
    index_overlay = index_insert t.indexes pk r t.index_overlay;
    operations = t.operations ++ (Operation.insert pk r ∷ []);
  }

  unfoldable pub table_update : V → Patch V → Row V → TableOverlay V → TableOverlay V
  unfolding index_update
  table_update pk updates current_row t = record t {
    index_overlay = index_update t.indexes pk updates current_row t.index_overlay;
    operations = t.operations ++ (Operation.update pk updates ∷ []);
  }

  unfoldable pub table_delete : V → Row V → TableOverlay V → TableOverlay V
  unfolding index_delete
  table_delete pk current_row t = record t {
    index_overlay = index_delete t.indexes pk current_row t.index_overlay;
    operations = t.operations ++ (Operation.delete pk ∷ []);
  }

  abbrev pub new_table : List (List Name) → TableOverlay V
  new_table indexes = record {
    operations = [];
    index_overlay = record { columns = [] };
    indexes = indexes;
  }

  -- `entry(table_name).or_insert_with(..)`, changed by `f`
  abbrev pub change_table :
      TableSchema
      → (TableOverlay V → TableOverlay V)
      → List (Name × TableOverlay V)
      → List (Name × TableOverlay V)
  change_table s f [] = (s.table_name, f (new_table s.indexes)) ∷ []
  change_table s f ((n, t) ∷ rest) =
      if name_eq n s.table_name then (n, f t) ∷ rest else (n, t) ∷ change_table s f rest

  abbrev pub table_overlay : Name → List (Name × TableOverlay V) → Option (TableOverlay V)
  table_overlay name [] = none
  table_overlay name ((n, t) ∷ rest) = if name_eq n name then some t else table_overlay name rest

  unfoldable pub insert :
      TableSchema → Row V → DatabaseOverlay V → Result OverlayError (DatabaseOverlay V)
  unfolding table_insert
  insert s values d = elim (column_value s.primary_key values) [
    | none ↦ err (missing_non_nullable_field s.primary_key)
    | some pk ↦ ok (record { tables = change_table s (table_insert pk values) d.tables })
  ]

  unfoldable pub update : TableSchema → V → Patch V → Row V → DatabaseOverlay V → DatabaseOverlay V
  unfolding table_update
  update s pk updates current_row d = record {
    tables = change_table s (table_update pk updates current_row) d.tables;
  }

  unfoldable pub delete : TableSchema → V → Row V → DatabaseOverlay V → DatabaseOverlay V
  unfolding table_delete
  delete s pk current_row d = record {
    tables = change_table s (table_delete pk current_row) d.tables;
  }

  -- The overlay with the table's entry, and the reader.
  unfoldable pub reader :
      TableSchema → List (Row V) → DatabaseOverlay V → DatabaseOverlayReader V × DatabaseOverlay V
  unfolding new_reader
  reader s stored d =
      let tables = change_table s (λ t. t) d.tables in
      (
        new_reader
            (elim (table_overlay s.table_name tables) [ none ↦ new_table s.indexes | some t ↦ t ])
            stored,
        record { tables = tables },
      )

abbrev pub updates_columns : {V : Type 0} → List Name → Patch V → Bool
updates_columns columns updates = any (λ u. any (λ c. name_eq c u.0) columns) updates

module _ {V : Type 0} ⦃e : Eq V⦄ where
  -- The loop of `updated_pks`, with the keys that have been seen.
  unfoldable pub unseen_pks : List V → List Name → List (Operation V) → List V
  unseen_pks seen columns [] = []
  unseen_pks seen columns (Operation.insert pk r ∷ ops) = unseen_pks seen columns ops
  unseen_pks seen columns (Operation.delete pk ∷ ops) = unseen_pks seen columns ops
  unseen_pks seen columns (Operation.update pk updates ∷ ops) =
      let skip = unseen_pks seen columns ops in
      let take = pk ∷ unseen_pks (pk ∷ seen) columns ops in
      if updates_columns columns updates && not (member pk seen) then take else skip

  unfoldable pub updated_pks : List Name → TableOverlay V → List V
  unfolding unseen_pks
  updated_pks columns t = unseen_pks [] columns t.operations
