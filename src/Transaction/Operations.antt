-- ===== src/Transaction/Operations.antt =====
-- transaction.rs: a transaction's operations, staged for its commit and in its overlay, and
-- query/delete.rs.
pub mod Captured
use wasm_dbms.Prelude.{List, [], ◌∷◌, ◌++◌, Bool, if◌then◌else◌}
use wasm_dbms.Prelude.Result.{Result, ok, ◌>>=◌}
use wasm_dbms.Prelude.Names.{Eq, Name, name_eq}
use wasm_dbms.Query.Filter.{ColumnDef, Filter, eq, and}
use wasm_dbms.Transaction.Overlay.Table.{Row, Patch}
use wasm_dbms.Transaction.Overlay.Staging
use wasm_dbms.Transaction.Overlay.Staging.{TableSchema, OverlayError, DatabaseOverlay}

pub data DeleteBehavior : Type 0 where
  restrict : DeleteBehavior
  cascade : DeleteBehavior

pub data TransactionOp (V F : Type 0) : Type 0 where
  insert : (table : Name) (values : Row V) → TransactionOp V F
  delete :
      (table : Name) (behaviour : DeleteBehavior) (filters : List (Filter V F)) → TransactionOp V F
  update : (table : Name) (patch : Row V) (filters : List (Filter V F)) → TransactionOp V F

pub record Transaction (V F : Type 0) : Type 0 where
  pub operations : List (TransactionOp V F)
  pub overlay : DatabaseOverlay V

-- A patch by column names.
abbrev pub overlay_patch : {V : Type 0} → Row V → Patch V
overlay_patch [] = []
overlay_patch ((column, value) ∷ values) = (column.name, value) ∷ overlay_patch values

module _ {V : Type 0} ⦃e : Eq V⦄ (null : V) where
  abbrev pub update_rows :
      TableSchema → Patch V → List (V × Row V) → DatabaseOverlay V → DatabaseOverlay V
  unfolding Staging.update
  update_rows s patch [] overlay = overlay
  update_rows s patch ((pk, current_row) ∷ rows) overlay =
      update_rows s patch rows (Staging.update null s pk patch current_row overlay)

  abbrev pub delete_rows : TableSchema → List (V × Row V) → DatabaseOverlay V → DatabaseOverlay V
  unfolding Staging.delete
  delete_rows s [] overlay = overlay
  delete_rows s ((pk, current_row) ∷ rows) overlay =
      delete_rows s rows (Staging.delete null s pk current_row overlay)

module _ {V F : Type 0} where
  abbrev pub new_transaction : Transaction V F
  new_transaction = record { operations = []; overlay = record { tables = [] } }

  -- The fold over the columns that are not the primary key.
  abbrev pub and_columns : Name → Filter V F → Row V → Filter V F
  and_columns key filter [] = filter
  and_columns key filter ((column, value) ∷ row) =
      and_columns key
        (if name_eq column.name key then filter else and filter (eq column.name value)) row

  unfoldable pub captured_row_filter : TableSchema → V → Row V → Filter V F
  captured_row_filter s primary_key row =
      and_columns s.primary_key (eq s.primary_key primary_key) row

  abbrev pub captured_filters : TableSchema → List (V × Row V) → List (Filter V F)
  unfolding captured_row_filter
  captured_filters s [] = []
  captured_filters s ((pk, current_row) ∷ rows) =
      captured_row_filter s pk current_row ∷ captured_filters s rows

  module _ ⦃e : Eq V⦄ (null : V) where
    unfoldable pub insert_record :
        TableSchema → Row V → Transaction V F → Result OverlayError (Transaction V F)
    unfolding Staging.insert
    insert_record s values t = Staging.insert null s values t.overlay >>= λ overlay. ok (record {
      operations = t.operations ++ (insert s.table_name values ∷ []);
      overlay = overlay;
    })

    unfoldable pub update_records :
        TableSchema → Row V → List (V × Row V) → Transaction V F → Transaction V F
    unfolding captured_row_filter Staging.update
    update_records s patch rows t = record {
      operations = t.operations ++ (update s.table_name patch (captured_filters s rows) ∷ []);
      overlay = update_rows null s (overlay_patch patch) rows t.overlay;
    }

    unfoldable pub delete_records :
        TableSchema → DeleteBehavior → List (V × Row V) → Transaction V F → Transaction V F
    unfolding captured_row_filter Staging.delete
    delete_records s behaviour rows t = record {
      operations = t.operations ++ (delete s.table_name behaviour (captured_filters s rows) ∷ []);
      overlay = delete_rows null s rows t.overlay;
    }
