-- ===== src/Examples/Transaction.antt =====
-- A transaction on a table of two columns, its captured rows, its index and the open transactions.
use wasm_dbms.Prelude.{
  ℕ, [], ◌∷◌, ◌==◌, ==_iff, ◌≡◌, ◌↔◌, refl, true, false, ltb, leb, inl, inr, arith, List, All, Bool,
}
use wasm_dbms.Prelude.Result.{ok}
use wasm_dbms.Prelude.Names.{Eq, Name}
use wasm_dbms.Query.Filter.{DataTypeKind, Values, Variant, matches}
use wasm_dbms.Transaction.Overlay.Table
use wasm_dbms.Transaction.Overlay.Table.{
  Row, Operation, TableOverlay, read_all, new_reader, patch_row,
}
use wasm_dbms.Transaction.Overlay.Table.Merge.{apply_all, IsApplicable}
use wasm_dbms.Transaction.Overlay.Table.Key.{HasKey}
use wasm_dbms.Transaction.Overlay.Table.Read.{read_all-apply_all}
use wasm_dbms.Transaction.Overlay.Staging.{TableSchema, column_value, updated_pks}
use wasm_dbms.Transaction.Overlay.Staging.Moved.{updated_pks-patch_row}
use wasm_dbms.Transaction.Overlay.Index.{column_insert, column_delete, empty}
use wasm_dbms.Transaction.Overlay.Index.Visible.{is_visible, is_visible-delete_insert_delete}
use wasm_dbms.Transaction.Operations.{captured_row_filter}
use wasm_dbms.Transaction.Operations.Captured.{matches-captured_row_filter}
use wasm_dbms.Transaction.Session.{new_session, begin_transaction, has_transaction}
use wasm_dbms.Transaction.Session.Fresh.{Call, run, begun, begin_transaction_fresh}
use wasm_dbms.Prelude.{◌+◌, ◌<◌}

instance numbers_eq : Eq ℕ
numbers_eq = record { eq = λ a b. a == b; eq_iff = ==_iff }

abbrev key : Name
key = b'a' ∷ []

abbrev other : Name
other = b'b' ∷ []

abbrev row : ℕ → ℕ → Row ℕ
row pk v =
    (
      record {
        name = key;
        data_type = DataTypeKind.text;
        primary_key = true;
        unique = true;
        nullable = false;
      },
      pk,
    )
    ∷ (
      record {
        name = other;
        data_type = DataTypeKind.text;
        primary_key = false;
        unique = false;
        nullable = false;
      },
      v,
    )
    ∷ []

-- A row is inserted, an older one is given another key, and a third is deleted.
abbrev overlay : TableOverlay ℕ
overlay = record {
  operations =
      Operation.insert 7 (row 7 70)
      ∷ Operation.update 1 ((other, 11) ∷ (key, 9) ∷ [])
      ∷ Operation.delete 2
      ∷ Operation.update 3 ((other, 33) ∷ [])
      ∷ [];
  index_overlay = record { columns = [] };
  indexes = [];
}

row-HasKey : (pk v : ℕ) → HasKey key pk (row pk v)
unfolding Table.primary_key
row-HasKey pk v = ((refl, (refl, tt)), refl)

applicable : All (IsApplicable key) overlay.operations
applicable = (row-HasKey 7 70, (((λ e. cc), ((λ e. refl), tt)), (tt, (((λ e. cc), tt), tt))))

read_all-apply_all_example :
    read_all 9 (new_reader overlay (row 1 10 ∷ row 2 20 ∷ row 3 30 ∷ []))
    ≡ apply_all overlay.operations (row 1 10 ∷ row 2 20 ∷ row 3 30 ∷ [])
unfolding Table.primary_key Table.apply_update numbers_eq
read_all-apply_all_example =
    read_all-apply_all key overlay (row 1 10 ∷ row 2 20 ∷ row 3 30 ∷ []) 9 applicable
      ((1, row-HasKey 1 10), ((2, row-HasKey 2 20), ((3, row-HasKey 3 30), tt))) (omega arith)

updated_pks-patch_row_example : column_value key (row 3 33) ≡ column_value key (row 3 30)
unfolding Table.primary_key Table.apply_update updated_pks patch_row numbers_eq
updated_pks-patch_row_example =
    updated_pks-patch_row key (key ∷ []) overlay 3 (row 3 30) (row 3 33) refl applicable
      (row-HasKey 3 30) refl refl key refl

-- Numbers as values, compared as such.
abbrev numbers : Values ℕ ℕ ℕ ℕ
numbers = record {
  variant = λ v. Variant.other;
  eq = λ a b. a == b;
  gt = λ a b. ltb b a;
  lt = ltb;
  ge = λ a b. leb b a;
  le = leb;
  json_matches = λ f j. inl 0;
  json_validate = λ f. inr tt;
}

abbrev schema : TableSchema
schema = record { table_name = b't' ∷ []; primary_key = key; indexes = [] }

matches-captured_row_filter_example :
    (matches numbers (captured_row_filter schema 3 (row 3 30)) (row 3 31) ≡ ok true)
    ↔ (row 3 31 ≡ row 3 30)
matches-captured_row_filter_example =
    matches-captured_row_filter numbers schema 3 (row 3 30) (row 3 31) ==_iff refl
      ((refl, tt), (tt, tt)) refl

abbrev stored : List ℕ → ℕ → Bool
stored v k = k == 3

is_visible-delete_insert_delete_example :
    is_visible stored
      (column_delete (30 ∷ []) 3 (column_insert (30 ∷ []) 3 (column_delete (30 ∷ []) 3 empty)))
      (30 ∷ [])
      3
    ≡ true
is_visible-delete_insert_delete_example =
    is_visible-delete_insert_delete stored empty (30 ∷ []) 3 refl

abbrev calls : List (Call ℕ)
calls = Call.begin ∷ Call.begin ∷ Call.close 0 ∷ Call.change 1 (λ n. n + 5) ∷ Call.take 7 ∷ []

begin_transaction_fresh_example :
    (has_transaction (begin_transaction 0 (run 0 calls new_session)).0 (run 0 calls new_session)
      ≡ false)
    × All (λ id. id < (begin_transaction 0 (run 0 calls new_session)).0) (begun 0 calls new_session)
begin_transaction_fresh_example = begin_transaction_fresh 0 calls (omega arith)
