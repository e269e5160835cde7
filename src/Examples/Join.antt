-- ===== src/Examples/Join.antt =====
-- Two tables with numbers as values, 0 for null: departments and employees.
use wasm_dbms.Prelude.{ℕ, ◌≡◌, refl, List, [], ◌∷◌, true, false, Option, none, some, ◌==◌, ==_iff}
use wasm_dbms.Prelude.Names.{Eq}
use wasm_dbms.Prelude.Result.{ok}
use wasm_dbms.Query.Filter.{ColumnDef, DataTypeKind}
use wasm_dbms.Join.{RowRef, JoinSide, left_value, hash_join}
use wasm_dbms.Join.Nested.{Lefts, nested_loops, hash_join-nested_loops}

abbrev numbers : Eq ℕ
numbers = record { eq = λ a b. a == b; eq_iff = ==_iff }

abbrev id : ColumnDef
id = record {
  name = 105 ∷ [];
  data_type = DataTypeKind.uint8;
  primary_key = true;
  unique = true;
  nullable = false;
}

abbrev boss : ColumnDef
boss = record {
  name = 98 ∷ [];
  data_type = DataTypeKind.uint8;
  primary_key = false;
  unique = false;
  nullable = false;
}

abbrev employees : JoinSide ℕ
employees = record {
  table = 101 ∷ [];
  columns = id ∷ boss ∷ [];
  rows = ((id, 1) ∷ (boss, 7) ∷ []) ∷ ((id, 2) ∷ (boss, 0) ∷ []) ∷ ((id, 3) ∷ (boss, 7) ∷ []) ∷ [];
  null_row = (id, 0) ∷ (boss, 0) ∷ [];
}

abbrev departments : JoinSide ℕ
departments = record {
  table = 100 ∷ [];
  columns = id ∷ [];
  rows = ((id, 7) ∷ []) ∷ ((id, 9) ∷ []) ∷ [];
  null_row = (id, 0) ∷ [];
}

abbrev rows : List RowRef
rows = (some 0 ∷ []) ∷ (some 1 ∷ []) ∷ (some 2 ∷ []) ∷ []

abbrev lefts : List (Option ℕ)
lefts = some 7 ∷ some 0 ∷ some 7 ∷ []

lefts_lem : Lefts numbers 0 ℕ (employees ∷ []) (some (0, 1)) rows lefts
unfolding left_value
lefts_lem = (refl, (refl, (refl, tt)))

hash_join-nested_loops_example :
    hash_join numbers 0 {E = ℕ} (employees ∷ []) rows (some (0, 1)) departments (105 ∷ []) true true
    ≡ ok (nested_loops numbers 0 1 rows lefts (7 ∷ 9 ∷ []) true true)
hash_join-nested_loops_example =
    hash_join-nested_loops numbers 0 ℕ (employees ∷ []) (some (0, 1)) rows lefts departments
      (105 ∷ []) (7 ∷ 9 ∷ []) true true lefts_lem (refl, (refl, tt))

full_join_test :
    hash_join numbers 0 {E = ℕ} (employees ∷ []) rows (some (0, 1)) departments (105 ∷ []) true true
    ≡ ok (
        (some 0 ∷ some 0 ∷ [])
        ∷ (some 1 ∷ none ∷ [])
        ∷ (some 2 ∷ some 0 ∷ [])
        ∷ (none ∷ some 1 ∷ [])
        ∷ [])
unfolding hash_join
full_join_test = refl
