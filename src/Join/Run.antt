-- ===== src/Join/Run.antt =====
-- wasm-dbms/src/join.rs: a join query, from the loading of its tables to the rows of its result. The
-- tables come through an interface; the stable sort of the rows is an insertion sort.
use wasm_dbms.Prelude.{
  ℕ, zero, suc, ◌+◌, List, [], ◌∷◌, ◌++◌, map, length, drop, take, Bool, true, false, ◌&&◌, ◌||◌,
  Option, none, some, leb, if◌then◌else◌,
}
use wasm_dbms.Prelude.Names.{Name, name_eq, Eq, any}
use wasm_dbms.Prelude.Result.{Result, ok, err, panic, ◌>>=◌}
use wasm_dbms.Query.Filter.{
  ColumnDef, Filter, FilterError, Values, split_once, map_error, matches_joined_row_ref,
}
use wasm_dbms.Query.Filter.Validate.{validate_joined}
use wasm_dbms.Query.Statement.{
  Query, Join, JoinType, inner, left, right, full, OrderDirection, ascending, descending, Select,
  all_selected, raw_columns,
}
use wasm_dbms.Join.{
  RowRef, KeyPosition, TableRow, JoinSide, position, indexed, is_null, new_side, hash_join, cell,
}

abbrev pub max_alternatives : ℕ
max_alternatives = 64

-- What a join reads of the database: the columns, the leading columns of the indexes, and a selection of
-- all columns.
pub record Tables (V F E : Type 0) : Type 0 where
  pub table_columns : Name → Result E (List ColumnDef)
  pub table_indexes : Name → Result E (List (List Name))
  pub select : Name → Option (Filter V F) → Result E (List (TableRow V))

pub record JoinResultSet (V : Type 0) : Type 0 where
  pub columns : List (Name × ColumnDef)
  pub rows : List (List V)

-- The table and the column of a reference.
unfoldable pub resolve_column_ref : Name → Name → Name × Name
resolve_column_ref field default_table = elim (split_once field) [
  | some (table, column) ↦ (table, column)
  | none ↦ (default_table, field)
]

-- Whether unmatched rows are kept, on the left and on the right.
abbrev pub keeps : JoinType → Bool × Bool
keeps inner = (false, false)
keeps left = (true, false)
keeps right = (false, true)
keeps full = (true, true)

-- The first `0`, … `n - 1`, each as a row of one side.
abbrev pub indexes_from : ℕ → ℕ → List RowRef
indexes_from zero index = []
indexes_from (suc n) index = (some index ∷ []) ∷ indexes_from n (index + 1)

module _ {V F J FE E : Type 0} (equal : Eq V) (null : V) (values : Values V J F FE)
    (tables : Tables V F E) (filter_failed : FilterError FE → E) where
  -- The row at an index, or the row of nulls.
  unfoldable pub row : JoinSide V → Option ℕ → Result E (TableRow V)
  row side none = ok side.null_row
  row side (some index) = indexed side.rows index

  abbrev is_first : Name → List Name → Bool
  is_first column [] = false
  is_first column (c ∷ columns) = name_eq c column

  unfoldable pub is_indexed_column : Name → Name → Bool
  is_indexed_column table column = elim (tables.table_indexes table) [
    | ok indexes ↦ any (is_first column) indexes
    | err e ↦ false
    | panic ↦ false
  ]

  unfoldable pub should_push_down_join_keys : Name → Name → ℕ → Bool
  unfolding is_indexed_column
  should_push_down_join_keys table column key_count =
      leb key_count max_alternatives && is_indexed_column table column

  -- The distinct values of a column in the left rows, without null.
  unfoldable pub unique_join_values : JoinSide V → ℕ → ℕ → List RowRef → List V → Result E (List V)
  unique_join_values side side_index column_index [] seen = ok []
  unique_join_values side side_index column_index (r ∷ rows) seen = indexed r side_index >>= λ at.
      elim at [
        | none ↦ unique_join_values side side_index column_index rows seen
        | some row_index ↦ indexed side.rows row_index >>= λ found.
            cell equal null found column_index >>= λ value.
            elim (is_null equal null value || any (equal.eq value) seen) [
              | true ↦ unique_join_values side side_index column_index rows seen
              | false ↦
                  unique_join_values side side_index column_index rows (value ∷ seen) >>= λ later.
                  ok (value ∷ later)
            ]
      ]

  abbrev select_keys : Name → Name → List V → Result E (List (TableRow V))
  unfolding should_push_down_join_keys
  select_keys right_table right_col [] = ok []
  select_keys right_table right_col (k ∷ keys) =
      if should_push_down_join_keys right_table right_col (length (k ∷ keys))
      then tables.select right_table (some (Filter.in_list right_col (k ∷ keys)))
      else tables.select right_table (some (Filter.ne right_col null))

  unfoldable pub load_join_right_rows :
      List (JoinSide V)
      → List RowRef
      → Option KeyPosition
      → Name
      → Name
      → Bool
      → Result E (List (TableRow V))
  unfolding unique_join_values select_keys
  load_join_right_rows sides rows left_key right_table right_col keep_unmatched_right =
      if keep_unmatched_right then tables.select right_table none else elim left_key [
        | none ↦ ok []
        | some (side_index, column_index) ↦ indexed sides side_index >>= λ side.
            unique_join_values side side_index column_index rows [] >>= λ keys.
            select_keys right_table right_col keys
      ]

  -- The position of the left key: the first side with the table, and the column there.
  unfoldable pub find_left_key : Name → Name → List (JoinSide V) → ℕ → Option KeyPosition
  find_left_key table column [] index = none
  find_left_key table column (side ∷ sides) index =
      let later = find_left_key table column sides (index + 1) in
      if name_eq side.table table
      then (elim (position column side.columns) [ none ↦ none | some c ↦ some (index, c) ])
      else later

  -- The clauses from left to right, each with the columns of its table.
  unfoldable pub join_clauses :
      Name
      → List (Join × List ColumnDef)
      → List (JoinSide V)
      → List RowRef
      → Result E (List (JoinSide V) × List RowRef)
  unfolding resolve_column_ref find_left_key load_join_right_rows hash_join new_side
  join_clauses from_table [] sides rows = ok (sides, rows)
  join_clauses from_table ((join, right_columns) ∷ joins) sides rows =
      let (left_table, left_col) = resolve_column_ref join.left_column from_table in
      let right_col = (resolve_column_ref join.right_column join.table).1 in
      let (keep_left, keep_right) = keeps join.join_type in
      let left_key = find_left_key left_table left_col sides 0 in
      load_join_right_rows sides rows left_key join.table right_col keep_right >>= λ right_rows.
      hash_join equal null sides rows left_key
        (new_side equal null join.table right_columns right_rows) right_col keep_left keep_right
      >>= λ joined.
          join_clauses from_table joins
            (sides ++ (new_side equal null join.table right_columns right_rows ∷ [])) joined

  unfoldable pub row_groups : List (JoinSide V) → RowRef → Result E (List (Name × TableRow V))
  unfolding row
  row_groups (side ∷ sides) (index ∷ r) =
      row side index >>= λ found. row_groups sides r >>= λ groups. ok ((side.table, found) ∷ groups)
  row_groups _ _ = ok []

  unfoldable pub filter_rows : Filter V F → List (JoinSide V) → List RowRef → Result E (List RowRef)
  unfolding row_groups matches_joined_row_ref
  filter_rows filter sides [] = ok []
  filter_rows filter sides (r ∷ rows) = row_groups sides r >>= λ groups.
      map_error filter_failed (matches_joined_row_ref values filter groups) >>= λ matches.
      filter_rows filter sides rows >>= λ later. ok (if matches then r ∷ later else later)

  abbrev pub named : Name → TableRow V → Option V
  named column [] = none
  named column ((c, v) ∷ cells) =
      let later = named column cells in if name_eq c.name column then some v else later

  abbrev is_scoped : Option Name → Name → Bool
  is_scoped none table = true
  is_scoped (some t) table = name_eq table t

  unfoldable pub find_value : List (JoinSide V) → RowRef → Option Name → Name → Result E (Option V)
  unfolding row
  find_value (side ∷ sides) (index ∷ r) table column = elim (is_scoped table side.table) [
    | false ↦ find_value sides r table column
    | true ↦ row side index >>= λ found. elim (named column found) [
      | some v ↦ ok (some v)
      | none ↦ find_value sides r table column
    ]
  ]
  find_value _ _ table column = ok none

  -- Whether the first is ordered before the second, `sort_values_with_direction` being `Less`.
  abbrev pub is_less : Option V → Option V → OrderDirection → Bool
  is_less (some a) (some b) ascending = values.lt a b
  is_less (some a) (some b) descending = values.lt b a
  is_less (some a) none direction = false
  is_less none (some b) direction = true
  is_less none none direction = false

  abbrev pub insert_sorted :
      OrderDirection → Option V × RowRef → List (Option V × RowRef) → List (Option V × RowRef)
  insert_sorted direction r [] = r ∷ []
  insert_sorted direction r (s ∷ rows) =
      let later = insert_sorted direction r rows in
      if is_less s.0 r.0 direction then s ∷ later else r ∷ s ∷ rows

  abbrev pub sort_rows : OrderDirection → List (Option V × RowRef) → List (Option V × RowRef)
  sort_rows direction [] = []
  sort_rows direction (r ∷ rows) = insert_sorted direction r (sort_rows direction rows)

  abbrev pub keyed :
      List (JoinSide V) → Option Name → Name → List RowRef → Result E (List (Option V × RowRef))
  unfolding find_value
  keyed sides table column [] = ok []
  keyed sides table column (r ∷ rows) = find_value sides r table column >>= λ v.
      keyed sides table column rows >>= λ later. ok ((v, r) ∷ later)

  unfoldable pub sort_joined_rows :
      List (JoinSide V) → List RowRef → Name → OrderDirection → Result E (List RowRef)
  unfolding keyed
  sort_joined_rows sides rows column direction = elim (split_once column) [
    | some (table, col) ↦ keyed sides (some table) col rows >>= λ k.
        ok (map (λ (p : Option V × RowRef). p.1) (sort_rows direction k))
    | none ↦ keyed sides none column rows >>= λ k.
        ok (map (λ (p : Option V × RowRef). p.1) (sort_rows direction k))
  ]

  -- The orders from the last to the first.
  unfoldable pub sort_all :
      List (JoinSide V) → List (Name × OrderDirection) → List RowRef → Result E (List RowRef)
  unfolding sort_joined_rows
  sort_all sides [] rows = ok rows
  sort_all sides ((column, direction) ∷ orders) rows =
      sort_all sides orders rows >>= λ sorted. sort_joined_rows sides sorted column direction

  unfoldable pub window : Option ℕ → Option ℕ → List RowRef → List RowRef
  window offset none rows = elim offset [ none ↦ rows | some n ↦ drop n rows ]
  window offset (some limit) rows = take limit (elim offset [ none ↦ rows | some n ↦ drop n rows ])

  -- `table.column`
  abbrev pub qualified : Name → Name → Name
  qualified table column = table ++ (b'.' ∷ column)

  unfoldable pub selected_columns : JoinSide V → Select → List Bool
  selected_columns side selection =
      map
        (λ (c : ColumnDef).
          all_selected selection
          || any (λ field. name_eq field c.name || name_eq field (qualified side.table c.name))
              (raw_columns selection))
        side.columns

  abbrev pub masked : {A : Type 0} → List A → List Bool → List A
  masked (x ∷ xs) (b ∷ mask) = let later = masked xs mask in if b then x ∷ later else later
  masked _ _ = []

  unfoldable pub materialize_row : List (JoinSide V) → List (List Bool) → RowRef → Result E (List V)
  unfolding row
  materialize_row (side ∷ sides) (mask ∷ selected) (index ∷ r) = row side index >>= λ cells.
      materialize_row sides selected r >>= λ later.
      ok (masked (map (λ (c : ColumnDef × V). c.1) cells) mask ++ later)
  materialize_row _ _ _ = ok []

  abbrev materialize_all :
      List (JoinSide V) → List (List Bool) → List RowRef → Result E (List (List V))
  unfolding materialize_row
  materialize_all sides selected [] = ok []
  materialize_all sides selected (r ∷ rows) = materialize_row sides selected r >>= λ first.
      materialize_all sides selected rows >>= λ later. ok (first ∷ later)

  abbrev result_columns : List (JoinSide V) → Select → List (Name × ColumnDef)
  unfolding selected_columns
  result_columns [] selection = []
  result_columns (side ∷ sides) selection =
      map (λ (c : ColumnDef). (side.table, c))
        (masked side.columns (selected_columns side selection))
      ++ result_columns sides selection

  abbrev with_columns : List Join → Result E (List (Join × List ColumnDef))
  with_columns [] = ok []
  with_columns (join ∷ joins) = tables.table_columns join.table >>= λ columns.
      with_columns joins >>= λ later. ok ((join, columns) ∷ later)

  abbrev check_filter : Option (Filter V F) → List (Name × List ColumnDef) → Result E (Unit {0})
  unfolding validate_joined
  check_filter none groups = ok tt
  check_filter (some filter) groups = map_error filter_failed (validate_joined filter groups)

  abbrev apply_filter :
      Option (Filter V F) → List (JoinSide V) → List RowRef → Result E (List RowRef)
  unfolding filter_rows
  apply_filter none sides rows = ok rows
  apply_filter (some filter) sides rows = filter_rows filter sides rows

  unfoldable pub join : Name → Query V F → Result E (JoinResultSet V)
  unfolding check_filter new_side join_clauses apply_filter sort_all window materialize_all
      result_columns selected_columns
  join from_table query = tables.table_columns from_table >>= λ from_columns.
      with_columns query.joins >>= λ joins.
      check_filter query.filter
        ((from_table, from_columns) ∷ map (λ (j : Join × List ColumnDef). (j.0.table, j.1)) joins)
      >>= λ _. tables.select from_table none >>= λ from_rows.
          join_clauses from_table joins (new_side equal null from_table from_columns from_rows ∷ [])
            (indexes_from (length from_rows) 0)
          >>= λ joined. apply_filter query.filter joined.0 joined.1 >>= λ filtered.
              sort_all joined.0 query.order_by filtered >>= λ sorted.
              materialize_all joined.0
                (map (λ (s : JoinSide V). selected_columns s query.selection) joined.0)
                (window query.offset query.limit sorted)
              >>= λ rows.
                  ok (record { columns = result_columns joined.0 query.selection; rows = rows })
