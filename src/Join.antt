-- ===== src/Join.antt =====
-- wasm-dbms/src/join.rs: the sides of a join and the hash join of two. An index out of range panics.
pub mod Nested
pub mod Matched
pub mod Run
use wasm_dbms.Prelude.{
  ℕ, zero, suc, ◌+◌, List, [], ◌∷◌, ◌++◌, map, length, replicate, get_elem?, Bool, true, false,
  Option, none, some, if◌then◌else◌,
}
use wasm_dbms.Prelude.Names.{Name, name_eq, Eq}
use wasm_dbms.Prelude.Result.{Result, ok, panic, ◌>>=◌}
use wasm_dbms.Query.Filter.{ColumnDef}

-- One entry for each side: the index of its row, or `none` when the side is padded with nulls.
abbrev pub RowRef : Type 0
RowRef = List (Option ℕ)

abbrev pub KeyPosition : Type 0
KeyPosition = ℕ × ℕ

abbrev pub TableRow : Type 0 → Type 0
TableRow V = List (ColumnDef × V)

pub record JoinSide (V : Type 0) : Type 0 where
  pub table : Name
  pub columns : List ColumnDef
  pub rows : List (TableRow V)
  pub null_row : TableRow V

-- `position` of a column by its name.
abbrev pub position : Name → List ColumnDef → Option ℕ
position column [] = none
position column (c ∷ columns) =
    let later = position column columns in
    if name_eq c.name column then some 0 else (elim later [ none ↦ none | some i ↦ some (i + 1) ])

abbrev pub indexed : {E A : Type 0} → List A → ℕ → Result E A
indexed xs i = elim (get_elem? xs i) [ none ↦ panic | some x ↦ ok x ]

-- The hash table over the right rows, as an association list.
abbrev pub Build : Type 0 → Type 0
Build V = List (V × List ℕ)

module _ {V : Type 0} (equal : Eq V) (null : V) where
  abbrev pub is_null : V → Bool
  is_null v = equal.eq v null

  unfoldable pub new_side : Name → List ColumnDef → List (TableRow V) → JoinSide V
  new_side table columns rows = record {
    table = table;
    columns = columns;
    rows = rows;
    null_row = map (λ (column : ColumnDef). (column, null)) columns;
  }

  -- `entry(value).or_default().push(index)`
  abbrev pub add : V → ℕ → Build V → Build V
  add value index [] = (value, index ∷ []) ∷ []
  add value index ((v, indexes) ∷ build) =
      let later = add value index build in
      if equal.eq v value then (v, indexes ++ (index ∷ [])) ∷ build else (v, indexes) ∷ later

  abbrev pub lookup : V → Build V → Option (List ℕ)
  lookup value [] = none
  lookup value ((v, indexes) ∷ build) =
      let later = lookup value build in if equal.eq v value then some indexes else later

  module _ {E : Type 0} where
    abbrev pub cell : TableRow V → ℕ → Result E V
    cell row column = indexed row column >>= λ c. ok c.1

    unfoldable pub build_loop : ℕ → List (TableRow V) → ℕ → Build V → Result E (Build V)
    build_loop column [] index build = ok build
    build_loop column (row ∷ rows) index build = cell row column >>= λ value.
        build_loop column rows (index + 1) (if is_null value then build else add value index build)

    unfoldable pub build_table : JoinSide V → Name → Result E (Build V)
    unfolding build_loop
    build_table side right_col = elim (position right_col side.columns) [
      | none ↦ ok []
      | some column ↦ build_loop column side.rows 0 []
    ]

    -- The value of the left key in a row; of a padded side, none.
    unfoldable pub left_value :
        List (JoinSide V) → Option KeyPosition → RowRef → Result E (Option V)
    left_value sides none row = ok none
    left_value sides (some (side_index, column_index)) row = indexed row side_index >>= λ at.
        elim at [
          | none ↦ ok none
          | some row_index ↦ indexed sides side_index >>= λ side.
              indexed side.rows row_index >>= λ r. cell r column_index >>= λ v. ok (some v)
        ]

  abbrev pub set_true : ℕ → List Bool → List Bool
  set_true i [] = []
  set_true zero (b ∷ bs) = true ∷ bs
  set_true (suc i) (b ∷ bs) = b ∷ set_true i bs

  abbrev pub mark_all : List ℕ → List Bool → List Bool
  mark_all [] matched = matched
  mark_all (i ∷ indexes) matched = mark_all indexes (set_true i matched)

  abbrev pub matches_in : Build V → Option V → Option (List ℕ)
  matches_in build none = none
  matches_in build (some value) = if is_null value then none else lookup value build

  -- What a left row adds to the results, and the right rows that it marks.
  abbrev pub probe : Bool → RowRef → Option (List ℕ) → List RowRef
  probe keep_unmatched_left row (some indexes) = map (λ (i : ℕ). row ++ (some i ∷ [])) indexes
  probe keep_unmatched_left row none = if keep_unmatched_left then (row ++ (none ∷ [])) ∷ [] else []

  abbrev pub marks : Option (List ℕ) → List ℕ
  marks none = []
  marks (some indexes) = indexes

  abbrev pub unmatched_right : ℕ → ℕ → List Bool → List RowRef
  unmatched_right width index [] = []
  unmatched_right width index (matched ∷ rest) =
      let later = unmatched_right width (index + 1) rest in
      if matched then later else (replicate width none ++ (some index ∷ [])) ∷ later

  module _ {E : Type 0} (sides : List (JoinSide V)) (left_key : Option KeyPosition)
      (build : Build V) (keep_unmatched_left : Bool) where
    -- The loop over the left rows, with the results and the marks so far.
    unfoldable pub probe_loop :
        List RowRef → List RowRef → List Bool → Result E (List RowRef × List Bool)
    unfolding left_value
    probe_loop [] results matched = ok (results, matched)
    probe_loop (row ∷ rows) results matched = left_value sides left_key row >>= λ value.
        probe_loop rows (results ++ probe keep_unmatched_left row (matches_in build value))
          (mark_all (marks (matches_in build value)) matched)

  unfoldable pub hash_join :
      {E : Type 0}
      → List (JoinSide V)
      → List RowRef
      → Option KeyPosition
      → JoinSide V
      → Name
      → Bool
      → Bool
      → Result E (List RowRef)
  unfolding build_table probe_loop
  hash_join sides rows left_key right_side right_col keep_unmatched_left keep_unmatched_right =
      build_table right_side right_col >>= λ build.
      probe_loop sides left_key build keep_unmatched_left rows []
        (replicate (length right_side.rows) false)
      >>= λ probed. ok (
          if keep_unmatched_right
          then probed.0 ++ unmatched_right (length sides) 0 probed.1
          else probed.0)
