-- ===== src/Access/Scan.antt =====
-- database/index_reader.rs, `IndexScan`, and database/access_planner.rs, `AccessPath`: what a plan
-- reads. A list of names stands for the static slice of an index's columns.
pub mod Agree
use wasm_dbms.Prelude.{
  ℕ, suc, ◌+◌, min, leb, List, [], ◌∷◌, ◌++◌, map, length, get_elem?, take, Bool, true, false, ◌&&◌,
  ◌||◌, Option, none, some, if◌then◌else◌,
}
use wasm_dbms.Prelude.Names.{Name, is_some_and}
use wasm_dbms.Query.Filter.{Values, Row, find_column}

-- `std::ops::Bound`
pub data Bound (V : Type 0) : Type 0 where
  included : V → Bound V
  excluded : V → Bound V
  unbounded : Bound V

pub record IndexScan (V : Type 0) : Type 0 where
  pub columns : List Name
  pub prefix : List V
  pub lower : Bound V
  pub upper : Bound V

mutual
  pub data AccessPath (V : Type 0) : Type 0 where
    empty : AccessPath V
    scan : IndexScan V → AccessPath V
    union : AccessPaths V → AccessPath V
    intersection : AccessPaths V → AccessPath V

  -- The vector of paths under a union or an intersection.
  pub data AccessPaths (V : Type 0) : Type 0 where
    nil : AccessPaths V
    cons : AccessPath V → AccessPaths V → AccessPaths V

abbrev pub to_paths : {V : Type 0} → List (AccessPath V) → AccessPaths V
to_paths [] = nil
to_paths (p ∷ ps) = cons p (to_paths ps)

abbrev pub is_unbounded : {V : Type 0} → Bound V → Bool
is_unbounded unbounded = true
is_unbounded _ = false

abbrev pub as_scan : {V : Type 0} → List Name → Bound V → Bound V → List V → IndexScan V
as_scan columns lower upper prefix = record {
  columns = columns;
  prefix = prefix;
  lower = lower;
  upper = upper;
}

abbrev pub is_exact : {V : Type 0} → IndexScan V → Bool
is_exact s = leb (length s.columns) (length s.prefix)

abbrev pub constrained_columns : {V : Type 0} → IndexScan V → List Name
constrained_columns s =
    let ranged = if is_unbounded s.lower && is_unbounded s.upper then 0 else 1 in
    take (min (length s.prefix + ranged) (length s.columns)) s.columns

-- The key that the cursor starts from.
abbrev pub seek_key : {V : Type 0} → IndexScan V → List V
seek_key s = elim s.lower [
  | included v ↦ s.prefix ++ (v ∷ [])
  | excluded v ↦ s.prefix ++ (v ∷ [])
  | unbounded ↦ s.prefix
]

unfoldable mutual
  pub scan_count : {V : Type 0} → AccessPath V → ℕ
  scan_count empty = 0
  scan_count (scan s) = 1
  scan_count (union paths) = scan_counts paths
  scan_count (intersection paths) = scan_counts paths

  pub scan_counts : {V : Type 0} → AccessPaths V → ℕ
  scan_counts nil = 0
  scan_counts (cons p ps) = scan_count p + scan_counts ps

unfoldable mutual
  pub collect_constrained_columns : {V : Type 0} → AccessPath V → List Name
  collect_constrained_columns empty = []
  collect_constrained_columns (scan s) = constrained_columns s
  collect_constrained_columns (union paths) = collect_all_columns paths
  collect_constrained_columns (intersection paths) = collect_all_columns paths

  pub collect_all_columns : {V : Type 0} → AccessPaths V → List Name
  collect_all_columns nil = []
  collect_all_columns (cons p ps) = collect_constrained_columns p ++ collect_all_columns ps

-- `from_scans`
abbrev pub from_scans : {V : Type 0} → List (IndexScan V) → AccessPath V
from_scans [] = empty
from_scans (s ∷ []) = scan s
from_scans (s ∷ t ∷ ss) = union (to_paths (map (λ u. scan u) (s ∷ t ∷ ss)))

module _ {V J F E : Type 0} (values : Values V J F E) where
  abbrev pub admits_lower : Bound V → V → Bool
  admits_lower (included lower) v = values.ge v lower
  admits_lower (excluded lower) v = values.gt v lower
  admits_lower unbounded v = true

  abbrev pub admits_upper : Bound V → V → Bool
  admits_upper (included upper) v = values.le v upper
  admits_upper (excluded upper) v = values.lt v upper
  admits_upper unbounded v = true

  -- The row's value of the column at a position of the index; `none` also past the last position,
  -- where the code would panic, and which it does not ask for.
  abbrev pub value_at : List Name → Row values → ℕ → Option V
  value_at columns row i = elim (get_elem? columns i) [
    | none ↦ none
    | some name ↦ find_column values name row
  ]

  -- Whether the row's values, from the given position on, are those of the prefix.
  abbrev pub prefix_matches : List Name → Row values → ℕ → List V → Bool
  prefix_matches columns row i [] = true
  prefix_matches columns row i (expected ∷ rest) =
      is_some_and (λ v. values.eq v expected) (value_at columns row i)
      && prefix_matches columns row (suc i) rest

  unfoldable pub matches_scan : IndexScan V → Row values → Bool
  matches_scan s row =
      prefix_matches s.columns row 0 s.prefix
      && (is_exact s
          || is_some_and (λ v. admits_lower s.lower v && admits_upper s.upper v)
              (value_at s.columns row (length s.prefix)))

  unfoldable mutual
    pub matches_row : AccessPath V → Row values → Bool
    matches_row empty row = false
    matches_row (scan s) row = matches_scan s row
    matches_row (union paths) row = matches_any paths row
    matches_row (intersection paths) row = matches_all paths row

    pub matches_any : AccessPaths V → Row values → Bool
    matches_any nil row = false
    matches_any (cons p ps) row = matches_row p row || matches_any ps row

    pub matches_all : AccessPaths V → Row values → Bool
    matches_all nil row = true
    matches_all (cons p ps) row = matches_row p row && matches_all ps row
