-- ===== src/Examples/Access.antt =====
-- The plan of a filter on a table with three indexes. Numbers are the values, 0 is null.
use wasm_dbms.Prelude.{
  ℕ, ◌≡◌, refl, ap, arith, List, [], ◌∷◌, true, false, ◌==◌, ==_iff, inl, inr, Bool-cases, Option,
  some,
}
use wasm_dbms.Prelude.Names.{Name}
use wasm_dbms.Prelude.Result.{ok}
use wasm_dbms.Query.Filter.{
  Filter, Row, ColumnDef, DataTypeKind, find_column, matches, value_is_null,
}
use wasm_dbms.Examples.Filter.{numbers}
use wasm_dbms.Access.Scan.{
  AccessPath, scan, union, intersection, to_paths, included, unbounded, as_scan, matches_row,
  scan_count, collect_constrained_columns,
}
use wasm_dbms.Access.Constraint.{
  Constants, apply, normalize, normalize_list, normalize_bounds, stricter, is_empty_interval,
  range_bounds, not_null_bounds,
}
use wasm_dbms.Access.Constraint.Order.{IsOrdered}
use wasm_dbms.Access.Collect.{collect}
use wasm_dbms.Access.Plan.{plan_filter, plan_conjunction, or_candidate, index_candidate, walk}
use wasm_dbms.Access.Scan.Agree.{AllFit, matches_row-collect_constrained_columns}
use wasm_dbms.Access.Plan.Sound.{plan_filter-PathHasRow}
use wasm_dbms.Access.Plan.Fuel.{plan_filter_total}

abbrev id : Name
id = b'i' ∷ []

abbrev tag : Name
tag = b't' ∷ []

abbrev id_column : ColumnDef
id_column = record {
  name = id;
  data_type = DataTypeKind.uint8;
  primary_key = true;
  unique = true;
  nullable = false;
}

abbrev tag_column : ColumnDef
tag_column = record {
  name = tag;
  data_type = DataTypeKind.text;
  primary_key = false;
  unique = false;
  nullable = true;
}

abbrev constants : Constants ℕ
constants = record {
  null = 0;
  empty_text = 1;
  uint8_zero = 1;
  uint16_zero = 1;
  uint32_zero = 1;
  uint64_zero = 1;
}

abbrev columns : List ColumnDef
columns = id_column ∷ tag_column ∷ []

abbrev indexes : List (List Name)
indexes = (id ∷ []) ∷ (tag ∷ []) ∷ (tag ∷ id ∷ []) ∷ []

abbrev row : Row numbers
row = (id_column, 3) ∷ (tag_column, 5) ∷ []

-- `(id = 3 OR tag = 9) AND tag IS NOT NULL`
abbrev filter : Filter ℕ ℕ
filter = Filter.and (Filter.or (Filter.eq id 3) (Filter.eq tag 9)) (Filter.not_null tag)

numbers_IsOrdered : IsOrdered numbers
unfolding value_is_null
numbers_IsOrdered = record {
  gt_lem = λ a b. refl;
  le_lem = λ a b. ground arith;
  ge_lem = λ a b. ground arith;
  eq_lem = λ a b. ground arith;
  lt_asymm = λ a b h. ground arith;
  lt_split = λ a b c h. ground arith;
  null_lem = λ a b h. ap (value_is_null numbers) ((==_iff a b).0 h);
}

-- The branches of the disjunction, and the values of the other column that are not null.
abbrev path : AccessPath ℕ
path = intersection (
    to_paths (
      union (
        to_paths (
          scan (as_scan (id ∷ []) unbounded unbounded (3 ∷ []))
          ∷ scan (as_scan (tag ∷ []) unbounded unbounded (9 ∷ []))
          ∷ []))
      ∷ scan (as_scan (tag ∷ []) (included 1) unbounded [])
      ∷ []))

planned : plan_filter numbers constants 5 filter indexes columns ≡ ok (some path)
unfolding plan_filter plan_conjunction or_candidate index_candidate walk collect apply normalize
    normalize_list normalize_bounds stricter is_empty_interval range_bounds not_null_bounds
    value_is_null scan_count
planned = refl

matched : matches numbers filter row ≡ ok true
unfolding matches value_is_null
matched = refl

null_eq : (v : ℕ) → value_is_null numbers v ≡ true → (v == 0) ≡ true
unfolding value_is_null
null_eq v h = elim (Bool-cases (v == 0)) [ inl e ↦ e | inr e ↦ cc (rw (value_is_null, e) at h) ]

plan_filter-PathHasRow_example : matches_row numbers path row ≡ true
unfolding find_column
plan_filter-PathHasRow_example =
    plan_filter-PathHasRow numbers numbers_IsOrdered constants null_eq columns indexes row
      (refl, (refl, tt)) ((refl, λ h. refl), ((refl, λ h. refl), tt))
      (((3, refl), tt), (((5, refl), tt), (((5, refl), ((3, refl), tt)), tt))) 5 filter path planned
      matched

plan_filter_total_example :
    (o : Option (AccessPath ℕ)) × (plan_filter numbers constants 5 filter indexes columns ≡ ok o)
plan_filter_total_example =
    plan_filter_total numbers constants indexes columns 5 filter (omega arith)

-- The same tag, and another id.
abbrev moved : Row numbers
moved = (id_column, 4) ∷ (tag_column, 5) ∷ []

abbrev tagged : AccessPath ℕ
tagged = scan (as_scan (tag ∷ id ∷ []) unbounded unbounded (5 ∷ []))

matches_row-collect_constrained_columns_example :
    matches_row numbers tagged row ≡ matches_row numbers tagged moved
unfolding find_column AllFit collect_constrained_columns
matches_row-collect_constrained_columns_example =
    matches_row-collect_constrained_columns numbers row moved tagged
      (omega arith, (((5, refl), (5, refl)), (((3, refl), (4, refl)), tt))) (refl, tt)

-- A contradiction is seen without an index: no row has the tag 2 and a tag above 4.
contradiction_test :
    plan_filter numbers constants 3 (Filter.and (Filter.eq tag 2) (Filter.gt tag 4)) [] columns
    ≡ ok (some AccessPath.empty)
unfolding plan_filter plan_conjunction or_candidate index_candidate walk collect apply normalize
    normalize_list normalize_bounds stricter is_empty_interval range_bounds not_null_bounds
    value_is_null scan_count
contradiction_test = refl
