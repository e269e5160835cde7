-- ===== src/Access/Plan.antt =====
-- database/access_planner.rs: from a filter to the path that reads its rows. An index is the list of
-- its columns. A filter is planned with fuel, and `panic` stands for running out of it.
pub mod Prefix
pub mod Reads
pub mod Fuel
pub mod Scans
pub mod Branches
pub mod Sound
use wasm_dbms.Prelude.{
  ℕ, zero, suc, ◌+◌, ◌*◌, ltb, ◌==◌, List, [], ◌∷◌, ◌++◌, map, length, Bool, true, false, not, ◌&&◌,
  ◌||◌, Option, none, some, if◌then◌else◌,
}
use wasm_dbms.Prelude.Names.{Name, name_eq, any, find, is_some_and}
use wasm_dbms.Prelude.Result.{Result, ok, panic, ◌>>=◌}
use wasm_dbms.Query.Filter.{Values, Filter, ColumnDef}
use wasm_dbms.Join.Run.{max_alternatives}
use wasm_dbms.Access.Scan.{
  Bound, unbounded, AccessPath, empty, scan, union, intersection, to_paths, as_scan, from_scans,
  scan_count,
}
use wasm_dbms.Access.Candidate.{
  Rank, union_of, Candidate, Walk, start, extend, extend_each, column_def, rank_of, scans_of,
  is_empty_path, choose, sort_candidates,
}
use wasm_dbms.Access.Constraint.{Constants, ColumnConstraint, range_bounds}
use wasm_dbms.Access.Collect.{Constraints, get, flatten_and, flatten_or, collect}

module _ {V J F E : Type 0} (values : Values V J F E) (constants : Constants V) where
  -- A column of the index whose constraint has the given equality, list and bounds.
  abbrev pub step :
      Name
      → Option V
      → Option (List V)
      → Option (Bound V × Bound V × Bool)
      → (Walk V → Walk V)
      → Walk V
      → Walk V
  step column (some v) list range next w =
      next (record w { prefixes = map (extend v) w.prefixes; used = w.used ++ (column ∷ []) })
  step column none (some list) range next w =
      elim (ltb max_alternatives (length w.prefixes * length list)) [
        | true ↦ w
        | false ↦
            next
              (record w { prefixes = extend_each list w.prefixes; used = w.used ++ (column ∷ []) })
      ]
  step column none none none next w = w
  step column none none (some (lower, upper, from_not_null)) next w = record w {
    used = w.used ++ (column ∷ []);
    bounds = some (lower, upper);
    not_null_only = from_not_null;
  }

  unfoldable pub walk : Constraints V → List ColumnDef → List Name → Walk V → Walk V
  walk constraints columns [] w = w
  walk constraints columns (column ∷ rest) w = elim (get constraints column) [
    | none ↦ w
    | some c ↦
        step column c.eq c.in_list (range_bounds values constants c (column_def column columns))
          (λ later. walk constraints columns rest later) w
  ]

  -- The candidate of what the loop has gathered, by the columns used.
  abbrev pub candidate_of :
      List Name → ℕ → List ColumnDef → Walk V → List Name → Option (Candidate V)
  candidate_of index position columns w [] = none
  candidate_of index position columns w (c ∷ cs) = some (record {
    rank = rank_of index columns w;
    position = position;
    columns = c ∷ cs;
    path = scans_of index w;
  })

  unfoldable pub index_candidate :
      List Name → ℕ → Constraints V → List ColumnDef → Option (Candidate V)
  index_candidate index position constraints columns =
      let w = walk constraints columns index start in candidate_of index position columns w w.used

  abbrev pub add_candidate : Option (Candidate V) → List (Candidate V) → List (Candidate V)
  add_candidate none cs = cs
  add_candidate (some c) cs = c ∷ cs

  -- The candidates of the indexes, from the given position on.
  abbrev pub index_candidates :
      ℕ → List (List Name) → Constraints V → List ColumnDef → List (Candidate V)
  index_candidates position [] constraints columns = []
  index_candidates position (index ∷ indexes) constraints columns =
      add_candidate (index_candidate index position constraints columns)
        (index_candidates (suc position) indexes constraints columns)

  module _ (plan : Filter V F → Result E (Option (AccessPath V))) where
    abbrev pub add_path : AccessPath V → List (AccessPath V) → List (AccessPath V)
    add_path p ps = if is_empty_path p then ps else p ∷ ps

    -- The paths of the branches, without the empty ones; `none` when one has no path.
    abbrev pub plan_branches : List (Filter V F) → Result E (Option (List (AccessPath V)))
    plan_branches [] = ok (some [])
    plan_branches (branch ∷ branches) = plan branch >>= λ planned. elim planned [
      | none ↦ ok none
      | some p ↦ plan_branches branches >>= λ later. elim later [
        | none ↦ ok none
        | some ps ↦ ok (some (add_path p ps))
      ]
    ]

    abbrev pub join_branches : List (AccessPath V) → AccessPath V
    join_branches [] = empty
    join_branches (p ∷ []) = p
    join_branches (p ∷ q ∷ ps) = union (to_paths (p ∷ q ∷ ps))

    abbrev pub union_candidate : ℕ → List (AccessPath V) → Option (Candidate V)
    union_candidate position ps =
        let path = join_branches ps in
        if ltb max_alternatives (scan_count path)
        then none
        else some (record { rank = union_of; position = position; columns = []; path = path })

    unfoldable pub or_candidate : ℕ → Filter V F → Result E (Option (Candidate V))
    or_candidate position (Filter.or left right) =
        plan_branches (flatten_or (Filter.or left right)) >>= λ planned. elim planned [
          | none ↦ ok none
          | some ps ↦ ok (union_candidate position ps)
        ]
    or_candidate position _ = ok none

    abbrev pub or_candidates : ℕ → List (Filter V F) → Result E (List (Candidate V))
    or_candidates position [] = ok []
    or_candidates position (conjunct ∷ conjuncts) = or_candidate position conjunct >>= λ c.
        or_candidates (suc position) conjuncts >>= λ cs. ok (add_candidate c cs)

    unfoldable pub plan_conjunction :
        List (Filter V F) → List (List Name) → List ColumnDef → Result E (Option (AccessPath V))
    plan_conjunction conjuncts indexes columns = elim (collect values constants conjuncts) [
      | none ↦ ok (some empty)
      | some constraints ↦ or_candidates (length indexes) conjuncts >>= λ ors.
          ok (choose (sort_candidates (index_candidates 0 indexes constraints columns ++ ors)))
    ]

  unfoldable pub plan_filter :
      ℕ → Filter V F → List (List Name) → List ColumnDef → Result E (Option (AccessPath V))
  unfolding plan_conjunction
  plan_filter zero filter indexes columns = panic
  plan_filter (suc fuel) filter indexes columns =
      plan_conjunction (λ branch. plan_filter fuel branch indexes columns) (flatten_and filter)
        indexes columns

abbrev pub is_fallible : {V F : Type 0} → Filter V F → Bool
is_fallible (Filter.like column pattern) = true
is_fallible (Filter.json column filter) = true
is_fallible (Filter.and left right) = is_fallible left || is_fallible right
is_fallible (Filter.or left right) = is_fallible left || is_fallible right
is_fallible (Filter.not inner) = is_fallible inner
is_fallible _ = false

abbrev pub collect_filter_columns : {V F : Type 0} → Filter V F → List Name
collect_filter_columns (Filter.eq column v) = column ∷ []
collect_filter_columns (Filter.ne column v) = column ∷ []
collect_filter_columns (Filter.gt column v) = column ∷ []
collect_filter_columns (Filter.lt column v) = column ∷ []
collect_filter_columns (Filter.ge column v) = column ∷ []
collect_filter_columns (Filter.le column v) = column ∷ []
collect_filter_columns (Filter.in_list column list) = column ∷ []
collect_filter_columns (Filter.json column filter) = column ∷ []
collect_filter_columns (Filter.like column pattern) = column ∷ []
collect_filter_columns (Filter.not_null column) = column ∷ []
collect_filter_columns (Filter.is_null column) = column ∷ []
collect_filter_columns (Filter.and left right) =
    collect_filter_columns left ++ collect_filter_columns right
collect_filter_columns (Filter.or left right) =
    collect_filter_columns left ++ collect_filter_columns right
collect_filter_columns (Filter.not inner) = collect_filter_columns inner
