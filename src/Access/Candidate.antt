-- ===== src/Access/Candidate.antt =====
-- database/access_planner.rs: the candidates of a plan, their order, and the choice among them. An index
-- is the list of its columns.
pub mod Sound
use wasm_dbms.Prelude.{
  ℕ, suc, ◌+◌, ltb, ◌==◌, List, [], ◌∷◌, ◌++◌, map, length, Bool, true, false, not, ◌&&◌, ◌||◌,
  Option, none, some, if◌then◌else◌,
}
use wasm_dbms.Prelude.Names.{Name, name_eq, any, find, is_some_and}
use wasm_dbms.Query.Filter.{ColumnDef}
use wasm_dbms.Access.Scan.{
  Bound, unbounded, AccessPath, empty, intersection, to_paths, as_scan, from_scans,
}

pub data Rank : Type 0 where
  unique_exact : Rank
  composite_exact : Rank
  prefix : Rank
  range : Rank
  union_of : Rank
  not_null : Rank

-- The place of a rank in the derived order.
abbrev pub discriminant : Rank → ℕ
discriminant unique_exact = 0
discriminant composite_exact = 1
discriminant prefix = 2
discriminant range = 3
discriminant union_of = 4
discriminant not_null = 5

pub record Candidate (V : Type 0) : Type 0 where
  pub rank : Rank
  pub position : ℕ
  pub columns : List Name
  pub path : AccessPath V

abbrev pub is_empty_path : {V : Type 0} → AccessPath V → Bool
is_empty_path empty = true
is_empty_path _ = false

-- `sort_key` of the first is less than that of the second.
abbrev pub sorts_before : {V : Type 0} → Candidate V → Candidate V → Bool
sorts_before a b =
    let ra = discriminant a.rank in
    let rb = discriminant b.rank in
    let la = length a.columns in
    let lb = length b.columns in
    ltb ra rb || (ra == rb && (ltb lb la || (la == lb && ltb a.position b.position)))

abbrev pub insert_candidate : {V : Type 0} → Candidate V → List (Candidate V) → List (Candidate V)
insert_candidate c [] = c ∷ []
insert_candidate c (d ∷ ds) =
    let later = insert_candidate c ds in if sorts_before d c then d ∷ later else c ∷ d ∷ ds

-- `sort_by_key`, which is stable.
abbrev pub sort_candidates : {V : Type 0} → List (Candidate V) → List (Candidate V)
sort_candidates [] = []
sort_candidates (c ∷ cs) = insert_candidate c (sort_candidates cs)

abbrev pub all_covered : List Name → List Name → Bool
all_covered covered [] = true
all_covered covered (c ∷ cs) = any (name_eq c) covered && all_covered covered cs

abbrev pub is_none_left : List Name → Bool
is_none_left [] = true
is_none_left (c ∷ cs) = false

-- The paths of the candidates that constrain a column which those before do not, or none at all.
abbrev pub select_members : {V : Type 0} → List Name → List (Candidate V) → List (AccessPath V)
select_members covered [] = []
select_members covered (c ∷ cs) =
    let skipped = select_members covered cs in
    let kept = select_members (covered ++ c.columns) cs in
    if not (is_none_left c.columns) && all_covered covered c.columns then skipped else c.path ∷ kept

abbrev pub join_members : {V : Type 0} → List (AccessPath V) → AccessPath V
join_members (p ∷ []) = p
join_members ps = intersection (to_paths ps)

abbrev pub is_read_alone : Rank → Bool
is_read_alone unique_exact = true
is_read_alone composite_exact = true
is_read_alone _ = false

-- What `plan_conjunction` makes of the sorted candidates.
abbrev pub choose : {V : Type 0} → List (Candidate V) → Option (AccessPath V)
choose [] = none
choose (c ∷ cs) =
    if any (λ d. is_empty_path d.path) (c ∷ cs)
    then some empty
    else if is_read_alone c.rank
    then some c.path
    else some (join_members (select_members [] (c ∷ cs)))

abbrev pub column_def : Name → List ColumnDef → Option ColumnDef
column_def name columns = find (λ (c : ColumnDef). name_eq c.name name) columns

abbrev pub is_unique : Name → List ColumnDef → Bool
is_unique name columns =
    is_some_and (λ (c : ColumnDef). c.primary_key || c.unique) (column_def name columns)

-- What the loop of `index_candidate` has gathered.
pub record Walk (V : Type 0) : Type 0 where
  pub prefixes : List (List V)
  pub used : List Name
  pub bounds : Option (Bound V × Bound V)
  pub not_null_only : Bool

abbrev pub start : {V : Type 0} → Walk V
start = record { prefixes = [] ∷ []; used = []; bounds = none; not_null_only = false }

abbrev pub extend : {V : Type 0} → V → List V → List V
extend v p = p ++ (v ∷ [])

abbrev pub extend_each : {V : Type 0} → List V → List (List V) → List (List V)
extend_each list [] = []
extend_each list (p ∷ ps) = map (λ v. extend v p) list ++ extend_each list ps

abbrev pub scans_of : {V : Type 0} → List Name → Walk V → AccessPath V
scans_of index w = elim w.bounds [
  | some (lower, upper) ↦ from_scans (map (as_scan index lower upper) w.prefixes)
  | none ↦ from_scans (map (as_scan index unbounded unbounded) w.prefixes)
]

abbrev pub is_first_unique : List Name → List ColumnDef → Bool
is_first_unique [] columns = false
is_first_unique (c ∷ cs) columns = is_unique c columns

abbrev pub has_bounds : {V : Type 0} → Walk V → Bool
has_bounds w = is_some_and (λ b. true) w.bounds

abbrev pub rank_of : {V : Type 0} → List Name → List ColumnDef → Walk V → Rank
rank_of index columns w =
    let exact = not (has_bounds w) && (length w.used == length index) in
    if exact && ltb 1 (length index)
    then composite_exact
    else if exact && is_first_unique index columns
    then unique_exact
    else if ltb 1 (length w.used) || not (has_bounds w)
    then prefix
    else if w.not_null_only
    then not_null
    else range
