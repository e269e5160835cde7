-- ===== src/Access/Collect.antt =====
-- database/access_planner.rs, `ColumnConstraints`: the constraints of a conjunction's columns.
pub mod Sound
use wasm_dbms.Prelude.{List, [], ◌∷◌, ◌++◌, Option, none, some, if◌then◌else◌}
use wasm_dbms.Prelude.Names.{Name, name_eq}
use wasm_dbms.Query.Filter.{Values, Filter}
use wasm_dbms.Access.Scan.{included, excluded}
use wasm_dbms.Access.Constraint.{
  Constants, ColumnConstraint, Update, equals, is_in, is_not_null, at_least, at_most, default,
  apply, normalize,
}

-- The pairs of the map, each name once.
abbrev pub Constraints : Type 0 → Type 0
Constraints V = List (Name × ColumnConstraint V)

abbrev pub get : {V : Type 0} → Constraints V → Name → Option (ColumnConstraint V)
get [] column = none
get ((name, c) ∷ rest) column =
    let later = get rest column in if name_eq name column then some c else later

abbrev pub conjunct_update : {V F : Type 0} → Constants V → Filter V F → Option (Name × Update V)
conjunct_update constants (Filter.eq column v) = some (column, equals v)
conjunct_update constants (Filter.is_null column) = some (column, equals constants.null)
conjunct_update constants (Filter.not_null column) = some (column, is_not_null)
conjunct_update constants (Filter.in_list column list) = some (column, is_in list)
conjunct_update constants (Filter.ge column v) = some (column, at_least (included v))
conjunct_update constants (Filter.gt column v) = some (column, at_least (excluded v))
conjunct_update constants (Filter.le column v) = some (column, at_most (included v))
conjunct_update constants (Filter.lt column v) = some (column, at_most (excluded v))
conjunct_update constants _ = none

abbrev pub flatten_and : {V F : Type 0} → Filter V F → List (Filter V F)
flatten_and (Filter.and left right) = flatten_and left ++ flatten_and right
flatten_and other = other ∷ []

abbrev pub flatten_or : {V F : Type 0} → Filter V F → List (Filter V F)
flatten_or (Filter.or left right) = flatten_or left ++ flatten_or right
flatten_or other = other ∷ []

module _ {V J F E : Type 0} (values : Values V J F E) where
  -- `entry(column).or_default().apply(update)`
  abbrev pub apply_entry : Name → Update V → Constraints V → Option (Constraints V)
  apply_entry column update [] = elim (apply values update default) [
    | none ↦ none
    | some c ↦ some ((column, c) ∷ [])
  ]
  apply_entry column update ((name, c) ∷ rest) =
      let later = apply_entry column update rest in
      if name_eq name column
      then (elim (apply values update c) [ none ↦ none | some d ↦ some ((name, d) ∷ rest) ])
      else (elim later [ none ↦ none | some applied ↦ some ((name, c) ∷ applied) ])

  abbrev pub normalize_all : Constraints V → Option (Constraints V)
  normalize_all [] = some []
  normalize_all ((name, c) ∷ rest) = elim (normalize values c) [
    | none ↦ none
    | some d ↦ elim (normalize_all rest) [
      | none ↦ none
      | some normalized ↦ some ((name, d) ∷ normalized)
    ]
  ]

  abbrev pub apply_all : Constants V → List (Filter V F) → Constraints V → Option (Constraints V)
  apply_all constants [] constraints = some constraints
  apply_all constants (conjunct ∷ conjuncts) constraints =
      elim (conjunct_update constants conjunct) [
        | none ↦ apply_all constants conjuncts constraints
        | some (column, update) ↦ elim (apply_entry column update constraints) [
          | none ↦ none
          | some applied ↦ apply_all constants conjuncts applied
        ]
      ]

  unfoldable pub collect : Constants V → List (Filter V F) → Option (Constraints V)
  collect constants conjuncts = elim (apply_all constants conjuncts []) [
    | none ↦ none
    | some constraints ↦ normalize_all constraints
  ]
