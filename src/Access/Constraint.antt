-- ===== src/Access/Constraint.antt =====
-- database/access_planner.rs: what a conjunction of predicates says of each column. `cmp` of two values
-- is what `lt` makes of them. A list of columns and constraints, each column once, stands for the map.
pub mod Order
pub mod Sound
pub mod Normal
use wasm_dbms.Prelude.{
  List, [], ◌∷◌, Bool, true, false, not, ◌&&◌, ◌||◌, Option, none, some, if◌then◌else◌,
}
use wasm_dbms.Prelude.Names.{Name, name_eq, any, is_some_and}
use wasm_dbms.Query.Filter.{Values, Filter, ColumnDef, DataTypeKind, value_is_null}
use wasm_dbms.Access.Scan.{
  Bound, included, excluded, unbounded, is_unbounded, admits_lower, admits_upper,
}

-- `std::cmp::Ordering`
pub data Ordering : Type 0 where
  less : Ordering
  equal : Ordering
  greater : Ordering

abbrev pub same_ordering : Ordering → Ordering → Bool
same_ordering less less = true
same_ordering equal equal = true
same_ordering greater greater = true
same_ordering _ _ = false

-- `Ordering::reverse`
abbrev pub flip : Ordering → Ordering
flip less = greater
flip equal = equal
flip greater = less

abbrev pub is_excluded : {V : Type 0} → Bound V → Bool
is_excluded (excluded v) = true
is_excluded _ = false

pub data Update (V : Type 0) : Type 0 where
  equals : V → Update V
  is_in : List V → Update V
  is_not_null : Update V
  at_least : Bound V → Update V
  at_most : Bound V → Update V

pub record ColumnConstraint (V : Type 0) : Type 0 where
  pub eq : Option V
  pub in_list : Option (List V)
  pub not_null : Bool
  pub lower : Bound V
  pub upper : Bound V

abbrev pub default : {V : Type 0} → ColumnConstraint V
default = record {
  eq = none;
  in_list = none;
  not_null = false;
  lower = unbounded;
  upper = unbounded;
}

-- The values that the planner writes itself: `Value::Null` and the smallest of some types.
pub record Constants (V : Type 0) : Type 0 where
  pub null : V
  pub empty_text : V
  pub uint8_zero : V
  pub uint16_zero : V
  pub uint32_zero : V
  pub uint64_zero : V

abbrev below_null : {V : Type 0} → Constants V → Option (Bound V × Bound V)
below_null constants = some (unbounded, excluded constants.null)

abbrev from_minimum : {V : Type 0} → V → Option (Bound V × Bound V)
from_minimum minimum = some (included minimum, unbounded)

unfoldable pub not_null_bounds :
    {V : Type 0} → Constants V → DataTypeKind → Option (Bound V × Bound V)
not_null_bounds constants kind = elim kind [
  | DataTypeKind.text ↦ from_minimum constants.empty_text
  | DataTypeKind.uint8 ↦ from_minimum constants.uint8_zero
  | DataTypeKind.uint16 ↦ from_minimum constants.uint16_zero
  | DataTypeKind.uint32 ↦ from_minimum constants.uint32_zero
  | DataTypeKind.uint64 ↦ from_minimum constants.uint64_zero
  | DataTypeKind.uuid ↦ none
  | DataTypeKind.custom tag wire_size ↦ none
  | _ ↦ below_null constants
]

module _ {V J F E : Type 0} (values : Values V J F E) where
  -- `Ord::cmp`
  abbrev pub cmp : V → V → Ordering
  cmp a b = if values.lt a b then less else if values.lt b a then greater else equal

  abbrev pub stricter_at : Bound V → Bound V → Ordering → Ordering → Bound V
  stricter_at current new tighter ordering =
      if same_ordering ordering tighter
      then current
      else if same_ordering ordering (flip tighter)
      then new
      else if is_excluded current
      then current
      else new

  unfoldable pub stricter : Bound V → Bound V → Ordering → Bound V
  stricter unbounded new tighter = new
  stricter (included c) unbounded tighter = included c
  stricter (excluded c) unbounded tighter = excluded c
  stricter (included c) (included n) tighter =
      stricter_at (included c) (included n) tighter (cmp c n)
  stricter (included c) (excluded n) tighter =
      stricter_at (included c) (excluded n) tighter (cmp c n)
  stricter (excluded c) (included n) tighter =
      stricter_at (excluded c) (included n) tighter (cmp c n)
  stricter (excluded c) (excluded n) tighter =
      stricter_at (excluded c) (excluded n) tighter (cmp c n)

  unfoldable pub is_empty_interval : Bound V → Bound V → Bool
  is_empty_interval (included lower) (included upper) = values.gt lower upper
  is_empty_interval (included lower) (excluded upper) = values.ge lower upper
  is_empty_interval (excluded lower) (included upper) = values.ge lower upper
  is_empty_interval (excluded lower) (excluded upper) = values.ge lower upper
  is_empty_interval _ _ = false

  -- `sort`, which keeps the order of equal values.
  abbrev pub insert_value : V → List V → List V
  insert_value v [] = v ∷ []
  insert_value v (w ∷ ws) =
      let later = insert_value v ws in if values.lt w v then w ∷ later else v ∷ w ∷ ws

  abbrev pub sort : List V → List V
  sort [] = []
  sort (v ∷ vs) = insert_value v (sort vs)

  -- `dedup`: of neighbours that are equal, the first is kept.
  abbrev pub dedup_after : V → List V → List V
  dedup_after v [] = []
  dedup_after v (w ∷ ws) =
      let later = dedup_after w ws in
      let same = dedup_after v ws in if values.eq w v then same else w ∷ later

  abbrev pub dedup : List V → List V
  dedup [] = []
  dedup (v ∷ vs) = v ∷ dedup_after v vs

  abbrev pub filter_values : (V → Bool) → List V → List V
  filter_values test [] = []
  filter_values test (v ∷ vs) =
      let later = filter_values test vs in if test v then v ∷ later else later

  -- `contains`, and what `binary_search` finds in a sorted list.
  abbrev pub contains : V → List V → Bool
  contains v list = any (λ item. values.eq v item) list

  abbrev pub admits : ColumnConstraint V → V → Bool
  admits c v = admits_lower values c.lower v && admits_upper values c.upper v

  abbrev pub narrow_list : Option (List V) → List V → List V
  narrow_list (some existing) list = filter_values (λ v. contains v list) existing
  narrow_list none list = list

  unfoldable pub apply : Update V → ColumnConstraint V → Option (ColumnConstraint V)
  unfolding stricter
  apply (equals v) c =
      if is_some_and (λ existing. not (values.eq existing v)) c.eq
      then none
      else some (record c { eq = some v })
  apply (is_in list) c =
      some (record c { in_list = some (narrow_list c.in_list (dedup (sort list))) })
  apply is_not_null c = some (record c { not_null = true })
  apply (at_least bound) c = some (record c { lower = stricter c.lower bound greater })
  apply (at_most bound) c = some (record c { upper = stricter c.upper bound less })

  -- The values of a list that the bounds admit, without null where it is not allowed.
  abbrev pub admitted : ColumnConstraint V → List V → List V
  admitted c list =
      filter_values (λ v. not (c.not_null && value_is_null values v))
        (filter_values (admits c) list)

  -- What is left of a constraint without equality, by its admitted values.
  abbrev pub of_list : ColumnConstraint V → List V → Option (ColumnConstraint V)
  of_list c [] = none
  of_list c (v ∷ []) = some (record c { eq = some v; in_list = none })
  of_list c (v ∷ w ∷ vs) = some (record c { in_list = some (v ∷ w ∷ vs) })

  -- The first half of `normalize`, by the list, which is taken out of the constraint, and its equality.
  unfoldable pub normalize_list :
      ColumnConstraint V → Option (List V) → Option V → Option (ColumnConstraint V)
  normalize_list c none e = some c
  normalize_list c (some list) (some e) =
      if contains e (admitted c list) then some (record c { in_list = none }) else none
  normalize_list c (some list) none = of_list c (admitted c list)

  -- The second half, by the equality.
  unfoldable pub normalize_bounds : ColumnConstraint V → Option V → Option (ColumnConstraint V)
  unfolding is_empty_interval
  normalize_bounds c (some e) =
      if not (admits c e) || (c.not_null && value_is_null values e)
      then none
      else some (record c { lower = unbounded; upper = unbounded })
  normalize_bounds c none = if is_empty_interval c.lower c.upper then none else some c

  unfoldable pub normalize : ColumnConstraint V → Option (ColumnConstraint V)
  unfolding normalize_list normalize_bounds
  normalize c = elim (normalize_list c c.in_list c.eq) [
    | none ↦ none
    | some d ↦ normalize_bounds d d.eq
  ]

  -- `range_bounds`, with the definition of the column.
  unfoldable pub range_bounds :
      Constants V → ColumnConstraint V → Option ColumnDef → Option (Bound V × Bound V × Bool)
  unfolding not_null_bounds
  range_bounds constants c column =
      if not (is_unbounded c.lower && is_unbounded c.upper)
      then some (c.lower, c.upper, false)
      else if not c.not_null
      then none
      else (elim column [
        | none ↦ none
        | some def ↦
            if not def.nullable then none else (elim (not_null_bounds constants def.data_type) [
              | none ↦ none
              | some (lower, upper) ↦ some (lower, upper, true)
            ])
      ])
