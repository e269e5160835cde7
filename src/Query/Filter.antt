-- ===== src/Query/Filter.antt =====
-- query/filter.rs: the filters of queries, evaluated on a row of one table or of a join. Names are
-- lists of characters. The values, their comparison and the JSON filters come through an interface.
pub mod OneTable
pub mod Validate
use wasm_dbms.Prelude.Names.{Name, name_eq, any, find, is_some_and, second}
use wasm_dbms.Prelude.{ℕ, List, [], ◌∷◌, ◌++◌, Bool, true, false, ◌&&◌, ◌||◌}
use wasm_dbms.Prelude.{Option, none, some, String, ◌⊎◌, inl, inr, ◌==◌, if◌then◌else◌}
use mathlib.Core.Bool.{not as negate}
use wasm_dbms.Prelude.Result.{Result, ok, err, panic, ◌>>=◌}
use wasm_dbms.Query.Like
use wasm_dbms.Query.Like.{QueryError}

-- `split_once('.')`
abbrev pub split_once : Name → Option (Name × Name)
split_once [] = none
split_once (c ∷ cs) =
    let later = split_once cs in
    if c == b'.'
    then some ([], cs)
    else (elim later [ none ↦ none | some (table, column) ↦ some (c ∷ table, column) ])

pub data WireSize : Type 0 where
  fixed : ℕ → WireSize
  length_prefixed : WireSize

pub data DataTypeKind : Type 0 where
  blob : DataTypeKind
  boolean : DataTypeKind
  date : DataTypeKind
  date_time : DataTypeKind
  decimal : DataTypeKind
  int8 : DataTypeKind
  int16 : DataTypeKind
  int32 : DataTypeKind
  int64 : DataTypeKind
  json : DataTypeKind
  text : DataTypeKind
  uint8 : DataTypeKind
  uint16 : DataTypeKind
  uint32 : DataTypeKind
  uint64 : DataTypeKind
  uuid : DataTypeKind
  custom : (tag : String) (wire_size : WireSize) → DataTypeKind

-- The fields of a column that filters, plans and transactions read.
pub record ColumnDef : Type 0 where
  pub name : Name
  pub data_type : DataTypeKind
  pub primary_key : Bool
  pub unique : Bool
  pub nullable : Bool

-- What the variants of `Value` are to a filter.
pub data Variant (J : Type 0) : Type 0 where
  null : Variant J
  text : Name → Variant J
  json : J → Variant J
  other : Variant J

-- `Value` with its comparisons, and `JsonFilter` with its operations.
pub record Values (V J F E : Type 0) : Type 0 where
  pub variant : V → Variant J
  pub eq : V → V → Bool
  pub gt : V → V → Bool
  pub lt : V → V → Bool
  pub ge : V → V → Bool
  pub le : V → V → Bool
  pub json_matches : F → J → E ⊎ Bool
  pub json_validate : F → E ⊎ Unit {0}

-- `QueryError::InvalidQuery`, by the message and what is written in it, or a JSON filter's error.
pub data FilterError (E : Type 0) : Type 0 where
  table_not_in_scope : Name → FilterError E
  ambiguous_column : Name → FilterError E
  not_json : Name → FilterError E
  like_on_non_text : FilterError E
  invalid_like_pattern : Name → QueryError → FilterError E
  json_error : E → FilterError E

pub data Filter (V F : Type 0) : Type 0 where
  eq : Name → V → Filter V F
  ne : Name → V → Filter V F
  gt : Name → V → Filter V F
  lt : Name → V → Filter V F
  ge : Name → V → Filter V F
  in_list : Name → List V → Filter V F
  json : Name → F → Filter V F
  le : Name → V → Filter V F
  like : Name → Name → Filter V F
  not_null : Name → Filter V F
  is_null : Name → Filter V F
  and : Filter V F → Filter V F → Filter V F
  or : Filter V F → Filter V F → Filter V F
  not : Filter V F → Filter V F

abbrev pub map_error : {D E A : Type 0} → (D → E) → Result D A → Result E A
map_error f (ok a) = ok a
map_error f (err e) = err (f e)
map_error f panic = panic

abbrev pub json_answer {ℓ} : {E : Type 0} {A : Type ℓ} → E ⊎ A → Result (FilterError E) A
json_answer (inl e) = err (json_error e)
json_answer (inr a) = ok a

-- `left? && right?` and `left? || right?`: the right operand is evaluated only if it matters.
abbrev pub and_then : {E : Type 0} → Result E Bool → Result E Bool → Result E Bool
and_then left right = left >>= λ b. if b then right else ok false

abbrev pub or_else : {E : Type 0} → Result E Bool → Result E Bool → Result E Bool
or_else left right = left >>= λ b. if b then ok true else right

abbrev pub negated : {E : Type 0} → Result E Bool → Result E Bool
negated inner = inner >>= λ b. ok (negate b)

module _ {V J F E : Type 0} (values : Values V J F E) where
  abbrev pub Row : Type 0
  Row = List (ColumnDef × V)

  abbrev pub Groups : Type 0
  Groups = List (Name × Row)

  abbrev pub FilterResult : Type 0 → Type 0
  FilterResult A = Result (FilterError E) A

  abbrev pub is_named : Name → ColumnDef × V → Bool
  is_named field (c, v) = name_eq c.name field

  unfoldable pub find_column : Name → Row → Option V
  find_column field row = second (find (is_named field) row)

  unfoldable pub value_is_null : V → Bool
  value_is_null v = elim (values.variant v) [ null ↦ true | _ ↦ false ]

  unfoldable pub matches_json : Name → F → Option V → FilterResult Bool
  matches_json field filter none = err (not_json field)
  matches_json field filter (some v) = elim (values.variant v) [
    | json j ↦ json_answer (values.json_matches filter j)
    | null ↦ json_answer (values.json_validate filter) >>= λ _. ok false
    | _ ↦ err (not_json field)
  ]

  -- The answer of `Like.matches`, which always has enough fuel.
  abbrev pub like_answer : Option Bool → FilterResult Bool
  like_answer none = panic
  like_answer (some b) = ok b

  abbrev pub parse_like : Name → FilterResult (List Like.PatternToken)
  parse_like pattern = map_error (invalid_like_pattern pattern) (Like.parse pattern)

  unfoldable pub matches_like : Name → V → FilterResult Bool
  matches_like pattern v = elim (values.variant v) [
    | text s ↦ parse_like pattern >>= λ tokens. like_answer (Like.matches tokens s)
    | null ↦ parse_like pattern >>= λ _. ok false
    | _ ↦ err like_on_non_text
  ]

  abbrev pub like_column : Name → Option V → FilterResult Bool
  like_column pattern none = ok false
  like_column pattern (some v) = matches_like pattern v

  abbrev pub any_named : Name → (V → Bool) → Row → Bool
  any_named field test row = any (λ cv. is_named field cv && test cv.1) row

  unfoldable pub matches : Filter V F → Row → FilterResult Bool
  unfolding find_column matches_json matches_like value_is_null
  matches (eq field value) row = ok (any_named field (λ v. values.eq v value) row)
  matches (ne field value) row = ok (any_named field (λ v. negate (values.eq v value)) row)
  matches (gt field value) row = ok (any_named field (λ v. values.gt v value) row)
  matches (lt field value) row = ok (any_named field (λ v. values.lt v value) row)
  matches (ge field value) row = ok (any_named field (λ v. values.ge v value) row)
  matches (le field value) row = ok (any_named field (λ v. values.le v value) row)
  matches (in_list field list) row =
      ok (any_named field (λ v. any (λ item. values.eq item v) list) row)
  matches (json field filter) row = matches_json field filter (find_column field row)
  matches (like field pattern) row = like_column pattern (find_column field row)
  matches (not_null field) row = ok (any_named field (λ v. negate (value_is_null v)) row)
  matches (is_null field) row = ok (any_named field value_is_null row)
  matches (and left right) row = and_then (matches left row) (matches right row)
  matches (or left right) row = or_else (matches left row) (matches right row)
  matches (not inner) row = negated (matches inner row)

  -- The values that the loops over an unqualified name collect.
  abbrev pub collect_row : Name → Row → List V
  collect_row field [] = []
  collect_row field ((c, v) ∷ row) =
      let later = collect_row field row in if name_eq c.name field then v ∷ later else later

  abbrev pub collect : Name → Groups → List V
  collect field [] = []
  collect field ((table, row) ∷ groups) = collect_row field row ++ collect field groups

  abbrev pub at_most_one : Name → List V → FilterResult (Option V)
  at_most_one field [] = ok none
  at_most_one field (v ∷ []) = ok (some v)
  at_most_one field (v ∷ w ∷ vs) = err (ambiguous_column field)

  unfoldable pub resolve_joined_column : Name → Groups → FilterResult (Option V)
  resolve_joined_column field groups = elim (split_once field) [
    | some (table, column) ↦ elim (find (λ g. name_eq g.0 table) groups) [
      | none ↦ err (table_not_in_scope table)
      | some (t, row) ↦ ok (second (find (is_named column) row))
    ]
    | none ↦ at_most_one field (collect field groups)
  ]

  abbrev pub test_column : Name → Groups → (V → Bool) → FilterResult Bool
  unfolding resolve_joined_column
  test_column field groups test =
      resolve_joined_column field groups >>= λ column. ok (is_some_and test column)

  unfoldable pub matches_joined_row_ref : Filter V F → Groups → FilterResult Bool
  unfolding resolve_joined_column matches_json matches_like value_is_null
  matches_joined_row_ref (eq field value) g = test_column field g λ v. values.eq v value
  matches_joined_row_ref (ne field value) g = test_column field g λ v. negate (values.eq v value)
  matches_joined_row_ref (gt field value) g = test_column field g λ v. values.gt v value
  matches_joined_row_ref (lt field value) g = test_column field g λ v. values.lt v value
  matches_joined_row_ref (ge field value) g = test_column field g λ v. values.ge v value
  matches_joined_row_ref (le field value) g = test_column field g λ v. values.le v value
  matches_joined_row_ref (in_list field list) g =
      test_column field g λ v. any (λ item. values.eq item v) list
  matches_joined_row_ref (json field filter) g =
      resolve_joined_column field g >>= λ column. matches_json field filter column
  matches_joined_row_ref (like field pattern) g =
      resolve_joined_column field g >>= λ column. like_column pattern column
  matches_joined_row_ref (not_null field) g = test_column field g λ v. negate (value_is_null v)
  matches_joined_row_ref (is_null field) g = test_column field g value_is_null
  matches_joined_row_ref (and left right) g =
      and_then (matches_joined_row_ref left g) (matches_joined_row_ref right g)
  matches_joined_row_ref (or left right) g =
      or_else (matches_joined_row_ref left g) (matches_joined_row_ref right g)
  matches_joined_row_ref (not inner) g = negated (matches_joined_row_ref inner g)
