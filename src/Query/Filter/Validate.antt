-- ===== src/Query/Filter/Validate.antt =====
-- query/filter.rs, `validate_joined`: the check of a filter against the columns of the joined tables.
pub mod Resolve
pub mod Sound
use wasm_dbms.Prelude.Names.{Name, name_eq, find}
use wasm_dbms.Prelude.{List, [], ◌∷◌, ◌++◌, Bool, true, false, Option, none, some, if◌then◌else◌}
use wasm_dbms.Prelude.Result.{Result, ok, err, ◌>>=◌, ◌>>◌}
use wasm_dbms.Query.Like
use wasm_dbms.Query.Filter.{split_once, ColumnDef, DataTypeKind, FilterError, Filter}
use wasm_dbms.Query.Filter.{
  map_error, table_not_in_scope, ambiguous_column, not_json, like_on_non_text,
}
use wasm_dbms.Query.Filter.{invalid_like_pattern}

abbrev pub Schemas : Type 0
Schemas = List (Name × List ColumnDef)

abbrev pub is_column : Name → ColumnDef → Bool
is_column field c = name_eq c.name field

-- The columns called `field`, of all tables.
abbrev pub filter_columns : Name → List ColumnDef → List ColumnDef
filter_columns field [] = []
filter_columns field (c ∷ cs) =
    let later = filter_columns field cs in if name_eq c.name field then c ∷ later else later

abbrev pub all_columns : Schemas → List ColumnDef
all_columns [] = []
all_columns ((table, columns) ∷ groups) = columns ++ all_columns groups

module _ {E : Type 0} where
  abbrev pub first_column : Name → List ColumnDef → Result (FilterError E) (Option ColumnDef)
  first_column field [] = ok none
  first_column field (c ∷ []) = ok (some c)
  first_column field (c ∷ d ∷ cs) = err (ambiguous_column field)

  unfoldable pub resolve_joined_column_def :
      Name → Schemas → Result (FilterError E) (Option ColumnDef)
  resolve_joined_column_def field groups = elim (split_once field) [
    | some (table, column) ↦ elim (find (λ g. name_eq g.0 table) groups) [
      | none ↦ err (table_not_in_scope table)
      | some (t, columns) ↦ ok (find (is_column column) columns)
    ]
    | none ↦ first_column field (filter_columns field (all_columns groups))
  ]

  abbrev pub check_json : Name → Option ColumnDef → Result (FilterError E) (Unit {0})
  check_json field none = err (not_json field)
  check_json field (some c) = elim c.data_type [
    | DataTypeKind.json ↦ ok tt
    | _ ↦ err (not_json field)
  ]

  abbrev pub check_like : Name → Option ColumnDef → Result (FilterError E) (Unit {0})
  check_like pattern none = ok tt
  check_like pattern (some c) = elim c.data_type [
    | DataTypeKind.text ↦
        map_error (invalid_like_pattern pattern) (Like.parse pattern) >>= λ _. ok tt
    | _ ↦ err like_on_non_text
  ]

  unfoldable pub resolves : Name → Schemas → Result (FilterError E) (Unit {0})
  unfolding resolve_joined_column_def
  resolves field groups = resolve_joined_column_def field groups >>= λ _. ok tt

  unfoldable pub validate_joined :
      {V F : Type 0} → Filter V F → Schemas → Result (FilterError E) (Unit {0})
  unfolding resolves resolve_joined_column_def
  validate_joined (Filter.eq field v) groups = resolves field groups
  validate_joined (Filter.ne field v) groups = resolves field groups
  validate_joined (Filter.gt field v) groups = resolves field groups
  validate_joined (Filter.lt field v) groups = resolves field groups
  validate_joined (Filter.ge field v) groups = resolves field groups
  validate_joined (Filter.in_list field vs) groups = resolves field groups
  validate_joined (Filter.le field v) groups = resolves field groups
  validate_joined (Filter.not_null field) groups = resolves field groups
  validate_joined (Filter.is_null field) groups = resolves field groups
  validate_joined (Filter.json field filter) groups =
      resolve_joined_column_def field groups >>= λ column. check_json field column
  validate_joined (Filter.like field pattern) groups =
      resolve_joined_column_def field groups >>= λ column. check_like pattern column
  validate_joined (Filter.and left right) groups =
      validate_joined left groups >> validate_joined right groups
  validate_joined (Filter.or left right) groups =
      validate_joined left groups >> validate_joined right groups
  validate_joined (Filter.not inner) groups = validate_joined inner groups
