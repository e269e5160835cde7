-- ===== src/Query/Filter/OneTable.antt =====
-- A join of one table filters its rows as a query on the table does.
use wasm_dbms.Prelude.Names.{name_eq_lem, Name, name_eq, is_some_and, any}
use wasm_dbms.Prelude.{◌≡◌, refl, sym, ap, [], ◌∷◌, Bool, true, false}
use wasm_dbms.Prelude.{◌||◌, none, Bool-cases}
use wasm_dbms.Prelude.{inl, inr}
use mathlib.Core.List.{append-nil}
use wasm_dbms.Prelude.Result.{ok}
use wasm_dbms.Query.Filter.{split_once, Values, Filter, Row, any_named}
use wasm_dbms.Query.Filter.{find_column, collect_row}
use wasm_dbms.Query.Filter.{resolve_joined_column, matches, matches_joined_row_ref, at_most_one}
use wasm_dbms.Query.Filter.{test_column, value_is_null}
use mathlib.Core.Bool.{not as negate}

or_false : (b : Bool) → (b || false) ≡ b
or_false true = refl
or_false false = refl

module _ {V J F E : Type 0} (values : Values V J F E) where
  -- No two columns of a row have the same name.
  abbrev pub Distinct : Row values → Type 0
  Distinct [] = Unit
  Distinct ((c, v) ∷ row) = (find_column values c.name row ≡ none) × Distinct row

  -- No field of the filter is qualified with a table's name.
  abbrev pub Unqualified : Filter V F → Type 0
  Unqualified (Filter.eq field v) = split_once field ≡ none
  Unqualified (Filter.ne field v) = split_once field ≡ none
  Unqualified (Filter.gt field v) = split_once field ≡ none
  Unqualified (Filter.lt field v) = split_once field ≡ none
  Unqualified (Filter.ge field v) = split_once field ≡ none
  Unqualified (Filter.in_list field vs) = split_once field ≡ none
  Unqualified (Filter.json field filter) = split_once field ≡ none
  Unqualified (Filter.le field v) = split_once field ≡ none
  Unqualified (Filter.like field pattern) = split_once field ≡ none
  Unqualified (Filter.not_null field) = split_once field ≡ none
  Unqualified (Filter.is_null field) = split_once field ≡ none
  Unqualified (Filter.and left right) = Unqualified left × Unqualified right
  Unqualified (Filter.or left right) = Unqualified left × Unqualified right
  Unqualified (Filter.not inner) = Unqualified inner

  absent_column :
      (field : Name) (row : Row values)
      → find_column values field row ≡ none
      → (collect_row values field row ≡ [])
        × ((test : V → Bool) → any_named values field test row ≡ false)
  unfolding find_column
  absent_column field [] h = (refl, λ test. refl)
  absent_column field ((c, v) ∷ row) h = elim (Bool-cases (name_eq c.name field)) [
    | inl e ↦ cc (rw e at h)
    | inr e ↦
        let (none_left, no_any) = absent_column field row (rw e at h) in
        (rw e none_left, λ test. rw e (no_any test))
  ]

  pub column_cases :
      (field : Name) (row : Row values)
      → Distinct row
      → (at_most_one values field (collect_row values field row)
          ≡ ok (find_column values field row))
        × ((test : V → Bool)
            → any_named values field test row ≡ is_some_and test (find_column values field row))
  unfolding find_column
  column_cases field [] h = (refl, λ test. refl)
  column_cases field ((c, v) ∷ row) (absent, h) = elim (Bool-cases (name_eq c.name field)) [
    | inl e ↦
        let (none_left, no_any) =
          absent_column field row (rw (← name_eq_lem c.name field e) absent) in
        (rw (e, none_left) refl, λ test. rw (e, no_any test) (or_false (test v)))
    | inr e ↦
        let (one, same_any) = column_cases field row h in (rw e one, λ test. rw e (same_any test))
  ]

  resolve-one :
      (table field : Name) (row : Row values)
      → Distinct row
      → split_once field ≡ none
      → resolve_joined_column values field ((table, row) ∷ []) ≡ ok (find_column values field row)
  unfolding resolve_joined_column
  resolve-one table field row distinct unqualified =
      rw (unqualified, append-nil, resolve_joined_column) (column_cases field row distinct).0

  test_column-one :
      (table field : Name) (row : Row values)
      → Distinct row
      → split_once field ≡ none
      → (test : V → Bool)
      → test_column values field ((table, row) ∷ []) test ≡ ok (any_named values field test row)
  unfolding test_column
  test_column-one table field row d u test =
      rw (resolve-one table field row d u) (sym (ap ok ((column_cases field row d).1 test)))

  -- On a row whose columns have distinct names, a filter that names no table says of the row, as the
  -- only table of a join, what it says of the row alone, its errors included.
  pub matches_joined_row_ref-matches :
      (filter : Filter V F) (table : Name) (row : Row values)
      → Distinct row
      → Unqualified filter
      → matches_joined_row_ref values filter ((table, row) ∷ []) ≡ matches values filter row
  unfolding matches matches_joined_row_ref
  matches_joined_row_ref-matches (Filter.eq field value) table row d u =
      test_column-one table field row d u λ v. values.eq v value
  matches_joined_row_ref-matches (Filter.gt field value) table row d u =
      test_column-one table field row d u λ v. values.gt v value
  matches_joined_row_ref-matches (Filter.lt field value) table row d u =
      test_column-one table field row d u λ v. values.lt v value
  matches_joined_row_ref-matches (Filter.ge field value) table row d u =
      test_column-one table field row d u λ v. values.ge v value
  matches_joined_row_ref-matches (Filter.le field value) table row d u =
      test_column-one table field row d u λ v. values.le v value
  matches_joined_row_ref-matches (Filter.ne field value) table row d u =
      test_column-one table field row d u λ v. negate (values.eq v value)
  matches_joined_row_ref-matches (Filter.in_list field list) table row d u =
      test_column-one table field row d u λ v. any (λ item. values.eq item v) list
  matches_joined_row_ref-matches (Filter.not_null field) table row d u =
      test_column-one table field row d u λ v. negate (value_is_null values v)
  matches_joined_row_ref-matches (Filter.is_null field) table row d u =
      test_column-one table field row d u (value_is_null values)
  matches_joined_row_ref-matches (Filter.json field filter) table row d u =
      rw (resolve-one table field row d u) refl
  matches_joined_row_ref-matches (Filter.like field pattern) table row d u =
      rw (resolve-one table field row d u) refl
  matches_joined_row_ref-matches (Filter.and left right) table row d (ul, ur) =
      rw
        (
          matches_joined_row_ref-matches left table row d ul,
          matches_joined_row_ref-matches right table row d ur,
        )
        refl
  matches_joined_row_ref-matches (Filter.or left right) table row d (ul, ur) =
      rw
        (
          matches_joined_row_ref-matches left table row d ul,
          matches_joined_row_ref-matches right table row d ur,
        )
        refl
  matches_joined_row_ref-matches (Filter.not inner) table row d u =
      rw (matches_joined_row_ref-matches inner table row d u) refl
