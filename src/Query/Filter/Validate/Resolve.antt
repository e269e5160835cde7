-- ===== src/Query/Filter/Validate/Resolve.antt =====
-- A column reference resolves in rows as it does in the columns that they belong to.
use mathlib.Core.Path.{subst}
use wasm_dbms.Prelude.Names.{Name, name_eq, find, second}
use wasm_dbms.Prelude.{◌≡◌, refl, List, [], ◌∷◌, ◌++◌, Bool, true, false}
use wasm_dbms.Prelude.{Option, none, some, Bool-cases, Option-cases, inl, inr, ◌⊎◌}
use wasm_dbms.Prelude.Result.{Result, ok}
use wasm_dbms.Query.Filter.{split_once, ColumnDef, DataTypeKind, Values, Variant}
use wasm_dbms.Query.Filter.{Row, Groups, is_named, collect_row, collect, at_most_one}
use wasm_dbms.Query.Filter.{resolve_joined_column}
use wasm_dbms.Query.Filter.Validate.{Schemas, is_column, filter_columns, all_columns, first_column}
use wasm_dbms.Query.Filter.Validate.{resolve_joined_column_def}

-- A Json column holds JSON values and nulls, a Text column holds texts and nulls.
abbrev pub is_json_or_null : {J : Type 0} → Variant J → Bool
is_json_or_null v = elim v [ Variant.json j ↦ true | Variant.null ↦ true | _ ↦ false ]

abbrev pub is_text_or_null : {J : Type 0} → Variant J → Bool
is_text_or_null v = elim v [ Variant.text s ↦ true | Variant.null ↦ true | _ ↦ false ]

abbrev pub fits_variant : {J : Type 0} → DataTypeKind → Variant J → Bool
fits_variant kind v = elim kind [
  | DataTypeKind.json ↦ is_json_or_null v
  | DataTypeKind.text ↦ is_text_or_null v
  | _ ↦ true
]

pub ok-injective {ℓ} :
    {E : Type 0} {A : Type ℓ} {a b : A} → ◌≡◌ {A = Result E A} (ok a) (ok b) → a ≡ b
ok-injective h = cc

module _ {V J F E : Type 0} (values : Values V J F E) where
  abbrev pub Fits : ColumnDef → V → Type 0
  Fits c v = fits_variant c.data_type (values.variant v) ≡ true

  abbrev pub columns : Row values → List ColumnDef
  columns [] = []
  columns ((c, v) ∷ row) = c ∷ columns row

  abbrev pub schemas : Groups values → Schemas
  schemas [] = []
  schemas ((table, row) ∷ groups) = (table, columns row) ∷ schemas groups

  abbrev pub RowFits : Row values → Type 0
  RowFits [] = Unit
  RowFits ((c, v) ∷ row) = Fits c v × RowFits row

  abbrev pub GroupsFit : Groups values → Type 0
  GroupsFit [] = Unit
  GroupsFit ((table, row) ∷ groups) = RowFits row × GroupsFit groups

  abbrev pub Related : Option ColumnDef → Option V → Type 0
  Related none none = Unit
  Related (some c) (some v) = Fits c v
  Related _ _ = ⊥

  abbrev AllRelated : List ColumnDef → List V → Type 0
  AllRelated [] [] = Unit
  AllRelated (c ∷ cs) (v ∷ vs) = Fits c v × AllRelated cs vs
  AllRelated _ _ = ⊥

  find-Related :
      (field : Name) (row : Row values)
      → RowFits row
      → Related (find (is_column field) (columns row)) (second (find (is_named values field) row))
  find-Related field [] h = tt
  find-Related field ((c, v) ∷ row) (fit, h) = elim (Bool-cases (name_eq c.name field)) [
    | inl e ↦ rw e fit
    | inr e ↦ rw e (find-Related field row h)
  ]

  find_group :
      (table : Name) (groups : Groups values)
      → GroupsFit groups
      → ((find (λ g. name_eq g.0 table) (schemas groups) ≡ none)
          × (find (λ g. name_eq g.0 table) groups ≡ none))
        ⊎ ((t : Name) × (row : Row values) × (find (λ g. name_eq g.0 table) (schemas groups)
              ≡ some (t, columns row))
            × (find (λ g. name_eq g.0 table) groups ≡ some (t, row))
            × RowFits row)
  find_group table [] h = inl (refl, refl)
  find_group table ((t, row) ∷ groups) (fit, h) = elim (Bool-cases (name_eq t table)) [
    | inl e ↦ inr (t, row, rw e, rw e, fit)
    | inr e ↦ rw e (find_group table groups h)
  ]

  collect_row-AllRelated :
      (field : Name) (row : Row values) (cs : List ColumnDef) (vs : List V)
      → RowFits row
      → AllRelated (filter_columns field cs) vs
      → AllRelated (filter_columns field (columns row ++ cs)) (collect_row values field row ++ vs)
  collect_row-AllRelated field [] cs vs h r = r
  collect_row-AllRelated field ((c, v) ∷ row) cs vs (fit, h) r =
      elim (Bool-cases (name_eq c.name field)) [
        | inl e ↦ rw e (fit, collect_row-AllRelated field row cs vs h r)
        | inr e ↦ rw e (collect_row-AllRelated field row cs vs h r)
      ]

  collect-AllRelated :
      (field : Name) (groups : Groups values)
      → GroupsFit groups
      → AllRelated
          (filter_columns field (all_columns (schemas groups)))
          (collect values field groups)
  collect-AllRelated field [] h = tt
  collect-AllRelated field ((t, row) ∷ groups) (fit, h) =
      collect_row-AllRelated field row (all_columns (schemas groups)) (collect values field groups)
        fit (collect-AllRelated field groups h)

  at_most_one-Related :
      (field : Name) (cs : List ColumnDef) (vs : List V) (column : Option ColumnDef)
      → AllRelated cs vs
      → first_column {E = E} field cs ≡ ok column
      → (v : Option V) × (at_most_one values field vs ≡ ok v) × Related column v
  at_most_one-Related field [] [] column r h =
      (none, refl, subst (λ o. Related o none) (ok-injective h) tt)
  at_most_one-Related field (c ∷ []) (v ∷ []) column (fit, r) h =
      (some v, refl, subst (λ o. Related o (some v)) (ok-injective h) fit)
  at_most_one-Related field [] (v ∷ vs) column r h = absurd r
  at_most_one-Related field (c ∷ []) [] column r h = absurd r
  at_most_one-Related field (c ∷ []) (v ∷ w ∷ vs) column (fit, r) h = absurd r
  at_most_one-Related field (c ∷ d ∷ cs) vs column r h = cc

  -- Where a reference resolves to a column, or to none, it resolves to a value that fits the column,
  -- or to none, in rows that fit.
  pub resolve-Related :
      (field : Name) (groups : Groups values) (column : Option ColumnDef)
      → GroupsFit groups
      → resolve_joined_column_def {E = E} field (schemas groups) ≡ ok column
      → (v : Option V) × (resolve_joined_column values field groups ≡ ok v) × Related column v
  unfolding resolve_joined_column_def resolve_joined_column
  resolve-Related field groups column fits h = elim (Option-cases (split_once field)) [
    | inl e ↦
        let here : first_column {E = E} field (filter_columns field (all_columns (schemas groups)))
            ≡ ok column =
          rw (e, resolve_joined_column_def) at h in
        let (v, same, r) =
          at_most_one-Related field (filter_columns field (all_columns (schemas groups)))
            (collect values field groups) column (collect-AllRelated field groups fits) here in
        (v, rw (e, resolve_joined_column) same, r)
    | inr ((table, name), e) ↦ elim (find_group table groups fits) [
      | inl (no_schema, no_group) ↦ cc (rw (e, no_schema, resolve_joined_column_def) at h)
      | inr (t, row, schema, group, row_fits) ↦
          let here : find (is_column name) (columns row) ≡ column =
            ok-injective (rw (e, schema, resolve_joined_column_def) at h) in
          (
            second (find (is_named values name) row),
            rw (e, group, resolve_joined_column) refl,
            subst (λ o. Related o (second (find (is_named values name) row))) here
                (find-Related name row row_fits),
          )
    ]
  ]
