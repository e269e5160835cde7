-- ===== src/Access/Plan/Reads.antt =====
-- The scans that the constraints make of an index have the rows that the constraints hold of.
use wasm_dbms.Prelude.{
  ℕ, ◌+◌, ◌≡◌, refl, sym, ◌∙◌, ltb, List, [], ◌∷◌, ◌++◌, length, length-append, All, Bool, true,
  false, ◌&&◌, inl, inr, Bool-cases, Option, none, some, Option-cases, ◌*◌,
}
use wasm_dbms.Prelude.Names.{Name, name_eq, name_eq_lem, any}
use mathlib.Core.List.{append_assoc}
use mathlib.Core.Path.{subst}
use wasm_dbms.Query.Filter.{Values, Row, ColumnDef, DataTypeKind, find_column, value_is_null}
use wasm_dbms.Join.Run.{max_alternatives}
use wasm_dbms.Access.Scan.{Bound, admits_lower, admits_upper, is_unbounded, value_at}
use wasm_dbms.Access.Constraint.{Constants, ColumnConstraint, range_bounds, not_null_bounds}
use wasm_dbms.Access.Constraint.Sound.{Satisfies, allows_eq, allows_list}
use wasm_dbms.Access.Collect.{Constraints, get}
use wasm_dbms.Access.Collect.Sound.{Holds, AllHold}
use wasm_dbms.Access.Candidate.{Walk, extend, column_def}
use wasm_dbms.Access.Plan.{walk, step}
use wasm_dbms.Access.Plan.Prefix.{
  of_row, of_row-extend, of_row-extend_each, any-map, value_at-append,
}

module _ {V J F E : Type 0} (values : Values V J F E) (constants : Constants V) where
  -- Where the order of values puts a value of a kind, by the order of the variants.
  abbrev pub InKind : DataTypeKind → V → Type 0
  InKind DataTypeKind.text v = values.ge v constants.empty_text ≡ true
  InKind DataTypeKind.uint8 v = values.ge v constants.uint8_zero ≡ true
  InKind DataTypeKind.uint16 v = values.ge v constants.uint16_zero ≡ true
  InKind DataTypeKind.uint32 v = values.ge v constants.uint32_zero ≡ true
  InKind DataTypeKind.uint64 v = values.ge v constants.uint64_zero ≡ true
  InKind DataTypeKind.uuid v = Unit
  InKind (DataTypeKind.custom tag wire_size) v = Unit
  InKind _ v = values.lt v constants.null ≡ true

  -- The row's columns are of the table, and its values other than null are of their kinds.
  abbrev pub Typed : List ColumnDef → Row values → Type 0
  Typed columns row =
      All
        (λ (cv : ColumnDef × V).
          (column_def cv.0.name columns ≡ some cv.0)
          × (value_is_null values cv.1 ≡ false → InKind cv.0.data_type cv.1))
        row

  abbrev Within : Option (Bound V × Bound V) → V → Type 0
  Within none v = Unit
  Within (some (lower, upper)) v =
      (admits_lower values lower v ≡ true) × (admits_upper values upper v ≡ true)

  abbrev pub WithinRange : Option (Bound V × Bound V × Bool) → V → Type 0
  WithinRange none v = Unit
  WithinRange (some (lower, upper, from_not_null)) v =
      (admits_lower values lower v ≡ true) × (admits_upper values upper v ≡ true)

  not_null_bounds-Within :
      (kind : DataTypeKind) (v : V) → InKind kind v → Within (not_null_bounds constants kind) v
  unfolding not_null_bounds
  not_null_bounds-Within DataTypeKind.text v h = (h, refl)
  not_null_bounds-Within DataTypeKind.uint8 v h = (h, refl)
  not_null_bounds-Within DataTypeKind.uint16 v h = (h, refl)
  not_null_bounds-Within DataTypeKind.uint32 v h = (h, refl)
  not_null_bounds-Within DataTypeKind.uint64 v h = (h, refl)
  not_null_bounds-Within DataTypeKind.uuid v h = tt
  not_null_bounds-Within (DataTypeKind.custom tag wire_size) v h = tt
  not_null_bounds-Within _ v h = (refl, h)

  find_column-InKind :
      (name : Name) (columns : List ColumnDef) (row : Row values) (v : V) (def : ColumnDef)
      → Typed columns row
      → find_column values name row ≡ some v
      → column_def name columns ≡ some def
      → value_is_null values v ≡ false
      → InKind def.data_type v
  unfolding find_column
  find_column-InKind name columns [] v def typed found defined h = cc
  find_column-InKind name columns ((c, w) ∷ row) v def ((own, kind), typed) found defined h =
      elim (Bool-cases (name_eq c.name name)) [
        | inr e ↦ find_column-InKind name columns row v def typed (rw e at found) defined h
        | inl e ↦
            let same_value : w ≡ v = cc (rw e at found) in
            let at_name : column_def name columns ≡ some c =
              subst (λ n. column_def n columns ≡ some c) (name_eq_lem c.name name e) own in
            let same_column : c ≡ def = cc (at_name, defined) in
            subst (λ d. InKind d.data_type v) same_column
              (subst (λ x. value_is_null values x ≡ false → InKind c.data_type x) same_value kind h)
      ]

  range_bounds-WithinRange :
      (name : Name) (columns : List ColumnDef) (row : Row values) (c : ColumnConstraint V) (v : V)
      → Typed columns row
      → find_column values name row ≡ some v
      → Satisfies values c v
      → WithinRange (range_bounds values constants c (column_def name columns)) v
  unfolding range_bounds
  range_bounds-WithinRange name columns row c v typed found s =
      elim (Bool-cases (is_unbounded c.lower && is_unbounded c.upper)) [
        | inr e ↦ rw (range_bounds, e) (s.lower_ok, s.upper_ok)
        | inl e ↦ elim (Bool-cases c.not_null) [
          | inr f ↦ rw (range_bounds, e, f) tt
          | inl f ↦ elim (Option-cases (column_def name columns)) [
            | inl g ↦ rw (range_bounds, e, f, g) tt
            | inr (def, g) ↦ elim (Bool-cases def.nullable) [
              | inr k ↦ rw (range_bounds, e, f, g, k) tt
              | inl k ↦
                  let kept =
                    not_null_bounds-Within def.data_type v (
                      find_column-InKind name columns row v def typed found g
                        (rw f at s.null_ok)) in
                  elim (Option-cases (not_null_bounds constants def.data_type)) [
                    | inl m ↦ rw (range_bounds, e, f, g, k, m) tt
                    | inr ((lower, upper), m) ↦ rw (range_bounds, e, f, g, k, m) (rw m at kept)
                  ]
            ]
          ]
        ]
      ]

  module _ (columns : List ColumnDef) (row : Row values) (index : List Name) where
    -- One of the prefixes is the row's, and its next column is within the bounds.
    abbrev ReadsAt : Option (Bound V × Bound V) → List (List V) → Type 0
    ReadsAt none ps = (n : ℕ) × (any (of_row values constants row index n) ps ≡ true)
    ReadsAt (some (lower, upper)) ps =
        (n : ℕ) × (v : V) × (any (of_row values constants row index n) ps ≡ true)
        × (value_at values index row n ≡ some v)
        × (admits_lower values lower v ≡ true)
        × (admits_upper values upper v ≡ true)

    abbrev pub Reads : Walk V → Type 0
    Reads w = ReadsAt w.bounds w.prefixes

    step-Reads :
        (column : Name) (n : ℕ) (v : V) (e : Option V) (list : Option (List V))
        (range : Option (Bound V × Bound V × Bool)) (next : Walk V → Walk V) (w : Walk V)
        → value_at values index row n ≡ some v
        → allows_eq values e v ≡ true
        → allows_list values list v ≡ true
        → WithinRange range v
        → w.bounds ≡ none
        → any (of_row values constants row index n) w.prefixes ≡ true
        → Reads w
        → ((u : Walk V)
            → u.bounds ≡ none
            → any (of_row values constants row index (n + 1)) u.prefixes ≡ true
            → Reads (next u))
        → Reads (step values constants column e list range next w)
    step-Reads column n v (some e) list range next w at_n he hl hr unbound some_prefix reads later =
        later _ unbound (
          any-map (extend e) (of_row values constants row index n)
            (of_row values constants row index (n + 1)) w.prefixes
            (of_row-extend values constants row index n v e at_n he) some_prefix)
    step-Reads column n v none (some list) range next w at_n he hl hr unbound some_prefix reads
          later =
        elim (Bool-cases (ltb max_alternatives (length w.prefixes * length list))) [
          | inl k ↦ rw (step, k) reads
          | inr k ↦
              rw (step, k)
                (later _ unbound (
                  of_row-extend_each values constants row index n v list at_n hl w.prefixes
                    some_prefix))
        ]
    step-Reads column n v none none none next w at_n he hl hr unbound some_prefix reads later =
        reads
    step-Reads column n v none none (some (lower, upper, nn)) next w at_n he hl hr unbound
          some_prefix reads later =
        (n, v, some_prefix, at_n, hr.0, hr.1)

    get-Holds :
        (cs : Constraints V) (column : Name) (c : ColumnConstraint V)
        → AllHold values row cs
        → get cs column ≡ some c
        → Holds values row column c
    get-Holds [] column c h e = cc
    get-Holds ((name, d) ∷ cs) column c (h, hs) e = elim (Bool-cases (name_eq name column)) [
      | inl k ↦
          let same : d ≡ c = cc (rw k at e) in
          subst (λ x. Holds values row column x) same
            (subst (λ x. Holds values row x d) (name_eq_lem name column k) h)
      | inr k ↦ get-Holds cs column c hs (rw k at e)
    ]

    pub walk-Reads :
        Typed columns row
        → (cs : Constraints V) → AllHold values row cs
        → (done rest : List Name) (w : Walk V) → index ≡ done ++ rest
        → w.bounds ≡ none
        → any (of_row values constants row index (length done)) w.prefixes ≡ true
        → Reads (walk values constants cs columns rest w)
    unfolding walk
    walk-Reads typed cs holds done [] w e unbound h = rw unbound (length done, h)
    walk-Reads typed cs holds done (column ∷ rest) w e unbound h =
        elim (Option-cases (get cs column)) [
          | inl k ↦ rw (walk, k) (rw unbound (length done, h))
          | inr (c, k) ↦
              let (v, found, s) = get-Holds cs column c holds k in
              let here : index ≡ (done ++ (column ∷ [])) ++ rest =
                e ∙ sym (append_assoc done (column ∷ []) rest) in
              let now : Reads w = rw unbound (length done, h) in
              rw (walk, k)
                (step-Reads column (length done) v c.eq c.in_list _ _ w
                  (subst (λ i. value_at values i row (length done) ≡ some v) (sym e)
                    (value_at-append values constants row index done column rest ∙ found))
                  s.eq_ok s.list_ok (range_bounds-WithinRange column columns row c v typed found s)
                  unbound h now
                  (λ u unbound_u h_u.
                    walk-Reads typed cs holds (done ++ (column ∷ [])) rest u here unbound_u
                      (rw (length-append done (column ∷ [])) h_u)))
        ]
