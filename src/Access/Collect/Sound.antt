-- ===== src/Access/Collect/Sound.antt =====
-- The constraints of a conjunction hold of the rows that meet it.
use wasm_dbms.Prelude.{
  ◌≡◌, refl, List, [], ◌∷◌, All, Bool, true, false, not, inl, inr, Bool-cases, Option, none, some,
  Option-cases,
}
use wasm_dbms.Prelude.Names.{Name, name_eq, name_eq_lem, any}
use wasm_dbms.Prelude.Result.{ok}
use wasm_dbms.Query.Filter.{
  Values, Filter, Row, find_column, any_named, matches, value_is_null, FilterResult,
}
use wasm_dbms.Query.Filter.OneTable.{Distinct, column_cases}
use wasm_dbms.Access.Constraint.{Constants, ColumnConstraint, Update, default, contains}
use wasm_dbms.Access.Constraint.Order.{IsOrdered, eq_symm}
use wasm_dbms.Access.Constraint.Sound.{Satisfies, meets, apply-Satisfies}
use wasm_dbms.Access.Constraint.Normal.{normalize-Satisfies}
use wasm_dbms.Access.Collect.{
  Constraints, conjunct_update, apply_entry, normalize_all, apply_all, collect,
}

module _ {V J F E : Type 0} (values : Values V J F E) (row : Row values) where
  -- The row has the column, and its value is one that the constraint leaves.
  abbrev pub Holds : Name → ColumnConstraint V → Type 0
  Holds name c = (v : V) × (find_column values name row ≡ some v) × Satisfies values c v

  abbrev pub AllHold : Constraints V → Type 0
  AllHold cs = All (λ p. Holds p.0 p.1) cs

  abbrev pub AllMatch : List (Filter V F) → Type 0
  AllMatch conjuncts = All (λ f. matches values f row ≡ ok true) conjuncts

module _ {V J F E : Type 0} (values : Values V J F E) (order : IsOrdered values)
    (constants : Constants V) (row : Row values) where
  default-Satisfies : (v : V) → Satisfies values default v
  default-Satisfies v = record {
    eq_ok = refl;
    list_ok = refl;
    null_ok = refl;
    lower_ok = refl;
    upper_ok = refl;
  }

  apply_entry-AllHold :
      (column : Name) (update : Update V) (v : V) (cs : Constraints V)
      → find_column values column row ≡ some v
      → meets values update v ≡ true
      → AllHold values row cs
      → (ds : Constraints V) × (apply_entry values column update cs ≡ some ds)
        × AllHold values row ds
  apply_entry-AllHold column update v [] found met holds =
      let (d, e, s) = apply-Satisfies values order update default v (default-Satisfies v) met in
      ((column, d) ∷ [], rw (apply_entry, e) refl, ((v, found, s), tt))
  apply_entry-AllHold column update v ((name, c) ∷ cs) found met ((w, at_name, s), holds) =
      elim (Bool-cases (name_eq name column)) [
        | inl e ↦
            let same : w ≡ v = cc (name_eq_lem name column e, at_name, found) in
            let (d, applied, t) = apply-Satisfies values order update c w s (rw same met) in
            ((name, d) ∷ cs, rw (apply_entry, e, applied) refl, ((w, at_name, t), holds))
        | inr e ↦
            let (ds, applied, t) = apply_entry-AllHold column update v cs found met holds in
            ((name, c) ∷ ds, rw (apply_entry, e, applied) refl, ((w, at_name, s), t))
      ]

  normalize_all-AllHold :
      (cs : Constraints V)
      → AllHold values row cs
      → (ds : Constraints V) × (normalize_all values cs ≡ some ds) × AllHold values row ds
  normalize_all-AllHold [] holds = ([], refl, tt)
  normalize_all-AllHold ((name, c) ∷ cs) ((v, found, s), holds) =
      let (d, e, t) = normalize-Satisfies values order c v s in
      let (ds, es, ts) = normalize_all-AllHold cs holds in
      ((name, d) ∷ ds, rw (normalize_all, e, es) refl, ((v, found, t), ts))

  module _ (null_eq : (v : V) → value_is_null values v ≡ true → values.eq v constants.null ≡ true)
      (distinct : Distinct values row) where
    named_value :
        (field : Name) (test : V → Bool)
        → any_named values field test row ≡ true
        → (v : V) × (find_column values field row ≡ some v) × (test v ≡ true)
    named_value field test h = elim (Option-cases (find_column values field row)) [
      | inl e ↦ cc (rw ((column_cases values field row distinct).1 test, e) at h)
      | inr (v, e) ↦ (v, e, rw ((column_cases values field row distinct).1 test, e) at h)
    ]

    -- The predicate that the constraints take from a conjunct is met by the row's value.
    abbrev Taken : Option (Name × Update V) → Type 0
    Taken none = Unit
    Taken (some (column, update)) =
        (v : V) × (find_column values column row ≡ some v) × (meets values update v ≡ true)

    ok_true : (b : Bool) → ◌≡◌ {A = FilterResult values Bool} (ok b) (ok true) → b ≡ true
    ok_true true h = refl
    ok_true false h = cc

    contains-flipped :
        (v : V) (list : List V)
        → any (λ item. values.eq item v) list ≡ true
        → contains values v list ≡ true
    contains-flipped v [] h = h
    contains-flipped v (w ∷ ws) h = elim (Bool-cases (values.eq w v)) [
      | inl e ↦ rw (eq_symm values order w v e) refl
      | inr e ↦ elim (Bool-cases (values.eq v w)) [
        | inl f ↦ rw f refl
        | inr f ↦ rw f (contains-flipped v ws (rw e at h))
      ]
    ]

    conjunct_update-Taken :
        (conjunct : Filter V F)
        → matches values conjunct row ≡ ok true
        → Taken (conjunct_update constants conjunct)
    unfolding matches
    conjunct_update-Taken (Filter.eq field w) h =
        named_value field (λ v. values.eq v w) (ok_true _ h)
    conjunct_update-Taken (Filter.gt field w) h =
        named_value field (λ v. values.gt v w) (ok_true _ h)
    conjunct_update-Taken (Filter.lt field w) h =
        named_value field (λ v. values.lt v w) (ok_true _ h)
    conjunct_update-Taken (Filter.ge field w) h =
        named_value field (λ v. values.ge v w) (ok_true _ h)
    conjunct_update-Taken (Filter.le field w) h =
        named_value field (λ v. values.le v w) (ok_true _ h)
    conjunct_update-Taken (Filter.in_list field list) h =
        let (v, found, t) =
          named_value field (λ v. any (λ item. values.eq item v) list) (ok_true _ h) in
        (v, found, contains-flipped v list t)
    conjunct_update-Taken (Filter.not_null field) h =
        named_value field (λ v. not (value_is_null values v)) (ok_true _ h)
    conjunct_update-Taken (Filter.is_null field) h =
        let (v, found, t) = named_value field (value_is_null values) (ok_true _ h) in
        (v, found, null_eq v t)
    conjunct_update-Taken (Filter.ne field w) h = tt
    conjunct_update-Taken (Filter.json field filter) h = tt
    conjunct_update-Taken (Filter.like field pattern) h = tt
    conjunct_update-Taken (Filter.and left right) h = tt
    conjunct_update-Taken (Filter.or left right) h = tt
    conjunct_update-Taken (Filter.not inner) h = tt

    abbrev Applied : Option (Constraints V) → Type 0
    Applied o = (ds : Constraints V) × (o ≡ some ds) × AllHold values row ds

    apply_all-AllHold :
        (conjuncts : List (Filter V F)) (cs : Constraints V)
        → AllMatch values row conjuncts
        → AllHold values row cs
        → (ds : Constraints V) × (apply_all values constants conjuncts cs ≡ some ds)
          × AllHold values row ds
    apply_all-AllHold [] cs met holds = (cs, refl, holds)
    apply_all-AllHold (f ∷ fs) cs (m, ms) holds =
        next (λ bs at_bs. apply_all-AllHold fs bs ms at_bs) (conjunct_update constants f) refl
          (conjunct_update-Taken f m)
      where
        next :
            ((bs : Constraints V)
              → AllHold values row bs
              → Applied (apply_all values constants fs bs))
            → (taken : Option (Name × Update V)) → conjunct_update constants f ≡ taken
            → Taken taken
            → Applied (apply_all values constants (f ∷ fs) cs)
        next later none e t =
            let (ds, applied, held) = later cs holds in (ds, rw (apply_all, e) applied, held)
        next later (some (column, update)) e (v, found, met) =
            let (bs, entered, at_bs) = apply_entry-AllHold column update v cs found met holds in
            let (ds, applied, held) = later bs at_bs in
            (ds, rw (apply_all, e, entered) applied, held)

    -- A row that meets all conjuncts does not make their constraints contradict each other, and each
    -- constrained column of it has a value that its constraint leaves.
    pub collect-AllHold :
        (conjuncts : List (Filter V F))
        → AllMatch values row conjuncts
        → (cs : Constraints V) × (collect values constants conjuncts ≡ some cs)
          × AllHold values row cs
    unfolding collect
    collect-AllHold conjuncts met =
        let (cs, applied, held) = apply_all-AllHold conjuncts [] met tt in
        let (ds, normal, normalized) = normalize_all-AllHold cs held in
        (ds, rw (collect, applied) normal, normalized)
