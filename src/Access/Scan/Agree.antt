-- ===== src/Access/Scan/Agree.antt =====
-- Whether a row belongs to a path depends on the columns that the path constrains.
use wasm_dbms.Prelude.{
  ℕ, zero, suc, ◌+◌, ◌≤◌, ◌<◌, min, ◌≡◌, refl, arith, List, [], ◌∷◌, ◌++◌, length, take, All, Bool,
  true, false, ◌&&◌, inl, inr, Bool-cases, Option, some, if◌then◌else◌,
}
use wasm_dbms.Prelude.Names.{Name, is_some_and}
use wasm_dbms.Query.Filter.{Values, Row, find_column}
use wasm_dbms.Access.Scan.{
  Bound, included, excluded, unbounded, is_unbounded, IndexScan, AccessPath, AccessPaths, empty,
  scan, union, intersection, nil, cons, value_at, prefix_matches, is_exact, constrained_columns,
  collect_constrained_columns, collect_all_columns, matches_scan, matches_row, matches_any,
  matches_all, admits_lower, admits_upper,
}

module _ {A : Type 0} (P : A → Type 0) where
  All-parts : (xs ys : List A) → All P (xs ++ ys) → All P xs × All P ys
  All-parts [] ys h = (tt, h)
  All-parts (x ∷ xs) ys (h, hs) = let (l, r) = All-parts xs ys hs in ((h, l), r)

unbounded_lem : {V : Type 0} (b : Bound V) → is_unbounded b ≡ true → b ≡ unbounded
unbounded_lem (included v) h = cc
unbounded_lem (excluded v) h = cc
unbounded_lem unbounded h = refl

not_exact : {V : Type 0} (s : IndexScan V) → is_exact s ≡ false → length s.prefix < length s.columns
not_exact s h = ground arith

module _ {V J F E : Type 0} (values : Values V J F E) (before after : Row values) where
  -- The rows have the same values of the columns.
  abbrev pub Agree : List Name → Type 0
  Agree columns = All (λ c. find_column values c before ≡ find_column values c after) columns

  -- Both rows have the columns.
  abbrev pub BothHave : List Name → Type 0
  BothHave columns =
      All
        (λ c.
          ((v : V) × (find_column values c before ≡ some v))
          × ((v : V) × (find_column values c after ≡ some v)))
        columns

  -- The prefix is no longer than the index, whose columns both rows have.
  abbrev pub Fits : IndexScan V → Type 0
  Fits s = (length s.prefix ≤ length s.columns) × BothHave s.columns

  unfoldable mutual
    pub AllFit : AccessPath V → Type 0
    AllFit empty = Unit
    AllFit (scan s) = Fits s
    AllFit (union paths) = EachFits paths
    AllFit (intersection paths) = EachFits paths

    pub EachFits : AccessPaths V → Type 0
    EachFits nil = Unit
    EachFits (cons p ps) = AllFit p × EachFits ps

  value_at-Agree :
      (index : List Name) (n i : ℕ)
      → Agree (take n index)
      → i < n
      → value_at values index before i ≡ value_at values index after i
  value_at-Agree [] n i h k = refl
  value_at-Agree (c ∷ index) zero i h k = absurd (omega (arith, k))
  value_at-Agree (c ∷ index) (suc n) zero (h, hs) k = h
  value_at-Agree (c ∷ index) (suc n) (suc i) (h, hs) k =
      value_at-Agree index n i hs (omega (arith, k))

  value_at-BothHave :
      (index : List Name) (i : ℕ)
      → BothHave index
      → i < length index
      → ((v : V) × (value_at values index before i ≡ some v))
        × ((v : V) × (value_at values index after i ≡ some v))
  value_at-BothHave [] i h k = absurd (omega (arith, k))
  value_at-BothHave (c ∷ index) zero (h, hs) k = h
  value_at-BothHave (c ∷ index) (suc i) (h, hs) k = value_at-BothHave index i hs (omega (arith, k))

  prefix_matches-Agree :
      (index : List Name) (n i : ℕ) (p : List V)
      → Agree (take n index)
      → i + length p ≤ n
      → prefix_matches values index before i p ≡ prefix_matches values index after i p
  prefix_matches-Agree index n i [] h k = refl
  prefix_matches-Agree index n i (v ∷ p) h k =
      let here : i < n = omega (arith, k) in
      rw
        (
          prefix_matches,
          value_at-Agree index n i h here,
          prefix_matches-Agree index n (suc i) p h (omega (arith, k)),
        )
        refl

  -- The test of the column after the prefix.
  abbrev next_admits : IndexScan V → Option V → Bool
  next_admits s = is_some_and (λ v. admits_lower values s.lower v && admits_upper values s.upper v)

  next_admits-Agree :
      (s : IndexScan V)
      → Fits s
      → Agree (constrained_columns s)
      → length s.prefix < length s.columns
      → next_admits s (value_at values s.columns before (length s.prefix))
        ≡ next_admits s (value_at values s.columns after (length s.prefix))
  next_admits-Agree s (short, have) h k = elim (Bool-cases (is_unbounded s.lower)) [
    | inr e ↦
        rw
          (value_at-Agree s.columns _ (length s.prefix) (rw (constrained_columns, e) at h)
            (omega (arith, k)))
          refl
    | inl e ↦ elim (Bool-cases (is_unbounded s.upper)) [
      | inr f ↦
          rw
            (value_at-Agree s.columns _ (length s.prefix) (rw (constrained_columns, e, f) at h)
              (omega (arith, k)))
            refl
      | inl f ↦
          let ((v, at_before), (w, at_after)) =
            value_at-BothHave s.columns (length s.prefix) have k in
          rw (at_before, at_after, unbounded_lem s.lower e, unbounded_lem s.upper f) refl
    ]
  ]

  matches_scan-Agree :
      (s : IndexScan V)
      → Fits s
      → Agree (constrained_columns s)
      → matches_scan values s before ≡ matches_scan values s after
  unfolding matches_scan
  matches_scan-Agree s (short, have) h =
      let ranged = if is_unbounded s.lower && is_unbounded s.upper then 0 else 1 in
      let prefixes : prefix_matches values s.columns before 0 s.prefix
          ≡ prefix_matches values s.columns after 0 s.prefix =
        prefix_matches-Agree s.columns (min (length s.prefix + ranged) (length s.columns)) 0
          s.prefix h (omega (arith, short)) in
      elim (Bool-cases (is_exact s)) [
        | inl e ↦ rw (matches_scan, prefixes, e) refl
        | inr e ↦
            rw (matches_scan, prefixes, next_admits-Agree s (short, have) h (not_exact s e)) refl
      ]

  mutual
    unfolding matches_row AllFit collect_constrained_columns

    path-Agree :
        (path : AccessPath V)
        → AllFit path
        → Agree (collect_constrained_columns path)
        → matches_row values path before ≡ matches_row values path after
    path-Agree empty fits h = refl
    path-Agree (scan s) fits h = matches_scan-Agree s fits h
    path-Agree (union paths) fits h = (paths-Agree paths fits h).0
    path-Agree (intersection paths) fits h = (paths-Agree paths fits h).1

    paths-Agree :
        (paths : AccessPaths V)
        → EachFits paths
        → Agree (collect_all_columns paths)
        → (matches_any values paths before ≡ matches_any values paths after)
          × (matches_all values paths before ≡ matches_all values paths after)
    paths-Agree nil fits h = (refl, refl)
    paths-Agree (cons p ps) (fit, fits) h =
        let (first, rest) =
          All-parts (λ c. find_column values c before ≡ find_column values c after)
            (collect_constrained_columns p) (collect_all_columns ps) h in
        let here = path-Agree p fit first in
        let (some_later, all_later) = paths-Agree ps fits rest in
        (rw (matches_any, here, some_later) refl, rw (matches_all, here, all_later) refl)

  -- Two rows with the same values of the columns that a path constrains belong to it alike, if both
  -- have the columns of its indexes and no prefix is longer than its index.
  pub matches_row-collect_constrained_columns :
      (path : AccessPath V)
      → AllFit path
      → Agree (collect_constrained_columns path)
      → matches_row values path before ≡ matches_row values path after
  matches_row-collect_constrained_columns path fits h = path-Agree path fits h
