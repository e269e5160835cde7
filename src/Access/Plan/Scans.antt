-- ===== src/Access/Plan/Scans.antt =====
-- The scans of an index have the row whose values one of their prefixes has.
use wasm_dbms.Prelude.{
  ℕ, zero, suc, ◌<◌, ◌≡◌, refl, arith, leb, ◌==◌, ==_iff, List, [], ◌∷◌, map, length, All, true,
  false, inl, inr, Bool-cases, Option, none, some,
}
use wasm_dbms.Prelude.Names.{Name}
use wasm_dbms.Query.Filter.{Values, Row, ColumnDef, find_column}
use wasm_dbms.Access.Scan.{
  Bound, unbounded, admits_lower, admits_upper, value_at, matches_scan, as_scan, prefix_matches,
}
use wasm_dbms.Access.Constraint.{Constants}
use wasm_dbms.Access.Candidate.{Walk, scans_of}
use wasm_dbms.Access.Candidate.Sound.{PathHasRow, matches_row-from_scans}
use wasm_dbms.Access.Plan.Prefix.{of_row, any-map}
use wasm_dbms.Access.Plan.Reads.{Reads}

module _ {V J F E : Type 0} (values : Values V J F E) (constants : Constants V) where
  -- The row has a value for each of the columns.
  abbrev pub HasColumns : Row values → List Name → Type 0
  HasColumns row columns = All (λ c. (v : V) × (find_column values c row ≡ some v)) columns

  value_at-HasColumns :
      (row : Row values) (index : List Name) (n : ℕ)
      → HasColumns row index
      → n < length index
      → (v : V) × (value_at values index row n ≡ some v)
  value_at-HasColumns row [] n h k = absurd (omega (arith, k))
  value_at-HasColumns row (c ∷ index) zero (h, hs) k = h
  value_at-HasColumns row (c ∷ index) (suc n) (h, hs) k =
      value_at-HasColumns row index n hs (omega (arith, k))

  module _ (columns : List ColumnDef) (row : Row values) (index : List Name)
      (full : HasColumns row index) where
    of_row_cases :
        (n : ℕ) (p : List V)
        → of_row values constants row index n p ≡ true
        → (length p ≡ n) × (prefix_matches values index row 0 p ≡ true)
    of_row_cases n p h = elim (Bool-cases (length p == n)) [
      | inr k ↦ cc (rw k at h)
      | inl k ↦ ((==_iff (length p) n).0 k, rw k at h)
    ]

    matches_scan-prefix :
        (n : ℕ) (p : List V)
        → of_row values constants row index n p ≡ true
        → matches_scan values (as_scan index unbounded unbounded p) row ≡ true
    unfolding matches_scan
    matches_scan-prefix n p h =
        let (long, same) = of_row_cases n p h in
        elim (Bool-cases (leb (length index) (length p))) [
          | inl k ↦ rw (matches_scan, same, k) refl
          | inr k ↦
              let (v, e) = value_at-HasColumns row index (length p) full (ground arith) in
              rw (matches_scan, same, k, e) refl
        ]

    matches_scan-range :
        (n : ℕ) (v : V) (lower upper : Bound V)
        → value_at values index row n ≡ some v
        → admits_lower values lower v ≡ true
        → admits_upper values upper v ≡ true
        → (p : List V) → of_row values constants row index n p ≡ true
        → matches_scan values (as_scan index lower upper p) row ≡ true
    unfolding matches_scan
    matches_scan-range n v lower upper at_n above below p h =
        let (long, same) = of_row_cases n p h in
        elim (Bool-cases (leb (length index) (length p))) [
          | inl k ↦ rw (matches_scan, same, k) refl
          | inr k ↦ rw (matches_scan, same, k, long, at_n, above, below) refl
        ]

    -- The scans of what the walk has gathered have the row.
    pub scans_of-PathHasRow :
        (w : Walk V)
        → Reads values constants columns row index w
        → PathHasRow values row (scans_of index w)
    scans_of-PathHasRow w = by_bounds w.bounds w.prefixes
      where
        by_bounds :
            (bounds : Option (Bound V × Bound V)) (ps : List (List V))
            → Reads values constants columns row index
                (record { prefixes = ps; used = []; bounds = bounds; not_null_only = false })
            → PathHasRow values row (
                scans_of index
                  (record { prefixes = ps; used = []; bounds = bounds; not_null_only = false }))
        by_bounds none ps (n, h) =
            rw (matches_row-from_scans values row (map (as_scan index unbounded unbounded) ps)) (
              any-map (as_scan index unbounded unbounded) (of_row values constants row index n)
                (λ s. matches_scan values s row) ps (matches_scan-prefix n) h)
        by_bounds (some (lower, upper)) ps (n, v, h, at_n, above, below) =
            rw (matches_row-from_scans values row (map (as_scan index lower upper) ps)) (
              any-map (as_scan index lower upper) (of_row values constants row index n)
                (λ s. matches_scan values s row) ps
                (matches_scan-range n v lower upper at_n above below) h)
