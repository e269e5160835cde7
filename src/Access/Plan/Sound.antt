-- ===== src/Access/Plan/Sound.antt =====
-- The rows that a filter matches belong to its path.
use mathlib.Core.Path.{subst}
use wasm_dbms.Prelude.{
  ℕ, zero, suc, ◌≡◌, refl, ltb, List, [], ◌∷◌, ◌++◌, length, All, All-append, Bool, true, false,
  ◌||◌, inl, inr, Bool-cases, Option, none, some,
}
use wasm_dbms.Prelude.Names.{Name, any}
use wasm_dbms.Prelude.Result.{Result, ok, Result-cases}
use wasm_dbms.Query.Filter.{Values, Filter, Row, ColumnDef, value_is_null, matches}
use wasm_dbms.Query.Filter.OneTable.{Distinct}
use wasm_dbms.Join.Run.{max_alternatives}
use wasm_dbms.Access.Scan.{AccessPath, matches_row, scan_count}
use wasm_dbms.Access.Constraint.{Constants}
use wasm_dbms.Access.Constraint.Order.{IsOrdered}
use wasm_dbms.Access.Collect.{flatten_and, flatten_or}
use wasm_dbms.Access.Collect.Sound.{AllMatch, collect-AllHold}
use wasm_dbms.Access.Candidate.{Candidate, sort_candidates}
use wasm_dbms.Access.Candidate.Sound.{
  HasRow, PathHasRow, matches_any-to_paths, sort_candidates-HasRow, choose-HasRow,
}
use wasm_dbms.Access.Plan.{
  index_candidates, plan_branches, join_branches, union_candidate, or_candidate, or_candidates,
  plan_conjunction, plan_filter,
}
use wasm_dbms.Access.Plan.Reads.{Typed}
use wasm_dbms.Access.Plan.Scans.{HasColumns}
use wasm_dbms.Access.Plan.Branches.{
  flatten_and-AllMatch, flatten_or-match, add_candidate-HasRow, index_candidates-HasRow,
  plan_branches-match,
}

module _ {V J F E : Type 0} (values : Values V J F E) (constants : Constants V)
    (columns : List ColumnDef) (row : Row values) where
  -- What is planned has the rows that match.
  abbrev pub IsSound : (Filter V F → Result E (Option (AccessPath V))) → Type 0
  IsSound plan =
      (f : Filter V F) (p : AccessPath V)
      → plan f ≡ ok (some p)
      → matches values f row ≡ ok true
      → PathHasRow values row p

  module _ (plan : Filter V F → Result E (Option (AccessPath V))) (sound : IsSound plan) where
    or_false : (b : Bool) → (b || false) ≡ b
    or_false true = refl
    or_false false = refl

    join_branches-PathHasRow :
        (ps : List (AccessPath V))
        → any (λ p. matches_row values p row) ps ≡ true
        → PathHasRow values row (join_branches values constants plan ps)
    unfolding matches_row
    join_branches-PathHasRow [] h = cc
    join_branches-PathHasRow (p ∷ []) h = rw (or_false (matches_row values p row)) at h
    join_branches-PathHasRow (p ∷ q ∷ ps) h = rw (matches_any-to_paths values row (p ∷ q ∷ ps)) h

    union_candidate-HasRow :
        (position : ℕ) (ps : List (AccessPath V)) (c : Candidate V)
        → any (λ p. matches_row values p row) ps ≡ true
        → union_candidate values constants plan position ps ≡ some c
        → HasRow values row c
    union_candidate-HasRow position ps c h e =
        elim (Bool-cases
          (ltb max_alternatives (scan_count (join_branches values constants plan ps)))) [
            | inl k ↦ cc (rw (union_candidate, k) at e)
            | inr k ↦
                subst (PathHasRow values row) (cc (rw (union_candidate, k) at e))
                  (join_branches-PathHasRow ps h)
          ]

    or_candidate-HasRow :
        (position : ℕ) (f : Filter V F) (c : Candidate V)
        → or_candidate values constants plan position f ≡ ok (some c)
        → matches values f row ≡ ok true
        → HasRow values row c
    unfolding or_candidate
    or_candidate-HasRow position (Filter.or left right) c e h =
        elim (Result-cases
          (plan_branches values constants plan (flatten_or (Filter.or left right)))) [
            | inl k ↦ cc (rw k at e)
            | inr (inl (d, k)) ↦ cc (rw k at e)
            | inr (inr (none, k)) ↦ cc (rw k at e)
            | inr (inr (some ps, k)) ↦
                union_candidate-HasRow position ps c
                  (plan_branches-match values constants columns row plan sound
                    (flatten_or (Filter.or left right)) ps k
                    (flatten_or-match values row (Filter.or left right) (rw h refl)))
                  (cc (rw k at e))
          ]
    or_candidate-HasRow position _ c e h = cc

    or_candidates-HasRow :
        (position : ℕ) (fs : List (Filter V F)) (cs : List (Candidate V))
        → or_candidates values constants plan position fs ≡ ok cs
        → AllMatch values row fs
        → All (HasRow values row) cs
    or_candidates-HasRow position [] cs e h =
        let same : [] ≡ cs = cc e in subst (All (HasRow values row)) same tt
    or_candidates-HasRow position (f ∷ fs) cs e (h, hs) =
        elim (Result-cases (or_candidate values constants plan position f)) [
          | inl k ↦ cc (rw (or_candidates, k) at e)
          | inr (inl (d, k)) ↦ cc (rw (or_candidates, k) at e)
          | inr (inr (c, k)) ↦
              elim (Result-cases (or_candidates values constants plan (suc position) fs)) [
                | inl l ↦ cc (rw (or_candidates, k, l) at e)
                | inr (inl (d, l)) ↦ cc (rw (or_candidates, k, l) at e)
                | inr (inr (ds, l)) ↦
                    subst (All (HasRow values row)) (cc (rw (or_candidates, k, l) at e)) (
                      add_candidate-HasRow values constants columns row c ds
                        (λ d m. or_candidate-HasRow position f d (rw (k, m) refl) h)
                        (or_candidates-HasRow (suc position) fs ds l hs))
              ]
        ]

module _ {V J F E : Type 0} (values : Values V J F E) (order : IsOrdered values)
    (constants : Constants V)
    (null_eq : (v : V) → value_is_null values v ≡ true → values.eq v constants.null ≡ true)
    (columns : List ColumnDef) (indexes : List (List Name)) (row : Row values)
    (distinct : Distinct values row) (typed : Typed values constants columns row)
    (full : All (HasColumns values constants row) indexes) where
  plan_conjunction-PathHasRow :
      (plan : Filter V F → Result E (Option (AccessPath V)))
      → IsSound values constants columns row plan
      → (fs : List (Filter V F)) (p : AccessPath V)
      → plan_conjunction values constants plan fs indexes columns ≡ ok (some p)
      → AllMatch values row fs
      → PathHasRow values row p
  unfolding plan_conjunction
  plan_conjunction-PathHasRow plan sound fs p e h =
      let (cs, collected, held) =
        collect-AllHold values order constants row null_eq distinct fs h in
      elim (Result-cases (or_candidates values constants plan (length indexes) fs)) [
        | inl k ↦ cc (rw (plan_conjunction, collected, k) at e)
        | inr (inl (d, k)) ↦ cc (rw (plan_conjunction, collected, k) at e)
        | inr (inr (ors, k)) ↦
            let from_indexes =
              index_candidates-HasRow values constants columns row typed cs held 0 indexes full in
            let from_branches =
              or_candidates-HasRow values constants columns row plan sound (length indexes) fs ors k
                h in
            let ds = index_candidates values constants 0 indexes cs columns in
            choose-HasRow values row (sort_candidates (ds ++ ors)) p
              (sort_candidates-HasRow values row (ds ++ ors)
                (All-append (HasRow values row) ds ors from_indexes from_branches))
              (cc (rw (plan_conjunction, collected, k) at e))
      ]

  -- A row that a filter matches belongs to the path planned for the filter, whatever the indexes are,
  -- if the row has a column for each of theirs, its columns are the table's, each once, and each value
  -- other than null is where the order of values puts its column's kind; the comparisons must be those
  -- of one order, in which the nulls are equal.
  pub plan_filter-PathHasRow :
      (fuel : ℕ) (filter : Filter V F) (p : AccessPath V)
      → plan_filter values constants fuel filter indexes columns ≡ ok (some p)
      → matches values filter row ≡ ok true
      → PathHasRow values row p
  unfolding plan_filter
  plan_filter-PathHasRow zero filter p e h = cc
  plan_filter-PathHasRow (suc fuel) filter p e h =
      plan_conjunction-PathHasRow (λ f. plan_filter values constants fuel f indexes columns)
        (plan_filter-PathHasRow fuel) (flatten_and filter) p e
        (flatten_and-AllMatch values row filter h)
