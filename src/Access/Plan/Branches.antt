-- ===== src/Access/Plan/Branches.antt =====
-- The candidates of the indexes and the paths of the branches have the rows that match.
use wasm_dbms.Prelude.{
  ℕ, suc, ◌≡◌, refl, List, [], ◌∷◌, ◌++◌, All, All-append, Bool, true, false, ◌||◌, inl, inr,
  Bool-cases, Option, none, some,
}
use mathlib.Core.Path.{subst}
use wasm_dbms.Prelude.Names.{Name, any}
use wasm_dbms.Prelude.Result.{Result, ok, err, panic, Result-cases}
use wasm_dbms.Query.Filter.{
  Values, Filter, Row, ColumnDef, matches, FilterResult, and_then, or_else,
}
use wasm_dbms.Access.Scan.{AccessPath, matches_row}
use wasm_dbms.Access.Constraint.{Constants}
use wasm_dbms.Access.Collect.{Constraints, flatten_and, flatten_or}
use wasm_dbms.Access.Collect.Sound.{AllHold, AllMatch}
use wasm_dbms.Access.Candidate.{Candidate, Walk, start, is_empty_path}
use wasm_dbms.Access.Candidate.Sound.{HasRow, PathHasRow, is_empty_path-HasRow}
use wasm_dbms.Access.Plan.{
  walk, candidate_of, index_candidate, index_candidates, add_candidate, add_path, plan_branches,
}
use wasm_dbms.Access.Plan.Reads.{Typed, Reads, walk-Reads}
use wasm_dbms.Access.Plan.Scans.{HasColumns, scans_of-PathHasRow}

module _ {V J F E : Type 0} (values : Values V J F E) (row : Row values) where
  abbrev is_true : FilterResult values Bool → Bool
  is_true (ok b) = b
  is_true _ = false

  abbrev pub is_match : Filter V F → Bool
  is_match f = is_true (matches values f row)

  pub is_true-ok : (r : FilterResult values Bool) → is_true r ≡ true → r ≡ ok true
  is_true-ok (ok true) h = refl
  is_true-ok (ok false) h = cc
  is_true-ok (err e) h = cc
  is_true-ok panic h = cc

  and_then-true :
      (a b : FilterResult values Bool) → and_then a b ≡ ok true → (a ≡ ok true) × (b ≡ ok true)
  and_then-true (ok true) b h = (refl, h)
  and_then-true (ok false) b h = cc
  and_then-true (err e) b h = cc
  and_then-true panic b h = cc

  or_else-true :
      (a b : FilterResult values Bool)
      → is_true (or_else a b) ≡ true
      → (is_true a || is_true b) ≡ true
  or_else-true (ok true) b h = refl
  or_else-true (ok false) b h = h
  or_else-true (err e) b h = cc
  or_else-true panic b h = cc

  any-append :
      (xs ys : List (Filter V F))
      → (any is_match xs || any is_match ys) ≡ true
      → any is_match (xs ++ ys) ≡ true
  any-append [] ys h = h
  any-append (x ∷ xs) ys h = elim (Bool-cases (is_match x)) [
    | inl e ↦ rw e refl
    | inr e ↦ rw e (any-append xs ys (rw e at h))
  ]

  pub flatten_and-AllMatch :
      (f : Filter V F) → matches values f row ≡ ok true → AllMatch values row (flatten_and f)
  unfolding matches
  flatten_and-AllMatch (Filter.and left right) h =
      let (l, r) = and_then-true (matches values left row) (matches values right row) h in
      All-append (λ f. matches values f row ≡ ok true) (flatten_and left) (flatten_and right)
        (flatten_and-AllMatch left l) (flatten_and-AllMatch right r)
  flatten_and-AllMatch _ h = (h, tt)

  alone : (b : Bool) → b ≡ true → (b || false) ≡ true
  alone b h = rw h refl

  pub flatten_or-match : (f : Filter V F) → is_match f ≡ true → any is_match (flatten_or f) ≡ true
  unfolding matches
  flatten_or-match (Filter.or left right) h = any-append (flatten_or left) (flatten_or right) (
      both (is_match left) (is_match right)
        (or_else-true (matches values left row) (matches values right row) h)
        (flatten_or-match left) (flatten_or-match right))
    where
      both :
          {a b : Bool} (c d : Bool)
          → (c || d) ≡ true
          → (c ≡ true → a ≡ true)
          → (d ≡ true → b ≡ true)
          → (a || b) ≡ true
      both true d h k l = rw (k refl) refl
      both {a = true} false d h k l = refl
      both {a = false} false d h k l = l h
  flatten_or-match f h = alone (is_match f) h

module _ {V J F E : Type 0} (values : Values V J F E) (constants : Constants V)
    (columns : List ColumnDef) (row : Row values) where
  pub add_candidate-HasRow :
      (c : Option (Candidate V)) (cs : List (Candidate V))
      → ((d : Candidate V) → c ≡ some d → HasRow values row d)
      → All (HasRow values row) cs
      → All (HasRow values row) (add_candidate values constants c cs)
  add_candidate-HasRow none cs h hs = hs
  add_candidate-HasRow (some c) cs h hs = (h c refl, hs)

  abbrev OptionHasRow : Option (Candidate V) → Type 0
  OptionHasRow none = Unit
  OptionHasRow (some c) = HasRow values row c

  candidate_of-HasRow :
      (index : List Name) (position : ℕ) (w : Walk V) (used : List Name) (c : Candidate V)
      → HasColumns values constants row index
      → Reads values constants columns row index w
      → candidate_of values constants index position columns w used ≡ some c
      → HasRow values row c
  candidate_of-HasRow index position w [] c full reads e = cc
  candidate_of-HasRow index position w (u ∷ us) c full reads e =
      subst OptionHasRow e (scans_of-PathHasRow values constants columns row index full w reads)

  pub index_candidates-HasRow :
      Typed values constants columns row
      → (cs : Constraints V) → AllHold values row cs
      → (position : ℕ) (indexes : List (List Name)) → All (HasColumns values constants row) indexes
      → All (HasRow values row) (index_candidates values constants position indexes cs columns)
  unfolding index_candidate
  index_candidates-HasRow typed cs holds position [] full = tt
  index_candidates-HasRow typed cs holds position (index ∷ indexes) (full, fulls) =
      add_candidate-HasRow (index_candidate values constants index position cs columns)
        (index_candidates values constants (suc position) indexes cs columns)
        (λ d e.
          candidate_of-HasRow index position (walk values constants cs columns index start) _ d full
            (walk-Reads values constants columns row index typed cs holds [] index start refl refl
              refl)
            e)
        (index_candidates-HasRow typed cs holds (suc position) indexes fulls)

  module _ (plan : Filter V F → Result E (Option (AccessPath V)))
      (sound : (f : Filter V F) (p : AccessPath V)
        → plan f ≡ ok (some p)
        → matches values f row ≡ ok true
        → PathHasRow values row p) where
    abbrev in_any : List (AccessPath V) → Bool
    in_any ps = any (λ p. matches_row values p row) ps

    add_path-later :
        (p : AccessPath V) (ps : List (AccessPath V))
        → in_any ps ≡ true
        → in_any (add_path values constants plan p ps) ≡ true
    add_path-later p ps h = elim (Bool-cases (is_empty_path p)) [
      | inl e ↦ rw (add_path, e) h
      | inr e ↦ elim (Bool-cases (matches_row values p row)) [
        | inl k ↦ rw (add_path, e, k) refl
        | inr k ↦ rw (add_path, e, k) h
      ]
    ]

    add_path-here :
        (p : AccessPath V) (ps : List (AccessPath V))
        → PathHasRow values row p
        → in_any (add_path values constants plan p ps) ≡ true
    add_path-here p ps h = rw (add_path, is_empty_path-HasRow values row p h, h) refl

    pub plan_branches-match :
        (fs : List (Filter V F)) (ps : List (AccessPath V))
        → plan_branches values constants plan fs ≡ ok (some ps)
        → any (is_match values row) fs ≡ true
        → in_any ps ≡ true
    plan_branches-match [] ps e h = cc
    plan_branches-match (f ∷ fs) ps e h = elim (Result-cases (plan f)) [
      | inl k ↦ cc (rw (plan_branches, k) at e)
      | inr (inl (d, k)) ↦ cc (rw (plan_branches, k) at e)
      | inr (inr (none, k)) ↦ cc (rw (plan_branches, k) at e)
      | inr (inr (some p, k)) ↦ elim (Result-cases (plan_branches values constants plan fs)) [
        | inl l ↦ cc (rw (plan_branches, k, l) at e)
        | inr (inl (d, l)) ↦ cc (rw (plan_branches, k, l) at e)
        | inr (inr (none, l)) ↦ cc (rw (plan_branches, k, l) at e)
        | inr (inr (some qs, l)) ↦
            let same : add_path values constants plan p qs ≡ ps =
              cc (rw (plan_branches, k, l) at e) in
            rw (← same) (elim (Bool-cases (is_match values row f)) [
              | inl m ↦ add_path-here p qs (sound f p k (is_true-ok values row _ m))
              | inr m ↦ add_path-later p qs (plan_branches-match fs qs l (rw m at h))
            ])
      ]
    ]
