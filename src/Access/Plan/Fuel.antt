-- ===== src/Access/Plan/Fuel.antt =====
-- The fuel that planning a filter needs.
use wasm_dbms.Prelude.{
  ℕ, zero, suc, ◌+◌, ◌≤◌, ◌≡◌, refl, arith, List, [], ◌∷◌, ◌++◌, length, All, All-append, Option,
  none, some, Option-cases, inl, inr,
}
use wasm_dbms.Prelude.Names.{Name}
use wasm_dbms.Prelude.Result.{Result, ok}
use wasm_dbms.Query.Filter.{Values, Filter, ColumnDef}
use wasm_dbms.Access.Scan.{AccessPath, empty}
use wasm_dbms.Access.Constraint.{Constants}
use wasm_dbms.Access.Collect.{flatten_and, flatten_or, collect}
use wasm_dbms.Access.Candidate.{choose, sort_candidates}
use wasm_dbms.Access.Plan.{
  add_path, add_candidate, union_candidate, index_candidates, plan_branches, or_candidate,
  or_candidates, plan_conjunction, plan_filter,
}

-- The number of predicates and connectives of a filter.
abbrev pub size : {V F : Type 0} → Filter V F → ℕ
size (Filter.and left right) = 1 + size left + size right
size (Filter.or left right) = 1 + size left + size right
size (Filter.not inner) = 1 + size inner
size _ = 1

module _ {V F : Type 0} where
  one_le_size : (f : Filter V F) → 1 ≤ size f
  one_le_size (Filter.and left right) = omega arith
  one_le_size (Filter.or left right) = omega arith
  one_le_size (Filter.not inner) = omega arith
  one_le_size _ = omega arith

  abbrev AllSmall : ℕ → List (Filter V F) → Type 0
  AllSmall n fs = All (λ f. size f ≤ n) fs

  flatten_and-AllSmall : (n : ℕ) (f : Filter V F) → size f ≤ n → AllSmall n (flatten_and f)
  flatten_and-AllSmall n (Filter.and left right) h =
      All-append (λ f. size f ≤ n) (flatten_and left) (flatten_and right)
        (flatten_and-AllSmall n left (omega (arith, h)))
        (flatten_and-AllSmall n right (omega (arith, h)))
  flatten_and-AllSmall n _ h = (h, tt)

  flatten_or-AllSmall : (n : ℕ) (f : Filter V F) → size f ≤ n → AllSmall n (flatten_or f)
  flatten_or-AllSmall n (Filter.or left right) h =
      All-append (λ f. size f ≤ n) (flatten_or left) (flatten_or right)
        (flatten_or-AllSmall n left (omega (arith, h)))
        (flatten_or-AllSmall n right (omega (arith, h)))
  flatten_or-AllSmall n _ h = (h, tt)

  or-AllSmall :
      (n : ℕ) (left right : Filter V F)
      → size (Filter.or left right) ≤ suc n
      → AllSmall n (flatten_or (Filter.or left right))
  or-AllSmall n left right h =
      All-append (λ f. size f ≤ n) (flatten_or left) (flatten_or right)
        (flatten_or-AllSmall n left (omega (arith, h)))
        (flatten_or-AllSmall n right (omega (arith, h)))

module _ {V J F E : Type 0} (values : Values V J F E) (constants : Constants V)
    (indexes : List (List Name)) (columns : List ColumnDef) where
  abbrev Answers : {A : Type 0} → Result E A → Type 0
  Answers {A = A} r = (a : A) × (r ≡ ok a)

  module _ (n : ℕ) (plan : Filter V F → Result E (Option (AccessPath V)))
      (total : (f : Filter V F) → size f ≤ n → Answers (plan f)) where
    plan_branches-Answers :
        (fs : List (Filter V F)) → AllSmall n fs → Answers (plan_branches values constants plan fs)
    plan_branches-Answers [] h = (_, refl)
    plan_branches-Answers (f ∷ fs) (h, hs) =
        let (planned, e) = total f h in
        let (later, k) = plan_branches-Answers fs hs in
        elim (Option-cases planned) [
          | inl l ↦ (none, rw (plan_branches, e, l) refl)
          | inr (p, l) ↦ elim (Option-cases later) [
            | inl m ↦ (none, rw (plan_branches, e, l, k, m) refl)
            | inr (ps, m) ↦
                (some (add_path values constants plan p ps), rw (plan_branches, e, l, k, m) refl)
          ]
        ]

    or_candidate-Answers :
        (position : ℕ) (f : Filter V F)
        → size f ≤ suc n
        → Answers (or_candidate values constants plan position f)
    unfolding or_candidate
    or_candidate-Answers position (Filter.or left right) h =
        let (planned, e) =
          plan_branches-Answers (flatten_or (Filter.or left right)) (or-AllSmall n left right h) in
        elim (Option-cases planned) [
          | inl l ↦ (none, rw (e, l) refl)
          | inr (ps, l) ↦ (union_candidate values constants plan position ps, rw (e, l) refl)
        ]
    or_candidate-Answers position _ h = (none, refl)

    or_candidates-Answers :
        (position : ℕ) (fs : List (Filter V F))
        → AllSmall (suc n) fs
        → Answers (or_candidates values constants plan position fs)
    or_candidates-Answers position [] h = ([], refl)
    or_candidates-Answers position (f ∷ fs) (h, hs) =
        let (c, e) = or_candidate-Answers position f h in
        let (cs, k) = or_candidates-Answers (suc position) fs hs in
        (add_candidate values constants c cs, rw (or_candidates, e, k) refl)

    plan_conjunction-Answers :
        (fs : List (Filter V F))
        → AllSmall (suc n) fs
        → Answers (plan_conjunction values constants plan fs indexes columns)
    unfolding plan_conjunction
    plan_conjunction-Answers fs h =
        let (ors, e) = or_candidates-Answers (length indexes) fs h in
        elim (Option-cases (collect values constants fs)) [
          | inl k ↦ (some empty, rw (plan_conjunction, k) refl)
          | inr (cs, k) ↦ (
            choose
                (sort_candidates (index_candidates values constants 0 indexes cs columns ++ ors)),
            rw (plan_conjunction, k, e) refl,
          )
        ]

  -- As much fuel as the filter has predicates and connectives is enough to plan it.
  pub plan_filter_total :
      (fuel : ℕ) (filter : Filter V F)
      → size filter ≤ fuel
      → (o : Option (AccessPath V)) × (plan_filter values constants fuel filter indexes columns
          ≡ ok o)
  unfolding plan_filter
  plan_filter_total zero filter h = absurd (omega (arith, h, one_le_size filter))
  plan_filter_total (suc fuel) filter h =
      plan_conjunction-Answers fuel (λ f. plan_filter values constants fuel f indexes columns)
        (λ f small. plan_filter_total fuel f small) (flatten_and filter)
        (flatten_and-AllSmall (suc fuel) filter h)
