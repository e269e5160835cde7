-- ===== src/Migration/Plan/Policy.antt =====
-- The policy on destructive operations.
use wasm_dbms.Prelude.{◌≡◌, refl, List, [], ◌∷◌, Bool, true, false, ◌||◌, not, inl, inr, ◌⊎◌}
use wasm_dbms.Prelude.{Bool-cases}
use wasm_dbms.Prelude.Result.{ok, err}
use wasm_dbms.Migration.Plan.{MigrationOp, MigrationPolicy, MigrationError, validate, validate_op}

module _ {T C D I K : Type 0} where
  abbrev pub is_destructive : MigrationOp T C D I K → Bool
  is_destructive (MigrationOp.drop_table name) = true
  is_destructive (MigrationOp.drop_column table column) = true
  is_destructive _ = false

  abbrev pub any_destructive : List (MigrationOp T C D I K) → Bool
  any_destructive [] = false
  any_destructive (op ∷ ops) = is_destructive op || any_destructive ops

  validate_op_allowed :
      (op : MigrationOp T C D I K) (policy : MigrationPolicy)
      → policy.allow_destructive ≡ true
      → validate_op op policy ≡ ok tt
  unfolding validate_op
  validate_op_allowed (MigrationOp.drop_table name) policy h = rw h refl
  validate_op_allowed (MigrationOp.drop_column table column) policy h = rw h refl
  validate_op_allowed _ policy h = refl

  validate_op_denied :
      (op : MigrationOp T C D I K) (policy : MigrationPolicy)
      → policy.allow_destructive ≡ false
      → ((is_destructive op ≡ false) × (validate_op op policy ≡ ok tt))
        ⊎ ((is_destructive op ≡ true) × ((e : MigrationError) × (validate_op op policy ≡ err e)))
  unfolding validate_op
  validate_op_denied (MigrationOp.drop_table name) policy h =
      inr (refl, (MigrationError.drop_table_denied name, rw h refl))
  validate_op_denied (MigrationOp.drop_column table column) policy h =
      inr (refl, (MigrationError.drop_column_denied table column, rw h refl))
  validate_op_denied _ policy h = inl (refl, refl)

  validate-allowed :
      (ops : List (MigrationOp T C D I K)) (policy : MigrationPolicy)
      → policy.allow_destructive ≡ true
      → validate ops policy ≡ ok tt
  unfolding validate
  validate-allowed [] policy h = refl
  validate-allowed (op ∷ ops) policy h =
      rw (validate_op_allowed op policy h) (validate-allowed ops policy h)

  validate-denied :
      (ops : List (MigrationOp T C D I K)) (policy : MigrationPolicy)
      → policy.allow_destructive ≡ false
      → ((any_destructive ops ≡ false) × (validate ops policy ≡ ok tt))
        ⊎ ((any_destructive ops ≡ true) × ((e : MigrationError) × (validate ops policy ≡ err e)))
  unfolding validate
  validate-denied [] policy h = inl (refl, refl)
  validate-denied (op ∷ ops) policy h = elim (validate_op_denied op policy h) [
    | inr (d, (e, refused)) ↦ inr (rw d refl, (e, rw refused refl))
    | inl (d, accepted) ↦ rw (d, accepted) (validate-denied ops policy h)
  ]

  -- A plan is accepted when the policy allows destructive operations or the plan has none; otherwise
  -- it is refused with an error.
  pub validate_cases :
      (ops : List (MigrationOp T C D I K)) (policy : MigrationPolicy)
      → (((policy.allow_destructive || not (any_destructive ops)) ≡ true)
          × (validate ops policy ≡ ok tt))
        ⊎ (((policy.allow_destructive || not (any_destructive ops)) ≡ false)
            × ((e : MigrationError) × (validate ops policy ≡ err e)))
  validate_cases ops policy = elim (Bool-cases policy.allow_destructive) [
    | inl h ↦ inl (rw h refl, validate-allowed ops policy h)
    | inr h ↦ elim (validate-denied ops policy h) [
      | inl (d, accepted) ↦ inl (rw (h, d) refl, accepted)
      | inr (d, refused) ↦ inr (rw (h, d) refl, refused)
    ]
  ]
