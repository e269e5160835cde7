-- ===== src/Migration/Plan/Kinds.antt =====
-- migration/plan.rs: the order in which the operations of a migration are applied, by their kinds.
use wasm_dbms.Prelude.{
  ℕ, zero, suc, ◌≡◌, ◌<◌, refl, sym, ◌∙◌, arith, List, [], ◌∷◌, ◌++◌, All, Bool, not, true, false,
  ◌==◌, if◌then◌else◌,
}
use wasm_dbms.Migration.Plan.{
  MigrationOp, create_table, drop_table, add_column, drop_column, rename_column, alter_column,
  widen_column, transform_column, add_index, drop_index, is_relaxation, op_priority, order_ops,
}
use wasm_dbms.Migration.Plan.Order.{bucket, buckets, buckets-Ascends, order_ops_buckets}

module _ {T C D I K : Type 0} where
  abbrev pub is_create_table : MigrationOp T C D I K → Bool
  is_create_table (create_table name schema) = true
  is_create_table _ = false

  abbrev pub is_drop_index : MigrationOp T C D I K → Bool
  is_drop_index (drop_index table index) = true
  is_drop_index _ = false

  abbrev pub is_drop_column : MigrationOp T C D I K → Bool
  is_drop_column (drop_column table column) = true
  is_drop_column _ = false

  abbrev pub is_rename_column : MigrationOp T C D I K → Bool
  is_rename_column (rename_column table old new) = true
  is_rename_column _ = false

  abbrev pub is_relaxing : MigrationOp T C D I K → Bool
  is_relaxing (alter_column table column changes) = is_relaxation changes
  is_relaxing _ = false

  abbrev pub is_widen_column : MigrationOp T C D I K → Bool
  is_widen_column (widen_column table column old_type new_type) = true
  is_widen_column _ = false

  abbrev pub is_transform_column : MigrationOp T C D I K → Bool
  is_transform_column (transform_column column table old_type new_type) = true
  is_transform_column _ = false

  abbrev pub is_add_column : MigrationOp T C D I K → Bool
  is_add_column (add_column table column) = true
  is_add_column _ = false

  abbrev pub is_tightening : MigrationOp T C D I K → Bool
  is_tightening (alter_column table column changes) = not (is_relaxation changes)
  is_tightening _ = false

  abbrev pub is_add_index : MigrationOp T C D I K → Bool
  is_add_index (add_index table index) = true
  is_add_index _ = false

  abbrev pub is_drop_table : MigrationOp T C D I K → Bool
  is_drop_table (drop_table name) = true
  is_drop_table _ = false

  -- The operations of a kind, in their order.
  abbrev pub keep :
      (MigrationOp T C D I K → Bool) → List (MigrationOp T C D I K) → List (MigrationOp T C D I K)
  keep test [] = []
  keep test (o ∷ ops) = let later = keep test ops in if test o then o ∷ later else later

  bucket-keep :
      (p : ℕ) (test : MigrationOp T C D I K → Bool)
      → ((o : MigrationOp T C D I K) → (op_priority o == p) ≡ test o)
      → (ops : List (MigrationOp T C D I K)) → bucket p ops ≡ keep test ops
  bucket-keep p test same [] = refl
  bucket-keep p test same (o ∷ ops) = rw (same o, bucket-keep p test same ops) refl

  op_priority-is_create_table :
      (o : MigrationOp T C D I K) → (op_priority o == 0) ≡ is_create_table o
  unfolding op_priority
  op_priority-is_create_table (alter_column table column changes) = ground arith
  op_priority-is_create_table _ = refl

  op_priority-is_drop_index : (o : MigrationOp T C D I K) → (op_priority o == 1) ≡ is_drop_index o
  unfolding op_priority
  op_priority-is_drop_index (alter_column table column changes) = ground arith
  op_priority-is_drop_index _ = refl

  op_priority-is_drop_column : (o : MigrationOp T C D I K) → (op_priority o == 2) ≡ is_drop_column o
  unfolding op_priority
  op_priority-is_drop_column (alter_column table column changes) = ground arith
  op_priority-is_drop_column _ = refl

  op_priority-is_rename_column :
      (o : MigrationOp T C D I K) → (op_priority o == 3) ≡ is_rename_column o
  unfolding op_priority
  op_priority-is_rename_column (alter_column table column changes) = ground arith
  op_priority-is_rename_column _ = refl

  op_priority-is_relaxing : (o : MigrationOp T C D I K) → (op_priority o == 4) ≡ is_relaxing o
  unfolding op_priority
  op_priority-is_relaxing (alter_column table column changes) = ground arith
  op_priority-is_relaxing _ = refl

  op_priority-is_widen_column :
      (o : MigrationOp T C D I K) → (op_priority o == 5) ≡ is_widen_column o
  unfolding op_priority
  op_priority-is_widen_column (alter_column table column changes) = ground arith
  op_priority-is_widen_column _ = refl

  op_priority-is_transform_column :
      (o : MigrationOp T C D I K) → (op_priority o == 6) ≡ is_transform_column o
  unfolding op_priority
  op_priority-is_transform_column (alter_column table column changes) = ground arith
  op_priority-is_transform_column _ = refl

  op_priority-is_add_column : (o : MigrationOp T C D I K) → (op_priority o == 7) ≡ is_add_column o
  unfolding op_priority
  op_priority-is_add_column (alter_column table column changes) = ground arith
  op_priority-is_add_column _ = refl

  op_priority-is_tightening : (o : MigrationOp T C D I K) → (op_priority o == 8) ≡ is_tightening o
  unfolding op_priority
  op_priority-is_tightening (alter_column table column changes) = ground arith
  op_priority-is_tightening _ = refl

  op_priority-is_add_index : (o : MigrationOp T C D I K) → (op_priority o == 9) ≡ is_add_index o
  unfolding op_priority
  op_priority-is_add_index (alter_column table column changes) = ground arith
  op_priority-is_add_index _ = refl

  op_priority-is_drop_table : (o : MigrationOp T C D I K) → (op_priority o == 10) ≡ is_drop_table o
  unfolding op_priority
  op_priority-is_drop_table (alter_column table column changes) = ground arith
  op_priority-is_drop_table _ = refl

  op_priority_lt : (o : MigrationOp T C D I K) → op_priority o < 11
  unfolding op_priority
  op_priority_lt (alter_column table column changes) = ground arith
  op_priority_lt _ = omega arith

  All-op_priority : (ops : List (MigrationOp T C D I K)) → All (λ o. op_priority o < 11) ops
  All-op_priority [] = tt
  All-op_priority (o ∷ ops) = (op_priority_lt o, All-op_priority ops)

  buckets-same :
      (n p : ℕ) (xs ys : List (MigrationOp T C D I K))
      → ((q : ℕ) → bucket q xs ≡ bucket q ys)
      → buckets n p xs ≡ buckets n p ys
  buckets-same zero p xs ys h = refl
  buckets-same (suc n) p xs ys h = rw (h p, buckets-same n (suc p) xs ys h) refl

  -- The order in which a migration is applied.
  abbrev pub apply_order : List (MigrationOp T C D I K → Bool)
  apply_order =
      is_create_table ∷ is_drop_index ∷ is_drop_column ∷ is_rename_column ∷ is_relaxing
      ∷ is_widen_column ∷ is_transform_column ∷ is_add_column ∷ is_tightening ∷ is_add_index
      ∷ is_drop_table ∷ []

  -- The operations of each kind of a list, in its order, the kinds one after the other.
  abbrev pub by_kind :
      List (MigrationOp T C D I K → Bool)
      → List (MigrationOp T C D I K)
      → List (MigrationOp T C D I K)
  by_kind [] ops = []
  by_kind (kind ∷ kinds) ops = keep kind ops ++ by_kind kinds ops

  -- The operations are applied by kind: tables are created, indexes and columns dropped, columns
  -- renamed, relaxed, widened, transformed and added, constraints tightened, indexes added, and tables
  -- dropped last. Those of each kind keep the order in which they were given, and none is lost.
  pub order_ops-by_kind :
      (ops : List (MigrationOp T C D I K)) → order_ops ops ≡ by_kind apply_order ops
  order_ops-by_kind ops =
      let (ascends, same) = order_ops_buckets ops in
      sym (
        buckets-Ascends 11 11 0 (order_ops ops) (omega arith) ascends
          (All-op_priority (order_ops ops)))
      ∙ buckets-same 11 0 (order_ops ops) ops same
      ∙ rw
          (
            bucket-keep 0 is_create_table op_priority-is_create_table ops,
            bucket-keep 1 is_drop_index op_priority-is_drop_index ops,
            bucket-keep 2 is_drop_column op_priority-is_drop_column ops,
            bucket-keep 3 is_rename_column op_priority-is_rename_column ops,
            bucket-keep 4 is_relaxing op_priority-is_relaxing ops,
            bucket-keep 5 is_widen_column op_priority-is_widen_column ops,
            bucket-keep 6 is_transform_column op_priority-is_transform_column ops,
            bucket-keep 7 is_add_column op_priority-is_add_column ops,
            bucket-keep 8 is_tightening op_priority-is_tightening ops,
            bucket-keep 9 is_add_index op_priority-is_add_index ops,
            bucket-keep 10 is_drop_table op_priority-is_drop_table ops,
          )
          refl
