-- ===== src/Migration/Plan.antt =====
-- migration/plan.rs, with the operations of wasm-dbms-api/src/dbms/migration.rs: the order in which
-- the operations of a migration are applied, and the policy on destructive ones. Schemas, columns,
-- data types, indexes and foreign keys are only carried.
pub mod Kinds
pub mod Order
pub mod Policy
use wasm_dbms.Prelude.{ℕ, List, [], ◌∷◌, Bool, true, false, Option, none, some, String}
use wasm_dbms.Prelude.{if◌then◌else◌, leb}
use wasm_dbms.Prelude.Result.{Result, ok, err, ◌>>◌}

pub record ColumnChanges (K : Type 0) : Type 0 where
  pub nullable : Option Bool
  pub unique : Option Bool
  pub auto_increment : Option Bool
  pub primary_key : Option Bool
  pub foreign_key : Option (Option K)

-- The fields stand in the source's order.
pub data MigrationOp (T C D I K : Type 0) : Type 0 where
  create_table : (name : String) (schema : T) → MigrationOp T C D I K
  drop_table : (name : String) → MigrationOp T C D I K
  add_column : (table : String) (column : C) → MigrationOp T C D I K
  drop_column : (table column : String) → MigrationOp T C D I K
  rename_column : (table old new : String) → MigrationOp T C D I K
  alter_column : (table column : String) (changes : ColumnChanges K) → MigrationOp T C D I K
  widen_column : (table column : String) (old_type new_type : D) → MigrationOp T C D I K
  transform_column : (column table : String) (old_type new_type : D) → MigrationOp T C D I K
  add_index : (table : String) (index : I) → MigrationOp T C D I K
  drop_index : (table : String) (index : I) → MigrationOp T C D I K

pub record MigrationPolicy : Type 0 where
  pub allow_destructive : Bool

-- `DestructiveOpDenied`, by what its message is formatted from.
pub data MigrationError : Type 0 where
  drop_table_denied : (name : String) → MigrationError
  drop_column_denied : (table column : String) → MigrationError

abbrev pub is : Bool → Option Bool → Bool
is b none = false
is true (some c) = c
is false (some true) = false
is false (some false) = true

abbrev pub adds {ℓ} : {A : Type ℓ} → Option (Option A) → Bool
adds (some (some k)) = true
adds _ = false

abbrev pub is_some {ℓ} : {A : Type ℓ} → Option A → Bool
is_some none = false
is_some (some a) = true

module _ {K : Type 0} where
  unfoldable pub is_relaxation : ColumnChanges K → Bool
  is_relaxation changes =
      if is false changes.nullable
      then false
      else if is true changes.unique
      then false
      else if is true changes.primary_key
      then false
      else if adds changes.foreign_key
      then false
      else if is_some changes.auto_increment
      then false
      else true

module _ {T C D I K : Type 0} where
  unfoldable pub op_priority : MigrationOp T C D I K → ℕ
  unfolding is_relaxation
  op_priority (create_table name schema) = 0
  op_priority (drop_index table index) = 1
  op_priority (drop_column table column) = 2
  op_priority (rename_column table old new) = 3
  op_priority (alter_column table column changes) = if is_relaxation changes then 4 else 8
  op_priority (widen_column table column old_type new_type) = 5
  op_priority (transform_column column table old_type new_type) = 6
  op_priority (add_column table column) = 7
  op_priority (add_index table index) = 9
  op_priority (drop_table name) = 10

  -- `sort_by_key`, a stable sort: an element goes before the first one whose key is not smaller.
  unfoldable pub insert :
      MigrationOp T C D I K → List (MigrationOp T C D I K) → List (MigrationOp T C D I K)
  unfolding op_priority
  insert op [] = op ∷ []
  insert op (o ∷ ops) =
      let later = insert op ops in
      if leb (op_priority op) (op_priority o) then op ∷ o ∷ ops else o ∷ later

  unfoldable pub order_ops : List (MigrationOp T C D I K) → List (MigrationOp T C D I K)
  unfolding insert
  order_ops [] = []
  order_ops (op ∷ ops) = insert op (order_ops ops)

  unfoldable pub validate_op :
      MigrationOp T C D I K → MigrationPolicy → Result MigrationError (Unit {0})
  validate_op (drop_table name) policy =
      if policy.allow_destructive then ok tt else err (drop_table_denied name)
  validate_op (drop_column table column) policy =
      if policy.allow_destructive then ok tt else err (drop_column_denied table column)
  validate_op _ policy = ok tt

  unfoldable pub validate :
      List (MigrationOp T C D I K) → MigrationPolicy → Result MigrationError (Unit {0})
  unfolding validate_op
  validate [] policy = ok tt
  validate (op ∷ ops) policy = validate_op op policy >> validate ops policy
