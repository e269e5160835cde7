-- ===== src/Engine/Commit.antt =====
-- `commit`, `rollback` and `atomic`: the operations of a transaction under one journal.
use wasm_dbms.Prelude.{ℕ, Option, none, some, List, [], ◌∷◌, length, ◌==◌, if◌then◌else◌}
use wasm_dbms.Prelude.Result.{Result, ok, err, panic}
use wasm_dbms.Prelude.Names.{Name}
use wasm_dbms.Query.Filter.{Filter, or}
use wasm_dbms.Journal.{Journal}
use wasm_dbms.Journal
use wasm_dbms.Memory.Provider.{MemoryProvider}
use wasm_dbms.Transaction.Operations.{Transaction, TransactionOp, insert, delete, update}
use wasm_dbms.Transaction.Session.{TransactionId, take_transaction, close_transaction}
use wasm_dbms.Transaction.Session.{SessionError, transaction_not_found}
use wasm_dbms.Engine.{
  DbmsError, DbmsContext, Database, DatabaseSchema, Run, pure, raise, ◌>>=◌, ◌>>◌,
}
use wasm_dbms.Engine.{no_active_transaction, transaction_conflict}
use wasm_dbms.Engine
use wasm_dbms.Engine.Drift.{ensure_no_drift}

module _ {V F : Type 0} where
  -- `reduce(Filter::or)`
  abbrev pub or_all : Filter V F → List (Filter V F) → Filter V F
  or_all filter [] = filter
  or_all filter (f ∷ filters) = or_all (or filter f) filters

  abbrev pub reduce_or : List (Filter V F) → Option (Filter V F)
  reduce_or [] = none
  reduce_or (f ∷ filters) = some (or_all f filters)

module _ {P R V F E : Type 0} (mp : MemoryProvider P) (schema : DatabaseSchema P R V F E) where
  abbrev pub Db : Type 0 → Type 0
  Db A = Run (Database P R V F) E A

  abbrev pub set_journal : Option Journal → Db (Unit {0})
  set_journal j d = (ok tt, record d { ctx = record d.ctx { journal = j } })

  -- `self.transaction.take()`
  abbrev pub take_id : Db TransactionId
  take_id d = elim d.transaction [
    | none ↦ (err no_active_transaction, d)
    | some id ↦ (ok id, record d { transaction = none })
  ]

  abbrev pub session_error : {A : Type 0} → Result SessionError A → Result (DbmsError E) A
  session_error (ok a) = ok a
  session_error (err transaction_not_found) = err Engine.transaction_not_found
  session_error panic = panic

  abbrev pub take_from_session : TransactionId → Db (Transaction V F)
  unfolding take_transaction
  take_from_session id d =
      let (r, session) = take_transaction id d.ctx.transaction_session in
      (session_error r, record d { ctx = record d.ctx { transaction_session = session } })

  -- The active journal is rolled back; a rollback that fails is a panic.
  unfoldable pub roll_back_journal : {A : Type 0} → DbmsError E → Db A
  unfolding Journal.rollback
  roll_back_journal e d = elim d.ctx.journal [
    | none ↦ (err e, d)
    | some j ↦
        let (r, mm) = Journal.rollback mp j d.ctx.mm in
        let d' : Database P R V F = record d { ctx = record d.ctx { mm = mm; journal = none } } in
        elim r [ ok _ ↦ (err e, d') | err _ ↦ (panic, d') | panic ↦ (panic, d') ]
  ]

  -- The loop over the captured row versions.
  unfoldable pub validate_filters : Name → List (Filter V F) → Db (Unit {0})
  validate_filters table [] = pure tt
  validate_filters table (filter ∷ filters) = do
    rows ← schema.select table filter
    if length rows == 1 then validate_filters table filters else raise (transaction_conflict table)

  unfoldable pub validated_transaction_filter : Name → List (Filter V F) → Db (Option (Filter V F))
  unfolding validate_filters
  validated_transaction_filter table filters =
      validate_filters table filters >> pure (reduce_or filters)

  -- The change of the rows, when there is a filter.
  abbrev pub on_filter : (Filter V F → Db ℕ) → Option (Filter V F) → Db (Unit {0})
  on_filter change none = pure tt
  on_filter change (some filter) = change filter >>= λ _. pure tt

  unfoldable pub execute : TransactionOp V F → Db (Unit {0})
  unfolding validated_transaction_filter
  execute (insert table values) = schema.validate_insert table values >> schema.insert table values
  execute (delete table behaviour filters) =
      validated_transaction_filter table filters >>= on_filter (schema.delete table behaviour)
  execute (update table patch filters) =
      validated_transaction_filter table filters >>= on_filter (schema.update table patch)

  unfoldable pub execute_all : List (TransactionOp V F) → Db (Unit {0})
  unfolding execute roll_back_journal
  execute_all [] d = (ok tt, d)
  execute_all (op ∷ ops) d =
      let (r, d') = execute op d in
      let later = execute_all ops d' in
      elim r [ ok _ ↦ later | err e ↦ roll_back_journal e d' | panic ↦ (panic, d') ]

  unfoldable pub commit_operations : List (TransactionOp V F) → Db (Unit {0})
  unfolding execute_all
  commit_operations operations = do
    set_journal (some Journal.new)
    execute_all operations
    set_journal none

  unfoldable pub commit_taken : Db (Unit {0})
  unfolding take_transaction commit_operations
  commit_taken = do
    id ← take_id
    transaction ← take_from_session id
    commit_operations transaction.operations

  unfoldable pub commit : Db (Unit {0})
  unfolding ensure_no_drift commit_taken
  commit = ensure_no_drift schema >> commit_taken

  unfoldable pub rollback : Db (Unit {0})
  unfolding close_transaction
  rollback = do
    id ← take_id
    λ d. (
      ok tt,
      record d {
        ctx = record d.ctx { transaction_session = close_transaction id d.ctx.transaction_session };
      },
    )

  unfoldable pub atomic : {A : Type 0} → Db A → Db A
  unfolding roll_back_journal
  atomic f d = elim d.ctx.journal [
    | some j ↦ f d
    | none ↦
        let (r, d') = f (record d { ctx = record d.ctx { journal = some Journal.new } }) in
        elim r [
          | ok a ↦ (ok a, record d' { ctx = record d'.ctx { journal = none } })
          | err e ↦ roll_back_journal e d'
          | panic ↦ (panic, d')
        ]
  ]
