-- ===== src/Examples/Engine.antt =====
-- A commit whose second operation fails, over a heap of two pages.
use wasm_dbms.Prelude.{
  ℕ, [], ◌∷◌, ◌≡◌, ◌⊎◌, refl, none, some, false, true, arith, List, not, length, ◌*◌, ◌==◌,
}
use wasm_dbms.Prelude.Result.{ok, err, panic}
use wasm_dbms.Journal.{Journal}
use wasm_dbms.Journal.Rollback.{Op, run}
use wasm_dbms.Memory.Provider.{HeapMemoryProvider}
use wasm_dbms.Memory.Manager.Effects.{HasRoom}
use wasm_dbms.Query.Filter.{DataTypeKind}
use wasm_dbms.Transaction.Operations.{TransactionOp, Transaction}
use wasm_dbms.Transaction.Overlay.Table.{Row}
use wasm_dbms.Engine.{Database, DatabaseSchema, Run, pure, raise, ◌>>◌, other}
use wasm_dbms.Engine.Drift.{drift_check, drift_check_lem, IsCached}
use wasm_dbms.Engine.Commit.{commit, atomic, execute}
use wasm_dbms.Engine.Journaled.{
  writer, Journals, JournalsAt, IsJournaled, execute_lem, Journals_bind, Journals_pure,
  Journals_raise,
}
use wasm_dbms.Engine.Undone.{
  Commits, CommitPanics, Undone, Runs, journaled, commit_cases, atomic_cases,
}
use wasm_dbms.Examples.Heap.{small, small_bytes, small_IsProvider, two_pages}

abbrev Db : Type 0
Db = Database HeapMemoryProvider ℕ ℕ ℕ

abbrev marks : List Op
marks = Op.write_at_raw 0 8 (1 ∷ 2 ∷ []) ∷ []

-- Two bytes are written through the journal.
abbrev mark_from : Db → Journal → Db
mark_from d j =
    let w = run small marks (writer d j) in
    record d { ctx = record d.ctx { mm = w.mm; journal = some w.journal } }

abbrev mark : Run Db ℕ (Unit {0})
mark d = elim d.ctx.journal [ none ↦ (err (other 0), d) | some j ↦ (ok tt, mark_from d j) ]

-- A row without columns is refused, after the write.
abbrev insert_row : Row ℕ → Run Db ℕ (Unit {0})
insert_row [] = mark >> raise (other 7)
insert_row (_ ∷ _) = mark

abbrev schema : DatabaseSchema HeapMemoryProvider ℕ ℕ ℕ ℕ
schema = record {
  compiled_hash = 4;
  schema_hash = λ r. r;
  select = λ table f. pure [];
  validate_insert = λ table values. pure tt;
  insert = λ table values. insert_row values;
  delete = λ table behaviour f. pure 0;
  update = λ table patch f. pure 0;
}

mark-Journals : Journals small 0 mark
mark-Journals = record {
  on = λ d j h. rw h (
    (
      _,
      refl,
      record { ops = marks; in_page = (omega arith, tt); grows = omega arith; result = refl },
    ),
    refl,
  );
}

insert_row-Journals : (values : Row ℕ) → Journals small 0 (insert_row values)
insert_row-Journals [] =
    Journals_bind small 0 0 0 (omega arith) mark _ mark-Journals
      (λ _. Journals_raise small 0 (other 7))
insert_row-Journals (_ ∷ _) = mark-Journals

schema-IsJournaled : IsJournaled small schema 0
schema-IsJournaled = record {
  select = λ table f. Journals_pure small 0 [];
  validate_insert = λ table values. Journals_pure small 0 tt;
  insert = λ table values. insert_row-Journals values;
  delete = λ table behaviour f. Journals_pure small 0 0;
  update = λ table patch f. Journals_pure small 0 0;
}

abbrev staged : Transaction ℕ ℕ
staged = record {
  operations =
      TransactionOp.insert (b't' ∷ []) (
        (
          record {
            name = b'a' ∷ [];
            data_type = DataTypeKind.text;
            primary_key = true;
            unique = true;
            nullable = false;
          },
          3,
        )
        ∷ [])
      ∷ TransactionOp.insert (b't' ∷ []) []
      ∷ [];
  overlay = record { tables = [] };
}

abbrev database : Db
database = record {
  ctx = record {
    mm = two_pages;
    schema_registry = 4;
    transaction_session = record { transactions = (0, staged) ∷ []; next_transaction_id = 1 };
    journal = none;
    drift = none;
    migrating = false;
  };
  transaction = some 0;
}

some_room : (k : ℕ) → k ≡ 0 → HasRoom small small_bytes k two_pages
some_room k none_added = record {
  page_size_lt = omega arith;
  whole_pages = refl;
  length_le = omega arith;
}

execute_Journals :
    (op : TransactionOp ℕ ℕ) (d : Db) → JournalsAt small 0 (execute small schema op) d
execute_Journals op d = let h = execute_lem small schema-IsJournaled op in h.on d

staged_Runs : (ops : List (TransactionOp ℕ ℕ)) (d : Db) → Runs small_IsProvider schema 0 ops d
staged_Runs [] d = tt
staged_Runs (op ∷ ops) d =
    (execute_Journals op d, λ went. staged_Runs ops (execute small schema op d).1)

commit_cases_example :
    Commits small_IsProvider schema 0 two_pages (commit small schema database)
    ⊎ CommitPanics small_IsProvider schema 0 database (commit small schema database)
commit_cases_example = commit_cases small_IsProvider schema 0 database refl (λ q id t is_open.
    (staged_Runs t.operations _, some_room (length t.operations * 0) (omega arith)))

atomic_cases_example :
    (((a : Unit {0}) × ((atomic small schema (insert_row []) database).0 ≡ ok a)
        × ((atomic small schema (insert_row []) database).1.ctx.journal ≡ none))
      ⊎ Undone small_IsProvider two_pages (atomic small schema (insert_row []) database))
    ⊎ (((atomic small schema (insert_row []) database).0 ≡ panic)
        × ((insert_row [] (journaled small_IsProvider schema 0 database)).0 ≡ panic))
atomic_cases_example =
    atomic_cases small_IsProvider schema 0 (insert_row []) database
      (let h = insert_row-Journals [] in h.on (journaled small_IsProvider schema 0 database)) refl
      (some_room 0 refl)

drift_check_lem_example :
    ((drift_check schema database).0 ≡ ok (not (4 == 4)))
    × IsCached schema (drift_check schema database).1
drift_check_lem_example = drift_check_lem schema database refl (λ hash drifted e. cc)
