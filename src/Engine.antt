-- ===== src/Engine.antt =====
-- crates/wasm-dbms/wasm-dbms/src/database.rs and context.rs: a database session, its transaction and
-- the context's state. Selecting and changing the rows of a table comes through an interface.
pub mod Commit
pub mod Drift
pub mod Journaled
pub mod Undone
use wasm_dbms.Prelude.{ℕ, Option, none, some, Bool, true, false, ◌==◌, if◌then◌else◌, List, []}
use wasm_dbms.Prelude.Result.{Result, ok, err, panic}
use wasm_dbms.Prelude.Names.{Name}
use wasm_dbms.Query.Filter.{Filter}
use wasm_dbms.Journal.{Journal}
use wasm_dbms.Memory.Provider.{MemoryProvider}
use wasm_dbms.Transaction.Overlay.Table.{Row}
use wasm_dbms.Transaction.Operations.{Transaction, DeleteBehavior}
use wasm_dbms.Transaction.Session.{TransactionSession, TransactionId}

-- The errors that the session raises itself, and those of the table operations.
pub data DbmsError (E : Type 0) : Type 0 where
  no_active_transaction : DbmsError E
  transaction_not_found : DbmsError E
  transaction_conflict : Name → DbmsError E
  schema_drift : DbmsError E
  other : E → DbmsError E

-- `DbmsContext` over a provider's state `P` and a schema registry `R`.
pub record DbmsContext (P R V F : Type 0) : Type 0 where
  pub mm : P
  pub schema_registry : R
  pub transaction_session : TransactionSession (Transaction V F)
  pub journal : Option Journal
  pub drift : Option (ℕ × Bool)
  pub migrating : Bool

-- `WasmDbmsDatabase`, with the context that it refers to.
pub record Database (P R V F : Type 0) : Type 0 where
  pub ctx : DbmsContext P R V F
  pub transaction : Option TransactionId

-- A method of a database; what it changed before an error stays changed.
abbrev pub Run : Type 0 → Type 0 → Type 0 → Type 0
Run D E A = D → Result (DbmsError E) A × D

module _ {D E A : Type 0} where
  abbrev pub pure : A → Run D E A
  pure a d = (ok a, d)

  abbrev pub raise : DbmsError E → Run D E A
  raise e d = (err e, d)

module _ {D E A B : Type 0} where
  abbrev pub continue : Result (DbmsError E) A → (A → Run D E B) → Run D E B
  continue (ok a) f d = f a d
  continue (err e) f d = (err e, d)
  continue panic f d = (panic, d)

  infixl 5 ◌>>=◌
  abbrev pub ◌>>=◌ : Run D E A → (A → Run D E B) → Run D E B
  ◌>>=◌ m f d = continue (m d).0 f (m d).1

infixl 5 ◌>>◌
abbrev pub ◌>>◌ : {D E B : Type 0} → Run D E (Unit {0}) → Run D E B → Run D E B
m >> k = m >>= λ _. k

-- `DatabaseSchema`, and `schema_hash` of the registry.
pub record DatabaseSchema (P R V F E : Type 0) : Type 0 where
  pub compiled_hash : ℕ
  pub schema_hash : R → ℕ
  pub select : Name → Filter V F → Run (Database P R V F) E (List (Row V))
  pub validate_insert : Name → Row V → Run (Database P R V F) E (Unit {0})
  pub insert : Name → Row V → Run (Database P R V F) E (Unit {0})
  pub delete : Name → DeleteBehavior → Filter V F → Run (Database P R V F) E ℕ
  pub update : Name → Row V → Filter V F → Run (Database P R V F) E ℕ
