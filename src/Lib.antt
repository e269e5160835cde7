-- ===== src/Lib.antt =====
-- wasm-dbms: a relational database engine over the paged memory of a WebAssembly module.
--
-- The engine keeps tables in pages of a memory provider. The memory manager grows the memory by
-- pages and reads and writes encoded values in them; the trait MemoryAccess is its interface, with
-- page reuse through a ledger of released pages. A transaction writes through a journal, which keeps
-- the bytes that were there, and a failed transaction is undone from it. Until its commit a
-- transaction keeps its operations in an overlay, through which its queries read. Each table records
-- its pages and the segments that deleted records leave free. Queries filter rows, with LIKE patterns
-- among the tests.
--
-- The files, and the code that they model (crates/wasm-dbms/ is left out of the paths):
--   Prelude      Boolean tests, lists, slices and splices of memory, little-endian bytes, results.
--   Encode       wasm-dbms-api/src/memory.rs, memory/error.rs, memory/encode.rs.
--   Value        wasm-dbms-api/src/dbms/value.rs; Stored is types/boolean.rs and types/blob.rs.
--   Memory       wasm-dbms-memory/src: Provider is provider.rs, Access is memory_access.rs, Manager is
--                memory_manager.rs, Unclaimed is unclaimed_pages.rs. Manager/Effects says what each
--                write changes, Manager/Reads what a read returns.
--   Journal      wasm-dbms/src/transaction/journal.rs; Undo, Rollback and Overrun are its
--                theorems.
--   Segments     wasm-dbms-memory/src/table_registry/free_segments_ledger: Table is free_segment.rs and
--                free_segments_table.rs, Ledger is free_segments_ledger.rs with
--                pages_table.rs and tables_iter.rs; Space, Merge and Accounting count the bytes that are free,
--                Stored puts a table in the pages of the memory manager.
--   Query        wasm-dbms-api/src/dbms/query/filter: Like is like.rs, with Spec the meaning of a
--                pattern; Filter is filter.rs, with Filter/Validate its validation; Statement is query.rs
--                and query/join.rs.
--   Migration    wasm-dbms/src/database/migration: Plan is plan.rs, with the operations of
--                wasm-dbms-api/src/dbms/migration.rs; Widen is widen.rs, Codec and Wire are
--                codec.rs, with the integers of wasm-dbms-api/src/dbms/types/integers.rs.
--   Transaction  wasm-dbms/src/transaction: Overlay/Index, Overlay/Table and Overlay/Staging are
--                overlay.rs and overlay/; Session is session.rs, Operations is
--                wasm-dbms/src/transaction.rs. Table/Merge and Table/Read are the overlay's meaning as
--                operations on a table.
--   Engine       wasm-dbms/src/database.rs and context.rs: Commit is commit, rollback and atomic,
--                Drift the drift check; Journaled and Undone are the theorems on a failed commit.
--   Registry     wasm-dbms-memory/src/table_registry: Sized is sized_read.rs, Pages is page_ledger.rs
--                and page_ledger/page_table.rs, Record is raw_record.rs, record_address.rs and
--                write_at.rs, Autoincrement is autoincrement_ledger.rs and its registry.rs.
--   Join         wasm-dbms/src/join.rs: Run is the query, Nested the hash join against nested loops.
--   Access       wasm-dbms/src/database/access_planner.rs and the scans of index_reader.rs: Constraint
--                and Collect are what a conjunction says of each column, Candidate and Plan the paths.
--   Index        wasm-dbms-memory/src/table_registry/index_ledger: Node, Split and Tree are index_tree.rs,
--                View is index_tree/node_view.rs, and Tree/Search has the cursor of
--                index_tree/walker.rs.
--   Examples     concrete inputs.
--
-- A method that mutates its object takes the state and returns it beside its result, also beside an
-- error; `panic` is a Rust panic. A provider is a record of operations over any state, with the laws
-- of IsProvider for the bytes that the state stands for; the heap provider meets them. The memory
-- manager fills the interface MemoryAccess, over which the free segments are modelled. Numbers are
-- natural numbers: a cast to a narrower type is written as a remainder, and a saturating operation
-- with `min` or a subtraction that stops at 0. A text is the list of its code points. The
-- comparison of values and the JSON filters are an interface of the filters. The stable sort of a
-- slice is an insertion sort.
--
-- Fuel: the scan of a LIKE pattern has one more than (input + 1) * (tokens + 1) + tokens rounds; an
-- insertion of a free segment takes one more than the segments of the table, since each merge
-- removes one first; reading a value of unknown length takes at most one turn more than the page has
-- bytes, since each turn reads into a longer buffer; the binary search of a node takes at most one turn
-- more than the node has entries; planning a filter takes as much as it has predicates and
-- connectives. All are shown to be enough. The
-- fuel of the tree's methods bounds its depth and the chain of its leaves, and running out of it is
-- shown as a panic.
--
-- The operations on a table's rows that a commit calls are dispatched by code that the build
-- generates, so they are an interface, DatabaseSchema, and what lies behind it in
-- wasm-dbms/src/database.rs is not modelled. That these operations write through the journal alone is a
-- hypothesis on the operations of the one commit, where they are run; they may fail and may panic.
-- The rows that the overlay's reader takes from a table are a list, so an error in reading one of them
-- is not modelled. The view of an index through a transaction's overlay is the merge that
-- docs/technical/architecture.md describes.
--
-- Not modelled: the Encode implementations of the values other than integers, booleans and blobs; the
-- run-time codec of migrations has the implementations of all types but integers as a parameter, and
-- those of booleans and blobs are shown to meet what it asks; the encoding of the autoincrement registry and its initial values
-- from a schema; the table registry and its readers, the ledger of a table's indexes, the schema registry, the range
-- queries of the index overlay, the filter analyzer and the index reader's cursor, the operations on
-- rows of the database engine, aggregates, the
-- diff and the application of migrations, JSON filters and SQL.
-- Procedural macros, benchmarks, examples and the component interfaces are left out, since they are
-- not part of the engine.
pub mod Prelude
pub mod Encode
pub mod Value
pub mod Memory
pub mod Journal
pub mod Segments
pub mod Query
pub mod Migration
pub mod Transaction
pub mod Join
pub mod Access
pub mod Engine
pub mod Registry
pub mod Index
pub mod Examples
