-- ===== src/Segments.antt =====
-- crates/wasm-dbms/wasm-dbms-memory/src/table_registry/free_segments_ledger: the free segments of a
-- table's pages, and the ledger that keeps them.
pub mod Table
pub mod Space
pub mod Merge
pub mod Accounting
pub mod Stored
pub mod Ledger
