-- ===== src/Index.antt =====
-- table_registry/index_ledger: the B+ tree of an index, on pages of its own.
pub mod Key
pub mod Node
pub mod Split
pub mod View
pub mod Tree
