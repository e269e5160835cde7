-- ===== src/Registry.antt =====
-- crates/wasm-dbms/wasm-dbms-memory/src/table_registry: the pages and the records of a table.
pub mod Sized
pub mod Pages
pub mod Record
pub mod Autoincrement
