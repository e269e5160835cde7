-- ===== src/Memory.antt =====
-- crates/wasm-dbms/wasm-dbms-memory/src: pages on a memory provider.
pub mod Exec
pub mod Provider
pub mod Access
pub mod Manager
pub mod Unclaimed
