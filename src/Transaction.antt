-- ===== src/Transaction.antt =====
-- crates/wasm-dbms/wasm-dbms/src/transaction: what a transaction has changed and not committed.
pub mod Overlay
pub mod Operations
pub mod Session
