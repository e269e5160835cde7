-- ===== src/Query.antt =====
-- crates/wasm-dbms/wasm-dbms-api/src/dbms/query: what queries ask of rows.
pub mod Like
pub mod Filter
pub mod Statement
