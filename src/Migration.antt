-- ===== src/Migration.antt =====
-- crates/wasm-dbms/wasm-dbms/src/database/migration: the migrations of a schema.
pub mod Plan
pub mod Widen
pub mod Wire
pub mod Codec
