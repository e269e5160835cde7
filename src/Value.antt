-- ===== src/Value.antt =====
-- wasm-dbms-api/src/dbms/value.rs: the values of columns. The integers and null stand for themselves;
-- any other value is one of `V`.
pub mod Stored
use wasm_dbms.Prelude.{ℕ}

pub data ℤ : Type 0 where
  pos : ℕ → ℤ
  negsuc : ℕ → ℤ

pub data Value (V : Type 0) : Type 0 where
  int8 : ℤ → Value V
  int16 : ℤ → Value V
  int32 : ℤ → Value V
  int64 : ℤ → Value V
  uint8 : ℕ → Value V
  uint16 : ℕ → Value V
  uint32 : ℕ → Value V
  uint64 : ℕ → Value V
  null : Value V
  other : V → Value V
