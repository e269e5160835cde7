-- ===== src/Registry/Autoincrement.antt =====
-- table_registry/autoincrement_ledger.rs and autoincrement_ledger/registry.rs: the last value handed out
-- for each autoincrement column. The encoding of the registry is a parameter.
pub mod Counts
pub mod Names
use wasm_dbms.Prelude.{
  ℕ, zero, suc, ◌+◌, List, [], ◌∷◌, Bool, true, false, Option, none, some, String, ltb,
  if◌then◌else◌, length,
}
use wasm_dbms.Prelude.Names.{Name, name_eq}
use wasm_dbms.Prelude.Result
use wasm_dbms.Prelude.Result.{Result, ok, err, panic}
use wasm_dbms.Encode.{Page, Encode, MemoryResult, autoincrement_overflow, constraint_violation}
use wasm_dbms.Value.{
  Value, ℤ, pos, negsuc, int8, int16, int32, int64, uint8, uint16, uint32, uint64, null, other,
}
use wasm_dbms.Memory.Exec.{Exec, pure, raise, lift, ◌>>=◌, ◌>>◌}
use wasm_dbms.Memory.Access.{MemoryAccess}

-- `checked_add(1)` of an integer of which `max` is the largest.
abbrev pub checked_succ : ℕ → ℕ → Option ℕ
checked_succ max n = if ltb n max then some (n + 1) else none

abbrev pub checked_succ_signed : ℕ → ℤ → Option ℤ
checked_succ_signed max (pos n) = if ltb n max then some (pos (n + 1)) else none
checked_succ_signed max (negsuc zero) = some (pos 0)
checked_succ_signed max (negsuc (suc n)) = some (negsuc n)

abbrev pub ok_or_overflow {ℓ} : {A B : Type ℓ} → String → (A → B) → Option A → MemoryResult B
ok_or_overflow type_name f none = err (autoincrement_overflow type_name)
ok_or_overflow type_name f (some a) = ok (f a)

abbrev pub max_one_byte_len : ℕ
max_one_byte_len = 255

-- Whether the names fit their one-byte lengths, with the length of a name in bytes and the messages.
module _ (byte_len : Name → ℕ) (too_long : Name → String) (too_many : ℕ → String) where
  abbrev pub check_names : List Name → ℕ → MemoryResult ℕ
  check_names [] count = ok count
  check_names (column ∷ columns) count =
      let rest = check_names columns (count + 1) in
      if ltb max_one_byte_len (byte_len column)
      then err (constraint_violation (too_long column))
      else rest

  unfoldable pub validate_columns : List Name → MemoryResult (Unit {0})
  validate_columns columns = Result.◌>>=◌ (check_names columns 0) λ count.
      if ltb max_one_byte_len count then err (constraint_violation (too_many count)) else ok tt

abbrev pub AutoincrementRegistry : Type 0 → Type 0
AutoincrementRegistry V = List (Name × Value V)

module _ {V : Type 0} where
  unfoldable pub next_value : Value V → MemoryResult (Value V)
  next_value (int8 n) = ok_or_overflow "Int8" int8 (checked_succ_signed 127 n)
  next_value (int16 n) = ok_or_overflow "Int16" int16 (checked_succ_signed 32767 n)
  next_value (int32 n) = ok_or_overflow "Int32" int32 (checked_succ_signed 2147483647 n)
  next_value (int64 n) = ok_or_overflow "Int64" int64 (checked_succ_signed 9223372036854775807 n)
  next_value (uint8 n) = ok_or_overflow "Uint8" uint8 (checked_succ 255 n)
  next_value (uint16 n) = ok_or_overflow "Uint16" uint16 (checked_succ 65535 n)
  next_value (uint32 n) = ok_or_overflow "Uint32" uint32 (checked_succ 4294967295 n)
  next_value (uint64 n) = ok_or_overflow "Uint64" uint64 (checked_succ 18446744073709551615 n)
  next_value null = panic
  next_value (other v) = panic

  abbrev pub get : Name → AutoincrementRegistry V → Option (Value V)
  get column [] = none
  get column ((c, v) ∷ r) = if name_eq c column then some v else get column r

  -- `HashMap::insert`
  abbrev pub put : Name → Value V → AutoincrementRegistry V → AutoincrementRegistry V
  put column value [] = (column, value) ∷ []
  put column value ((c, v) ∷ r) =
      if name_eq c column then (c, value) ∷ r else (c, v) ∷ put column value r

  unfoldable pub init : Name → Value V → AutoincrementRegistry V → AutoincrementRegistry V
  init column zero_value r = put column zero_value r

  -- The next value and the registry with it; of a column that it does not have, a panic.
  unfoldable pub next :
      Name → AutoincrementRegistry V → MemoryResult (Value V × AutoincrementRegistry V)
  unfolding next_value
  next column r = elim (get column r) [
    | none ↦ panic
    | some current ↦ Result.◌>>=◌ (next_value current) λ value. ok (value, put column value r)
  ]

pub record AutoincrementLedger (V : Type 0) : Type 0 where
  pub page : Page
  pub registry : AutoincrementRegistry V

module _ {V S : Type 0} (mm : MemoryAccess S) (e : Encode (AutoincrementRegistry V)) where
  unfoldable pub load : Page → Exec S (AutoincrementLedger V)
  load page = mm.read_at (AutoincrementRegistry V) e page 0 >>= λ r.
      pure (record { page = page; registry = r })

  unfoldable pub ledger_next : Name → Exec (AutoincrementLedger V × S) (Value V)
  unfolding next
  ledger_next column (l, s) = elim (next column l.registry) [
    | ok (value, r) ↦
        let (written, s') = mm.write_at (AutoincrementRegistry V) e l.page 0 r s in
        (Result.◌>>=◌ written λ _. ok value, (record l { registry = r }, s'))
    | err x ↦ (err x, (l, s))
    | panic ↦ (panic, (l, s))
  ]
