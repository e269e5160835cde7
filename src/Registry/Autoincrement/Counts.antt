-- ===== src/Registry/Autoincrement/Counts.antt =====
-- An autoincrement column counts up from zero, and stops at its type's largest value.
use wasm_dbms.Prelude.{ℕ, zero, suc, ◌+◌, ◌≤◌, ◌<◌, ◌≡◌, refl, ap, ◌∙◌, arith, [], ◌∷◌, false, some}
use wasm_dbms.Prelude.{String, ltb, lt→ltb, ltb→lt, ltb→le, if◌then◌else◌, Bool-cases, inl, inr}
use wasm_dbms.Prelude.Names.{Name, name_eq, name_eq_lem, name_eq_refl}
use wasm_dbms.Prelude.Result.{ok, err}
use wasm_dbms.Prelude.Result
use wasm_dbms.Encode.{MemoryResult, autoincrement_overflow}
use wasm_dbms.Registry.Autoincrement.{
  Value, pos, int8, int16, int32, int64, uint8, uint16, uint32, uint64, next_value,
}
use wasm_dbms.Registry.Autoincrement.{AutoincrementRegistry, get, put, next}

-- The types of autoincrement columns.
pub data Kind : Type 0 where
  signed8 : Kind
  signed16 : Kind
  signed32 : Kind
  signed64 : Kind
  unsigned8 : Kind
  unsigned16 : Kind
  unsigned32 : Kind
  unsigned64 : Kind

abbrev pub largest : Kind → ℕ
largest signed8 = 127
largest signed16 = 32767
largest signed32 = 2147483647
largest signed64 = 9223372036854775807
largest unsigned8 = 255
largest unsigned16 = 65535
largest unsigned32 = 4294967295
largest unsigned64 = 18446744073709551615

abbrev pub type_name : Kind → String
type_name signed8 = "Int8"
type_name signed16 = "Int16"
type_name signed32 = "Int32"
type_name signed64 = "Int64"
type_name unsigned8 = "Uint8"
type_name unsigned16 = "Uint16"
type_name unsigned32 = "Uint32"
type_name unsigned64 = "Uint64"

module _ {V : Type 0} where
  abbrev pub number : Kind → ℕ → Value V
  number signed8 n = int8 (pos n)
  number signed16 n = int16 (pos n)
  number signed32 n = int32 (pos n)
  number signed64 n = int64 (pos n)
  number unsigned8 n = uint8 n
  number unsigned16 n = uint16 n
  number unsigned32 n = uint32 n
  number unsigned64 n = uint64 n

  next_value-lt :
      (k : Kind) (n : ℕ) → n < largest k → next_value (number k n) ≡ ok (number k (n + 1))
  unfolding next_value
  next_value-lt signed8 n h = rw (lt→ltb n 127 h) refl
  next_value-lt signed16 n h = rw (lt→ltb n 32767 h) refl
  next_value-lt signed32 n h = rw (lt→ltb n 2147483647 h) refl
  next_value-lt signed64 n h = rw (lt→ltb n 9223372036854775807 h) refl
  next_value-lt unsigned8 n h = rw (lt→ltb n 255 h) refl
  next_value-lt unsigned16 n h = rw (lt→ltb n 65535 h) refl
  next_value-lt unsigned32 n h = rw (lt→ltb n 4294967295 h) refl
  next_value-lt unsigned64 n h = rw (lt→ltb n 18446744073709551615 h) refl

  next_value-largest :
      (k : Kind) → next_value (number k (largest k)) ≡ err (autoincrement_overflow (type_name k))
  unfolding next_value
  next_value-largest signed8 = refl
  next_value-largest signed16 = refl
  next_value-largest signed32 = refl
  next_value-largest signed64 = refl
  next_value-largest unsigned8 = refl
  next_value-largest unsigned16 = refl
  next_value-largest unsigned32 = refl
  next_value-largest unsigned64 = refl

  get-put :
      (column : Name) (v : Value V) (r : AutoincrementRegistry V)
      → get column (put column v r) ≡ some v
  get-put column v [] = rw (name_eq_refl column) refl
  get-put column v ((c, w) ∷ r) = elim (Bool-cases (name_eq c column)) [
    | inl t ↦ rw (t, t) refl
    | inr t ↦ rw (t, t) (get-put column v r)
  ]

  get-put_ne :
      (column d : Name) (v : Value V) (r : AutoincrementRegistry V)
      → name_eq column d ≡ false
      → get d (put column v r) ≡ get d r
  get-put_ne column d v [] h = rw h refl
  get-put_ne column d v ((c, w) ∷ r) h = elim (Bool-cases (name_eq c column)) [
    | inl t ↦ rw (t, name_eq_lem c column t, h) refl
    | inr t ↦ rw t (ap (λ x. if name_eq c d then some w else x) (get-put_ne column d v r h))
  ]

  -- The registry after `n` calls of `next`, when none fails.
  unfoldable pub nexts : ℕ → Name → AutoincrementRegistry V → MemoryResult (AutoincrementRegistry V)
  unfolding next
  nexts zero column r = ok r
  nexts (suc n) column r = Result.◌>>=◌ (next column r) λ vr. nexts n column vr.1

  next-lt :
      (k : Kind) (m : ℕ) (column : Name) (r : AutoincrementRegistry V)
      → get column r ≡ some (number k m)
      → m < largest k
      → next column r ≡ ok (number k (m + 1), put column (number k (m + 1)) r)
  unfolding next
  next-lt k m column r h less = rw (h, next_value-lt k m less, next) refl

  next-largest :
      (k : Kind) (column : Name) (r : AutoincrementRegistry V)
      → get column r ≡ some (number k (largest k))
      → next column r ≡ err (autoincrement_overflow (type_name k))
  unfolding next
  next-largest k column r h = rw (h, next_value-largest k, next) refl

  nexts_step :
      (n : ℕ) (column : Name) (v : Value V) (r r1 : AutoincrementRegistry V)
      → next column r ≡ ok (v, r1)
      → nexts (suc n) column r ≡ nexts n column r1
  unfolding nexts
  nexts_step n column v r r1 h = rw h refl

  nexts_from :
      (k : Kind) (n m : ℕ) (column other : Name) (r : AutoincrementRegistry V)
      → get column r ≡ some (number k m)
      → name_eq column other ≡ false
      → m + n ≤ largest k
      → (r' : AutoincrementRegistry V) × (nexts n column r ≡ ok r')
        × (get column r' ≡ some (number k (m + n)))
        × (get other r' ≡ get other r)
  unfolding nexts
  nexts_from k zero m column other r h ne le =
      (r, refl, h ∙ ap (λ (i : ℕ). some (number k i)) (omega arith), refl)
  nexts_from k (suc n) m column other r h ne le =
      let r1 = put column (number k (m + 1)) r in
      let (r', ran, there, same) =
        nexts_from k n (m + 1) column other r1 (get-put column (number k (m + 1)) r) ne
          (omega arith) in
      (
        r',
        nexts_step n column (number k (m + 1)) r r1 (next-lt k m column r h (omega arith)) ∙ ran,
        there ∙ ap (λ (i : ℕ). some (number k i)) (omega arith),
        same ∙ get-put_ne column other (number k (m + 1)) r ne,
      )

  next_cases :
      (k : Kind) (n : ℕ) (column : Name) (r : AutoincrementRegistry V)
      → get column r ≡ some (number k n)
      → n ≤ largest k
      → next column r ≡ (
          if ltb n (largest k)
          then ok (number k (n + 1), put column (number k (n + 1)) r)
          else err (autoincrement_overflow (type_name k)))
  next_cases k n column r h le = elim (Bool-cases (ltb n (largest k))) [
    | inl less ↦ rw less (next-lt k n column r h (ltb→lt n (largest k) less))
    | inr full ↦
        let top : n ≡ largest k = omega (arith, ltb→le n (largest k) full) in
        rw full (next-largest k column r (h ∙ ap (λ i. some (number k i)) top))
  ]

  -- From a column initialized with zero, `n` calls give the column the value `n`, up to the largest of
  -- its type, and leave any other column; the call after the largest value is refused.
  pub nexts_lem :
      (k : Kind) (n : ℕ) (column other : Name) (r : AutoincrementRegistry V)
      → get column r ≡ some (number k 0)
      → name_eq column other ≡ false
      → n ≤ largest k
      → (r' : AutoincrementRegistry V) × (nexts n column r ≡ ok r')
        × (get column r' ≡ some (number k n))
        × (get other r' ≡ get other r)
        × (next column r' ≡ (
            if ltb n (largest k)
            then ok (number k (n + 1), put column (number k (n + 1)) r')
            else err (autoincrement_overflow (type_name k))))
  nexts_lem k n column other r h ne le =
      let (r', ran, there, same) = nexts_from k n 0 column other r h ne (omega arith) in
      let there' : get column r' ≡ some (number k n) =
        there ∙ ap (λ (i : ℕ). some (number k i)) (omega arith) in
      (r', ran, there', same, next_cases k n column r' there' le)
