-- ===== src/Registry/Autoincrement/Names.antt =====
-- Which lists of autoincrement columns the registry accepts.
use wasm_dbms.Prelude.{
  ℕ, ◌+◌, ◌≤◌, ◌≡◌, ◌⊎◌, refl, ap, ◌∙◌, if◌then◌else◌, arith, List, [], ◌∷◌, String, ltb, ltb→lt,
  ltb→le, Bool-cases, inl, inr, All, length,
}
use wasm_dbms.Prelude.Names.{Name}
use wasm_dbms.Prelude.Result.{ok, err}
use wasm_dbms.Encode.{constraint_violation}
use wasm_dbms.Registry.Autoincrement.{check_names, validate_columns}

module _ (byte_len : Name → ℕ) (too_long : Name → String) (too_many : ℕ → String) where
  -- The names and their number fit their one-byte lengths.
  unfoldable pub Fits : List Name → Type 0
  Fits columns = All (λ c. byte_len c ≤ 255) columns × (length columns ≤ 255)

  check_names_cases :
      (columns : List Name) (count : ℕ)
      → ((check_names byte_len too_long too_many columns count ≡ ok (count + length columns))
          × All (λ c. byte_len c ≤ 255) columns)
        ⊎ ((message : String) × (check_names byte_len too_long too_many columns count
              ≡ err (constraint_violation message))
            × ¬ (All (λ c. byte_len c ≤ 255) columns))
  check_names_cases [] count = inl (ap ok (omega arith), tt)
  check_names_cases (c ∷ columns) count = elim (Bool-cases (ltb 255 (byte_len c))) [
    | inl long ↦
        inr (too_long c, rw long refl, λ h. omega (arith, ltb→lt 255 (byte_len c) long, h.0))
    | inr short ↦ elim (check_names_cases columns (count + 1)) [
      | inl (ran, hs) ↦
          inl (rw (short, ran) (ap ok (omega arith)), (ltb→le 255 (byte_len c) short, hs))
      | inr (message, ran, bad) ↦ inr (message, rw (short, ran) refl, λ h. bad h.1)
    ]
  ]

  validate_columns-counted :
      (columns : List Name) (n : ℕ)
      → check_names byte_len too_long too_many columns 0 ≡ ok n
      → validate_columns byte_len too_long too_many columns
        ≡ (if ltb 255 n then err (constraint_violation (too_many n)) else ok tt)
  unfolding validate_columns
  validate_columns-counted columns n ran = rw ran refl

  -- The columns are accepted when each name is at most 255 bytes long and there are at most 255 of
  -- them, and else refused as a violated constraint.
  pub validate_columns_cases :
      (columns : List Name)
      → ((validate_columns byte_len too_long too_many columns ≡ ok tt) × Fits columns)
        ⊎ ((message : String) × (validate_columns byte_len too_long too_many columns
              ≡ err (constraint_violation message))
            × ¬ (Fits columns))
  unfolding validate_columns Fits
  validate_columns_cases columns = elim (check_names_cases columns 0) [
    | inr (message, ran, bad) ↦ inr (message, rw ran refl, λ h. bad h.0)
    | inl (ran, hs) ↦
        let counted : check_names byte_len too_long too_many columns 0 ≡ ok (length columns) =
          ran ∙ ap ok (omega arith) in
        elim (Bool-cases (ltb 255 (length columns))) [
          | inl many ↦ inr (
            too_many (length columns),
            validate_columns-counted columns (length columns) counted ∙ rw many refl,
            λ h. omega (arith, ltb→lt 255 (length columns) many, h.1),
          )
          | inr few ↦ inl (
            validate_columns-counted columns (length columns) counted ∙ rw few refl,
            (hs, ltb→le 255 (length columns) few),
          )
        ]
  ]
