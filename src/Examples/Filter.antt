-- ===== src/Examples/Filter.antt =====
-- A filter on a row of two columns.
use wasm_dbms.Prelude.{false, ℕ, [], ◌∷◌, ◌≡◌, refl, true, inl, inr, ltb, leb, ◌==◌}
use wasm_dbms.Query.Filter.{Values, Filter, Row, DataTypeKind, Variant, find_column}
use wasm_dbms.Query.Filter.{matches, matches_joined_row_ref}
use wasm_dbms.Query.Filter.OneTable.{matches_joined_row_ref-matches}
use wasm_dbms.Query.Like.{parse}
use wasm_dbms.Query.Filter.Validate.{validate_joined}
use wasm_dbms.Query.Filter.Validate.Sound.{Answers, matches_joined_row_ref-validate_joined}

-- Numbers as values; the number 0 is null, any other is a text of one character.
abbrev pub numbers : Values ℕ ℕ ℕ ℕ
numbers = record {
  variant = λ v. elim (v == 0) [ true ↦ Variant.null | _ ↦ Variant.text (v ∷ []) ];
  eq = λ a b. a == b;
  gt = λ a b. ltb b a;
  lt = ltb;
  ge = λ a b. leb b a;
  le = leb;
  json_matches = λ f j. inl 0;
  json_validate = λ f. inr tt;
}

abbrev row : Row numbers
row =
    (
      record {
        name = b'a' ∷ [];
        data_type = DataTypeKind.text;
        primary_key = true;
        unique = true;
        nullable = false;
      },
      3,
    )
    ∷ (
      record {
        name = b'b' ∷ [];
        data_type = DataTypeKind.text;
        primary_key = false;
        unique = false;
        nullable = false;
      },
      0,
    )
    ∷ []

abbrev filter : Filter ℕ ℕ
filter = Filter.or (Filter.like (b'a' ∷ []) (b'_' ∷ [])) (Filter.not (Filter.not_null (b'b' ∷ [])))

matches_joined_row_ref-matches_example :
    matches_joined_row_ref numbers filter ((b't' ∷ [], row) ∷ []) ≡ matches numbers filter row
unfolding find_column
matches_joined_row_ref-matches_example =
    matches_joined_row_ref-matches numbers filter (b't' ∷ []) row (refl, (refl, tt)) (refl, refl)

matches_joined_row_ref-validate_joined_example :
    Answers (matches_joined_row_ref numbers filter ((b't' ∷ [], row) ∷ []))
unfolding validate_joined parse
matches_joined_row_ref-validate_joined_example =
    matches_joined_row_ref-validate_joined numbers filter ((b't' ∷ [], row) ∷ [])
      ((refl, (refl, tt)), tt) refl
