-- ===== src/Examples/Migration.antt =====
-- A plan of three operations; schemas and the rest are numbers here.
use wasm_dbms.Prelude.{ℕ, ◌≡◌, List, [], ◌∷◌, true, false, none, some, ◌⊎◌, ◌&&◌, refl}
use wasm_dbms.Value.{Value, uint16, int32, pos, null, other}
use wasm_dbms.Migration.Widen.{
  widen_value, uint16_type, int32_type, float32_type, float64_type, widening_incompatible,
}
use wasm_dbms.Migration.Widen.Ranges.{integer, is_of, wider, widen_value_cases}
use wasm_dbms.Prelude.Result.{ok, err}
use wasm_dbms.Migration.Plan.{MigrationOp, MigrationPolicy, order_ops}
use wasm_dbms.Migration.Plan.Kinds.{by_kind, apply_order, order_ops-by_kind}

abbrev relax : MigrationOp ℕ ℕ ℕ ℕ ℕ
relax = MigrationOp.alter_column "t" "c" (record {
  nullable = some true;
  unique = none;
  auto_increment = none;
  primary_key = none;
  foreign_key = none;
})

abbrev ops : List (MigrationOp ℕ ℕ ℕ ℕ ℕ)
ops = MigrationOp.drop_table "t" ∷ relax ∷ MigrationOp.create_table "u" 1 ∷ []

abbrev strict : MigrationPolicy
strict = record { allow_destructive = false }

order_ops-by_kind_example : order_ops ops ≡ by_kind apply_order ops
order_ops-by_kind_example = order_ops-by_kind ops

abbrev forty_thousand : Value ℕ
forty_thousand = uint16 40000

widen_value_cases_example :
    ((forty_thousand ≡ null)
      × (widen_value {C = ℕ} "t" "c" uint16_type int32_type forty_thousand ≡ ok null))
    ⊎ (((w : Value ℕ) × (widen_value {C = ℕ} "t" "c" uint16_type int32_type forty_thousand ≡ ok w)
          × (integer w ≡ integer forty_thousand)
          × (is_of {C = ℕ} int32_type w ≡ true)
          × ((is_of {C = ℕ} uint16_type forty_thousand && wider {C = ℕ} uint16_type int32_type)
              ≡ true))
        ⊎ ((widen_value {C = ℕ} "t" "c" uint16_type int32_type forty_thousand
              ≡ err (widening_incompatible "t" "c" uint16_type int32_type))
            × ((is_of {C = ℕ} uint16_type forty_thousand && wider {C = ℕ} uint16_type int32_type)
                ≡ false)))
widen_value_cases_example = widen_value_cases {C = ℕ} "t" "c" uint16_type int32_type forty_thousand

widen_value_test :
    widen_value {C = ℕ} "t" "c" uint16_type int32_type forty_thousand ≡ ok (int32 (pos 40000))
unfolding widen_value
widen_value_test = refl

widen_value_float_test :
    widen_value {V = ℕ} {C = ℕ} "t" "c" float32_type float64_type (other 1)
    ≡ err (widening_incompatible "t" "c" float32_type float64_type)
unfolding widen_value
widen_value_float_test = refl
