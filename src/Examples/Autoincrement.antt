-- ===== src/Examples/Autoincrement.antt =====
-- A table with two autoincrement columns.
use wasm_dbms.Prelude.{List, ◌≡◌, refl, some, ℕ, [], ◌∷◌, if◌then◌else◌, arith, false}
use wasm_dbms.Prelude.Result.{ok, err}
use wasm_dbms.Prelude.Names.{Name}
use wasm_dbms.Encode.{autoincrement_overflow}
use wasm_dbms.Registry.Autoincrement.{AutoincrementRegistry, init, get, put, next}
use wasm_dbms.Value.{uint8}
use wasm_dbms.Registry.Autoincrement.Counts.{unsigned8, nexts, nexts_lem}

abbrev id : Name
id = 105 ∷ 100 ∷ []

abbrev order : Name
order = 111 ∷ []

abbrev fresh : AutoincrementRegistry ℕ
fresh = (order, uint8 9) ∷ (id, uint8 0) ∷ []

nexts_lem_example :
    (r' : AutoincrementRegistry ℕ) × (nexts 255 id fresh ≡ ok r')
    × (get id r' ≡ some (uint8 255))
    × (get order r' ≡ get order fresh)
    × (next id r' ≡ (
        if false
        then ok (uint8 256, put id (uint8 256) r')
        else err (autoincrement_overflow "Uint8")))
nexts_lem_example = nexts_lem unsigned8 255 id order fresh refl refl (omega arith)

init_test : init id (uint8 0) ((order, uint8 9) ∷ []) ≡ fresh
unfolding init
init_test = refl

abbrev columns : List Name
columns = id ∷ order ∷ []
