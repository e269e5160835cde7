-- ===== src/Query/Filter/Validate/Sound.antt =====
-- A filter that has been validated can fail on fitting rows only in a JSON filter.
use wasm_dbms.Prelude.Names.{Name, is_some_and}
use wasm_dbms.Prelude.{◌≡◌, refl, Bool, true, false, Option, none, some, inl, inr, ◌⊎◌, List}
use mathlib.Core.Bool.{not as negate}
use wasm_dbms.Prelude.Result.{Result, ok, err, panic, ◌>>=◌}
use wasm_dbms.Query.Like
use wasm_dbms.Query.Like.{PatternToken}
use wasm_dbms.Query.Like.Spec.{like}
use wasm_dbms.Query.Like.Parsing.{matches-parse}
use wasm_dbms.Query.Filter.{ColumnDef, DataTypeKind, Values, Variant, FilterError, Filter, Groups}
use wasm_dbms.Query.Filter.{
  json_error, and_then, or_else, negated, test_column, matches_json, matches_like,
}
use wasm_dbms.Query.Filter.{like_column, json_answer, map_error, matches_joined_row_ref}
use wasm_dbms.Query.Filter.Validate.{resolves, check_json, check_like, validate_joined}
use wasm_dbms.Query.Filter.Validate.{resolve_joined_column_def}
use wasm_dbms.Query.Filter.Validate.Resolve.{
  schemas, GroupsFit, Related, Fits, resolve-Related, is_json_or_null, is_text_or_null,
}

>>=-ok :
    {E A B : Type 0} (m : Result E A) (f : A → Result E B) (b : B)
    → (m >>= f) ≡ ok b
    → (a : A) × (m ≡ ok a) × (f a ≡ ok b)
>>=-ok panic f b h = cc
>>=-ok (err e) f b h = cc
>>=-ok (ok x) f b h = (x, refl, h)

-- A truth value, or an error that a JSON filter has raised.
abbrev pub Answers {ℓ} : {E : Type 0} {A : Type ℓ} → Result (FilterError E) A → Type ℓ
Answers {E = E} {A = A} r = ((b : A) × (r ≡ ok b)) ⊎ ((e : E) × (r ≡ err (json_error e)))

Answers-and_then :
    {E : Type 0} (left right : Result (FilterError E) Bool)
    → Answers left
    → Answers right
    → Answers (and_then left right)
Answers-and_then left right (inr (e, h)) r = inr (e, rw h refl)
Answers-and_then left right (inl (true, h)) r = rw h r
Answers-and_then left right (inl (false, h)) r = inl (false, rw h refl)

Answers-or_else :
    {E : Type 0} (left right : Result (FilterError E) Bool)
    → Answers left
    → Answers right
    → Answers (or_else left right)
Answers-or_else left right (inr (e, h)) r = inr (e, rw h refl)
Answers-or_else left right (inl (false, h)) r = rw h r
Answers-or_else left right (inl (true, h)) r = inl (true, rw h refl)

Answers-negated :
    {E : Type 0} (inner : Result (FilterError E) Bool) → Answers inner → Answers (negated inner)
Answers-negated inner (inr (e, h)) = inr (e, rw h refl)
Answers-negated inner (inl (b, h)) = inl (negate b, rw h refl)

Answers-json_answer {ℓ} : {E : Type 0} {A : Type ℓ} (x : E ⊎ A) → Answers (json_answer x)
Answers-json_answer (inl e) = inr (e, refl)
Answers-json_answer (inr a) = inl (a, refl)

Answers-json_null : {E : Type 0} (x : E ⊎ Unit {0}) → Answers (json_answer x >>= λ _. ok false)
Answers-json_null (inl e) = inr (e, refl)
Answers-json_null (inr a) = inl (false, refl)

json_cases :
    {J : Type 0} (w : Variant J)
    → is_json_or_null w ≡ true
    → ((j : J) × (w ≡ Variant.json j)) ⊎ (w ≡ Variant.null)
json_cases (Variant.json j) h = inl (j, refl)
json_cases Variant.null h = inr refl
json_cases _ h = cc

text_cases :
    {J : Type 0} (w : Variant J)
    → is_text_or_null w ≡ true
    → ((s : Name) × (w ≡ Variant.text s)) ⊎ (w ≡ Variant.null)
text_cases (Variant.text s) h = inl (s, refl)
text_cases Variant.null h = inr refl
text_cases _ h = cc

kind_json :
    {E : Type 0} (field name : Name) (pk u n : Bool) (kind : DataTypeKind)
    → check_json {E = E} field (
        some (record { name = name; data_type = kind; primary_key = pk; unique = u; nullable = n }))
      ≡ ok tt
    → kind ≡ DataTypeKind.json
kind_json field name pk u n DataTypeKind.json h = refl
kind_json field name pk u n _ h = cc

check_json-kind :
    {E : Type 0} (field : Name) (c : ColumnDef)
    → check_json {E = E} field (some c) ≡ ok tt
    → c.data_type ≡ DataTypeKind.json
check_json-kind {E = E} field c h =
    kind_json {E = E} field c.name c.primary_key c.unique c.nullable c.data_type h

parsed :
    {D E A : Type 0} (f : D → E) (r : Result D A)
    → ◌≡◌ {A = Result E (Unit {0})} (map_error f r >>= λ _. ok tt) (ok tt)
    → (a : A) × (r ≡ ok a)
parsed f panic h = cc
parsed f (err e) h = cc
parsed f (ok a) h = (a, refl)

kind_text :
    {E : Type 0} (pattern name : Name) (pk u n : Bool) (kind : DataTypeKind)
    → check_like {E = E} pattern (
        some (record { name = name; data_type = kind; primary_key = pk; unique = u; nullable = n }))
      ≡ ok tt
    → (kind ≡ DataTypeKind.text) × ((tokens : List PatternToken) × (Like.parse pattern ≡ ok tokens))
kind_text pattern name pk u n DataTypeKind.text h = (refl, parsed _ (Like.parse pattern) h)
kind_text pattern name pk u n _ h = cc

check_like-kind :
    {E : Type 0} (pattern : Name) (c : ColumnDef)
    → check_like {E = E} pattern (some c) ≡ ok tt
    → (c.data_type ≡ DataTypeKind.text)
      × ((tokens : List PatternToken) × (Like.parse pattern ≡ ok tokens))
check_like-kind {E = E} pattern c h =
    kind_text {E = E} pattern c.name c.primary_key c.unique c.nullable c.data_type h

module _ {V J F E : Type 0} (values : Values V J F E) where
  test-Answers :
      (field : Name) (groups : Groups values) (test : V → Bool)
      → GroupsFit values groups
      → resolves {E = E} field (schemas values groups) ≡ ok tt
      → Answers (test_column values field groups test)
  unfolding resolves test_column
  test-Answers field groups test fits h =
      let (column, found, _) =
        >>=-ok (resolve_joined_column_def field (schemas values groups)) _ tt h in
      let (v, same, _) = resolve-Related values field groups column fits found in
      inl (is_some_and test v, rw same refl)

  json-Answers :
      (field : Name) (filter : F) (c : ColumnDef) (v : V)
      → Fits values c v
      → check_json {E = E} field (some c) ≡ ok tt
      → Answers (matches_json values field filter (some v))
  unfolding matches_json
  json-Answers field filter c v fit h =
      elim (json_cases (values.variant v) (rw (check_json-kind {E = E} field c h) at fit)) [
        | inl (j, e) ↦ rw (e, matches_json) (Answers-json_answer (values.json_matches filter j))
        | inr e ↦ rw (e, matches_json) (Answers-json_null (values.json_validate filter))
      ]

  like-Answers :
      (pattern : Name) (c : ColumnDef) (v : V)
      → Fits values c v
      → check_like {E = E} pattern (some c) ≡ ok tt
      → Answers (matches_like values pattern v)
  unfolding matches_like
  like-Answers pattern c v fit h =
      let (kind, (tokens, parses)) = check_like-kind {E = E} pattern c h in
      elim (text_cases (values.variant v) (rw kind at fit)) [
        | inl (s, e) ↦ inl (
          like tokens s,
          rw (e, parses, matches-parse pattern s tokens parses, matches_like) refl,
        )
        | inr e ↦ inl (false, rw (e, parses, matches_like) refl)
      ]

  json_optional :
      (field : Name) (filter : F) (column : Option ColumnDef) (v : Option V)
      → Related values column v
      → check_json {E = E} field column ≡ ok tt
      → Answers (matches_json values field filter v)
  json_optional field filter none v r h = cc
  json_optional field filter (some c) none r h = absurd r
  json_optional field filter (some c) (some v) r h = json-Answers field filter c v r h

  like_optional :
      (pattern : Name) (column : Option ColumnDef) (v : Option V)
      → Related values column v
      → check_like {E = E} pattern column ≡ ok tt
      → Answers (like_column values pattern v)
  like_optional pattern none none r h = inl (false, refl)
  like_optional pattern none (some v) r h = absurd r
  like_optional pattern (some c) none r h = absurd r
  like_optional pattern (some c) (some v) r h = like-Answers pattern c v r h

  -- In rows that fit their columns, a filter that `validate_joined` accepts answers with a truth
  -- value, or with an error that one of its JSON filters raises: with no other error, no panic.
  pub matches_joined_row_ref-validate_joined :
      (filter : Filter V F) (groups : Groups values)
      → GroupsFit values groups
      → validate_joined {E = E} filter (schemas values groups) ≡ ok tt
      → Answers (matches_joined_row_ref values filter groups)
  unfolding validate_joined matches_joined_row_ref
  matches_joined_row_ref-validate_joined (Filter.eq field value) groups fits h =
      test-Answers field groups _ fits h
  matches_joined_row_ref-validate_joined (Filter.ne field value) groups fits h =
      test-Answers field groups _ fits h
  matches_joined_row_ref-validate_joined (Filter.gt field value) groups fits h =
      test-Answers field groups _ fits h
  matches_joined_row_ref-validate_joined (Filter.lt field value) groups fits h =
      test-Answers field groups _ fits h
  matches_joined_row_ref-validate_joined (Filter.ge field value) groups fits h =
      test-Answers field groups _ fits h
  matches_joined_row_ref-validate_joined (Filter.le field value) groups fits h =
      test-Answers field groups _ fits h
  matches_joined_row_ref-validate_joined (Filter.in_list field list) groups fits h =
      test-Answers field groups _ fits h
  matches_joined_row_ref-validate_joined (Filter.not_null field) groups fits h =
      test-Answers field groups _ fits h
  matches_joined_row_ref-validate_joined (Filter.is_null field) groups fits h =
      test-Answers field groups _ fits h
  matches_joined_row_ref-validate_joined (Filter.json field filter) groups fits h =
      let (column, found, checked) =
        >>=-ok (resolve_joined_column_def field (schemas values groups)) (check_json field) tt h in
      let (v, same, r) = resolve-Related values field groups column fits found in
      rw same (json_optional field filter column v r checked)
  matches_joined_row_ref-validate_joined (Filter.like field pattern) groups fits h =
      let (column, found, checked) =
        >>=-ok (resolve_joined_column_def field (schemas values groups)) (check_like pattern) tt
          h in
      let (v, same, r) = resolve-Related values field groups column fits found in
      rw same (like_optional pattern column v r checked)
  matches_joined_row_ref-validate_joined (Filter.and left right) groups fits h =
      let (_, hl, hr) = >>=-ok (validate_joined left (schemas values groups)) _ tt h in
      Answers-and_then _ _ (matches_joined_row_ref-validate_joined left groups fits hl)
        (matches_joined_row_ref-validate_joined right groups fits hr)
  matches_joined_row_ref-validate_joined (Filter.or left right) groups fits h =
      let (_, hl, hr) = >>=-ok (validate_joined left (schemas values groups)) _ tt h in
      Answers-or_else _ _ (matches_joined_row_ref-validate_joined left groups fits hl)
        (matches_joined_row_ref-validate_joined right groups fits hr)
  matches_joined_row_ref-validate_joined (Filter.not inner) groups fits h =
      Answers-negated _ (matches_joined_row_ref-validate_joined inner groups fits h)
