-- ===== src/Query/Like/Spec.antt =====
-- What a LIKE pattern means: '%' is any part of the input, '_' any one character.
use wasm_dbms.Prelude.{ℕ, List, [], ◌∷◌, Bool, true, false, ◌||◌, Option, none, some}
use wasm_dbms.Query.Like.{PatternToken, literal, wildcard_single, wildcard_multi, strip_prefix}

-- `p` holds of the input or of what is left of it behind some of its characters.
abbrev pub any_suffix : (List ℕ → Bool) → List ℕ → Bool
any_suffix p [] = p []
any_suffix p (c ∷ s) = p (c ∷ s) || any_suffix p s

abbrev pub is_end : List ℕ → Bool
is_end [] = true
is_end (c ∷ s) = false

abbrev pub after_one : (List ℕ → Bool) → List ℕ → Bool
after_one p [] = false
after_one p (c ∷ s) = p s

abbrev pub after_prefix : (List ℕ → Bool) → Option (List ℕ) → Bool
after_prefix p none = false
after_prefix p (some rest) = p rest

unfoldable pub like : List PatternToken → List ℕ → Bool
like [] input = is_end input
like (literal lit ∷ tokens) input = after_prefix (like tokens) (strip_prefix lit input)
like (wildcard_single ∷ tokens) input = after_one (like tokens) input
like (wildcard_multi ∷ tokens) input = any_suffix (like tokens) input
