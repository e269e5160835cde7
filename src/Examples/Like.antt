-- ===== src/Examples/Like.antt =====
-- LIKE patterns at concrete inputs.
use wasm_dbms.Prelude.{ℕ, List, [], ◌∷◌, ◌≡◌, refl, some, true, ◌↔◌}
use wasm_dbms.Prelude.Result.{ok}
use wasm_dbms.Query.Like.{
  PatternToken, literal, wildcard_single, wildcard_multi, parse, parse_char, matches,
}
use wasm_dbms.Query.Like.Spec.{like}
use wasm_dbms.Query.Like.Parsing.{matches-parse, escape_text, matches-escape_text}

-- `%a_` and `xbab`
abbrev tokens : List PatternToken
tokens = wildcard_multi ∷ literal (b'a' ∷ []) ∷ wildcard_single ∷ []

abbrev input : List ℕ
input = b'x' ∷ b'a' ∷ b'a' ∷ b'b' ∷ []

matches-parse_example : matches tokens input ≡ some (like tokens input)
unfolding parse parse_char
matches-parse_example = matches-parse (b'%' ∷ b'a' ∷ b'_' ∷ []) input tokens refl

matches-escape_text_example :
    (ts : List PatternToken) × (parse (escape_text (b'%' ∷ [])) ≡ ok ts)
    × ((matches ts input ≡ some true) ↔ (input ≡ b'%' ∷ []))
matches-escape_text_example = matches-escape_text (b'%' ∷ []) input
