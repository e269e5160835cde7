-- ===== src/Query/Like.antt =====
-- query/filter/like.rs: SQL LIKE patterns. A string is the list of its characters, which are code
-- points. An index into the tokens is the list of those from there on, and a byte offset into the
-- input is the rest of the input from there on.
pub mod Spec
pub mod Greedy
pub mod Parsing
use mathlib.Core.List.{foldl}
use wasm_dbms.Prelude.{ℕ, zero, suc, ◌+◌, ◌*◌, List, [], ◌∷◌, ◌++◌, Bool, true, false, not, ◌&&◌}
use wasm_dbms.Prelude.{Option, none, some, String, ◌==◌, if◌then◌else◌, length}
use wasm_dbms.Prelude.Result.{Result, ok, err}

-- `QueryError::InvalidQuery` with its message; LIKE raises no other error.
pub data QueryError : Type 0 where
  invalid_query : String → QueryError

abbrev pub QueryResult {ℓ} : Type ℓ → Type ℓ
QueryResult A = Result QueryError A

pub data PatternToken : Type 0 where
  literal : List ℕ → PatternToken
  wildcard_single : PatternToken
  wildcard_multi : PatternToken

-- The variables of the loop of `from_str`.
pub record ParseState : Type 0 where
  pub tokens : List PatternToken
  pub current_literal : List ℕ
  pub escape : Bool

-- Pushes the literal that is being read, if it is not empty.
abbrev pub flush : List PatternToken → List ℕ → List PatternToken
flush tokens [] = tokens
flush tokens (c ∷ lit) = tokens ++ (literal (c ∷ lit) ∷ [])

unfoldable pub parse_char : ParseState → ℕ → ParseState
parse_char s c =
    if c == b'_' && not s.escape
    then (record {
      tokens = flush s.tokens s.current_literal ++ (wildcard_single ∷ []);
      current_literal = [];
      escape = s.escape;
    })
    else if c == b'%' && not s.escape
    then (record {
      tokens = flush s.tokens s.current_literal ++ (wildcard_multi ∷ []);
      current_literal = [];
      escape = s.escape;
    })
    else if c == b'\\' && not s.escape
    then (record s { escape = true })
    else (record s { current_literal = s.current_literal ++ (c ∷ []); escape = false })

unfoldable pub parse : List ℕ → QueryResult (List PatternToken)
unfolding parse_char
parse pattern =
    let s =
      foldl parse_char (record { tokens = []; current_literal = []; escape = false }) pattern in
    if s.escape
    then err (invalid_query "LIKE pattern ends with a dangling escape character")
    else ok (flush s.tokens s.current_literal)

-- The rest of the input behind a prefix, if it starts with it.
abbrev pub strip_prefix : List ℕ → List ℕ → Option (List ℕ)
strip_prefix [] input = some input
strip_prefix (c ∷ lit) [] = none
strip_prefix (c ∷ lit) (d ∷ input) = if c == d then strip_prefix lit input else none

-- `ti`, `ii` and, once a '%' has been met, where to resume: the tokens behind it and the input that
-- it does not match yet.
pub record Scan : Type 0 where
  pub tokens : List PatternToken
  pub input : List ℕ
  pub star : Option (List PatternToken × List ℕ)

-- One round of the loop: its next state, or the value that it returns.
pub data Round : Type 0 where
  next : Scan → Round
  return : Bool → Round

-- Lets the last '%' match one more character.
abbrev pub backtrack : Option (List PatternToken × List ℕ) → Round
backtrack none = return false
backtrack (some (tokens, [])) = return false
backtrack (some (tokens, c ∷ rest)) =
    next (record { tokens = tokens; input = rest; star = some (tokens, rest) })

abbrev pub literal_round :
    List PatternToken → Option (List ℕ) → Option (List PatternToken × List ℕ) → Round
literal_round tokens none star = backtrack star
literal_round tokens (some rest) star = next (record { tokens = tokens; input = rest; star = star })

-- With no token left: a trailing '%' matches all that remains.
abbrev pub end_round : Option (List PatternToken × List ℕ) → Round
end_round none = return false
end_round (some ([], rest)) = return true
end_round (some (t ∷ tokens, rest)) = backtrack (some (t ∷ tokens, rest))

-- The body of the loop, at an input that has a character `c` before `rest`.
abbrev pub round : List PatternToken → ℕ → List ℕ → Option (List PatternToken × List ℕ) → Round
round [] c rest star = end_round star
round (literal lit ∷ tokens) c rest star = literal_round tokens (strip_prefix lit (c ∷ rest)) star
round (wildcard_single ∷ tokens) c rest star =
    next (record { tokens = tokens; input = rest; star = star })
round (wildcard_multi ∷ tokens) c rest star =
    next (record { tokens = tokens; input = c ∷ rest; star = some (tokens, c ∷ rest) })

-- The second loop, and the final test.
abbrev pub all_multi : List PatternToken → Bool
all_multi [] = true
all_multi (wildcard_multi ∷ tokens) = all_multi tokens
all_multi (_ ∷ tokens) = false

-- The first loop; `none` if the fuel runs out.
unfoldable pub scan :
    ℕ → List PatternToken → List ℕ → Option (List PatternToken × List ℕ) → Option Bool
scan fuel tokens [] star = some (all_multi tokens)
scan zero tokens (c ∷ rest) star = none
scan (suc fuel) tokens (c ∷ rest) star = elim (round tokens c rest star) [
  | return b ↦ some b
  | next s ↦ scan fuel s.tokens s.input s.star
]

unfoldable pub matches : List PatternToken → List ℕ → Option Bool
unfolding scan
matches tokens input =
    scan ((length input + 1) * (length tokens + 1) + length tokens + 1) tokens input none
