-- ===== src/Query/Like/Parsing.antt =====
-- What `Like::parse` makes of a pattern.
use mathlib.Core.Path.{subst}
use mathlib.Core.List.{foldl, append_assoc, append-nil}
use wasm_dbms.Prelude.{ℕ, ◌≡◌, refl, sym, ap, ◌∙◌, arith, All, All-append, List, [], ◌∷◌, ◌++◌}
use wasm_dbms.Prelude.{Bool, true, false, ◌||◌, some, ◌==◌, ==_iff, inl, inr, ◌↔◌}
use wasm_dbms.Prelude.{if◌then◌else◌, Option-cases}
use wasm_dbms.Prelude.Result.{ok, err}
use wasm_dbms.Query.Like.{PatternToken, wildcard_single, wildcard_multi, strip_prefix}
use wasm_dbms.Query.Like.{QueryError, ParseState, flush, parse_char, parse, matches}
use wasm_dbms.Query.Like.Spec.{like, is_end, after_prefix}
use wasm_dbms.Query.Like.Greedy.{matches-like, IsProper, strip_prefix_lem}

flush-IsProper :
    (tokens : List PatternToken) (lit : List ℕ)
    → All IsProper tokens
    → All IsProper (flush tokens lit)
flush-IsProper tokens [] h = h
flush-IsProper tokens (c ∷ lit) h = All-append IsProper tokens _ h (tt, tt)

parse_char-IsProper :
    (s : ParseState) (c : ℕ) → All IsProper s.tokens → All IsProper (parse_char s c).tokens
unfolding parse_char
parse_char-IsProper s c h = ground (
  arith,
  All-append IsProper (flush s.tokens s.current_literal) (wildcard_single ∷ [])
      (flush-IsProper s.tokens s.current_literal h) (tt, tt),
  All-append IsProper (flush s.tokens s.current_literal) (wildcard_multi ∷ [])
      (flush-IsProper s.tokens s.current_literal h) (tt, tt),
  h,
)

foldl-IsProper :
    (pattern : List ℕ) (s : ParseState)
    → All IsProper s.tokens
    → All IsProper (foldl parse_char s pattern).tokens
foldl-IsProper [] s h = h
foldl-IsProper (c ∷ pattern) s h =
    foldl-IsProper pattern (parse_char s c) (parse_char-IsProper s c h)

ok_inj :
    (b : Bool) (e : QueryError) (xs ys : List PatternToken)
    → (if b then err e else ok xs) ≡ ok ys
    → xs ≡ ys
ok_inj true e xs ys h = cc
ok_inj false e xs ys h = cc

abbrev start : ParseState
start = record { tokens = []; current_literal = []; escape = false }

parse-IsProper :
    (pattern : List ℕ) (tokens : List PatternToken)
    → parse pattern ≡ ok tokens
    → All IsProper tokens
unfolding parse
parse-IsProper pattern tokens h =
    let s = foldl parse_char start pattern in
    subst (All IsProper) (ok_inj s.escape _ (flush s.tokens s.current_literal) tokens h)
      (flush-IsProper s.tokens s.current_literal (foldl-IsProper pattern start tt))

-- Whatever pattern is parsed, the loop of `matches` ends within its fuel on every input, and its
-- answer is the meaning of the parsed pattern.
pub matches-parse :
    (pattern input : List ℕ) (tokens : List PatternToken)
    → parse pattern ≡ ok tokens
    → matches tokens input ≡ some (like tokens input)
matches-parse pattern input tokens h = matches-like tokens input (parse-IsProper pattern tokens h)

-- A text in which the three special characters are escaped.
pub escape_text : List ℕ → List ℕ
escape_text [] = []
escape_text (c ∷ s) =
    if c == b'_' || (c == b'%' || c == b'\\') then b'\\' ∷ c ∷ escape_text s else c ∷ escape_text s

parse_escape_text :
    (s lit : List ℕ)
    → foldl parse_char
        (record { tokens = []; current_literal = lit; escape = false })
        (escape_text s)
      ≡ record { tokens = []; current_literal = lit ++ s; escape = false }
unfolding escape_text parse_char
parse_escape_text [] lit = rw append-nil
parse_escape_text (c ∷ s) lit =
    ground (arith, parse_escape_text s (lit ++ (c ∷ [])), append_assoc lit (c ∷ []) s)

strip_prefix_self : (s rest : List ℕ) → strip_prefix s (s ++ rest) ≡ some rest
strip_prefix_self [] rest = refl
strip_prefix_self (c ∷ s) rest = rw ((==_iff c c).1 refl) (strip_prefix_self s rest)

is_end_eq : (r : List ℕ) → is_end r ≡ true → r ≡ []
is_end_eq [] h = refl
is_end_eq (c ∷ r) h = cc

like-flush : (s input : List ℕ) → (like (flush [] s) input ≡ true) ↔ (input ≡ s)
unfolding like
like-flush [] [] = (λ _. refl, λ _. refl)
like-flush [] (d ∷ input) = (λ h. cc, λ h. cc)
like-flush (c ∷ s) input = (
  λ h. elim (Option-cases (strip_prefix (c ∷ s) input)) [
    | inl e ↦ cc (rw e at h)
    | inr (r, e) ↦
        strip_prefix_lem (c ∷ s) input e
        ∙ ap (λ t. (c ∷ s) ++ t) (is_end_eq r (rw e at h))
        ∙ append-nil (c ∷ s)
  ],
  λ e.
      ap (after_prefix is_end)
        (ap (strip_prefix (c ∷ s)) (e ∙ sym (append-nil (c ∷ s))) ∙ strip_prefix_self (c ∷ s) []),
)

-- An escaped text parses, and as a pattern it is matched by that text and by no other.
pub matches-escape_text :
    (s input : List ℕ)
    → (tokens : List PatternToken) × (parse (escape_text s) ≡ ok tokens)
      × ((matches tokens input ≡ some true) ↔ (input ≡ s))
unfolding parse
matches-escape_text s input =
    let whole : matches (flush [] s) input ≡ some (like (flush [] s) input) =
      matches-like (flush [] s) input (flush-IsProper [] s tt) in
    (
      flush [] s,
      rw (parse_escape_text s []),
      (λ h. (like-flush s input).0 (cc), λ e. whole ∙ ap some ((like-flush s input).1 e)),
    )
