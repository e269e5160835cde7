-- ===== src/Query/Like/Greedy.antt =====
-- Going back to the last '%' only is enough: no earlier '%' can help.
mod Suffix
use wasm_dbms.Prelude.{ℕ, zero, suc, ◌+◌, ◌*◌, ◌≤◌, ◌<◌, ◌≡◌, refl, sym, ap, ◌∙◌, arith, All}
use wasm_dbms.Prelude.{List, [], ◌∷◌, ◌++◌, Bool, true, false, ◌||◌, Option, none, some, length}
use wasm_dbms.Query.Like.{PatternToken, literal, wildcard_single, wildcard_multi, strip_prefix}
use wasm_dbms.Query.Like.{
  all_multi, scan, matches, backtrack, end_round, literal_round, return, next,
}
use wasm_dbms.Query.Like.Spec.{like, any_suffix, after_prefix}
pub use Suffix.{IsProper, strip_prefix_lem}
use Suffix.{IsFixed, width, any_proper, late_match, early_end, like_end}
use Suffix.{width-append}
use mathlib.Core.Path.{subst}
use mathlib.Core.List.{append_assoc}
use wasm_dbms.Prelude.{Bool-cases, Option-cases, inl, inr, All-append, length-append}

-- The last '%' stands before `ts0`, and what follows it has matched `consumed` of `si` so far.
record Resumes (T : ℕ) (tokens : List PatternToken) (input : List ℕ) (ts0 : List PatternToken)
    (si : List ℕ) : Type 0 where
  pre : List PatternToken
  fixed : All IsFixed pre
  tokens_eq : ts0 ≡ pre ++ tokens
  consumed : List ℕ
  input_eq : si ≡ consumed ++ input
  width_eq : length consumed ≡ width pre
  short : length ts0 ≤ T
  proper : All IsProper ts0

abbrev IsStar : ℕ → List PatternToken → List ℕ → Option (List PatternToken × List ℕ) → Type 0
IsStar T tokens input none = Unit
IsStar T tokens input (some (ts0, si)) = Resumes T tokens input ts0 si

-- What going back to the star can still find.
abbrev alternatives : Option (List PatternToken × List ℕ) → Bool
alternatives none = false
alternatives (some (ts0, si)) = any_proper (like ts0) si

abbrev budget : ℕ → Option (List PatternToken × List ℕ) → ℕ
budget N none = N
budget N (some (ts0, si)) = length si

restart :
    (T : ℕ) (ts : List PatternToken) (s : List ℕ)
    → length ts ≤ T
    → All IsProper ts
    → Resumes T ts s ts s
restart T ts s h p = record {
  pre = [];
  fixed = tt;
  tokens_eq = refl;
  consumed = [];
  input_eq = refl;
  width_eq = refl;
  short = h;
  proper = p;
}

-- One more token of the part behind the star has matched `piece`.
advance :
    (T : ℕ) (t : PatternToken) (ts : List PatternToken) (piece rest : List ℕ)
    (star : Option (List PatternToken × List ℕ))
    → IsFixed t
    → length piece ≡ width (t ∷ [])
    → IsStar T (t ∷ ts) (piece ++ rest) star
    → IsStar T ts rest star
advance T t ts piece rest none f e h = tt
advance T t ts piece rest (some (ts0, si)) f e h = record {
  pre = h.pre ++ (t ∷ []);
  fixed = All-append IsFixed h.pre (t ∷ []) h.fixed (f, tt);
  tokens_eq = h.tokens_eq ∙ sym (append_assoc h.pre (t ∷ []) ts);
  consumed = h.consumed ++ piece;
  input_eq = h.input_eq ∙ sym (append_assoc h.consumed piece rest);
  width_eq =
      length-append h.consumed piece ∙ omega (arith, e, h.width_eq, width-append h.pre (t ∷ []));
  short = h.short;
  proper = h.proper;
}

late_match_star :
    (T : ℕ) (ts : List PatternToken) (s : List ℕ) (star : Option (List PatternToken × List ℕ))
    → IsStar T (wildcard_multi ∷ ts) s star
    → alternatives star ≡ true
    → any_suffix (like ts) s ≡ true
late_match_star T ts s none h a = cc
late_match_star T ts s (some (ts0, si)) h a =
    late_match h.pre h.consumed s h.fixed h.width_eq ts (rw (h.tokens_eq, h.input_eq) at a)

early_end_star :
    (T : ℕ) (ts : List PatternToken) (star : Option (List PatternToken × List ℕ))
    → IsStar T ts [] star
    → alternatives star ≡ false
early_end_star T ts none h = refl
early_end_star T ts (some (ts0, si)) h =
    rw (h.tokens_eq, h.input_eq) (early_end h.pre h.consumed [] h.fixed h.width_eq ts refl)

absorb : (a b : Bool) → (b ≡ true → a ≡ true) → a ≡ (a || b)
absorb true b h = refl
absorb false false h = refl
absorb false true h = h refl

any_suffix_split : (p : List ℕ → Bool) (s : List ℕ) → any_suffix p s ≡ (p s || any_proper p s)
any_suffix_split p [] = ground arith
any_suffix_split p (c ∷ s) = refl

any_suffix_end : (s : List ℕ) → any_suffix (like []) s ≡ true
unfolding like
any_suffix_end [] = refl
any_suffix_end (c ∷ s) = any_suffix_end s

module _ (T N : ℕ) where
  -- The state can be scanned with the fuel.
  record IsScan (fuel : ℕ) (tokens : List PatternToken) (input : List ℕ)
      (star : Option (List PatternToken × List ℕ)) : Type 0 where
    proper : All IsProper tokens
    short : length tokens ≤ T
    resumes : IsStar T tokens input star
    left : length input ≤ budget N star
    enough : budget N star * (T + 1) + length tokens < fuel

  abbrev IsGood : ℕ → Type 0
  IsGood fuel =
      (tokens : List PatternToken) (input : List ℕ) (star : Option (List PatternToken × List ℕ))
      → IsScan fuel tokens input star
      → scan fuel tokens input star ≡ some (like tokens input || alternatives star)

  backtrack_lem :
      (fuel : ℕ)
      → IsGood fuel
      → (tokens ts0 : List PatternToken) (input si : List ℕ)
      → IsScan (suc fuel) tokens input (some (ts0, si))
      → (elim (backtrack (some (ts0, si))) [
        | return b ↦ some b
        | next s ↦ scan fuel s.tokens s.input s.star
      ])
        ≡ some (any_proper (like ts0) si)
  backtrack_lem fuel good tokens ts0 input [] h = refl
  backtrack_lem fuel good tokens ts0 input (c ∷ si) h =
      good ts0 si (some (ts0, si)) (record {
        proper = h.resumes.proper;
        short = h.resumes.short;
        resumes = restart T ts0 si h.resumes.short h.resumes.proper;
        left = omega arith;
        enough = omega (arith, h.enough, h.resumes.short);
      })
      ∙ ap some (sym (any_suffix_split (like ts0) si))

  -- A mismatch: what is left is what going back can find.
  mismatch_lem :
      (fuel : ℕ)
      → IsGood fuel
      → (tokens : List PatternToken) (input : List ℕ) (star : Option (List PatternToken × List ℕ))
      → IsScan (suc fuel) tokens input star
      → (elim (backtrack star) [ return b ↦ some b | next s ↦ scan fuel s.tokens s.input s.star ])
        ≡ some (alternatives star)
  mismatch_lem fuel good tokens input none h = refl
  mismatch_lem fuel good tokens input (some (ts0, si)) h =
      backtrack_lem fuel good tokens ts0 input si h

  -- With the tokens used up and input left, a trailing '%' has matched all of it.
  end_lem :
      (fuel : ℕ)
      → IsGood fuel
      → (c : ℕ) (rest : List ℕ) (star : Option (List PatternToken × List ℕ))
      → IsScan (suc fuel) [] (c ∷ rest) star
      → (elim (end_round star) [ return b ↦ some b | next s ↦ scan fuel s.tokens s.input s.star ])
        ≡ some (alternatives star)
  unfolding like
  end_lem fuel good c rest none h = refl
  end_lem fuel good c rest (some ([], [])) h = absurd (omega (arith, h.left))
  end_lem fuel good c rest (some ([], d ∷ si)) h = ap some (sym (any_suffix_end si))
  end_lem fuel good c rest (some (t ∷ ts0, si)) h =
      backtrack_lem fuel good [] (t ∷ ts0) (c ∷ rest) si h

  next_token :
      (fuel : ℕ) (t : PatternToken) (ts : List PatternToken) (piece rest : List ℕ)
      (star : Option (List PatternToken × List ℕ))
      → IsFixed t
      → length piece ≡ width (t ∷ [])
      → IsScan (suc fuel) (t ∷ ts) (piece ++ rest) star
      → IsScan fuel ts rest star
  next_token fuel t ts piece rest star f e h = record {
    proper = h.proper.1;
    short = omega (arith, h.short);
    resumes = advance T t ts piece rest star f e h.resumes;
    left = omega (arith, h.left, length-append piece rest);
    enough = omega (arith, h.enough);
  }

  next_star :
      (fuel : ℕ) (ts : List PatternToken) (s : List ℕ) (star : Option (List PatternToken × List ℕ))
      → IsScan (suc fuel) (wildcard_multi ∷ ts) s star
      → IsScan fuel ts s (some (ts, s))
  next_star fuel ts s star h = record {
    proper = h.proper.1;
    short = omega (arith, h.short);
    resumes = restart T ts s (omega (arith, h.short)) h.proper.1;
    left = omega arith;
    enough = grind (arith, h.enough, h.left);
  }

  literal_lem :
      (fuel : ℕ)
      → IsGood fuel
      → (lit : List ℕ) (ts : List PatternToken) (c : ℕ) (rest : List ℕ)
        (star : Option (List PatternToken × List ℕ)) (r : Option (List ℕ))
      → strip_prefix lit (c ∷ rest) ≡ r
      → IsScan (suc fuel) (literal lit ∷ ts) (c ∷ rest) star
      → (elim (literal_round ts r star) [
        | return b ↦ some b
        | next s ↦ scan fuel s.tokens s.input s.star
      ])
        ≡ some (after_prefix (like ts) r || alternatives star)
  literal_lem fuel good lit ts c rest star none e h =
      mismatch_lem fuel good (literal lit ∷ ts) (c ∷ rest) star h
  literal_lem fuel good lit ts c rest star (some r) e h = good ts r star (
      next_token fuel (literal lit) ts lit r star tt (omega arith) (
        subst (λ s. IsScan (suc fuel) (literal lit ∷ ts) s star) (strip_prefix_lem lit (c ∷ rest) e)
          h))

  scan-like : (fuel : ℕ) → IsGood fuel
  unfolding scan like
  scan-like fuel tokens [] star h = ap some (
      sym (like_end tokens h.proper)
      ∙ rw (early_end_star T tokens star h.resumes) (absorb (like tokens []) false (λ e. cc)))
  scan-like zero tokens (c ∷ rest) star h = absurd (omega (arith, h.enough))
  scan-like (suc fuel) [] (c ∷ rest) star h = end_lem fuel (scan-like fuel) c rest star h
  scan-like (suc fuel) (literal lit ∷ ts) (c ∷ rest) star h =
      literal_lem fuel (scan-like fuel) lit ts c rest star (strip_prefix lit (c ∷ rest)) refl h
  scan-like (suc fuel) (wildcard_single ∷ ts) (c ∷ rest) star h =
      scan-like fuel ts rest star (next_token fuel wildcard_single ts (c ∷ []) rest star tt refl h)
  scan-like (suc fuel) (wildcard_multi ∷ ts) (c ∷ rest) star h =
      scan-like fuel ts (c ∷ rest) (some (ts, c ∷ rest)) (next_star fuel ts (c ∷ rest) star h)
      ∙ ap some (
          absorb (any_suffix (like ts) (c ∷ rest)) (alternatives star)
            (late_match_star T ts (c ∷ rest) star h.resumes))

-- The greedy scan with a single way back finds a match exactly when there is one, and it ends within
-- its fuel, for tokens whose literals are not empty.
pub matches-like :
    (tokens : List PatternToken) (input : List ℕ)
    → All IsProper tokens
    → matches tokens input ≡ some (like tokens input)
unfolding matches
matches-like tokens input proper =
    scan-like (length tokens) (length input) _ tokens input none (record {
      proper = proper;
      short = omega arith;
      resumes = tt;
      left = omega arith;
      enough = omega arith;
    })
    ∙ ap some (sym (absorb (like tokens input) false (λ e. cc)))
