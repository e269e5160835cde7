-- ===== src/Query/Like/Greedy/Suffix.antt =====
-- Matches of a suffix of the input.
use mathlib.Core.List.{append_assoc}
use wasm_dbms.Prelude.{ℕ, suc, ◌+◌, ◌≤◌, ◌<◌, ◌≡◌, refl, sym, ap, ◌∙◌, arith, All}
use wasm_dbms.Prelude.{List, [], ◌∷◌, ◌++◌, Bool, true, false, some, length, ==_iff}
use wasm_dbms.Prelude.{Bool-cases, Option-cases, inl, inr, ◌==◌, length-append}
use wasm_dbms.Query.Like.{PatternToken, literal, wildcard_single, wildcard_multi, strip_prefix}
use wasm_dbms.Query.Like.{all_multi}
use wasm_dbms.Query.Like.Spec.{like, any_suffix}

abbrev pub IsFixed : PatternToken → Type 0
IsFixed wildcard_multi = ⊥
IsFixed _ = Unit

-- A literal is never empty.
abbrev pub IsProper : PatternToken → Type 0
IsProper (literal []) = ⊥
IsProper _ = Unit

abbrev pub width : List PatternToken → ℕ
width [] = 0
width (literal lit ∷ ts) = length lit + width ts
width (_ ∷ ts) = suc (width ts)

pub width-append : (pre ts : List PatternToken) → width (pre ++ ts) ≡ width pre + width ts
width-append [] ts = omega arith
width-append (literal lit ∷ pre) ts = omega (arith, width-append pre ts)
width-append (wildcard_single ∷ pre) ts = omega (arith, width-append pre ts)
width-append (wildcard_multi ∷ pre) ts = omega (arith, width-append pre ts)

abbrev pub any_proper : (List ℕ → Bool) → List ℕ → Bool
any_proper p [] = false
any_proper p (c ∷ s) = any_suffix p s

pub strip_prefix_lem :
    (lit s : List ℕ) {rest : List ℕ} → strip_prefix lit s ≡ some rest → s ≡ lit ++ rest
strip_prefix_lem [] s h = cc
strip_prefix_lem (c ∷ lit) [] h = cc
strip_prefix_lem (c ∷ lit) (d ∷ s) h = elim (Bool-cases (c == d)) [
  | inl e ↦ cc ((==_iff c d).0 e, strip_prefix_lem lit s (rw e at h))
  | inr e ↦ cc (rw e at h)
]

any_suffix_elim :
    (p : List ℕ → Bool) (s : List ℕ)
    → any_suffix p s ≡ true
    → (d r : List ℕ) × (s ≡ d ++ r) × (p r ≡ true)
any_suffix_elim p [] h = ([], [], refl, h)
any_suffix_elim p (c ∷ s) h = elim (Bool-cases (p (c ∷ s))) [
  | inl e ↦ ([], c ∷ s, refl, e)
  | inr e ↦
      let (d, r, eq, holds) = any_suffix_elim p s (rw e at h) in
      (c ∷ d, r, ap (λ t. c ∷ t) eq, holds)
]

any_suffix_intro : (p : List ℕ → Bool) (d r : List ℕ) → p r ≡ true → any_suffix p (d ++ r) ≡ true
any_suffix_intro p [] [] h = h
any_suffix_intro p [] (c ∷ r) h = rw h
any_suffix_intro p (c ∷ d) r h = ground (arith, any_suffix_intro p d r h)

append_split :
    (xs ys zs ws : List ℕ)
    → xs ++ ys ≡ zs ++ ws
    → length xs ≤ length zs
    → (m : List ℕ) × (ys ≡ m ++ ws)
append_split [] ys zs ws e h = (zs, e)
append_split (x ∷ xs) ys [] ws e h = absurd (omega arith)
append_split (x ∷ xs) ys (z ∷ zs) ws e h = append_split xs ys zs ws (cc) (omega arith)

-- A match of a part of fixed width takes exactly that much of the input.
like-append :
    (pre ts : List PatternToken) (r : List ℕ)
    → All IsFixed pre
    → like (pre ++ ts) r ≡ true
    → (a rest : List ℕ) × (r ≡ a ++ rest) × (length a ≡ width pre) × (like ts rest ≡ true)
unfolding like
like-append [] ts r f h = ([], r, refl, refl, h)
like-append (literal lit ∷ pre) ts r (f, fs) h = elim (Option-cases (strip_prefix lit r)) [
  | inl e ↦ cc (rw e at h)
  | inr (s, e) ↦
      let (a, rest, eq, len, m) = like-append pre ts s fs (rw e at h) in
      (
        lit ++ a,
        rest,
        strip_prefix_lem lit r e ∙ ap (λ t. lit ++ t) eq ∙ sym (append_assoc lit a rest),
        length-append lit a ∙ omega (arith, len),
        m,
      )
]
like-append (wildcard_single ∷ pre) ts [] f h = cc
like-append (wildcard_single ∷ pre) ts (c ∷ r) (f, fs) h =
    let (a, rest, eq, len, m) = like-append pre ts r fs h in
    (c ∷ a, rest, ap (λ t. c ∷ t) eq, ap suc len, m)
like-append (wildcard_multi ∷ pre) ts r (f, fs) h = absurd f

any_proper_elim :
    (p : List ℕ → Bool) (s : List ℕ)
    → any_proper p s ≡ true
    → (d r : List ℕ) × (s ≡ d ++ r) × (0 < length d) × (p r ≡ true)
any_proper_elim p [] h = cc
any_proper_elim p (c ∷ s) h =
    let (d, r, eq, holds) = any_suffix_elim p s h in
    (c ∷ d, r, ap (λ t. c ∷ t) eq, omega arith, holds)

module _ (pre : List PatternToken) (consumed input : List ℕ) (fixed : All IsFixed pre)
    (width_eq : length consumed ≡ width pre) where
  -- A match found by going back to the star before `pre` and the next '%' is one from that '%' on.
  pub late_match :
      (ts : List PatternToken)
      → any_proper (like (pre ++ (wildcard_multi ∷ ts))) (consumed ++ input) ≡ true
      → any_suffix (like ts) input ≡ true
  unfolding like
  late_match ts h =
      let (d, r, eq, _, m) =
        any_proper_elim (like (pre ++ (wildcard_multi ∷ ts))) (consumed ++ input) h in
      let (a, rest, eq2, len, m2) = like-append pre (wildcard_multi ∷ ts) r fixed m in
      let (e, last, eq3, m3) = any_suffix_elim (like ts) rest m2 in
      let whole : consumed ++ input ≡ (d ++ (a ++ e)) ++ last =
        eq
        ∙ ap (λ t. d ++ t) (eq2 ∙ ap (λ t. a ++ t) eq3 ∙ sym (append_assoc a e last))
        ∙ sym (append_assoc d (a ++ e) last) in
      let (k, tail) =
        append_split consumed input (d ++ (a ++ e)) last whole
          (omega (arith, width_eq, len, length-append d (a ++ e), length-append a e)) in
      rw tail (any_suffix_intro (like ts) k last m3)

  -- With the input used up, going back finds nothing: too little is left.
  pub early_end :
      (ts : List PatternToken)
      → input ≡ []
      → any_proper (like (pre ++ ts)) (consumed ++ input) ≡ false
  early_end ts none_left = elim (Bool-cases (any_proper (like (pre ++ ts)) (consumed ++ input))) [
    | inr e ↦ e
    | inl h ↦
        let (d, r, eq, pos, m) = any_proper_elim (like (pre ++ ts)) (consumed ++ input) h in
        let (a, rest, eq2, len, _) = like-append pre ts r fixed m in
        absurd (
          omega (
            arith,
            ap length eq,
            ap length eq2,
            length-append d r,
            length-append a rest,
            length-append consumed input,
            ap length none_left,
            len,
            width_eq,
            pos,
          ))
  ]

pub like_end : (ts : List PatternToken) → All IsProper ts → like ts [] ≡ all_multi ts
unfolding like
like_end [] h = refl
like_end (literal [] ∷ ts) (h, hs) = absurd h
like_end (literal (c ∷ lit) ∷ ts) h = refl
like_end (wildcard_single ∷ ts) h = refl
like_end (wildcard_multi ∷ ts) (h, hs) = like_end ts hs
