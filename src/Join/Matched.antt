-- ===== src/Join/Matched.antt =====
-- What the hash table of a join holds.
use mathlib.Core.List.{append_assoc}
use wasm_dbms.Prelude.{
  ℕ, ◌+◌, ◌≡◌, refl, ap, ◌∙◌, List, [], ◌∷◌, ◌++◌, Bool, true, false, not, ◌&&◌, Option, none, some,
  if◌then◌else◌, Bool-cases, inl, inr,
}
use wasm_dbms.Prelude.Names.{Eq}
use wasm_dbms.Prelude.Result.{ok}
use wasm_dbms.Join.{TableRow, Build, is_null, add, lookup, cell, build_loop, marks, matches_in}

-- The list, when it has an element.
abbrev pub as_option : {A : Type 0} → List A → Option (List A)
as_option [] = none
as_option (x ∷ xs) = some (x ∷ xs)

module _ {V : Type 0} (equal : Eq V) (null : V) where
  -- Whether a left value matches a right one; null matches nothing.
  abbrev pub is_match : Option V → V → Bool
  is_match none r = false
  is_match (some l) r = not (is_null equal null l) && equal.eq r l

  -- The right rows that a left value matches.
  abbrev pub matching : Option V → List V → ℕ → List ℕ
  matching l [] index = []
  matching l (r ∷ keys) index =
      let later = matching l keys (index + 1) in if is_match l r then index ∷ later else later

  eq_refl : (v : V) → equal.eq v v ≡ true
  eq_refl v = (equal.eq_iff v v).1 refl

  lookup-add :
      (v w : V) (i : ℕ) (build : Build V)
      → lookup equal null v (add equal null w i build) ≡ (
          if equal.eq w v
          then some (marks equal null (lookup equal null w build) ++ (i ∷ []))
          else lookup equal null v build)
  lookup-add v w i [] = refl
  lookup-add v w i ((u, indexes) ∷ build) = elim (Bool-cases (equal.eq u w)) [
    | inl uw ↦
        let same : u ≡ w = (equal.eq_iff u w).0 uw in
        rw (uw, same)
          (elim (Bool-cases (equal.eq w v)) [ inl wv ↦ rw wv refl | inr wv ↦ rw wv refl ])
    | inr uw ↦ elim (Bool-cases (equal.eq u v)) [
      | inr uv ↦ rw (uw, uv) (lookup-add v w i build)
      | inl uv ↦ elim (Bool-cases (equal.eq w v)) [
        | inr wv ↦ rw (uw, uv, wv) refl
        | inl wv ↦ cc ((equal.eq_iff w v).0 wv, uv, uw)
      ]
    ]
  ]

  -- The keys from an index on, added.
  abbrev pub add_all : List V → ℕ → Build V → Build V
  add_all [] index build = build
  add_all (k ∷ keys) index build =
      add_all keys (index + 1)
        (if is_null equal null k then build else add equal null k index build)

  abbrev extend : Option (List ℕ) → List ℕ → Option (List ℕ)
  extend found [] = found
  extend found (i ∷ indexes) = some (marks equal null found ++ (i ∷ indexes))

  extend-extend :
      (found : Option (List ℕ)) (i : ℕ) (later : List ℕ)
      → extend (some (marks equal null found ++ (i ∷ []))) later
        ≡ some (marks equal null found ++ (i ∷ later))
  extend-extend found i [] = refl
  extend-extend found i (j ∷ later) =
      ap some (append_assoc (marks equal null found) (i ∷ []) (j ∷ later))

  lookup-add_all :
      (v : V) (keys : List V) (index : ℕ) (build : Build V)
      → is_null equal null v ≡ false
      → lookup equal null v (add_all keys index build)
        ≡ extend (lookup equal null v build) (matching (some v) keys index)
  lookup-add_all v [] index build some_v = refl
  lookup-add_all v (k ∷ keys) index build some_v = elim (Bool-cases (equal.eq k v)) [
    | inl kv ↦
        let same : k ≡ v = (equal.eq_iff k v).0 kv in
        let some_k : is_null equal null k ≡ false = rw same some_v in
        rw (some_k, some_v, kv)
          (lookup-add_all v keys (index + 1) (add equal null k index build) some_v
            ∙ ap (λ f. extend f (matching (some v) keys (index + 1))) (lookup-add v k index build)
            ∙ rw (kv, same)
                (extend-extend (lookup equal null v build) index
                  (matching (some v) keys (index + 1))))
    | inr kv ↦ elim (Bool-cases (is_null equal null k)) [
      | inl null_k ↦ rw (null_k, some_v, kv) (lookup-add_all v keys (index + 1) build some_v)
      | inr some_k ↦
          rw (some_k, some_v, kv)
            (lookup-add_all v keys (index + 1) (add equal null k index build) some_v
              ∙ ap (λ f. extend f (matching (some v) keys (index + 1)))
                  (lookup-add v k index build ∙ rw kv refl))
    ]
  ]

  matching_null :
      (v : V) (keys : List V) (index : ℕ)
      → is_null equal null v ≡ true
      → matching (some v) keys index ≡ []
  matching_null v [] index h = refl
  matching_null v (k ∷ keys) index h = rw h (matching_null v keys (index + 1) h)

  matching-none : (keys : List V) (index : ℕ) → matching none keys index ≡ []
  matching-none [] index = refl
  matching-none (k ∷ keys) index = matching-none keys (index + 1)

  extend-none : (indexes : List ℕ) → extend none indexes ≡ as_option indexes
  extend-none [] = refl
  extend-none (i ∷ indexes) = refl

  -- The table of the keys holds, for a left value, the rows that it matches.
  pub matches_in-add_all :
      (l : Option V) (keys : List V)
      → matches_in equal null (add_all keys 0 []) l ≡ as_option (matching l keys 0)
  matches_in-add_all none keys = rw (matching-none keys 0) refl
  matches_in-add_all (some v) keys = elim (Bool-cases (is_null equal null v)) [
    | inl t ↦ rw (t, matching_null v keys 0 t) refl
    | inr t ↦ rw t (lookup-add_all v keys 0 [] t ∙ extend-none (matching (some v) keys 0))
  ]

  module _ (E : Type 0) where
    -- The keys are the cells of the rows.
    abbrev pub Cells : List (TableRow V) → ℕ → List V → Type 0
    Cells [] column [] = Unit
    Cells (row ∷ rows) column (k ∷ keys) =
        (cell equal null {E = E} row column ≡ ok k) × Cells rows column keys
    Cells _ column _ = ⊥

    pub build_loop-Cells :
        (rows : List (TableRow V)) (column : ℕ) (keys : List V) (index : ℕ) (build : Build V)
        → Cells rows column keys
        → build_loop equal null {E = E} column rows index build ≡ ok (add_all keys index build)
    unfolding build_loop
    build_loop-Cells [] column [] index build h = refl
    build_loop-Cells (row ∷ rows) column (k ∷ keys) index build (h, hs) = rw h (
        build_loop-Cells rows column keys (index + 1)
          (if is_null equal null k then build else add equal null k index build) hs)
    build_loop-Cells [] column (_ ∷ _) index build h = absurd h
    build_loop-Cells (_ ∷ _) column [] index build h = absurd h
