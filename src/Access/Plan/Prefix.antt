-- ===== src/Access/Plan/Prefix.antt =====
-- The scans that the constraints make of an index have the rows that the constraints hold of.
use wasm_dbms.Prelude.{
  ℕ, suc, ◌+◌, ◌≡◌, refl, arith, ◌==◌, ==_iff, List, [], ◌∷◌, ◌++◌, map, length, length-append,
  get_elem?, Bool, true, ◌&&◌, inl, inr, Bool-cases, some,
}
use wasm_dbms.Prelude.Names.{Name, any, is_some_and}
use wasm_dbms.Query.Filter.{Values, Row, find_column}
use wasm_dbms.Access.Scan.{value_at, prefix_matches}
use wasm_dbms.Access.Constraint.{Constants, contains}
use wasm_dbms.Access.Candidate.{extend, extend_each}

pub any-map :
    {A B : Type 0} (f : A → B) (t : A → Bool) (u : B → Bool) (xs : List A)
    → ((x : A) → t x ≡ true → u (f x) ≡ true)
    → any t xs ≡ true
    → any u (map f xs) ≡ true
any-map f t u [] keeps h = h
any-map f t u (x ∷ xs) keeps h = elim (Bool-cases (t x)) [
  | inl e ↦ rw (keeps x e) refl
  | inr e ↦ elim (Bool-cases (u (f x))) [
    | inl k ↦ rw k refl
    | inr k ↦ rw k (any-map f t u xs keeps (rw e at h))
  ]
]

any-append_left :
    {A : Type 0} (t : A → Bool) (xs ys : List A) → any t xs ≡ true → any t (xs ++ ys) ≡ true
any-append_left t [] ys h = cc
any-append_left t (x ∷ xs) ys h = elim (Bool-cases (t x)) [
  | inl e ↦ rw e refl
  | inr e ↦ rw e (any-append_left t xs ys (rw e at h))
]

pub any-append_right :
    {A : Type 0} (t : A → Bool) (xs ys : List A) → any t ys ≡ true → any t (xs ++ ys) ≡ true
any-append_right t [] ys h = h
any-append_right t (x ∷ xs) ys h = elim (Bool-cases (t x)) [
  | inl e ↦ rw e refl
  | inr e ↦ rw e (any-append_right t xs ys h)
]

pub get_elem?-append :
    {A : Type 0} (xs : List A) (y : A) (ys : List A)
    → get_elem? (xs ++ (y ∷ ys)) (length xs) ≡ some y
get_elem?-append [] y ys = refl
get_elem?-append (x ∷ xs) y ys = get_elem?-append xs y ys

module _ {V J F E : Type 0} (values : Values V J F E) (constants : Constants V) (row : Row values)
    (index : List Name) where
  -- The prefix has a value for each of the first columns of the index, and they are the row's.
  abbrev pub of_row : ℕ → List V → Bool
  of_row n p = (length p == n) && prefix_matches values index row 0 p

  pub value_at-append :
      (done : List Name) (column : Name) (rest : List Name)
      → value_at values (done ++ (column ∷ rest)) row (length done) ≡ find_column values column row
  value_at-append done column rest = rw (value_at, get_elem?-append done column rest) refl

  prefix_matches-extend :
      (i n : ℕ) (p : List V) (v e : V)
      → n ≡ i + length p
      → prefix_matches values index row i p ≡ true
      → value_at values index row n ≡ some v
      → values.eq v e ≡ true
      → prefix_matches values index row i (extend e p) ≡ true
  prefix_matches-extend i n [] v e long h at_n same =
      let start_n : n ≡ i = omega (arith, long) in
      let here : value_at values index row i ≡ some v = rw start_n at at_n in rw (here, same) refl
  prefix_matches-extend i n (x ∷ p) v e long h at_n same =
      elim (Bool-cases (is_some_and (λ w. values.eq w x) (value_at values index row i))) [
        | inr k ↦ cc (rw k at h)
        | inl k ↦
            rw k (prefix_matches-extend (suc i) n p v e (omega (arith, long)) (rw k at h) at_n same)
      ]

  pub of_row-extend :
      (n : ℕ) (v e : V)
      → value_at values index row n ≡ some v
      → values.eq v e ≡ true
      → (p : List V) → of_row n p ≡ true
      → of_row (n + 1) (extend e p) ≡ true
  of_row-extend n v e at_n same p h = elim (Bool-cases (length p == n)) [
    | inr k ↦ cc (rw k at h)
    | inl k ↦
        let long = (==_iff (length p) n).0 k in
        let longer : (length (extend e p) == n + 1) ≡ true =
          (==_iff (length (extend e p)) (n + 1)).1
            (omega (arith, length-append p (e ∷ []), long)) in
        rw longer (prefix_matches-extend 0 n p v e (omega (arith, long)) (rw k at h) at_n same)
  ]

  of_row-map :
      (n : ℕ) (v : V) (list : List V)
      → value_at values index row n ≡ some v
      → contains values v list ≡ true
      → (p : List V) → of_row n p ≡ true
      → any (of_row (n + 1)) (map (λ e. extend e p) list) ≡ true
  of_row-map n v list at_n found p h =
      any-map (λ e. extend e p) (λ e. values.eq v e) (of_row (n + 1)) list
        (λ e same. of_row-extend n v e at_n same p h) found

  pub of_row-extend_each :
      (n : ℕ) (v : V) (list : List V)
      → value_at values index row n ≡ some v
      → contains values v list ≡ true
      → (ps : List (List V)) → any (of_row n) ps ≡ true
      → any (of_row (n + 1)) (extend_each list ps) ≡ true
  of_row-extend_each n v list at_n found [] h = h
  of_row-extend_each n v list at_n found (p ∷ ps) h = elim (Bool-cases (of_row n p)) [
    | inl e ↦
        any-append_left (of_row (n + 1)) (map (λ x. extend x p) list) (extend_each list ps)
          (of_row-map n v list at_n found p e)
    | inr e ↦
        any-append_right (of_row (n + 1)) (map (λ x. extend x p) list) (extend_each list ps)
          (of_row-extend_each n v list at_n found ps (rw e at h))
  ]
