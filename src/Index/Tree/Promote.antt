-- ===== src/Index/Tree/Promote.antt =====
-- What a promotion does to the routing of a node.
use wasm_dbms.Prelude.{
  ℕ, ◌≡◌, ◌⊎◌, inl, inr, refl, arith, List, [], ◌∷◌, ◌++◌, true, false, some, ◌==◌, if◌then◌else◌,
  Bool-cases,
}
use wasm_dbms.Prelude.Result.{ok}
use wasm_dbms.Encode.{Page}
use wasm_dbms.Index.Key.{Key, IsOrder, le, le_trans}
use wasm_dbms.Index.Node.{Entry, InternalNodeBody}
use wasm_dbms.Index.Tree.{Promotion, find_child, find_child_in, promote_at, promote_body}

eq_self : (n : ℕ) → (n == n) ≡ true
eq_self n = ground arith

module _ {K : Type 0} (key : Key K) (p : Promotion K) where
  -- The page is none of the children.
  abbrev pub IsNoChild : List (Entry K Page) → Page → Type 0
  IsNoChild [] r = (r == p.left_page) ≡ false
  IsNoChild (e ∷ entries) r = ((e.target == p.left_page) ≡ false) × IsNoChild entries r

  -- The split child stands once among the children, and the promoted key is at most the key on its right.
  abbrev pub IsPlace : List (Entry K Page) → Page → Type 0
  IsPlace [] r = r ≡ p.left_page
  IsPlace (e ∷ entries) r =
      ((e.target ≡ p.left_page) × (le key p.key e.key ≡ true) × IsNoChild entries r)
      ⊎ (((e.target == p.left_page) ≡ false) × IsPlace entries r)

  -- The child of a key after the split, by its child before.
  abbrev pub rerouted : K → Page → Page
  rerouted k child =
      if child == p.left_page then (if key.lt k p.key then p.left_page else p.right_page) else child

  find_child_in-IsNoChild :
      (entries : List (Entry K Page)) (r : Page) (k : K)
      → IsNoChild entries r
      → (find_child_in key entries r k == p.left_page) ≡ false
  unfolding find_child_in
  find_child_in-IsNoChild [] r k h = h
  find_child_in-IsNoChild (e ∷ entries) r k (h, hs) = elim (Bool-cases (le key e.key k)) [
    | inl before ↦ rw before (find_child_in-IsNoChild entries r k hs)
    | inr past ↦ rw past h
  ]

  abbrev promoted : Entry K Page
  promoted = record { key = p.key; target = p.left_page }

  IsNoChild-last :
      (entries : List (Entry K Page)) (r : Page) → IsNoChild entries r → (r == p.left_page) ≡ false
  IsNoChild-last [] r h = h
  IsNoChild-last (e ∷ entries) r h = IsNoChild-last entries r h.1

  -- Either the last child was split, or one of the entries'.
  abbrev Rerouted : List (Entry K Page) → Page → Type 0
  unfolding find_child_in promote_at
  Rerouted entries r =
      ((r ≡ p.left_page)
        × ((k : K)
            → find_child_in key (entries ++ (promoted ∷ [])) p.right_page k
              ≡ rerouted k (find_child_in key entries r k)))
      ⊎ (((r == p.left_page) ≡ false)
          × (es : List (Entry K Page)) × (promote_at key p entries ≡ some es)
          × ((k : K) → find_child_in key es r k ≡ rerouted k (find_child_in key entries r k)))

  module _ (order : IsOrder key) where
    at_last :
        (k : K) (r : Page)
        → r ≡ p.left_page
        → find_child_in key (promoted ∷ []) p.right_page k ≡ rerouted k r
    unfolding find_child_in
    at_last k r e = elim (Bool-cases (key.lt k p.key)) [
      | inl t ↦ rw (e, eq_self p.left_page, t) refl
      | inr t ↦ rw (e, eq_self p.left_page, t) refl
    ]

    at_entry :
        (e : Entry K Page) (entries : List (Entry K Page)) (r : Page) (k : K)
        → e.target ≡ p.left_page
        → le key p.key e.key ≡ true
        → IsNoChild entries r
        → find_child_in key (promoted ∷ record e { target = p.right_page } ∷ entries) r k
          ≡ rerouted k (find_child_in key (e ∷ entries) r k)
    unfolding find_child_in
    at_entry e entries r k here below none_later = elim (Bool-cases (le key e.key k)) [
      | inl past ↦
          let over : le key p.key k ≡ true = le_trans key order p.key e.key k below past in
          rw (past, over, find_child_in-IsNoChild entries r k none_later) refl
      | inr before ↦ elim (Bool-cases (key.lt k p.key)) [
        | inl t ↦ rw (before, here, eq_self p.left_page, t) refl
        | inr t ↦ rw (before, here, eq_self p.left_page, t) refl
      ]
    ]

    step :
        (e : Entry K Page) (es entries : List (Entry K Page)) (r r' : Page) (k : K)
        → (e.target == p.left_page) ≡ false
        → find_child_in key es r' k ≡ rerouted k (find_child_in key entries r k)
        → find_child_in key (e ∷ es) r' k ≡ rerouted k (find_child_in key (e ∷ entries) r k)
    unfolding find_child_in
    step e es entries r r' k no_child rest = elim (Bool-cases (le key e.key k)) [
      | inl past ↦ rw past rest
      | inr before ↦ rw (before, no_child) refl
    ]

    promote_cases :
        (entries : List (Entry K Page)) (r : Page) → IsPlace entries r → Rerouted entries r
    unfolding Rerouted promote_at
    promote_cases [] r h = inl (h, λ k. at_last k r h)
    promote_cases (e ∷ entries) r (inl (here, below, none_later)) =
        let t : (e.target == p.left_page) ≡ true = rw here (eq_self p.left_page) in
        inr (
          IsNoChild-last entries r none_later,
          promoted ∷ record e { target = p.right_page } ∷ entries,
          rw t refl,
          λ k. at_entry e entries r k here below none_later,
        )
    promote_cases (e ∷ entries) r (inr (no_child, place)) = elim (promote_cases entries r place) [
      | inl (last, routes) ↦ inl (
        last,
        λ k. step e (entries ++ (promoted ∷ [])) entries r p.right_page k no_child (routes k),
      )
      | inr (not_last, es, inserted, routes) ↦ inr (
        not_last,
        e ∷ es,
        rw (no_child, inserted) refl,
        λ k. step e es entries r r k no_child (routes k),
      )
    ]

    -- When a child was split and its promoted key is at most the key on its right, the parent that takes the
    -- promotion routes each key that went to the child to the left half when the key is less than the promoted
    -- one and else to the right half, and every other key as before.
    pub find_child-promote_body :
        (body : InternalNodeBody K) (k : K)
        → IsPlace body.entries body.rightmost_child
        → (body' : InternalNodeBody K) × (promote_body key p body ≡ ok body')
          × (find_child key body' k ≡ rerouted k (find_child key body k))
    unfolding promote_body find_child Rerouted
    find_child-promote_body body k place =
        elim (promote_cases body.entries body.rightmost_child place) [
          | inl (last, routes) ↦
              let t : (body.rightmost_child == p.left_page) ≡ true =
                rw last (eq_self p.left_page) in
              (
                record {
                  entries = body.entries ++ (promoted ∷ []);
                  rightmost_child = p.right_page;
                },
                rw t refl,
                routes k,
              )
          | inr (not_last, es, inserted, routes) ↦
              (record body { entries = es }, rw (not_last, inserted) refl, routes k)
        ]
