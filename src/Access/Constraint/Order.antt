-- ===== src/Access/Constraint/Order.antt =====
-- What `Ord` and `PartialEq` of the values promise, and lists of values up to equality.
use wasm_dbms.Prelude.{
  ◌≡◌, refl, List, [], ◌∷◌, Bool, true, false, not, ◌&&◌, ◌||◌, ◌⊎◌, inl, inr, Bool-cases, arith,
}
use wasm_dbms.Query.Filter.{Values, value_is_null}
use wasm_dbms.Access.Constraint.{insert_value, sort, dedup_after, dedup, filter_values, contains}

module _ {V J F E : Type 0} (values : Values V J F E) where
  -- The comparisons are those of one order, and equal values are both null or neither.
  pub record IsOrdered : Type 0 where
    pub gt_lem : (a b : V) → values.gt a b ≡ values.lt b a
    pub le_lem : (a b : V) → values.le a b ≡ not (values.lt b a)
    pub ge_lem : (a b : V) → values.ge a b ≡ not (values.lt a b)
    pub eq_lem : (a b : V) → values.eq a b ≡ (not (values.lt a b) && not (values.lt b a))
    pub lt_asymm : (a b : V) → values.lt a b ≡ true → values.lt b a ≡ false
    pub lt_split :
        (a b c : V) → values.lt a c ≡ true → (values.lt a b ≡ true) ⊎ (values.lt b c ≡ true)
    pub null_lem :
        (a b : V) → values.eq a b ≡ true → value_is_null values a ≡ value_is_null values b

module _ {V J F E : Type 0} (values : Values V J F E) (order : IsOrdered values) where
  pub eq_symm : (a b : V) → values.eq a b ≡ true → values.eq b a ≡ true
  eq_symm a b h = let k = rw (order.eq_lem a b) at h in rw (order.eq_lem b a) (ground arith)

  -- Neither of two equal values is less than the other.
  pub eq_not_lt :
      (a b : V) → values.eq a b ≡ true → (values.lt a b ≡ false) × (values.lt b a ≡ false)
  eq_not_lt a b h =
      let k = rw (order.eq_lem a b) at h in
      elim (Bool-cases (values.lt a b)) [
        | inl e ↦ absurd (ground arith)
        | inr e ↦ elim (Bool-cases (values.lt b a)) [
          | inl f ↦ absurd (ground arith)
          | inr f ↦ (e, f)
        ]
      ]

  -- Equal values are below the same values.
  pub eq-lt_left : (a b c : V) → values.eq a b ≡ true → values.lt a c ≡ values.lt b c
  eq-lt_left a b c h =
      let (ab, ba) = eq_not_lt a b h in
      elim (Bool-cases (values.lt a c)) [
        | inl ac ↦ elim (order.lt_split a b c ac) [ inl e ↦ cc | inr e ↦ cc ]
        | inr ac ↦ elim (Bool-cases (values.lt b c)) [
          | inl bc ↦ elim (order.lt_split b a c bc) [ inl e ↦ cc | inr e ↦ cc ]
          | inr bc ↦ cc
        ]
      ]

  -- The same values are below equal values.
  pub eq-lt_right : (a b c : V) → values.eq a b ≡ true → values.lt c a ≡ values.lt c b
  eq-lt_right a b c h =
      let (ab, ba) = eq_not_lt a b h in
      elim (Bool-cases (values.lt c a)) [
        | inl ca ↦ elim (order.lt_split c b a ca) [ inl e ↦ cc | inr e ↦ cc ]
        | inr ca ↦ elim (Bool-cases (values.lt c b)) [
          | inl cb ↦ elim (order.lt_split c a b cb) [ inl e ↦ cc | inr e ↦ cc ]
          | inr cb ↦ cc
        ]
      ]

  pub eq-eq : (a b c : V) → values.eq a b ≡ true → values.eq a c ≡ values.eq b c
  eq-eq a b c h =
      rw (order.eq_lem a c, order.eq_lem b c, eq-lt_left a b c h, eq-lt_right a b c h) refl

  or_of_right : (a b : Bool) → b ≡ true → (a || b) ≡ true
  or_of_right a b h = ground arith

  -- A value in a list stays when the list loses only values that are not equal to it.
  pub contains-filter_values :
      (v : V) (test : V → Bool) (list : List V)
      → ((w : V) → values.eq v w ≡ true → test w ≡ true)
      → contains values v list ≡ true
      → contains values v (filter_values values test list) ≡ true
  contains-filter_values v test [] keeps h = h
  contains-filter_values v test (w ∷ ws) keeps h = elim (Bool-cases (values.eq v w)) [
    | inl e ↦ rw (keeps w e, e) refl
    | inr e ↦
        let later = contains-filter_values v test ws keeps (rw e at h) in
        elim (Bool-cases (test w)) [ inl t ↦ rw (t, e) later | inr t ↦ rw t later ]
  ]

  contains-insert_value :
      (v w : V) (list : List V)
      → (values.eq v w || contains values v list) ≡ true
      → contains values v (insert_value values w list) ≡ true
  contains-insert_value v w [] h = h
  contains-insert_value v w (x ∷ xs) h = elim (Bool-cases (values.lt x w)) [
    | inr k ↦ rw k h
    | inl k ↦ elim (Bool-cases (values.eq v x)) [
      | inl e ↦ rw (k, e) refl
      | inr e ↦ rw (k, e) (contains-insert_value v w xs (rw e at h))
    ]
  ]

  contains-sort :
      (v : V) (list : List V)
      → contains values v list ≡ true
      → contains values v (sort values list) ≡ true
  contains-sort v [] h = h
  contains-sort v (w ∷ ws) h =
      contains-insert_value v w (sort values ws) (elim (Bool-cases (values.eq v w)) [
        | inl e ↦ rw e refl
        | inr e ↦ rw e (contains-sort v ws (rw e at h))
      ])

  contains-dedup_after :
      (v w : V) (list : List V)
      → (values.eq v w || contains values v list) ≡ true
      → (values.eq v w || contains values v (dedup_after values w list)) ≡ true
  contains-dedup_after v w [] h = h
  contains-dedup_after v w (x ∷ xs) h = elim (Bool-cases (values.eq v w)) [
    | inl e ↦ rw e refl
    | inr e ↦ elim (Bool-cases (values.eq x w)) [
      | inl same ↦
          let missed : values.eq v x ≡ false = elim (Bool-cases (values.eq v x)) [
            | inl k ↦ cc (eq-eq v x w k)
            | inr k ↦ k
          ] in
          rw same (contains-dedup_after v w xs (rw e (rw (e, missed) at h)))
      | inr other ↦ rw (e, other) (contains-dedup_after v x xs (rw e at h))
    ]
  ]

  pub contains-dedup :
      (v : V) (list : List V)
      → contains values v list ≡ true
      → contains values v (dedup values (sort values list)) ≡ true
  contains-dedup v list h = kept (sort values list) (contains-sort v list h)
    where
      kept : (l : List V) → contains values v l ≡ true → contains values v (dedup values l) ≡ true
      kept [] k = k
      kept (w ∷ ws) k = contains-dedup_after v w ws k
