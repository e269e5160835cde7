-- ===== src/Access/Constraint/Normal.antt =====
-- The normal form of a constraint leaves the values that the constraint leaves.
use wasm_dbms.Prelude.{
  ◌≡◌, refl, List, [], ◌∷◌, true, false, ◌&&◌, inl, inr, Bool-cases, arith, Option, none, some,
}
use wasm_dbms.Query.Filter.{Values, value_is_null}
use wasm_dbms.Access.Scan.{Bound, included, excluded, unbounded, admits_lower, admits_upper}
use wasm_dbms.Access.Constraint.{
  ColumnConstraint, is_empty_interval, admits, contains, admitted, of_list, normalize,
  normalize_list, normalize_bounds, filter_values,
}
use wasm_dbms.Access.Constraint.Order.{IsOrdered, eq-lt_left, eq-lt_right, contains-filter_values}
use wasm_dbms.Access.Constraint.Sound.{allows_eq, allows_list, Satisfies, contains-eq}

module _ {V J F E : Type 0} (values : Values V J F E) (order : IsOrdered values) where
  admits_lower-eq :
      (b : Bound V) (v w : V)
      → values.eq v w ≡ true
      → admits_lower values b v ≡ admits_lower values b w
  admits_lower-eq (included l) v w e =
      rw (order.ge_lem v l, order.ge_lem w l, eq-lt_left values order v w l e) refl
  admits_lower-eq (excluded l) v w e =
      rw (order.gt_lem v l, order.gt_lem w l, eq-lt_right values order v w l e) refl
  admits_lower-eq unbounded v w e = refl

  admits_upper-eq :
      (b : Bound V) (v w : V)
      → values.eq v w ≡ true
      → admits_upper values b v ≡ admits_upper values b w
  admits_upper-eq (included u) v w e =
      rw (order.le_lem v u, order.le_lem w u, eq-lt_right values order v w u e) refl
  admits_upper-eq (excluded u) v w e = eq-lt_left values order v w u e
  admits_upper-eq unbounded v w e = refl

  -- A value within two bounds shows that the interval is not empty.
  is_empty_interval-admits :
      (lower upper : Bound V) (v : V)
      → admits_lower values lower v ≡ true
      → admits_upper values upper v ≡ true
      → is_empty_interval values lower upper ≡ false
  unfolding is_empty_interval
  is_empty_interval-admits (included l) (included u) v hl hu = elim (Bool-cases (values.lt u l)) [
    | inr e ↦ rw (order.gt_lem l u) e
    | inl e ↦ elim (order.lt_split u v l e) [
      | inl k ↦ cc (rw (order.le_lem v u, k) at hu)
      | inr k ↦ cc (rw (order.ge_lem v l, k) at hl)
    ]
  ]
  is_empty_interval-admits (included l) (excluded u) v hl hu = elim (order.lt_split v l u hu) [
    | inl k ↦ cc (rw (order.ge_lem v l, k) at hl)
    | inr k ↦ rw (order.ge_lem l u, k) refl
  ]
  is_empty_interval-admits (excluded l) (included u) v hl hu =
      elim (order.lt_split l u v (rw (order.gt_lem v l) at hl)) [
        | inl k ↦ rw (order.ge_lem l u, k) refl
        | inr k ↦ cc (rw (order.le_lem v u, k) at hu)
      ]
  is_empty_interval-admits (excluded l) (excluded u) v hl hu =
      elim (order.lt_split l u v (rw (order.gt_lem v l) at hl)) [
        | inl k ↦ rw (order.ge_lem l u, k) refl
        | inr k ↦ cc (order.lt_asymm v u hu)
      ]
  is_empty_interval-admits (included l) unbounded v hl hu = refl
  is_empty_interval-admits (excluded l) unbounded v hl hu = refl
  is_empty_interval-admits unbounded upper v hl hu = refl

  -- A value equal to one that the constraint leaves is within its bounds, and not a forbidden null.
  admits-Satisfies :
      (c : ColumnConstraint V) (v w : V)
      → Satisfies values c v
      → values.eq v w ≡ true
      → (admits values c w ≡ true) × ((c.not_null && value_is_null values w) ≡ false)
  admits-Satisfies c v w s e = (
    rw (← admits_lower-eq c.lower v w e, ← admits_upper-eq c.upper v w e, s.lower_ok, s.upper_ok)
        refl,
    rw (← order.null_lem v w e) s.null_ok,
  )

  contains-admitted :
      (c : ColumnConstraint V) (list : List V) (v : V)
      → Satisfies values c v
      → contains values v list ≡ true
      → contains values v (admitted values c list) ≡ true
  contains-admitted c list v s h =
      contains-filter_values values order v _ (filter_values values (admits values c) list)
        (λ w e. rw (admits-Satisfies c v w s e).1 refl)
        (contains-filter_values values order v (admits values c) list
          (λ w e. (admits-Satisfies c v w s e).0) h)

  module _ (c : ColumnConstraint V) (v : V) (s : Satisfies values c v) where
    abbrev Kept : Option (ColumnConstraint V) → Type 0
    Kept o = (d : ColumnConstraint V) × (o ≡ some d) × Satisfies values d v

    -- The constraint with its list gone and another value it may equal.
    abbrev listless : Option V → Option (List V) → ColumnConstraint V
    listless e l = record c { in_list = l; eq = e }

    listless-Satisfies :
        (e : Option V) (l : Option (List V))
        → allows_eq values e v ≡ true
        → allows_list values l v ≡ true
        → Satisfies values (listless e l) v
    listless-Satisfies e l he hl = record {
      eq_ok = he;
      list_ok = hl;
      null_ok = s.null_ok;
      lower_ok = s.lower_ok;
      upper_ok = s.upper_ok;
    }

    of_list-Kept : (list : List V) → contains values v list ≡ true → Kept (of_list values c list)
    of_list-Kept [] h = cc
    of_list-Kept (w ∷ []) h = (_, refl, listless-Satisfies (some w) none (ground arith) refl)
    of_list-Kept (w ∷ x ∷ ws) h = (_, refl, listless-Satisfies c.eq (some (w ∷ x ∷ ws)) s.eq_ok h)

    normalize_list-Kept :
        (list : Option (List V)) (e : Option V)
        → allows_list values list v ≡ true
        → allows_eq values e v ≡ true
        → Kept (normalize_list values c list e)
    unfolding normalize_list
    normalize_list-Kept none e hl he = (c, refl, s)
    normalize_list-Kept (some list) (some e) hl he =
        let found = contains-admitted c list v s hl in
        (
          listless c.eq none,
          rw (contains-eq values order v e (admitted values c list) he found) refl,
          listless-Satisfies c.eq none s.eq_ok refl,
        )
    normalize_list-Kept (some list) none hl he =
        of_list-Kept (admitted values c list) (contains-admitted c list v s hl)

    normalize_bounds-Kept :
        (e : Option V) → allows_eq values e v ≡ true → Kept (normalize_bounds values c e)
    unfolding normalize_bounds
    normalize_bounds-Kept none he =
        (c, rw (is_empty_interval-admits c.lower c.upper v s.lower_ok s.upper_ok) refl, s)
    normalize_bounds-Kept (some e) he =
        let (inside, no_null) = admits-Satisfies c v e s he in
        (
          record c { lower = unbounded; upper = unbounded },
          rw (inside, no_null) refl,
          record {
            eq_ok = s.eq_ok;
            list_ok = s.list_ok;
            null_ok = s.null_ok;
            lower_ok = refl;
            upper_ok = refl;
          },
        )

  -- A constraint that leaves a value has a normal form, which leaves it too.
  pub normalize-Satisfies :
      (c : ColumnConstraint V) (v : V)
      → Satisfies values c v
      → (d : ColumnConstraint V) × (normalize values c ≡ some d) × Satisfies values d v
  unfolding normalize
  normalize-Satisfies c v s =
      let (d, e, t) = normalize_list-Kept c v s c.in_list c.eq s.list_ok s.eq_ok in
      let (f, g, u) = normalize_bounds-Kept d v t d.eq t.eq_ok in (f, rw (normalize, e) g, u)
