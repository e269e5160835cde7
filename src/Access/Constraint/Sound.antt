-- ===== src/Access/Constraint/Sound.antt =====
-- Narrowing a constraint keeps the values that the predicate allows, and gives up only when there are
-- none.
use wasm_dbms.Prelude.{
  ◌≡◌, refl, List, [], ◌∷◌, Bool, true, false, not, ◌&&◌, ◌⊎◌, inl, inr, Bool-cases, arith, Option,
  none, some,
}
use wasm_dbms.Prelude.Names.{is_some_and}
use wasm_dbms.Query.Filter.{Values, value_is_null}
use wasm_dbms.Access.Scan.{Bound, included, excluded, unbounded, admits_lower, admits_upper}
use wasm_dbms.Access.Constraint.{
  ColumnConstraint, Update, equals, is_in, is_not_null, at_least, at_most, Ordering, same_ordering,
  flip, stricter, stricter_at, is_excluded, cmp, contains, apply, narrow_list, dedup, sort,
}
use wasm_dbms.Access.Constraint.Order.{IsOrdered, eq-eq, contains-filter_values, contains-dedup}

module _ {V J F E : Type 0} (values : Values V J F E) where
  abbrev pub allows_eq : Option V → V → Bool
  allows_eq none v = true
  allows_eq (some e) v = values.eq v e

  abbrev pub allows_list : Option (List V) → V → Bool
  allows_list none v = true
  allows_list (some list) v = contains values v list

  -- The value is one that the constraint leaves.
  pub record Satisfies (c : ColumnConstraint V) (v : V) : Type 0 where
    pub eq_ok : allows_eq c.eq v ≡ true
    pub list_ok : allows_list c.in_list v ≡ true
    pub null_ok : (c.not_null && value_is_null values v) ≡ false
    pub lower_ok : admits_lower values c.lower v ≡ true
    pub upper_ok : admits_upper values c.upper v ≡ true

  -- The value meets the predicate.
  abbrev pub meets : Update V → V → Bool
  meets (equals w) v = values.eq v w
  meets (is_in list) v = contains values v list
  meets is_not_null v = not (value_is_null values v)
  meets (at_least bound) v = admits_lower values bound v
  meets (at_most bound) v = admits_upper values bound v

  stricter_at-either :
      (a b : Bound V) (t o : Ordering)
      → (stricter_at values a b t o ≡ a) ⊎ (stricter_at values a b t o ≡ b)
  stricter_at-either a b t o = elim (Bool-cases (same_ordering o t)) [
    | inl e ↦ inl (rw e refl)
    | inr e ↦ elim (Bool-cases (same_ordering o (flip t))) [
      | inl f ↦ inr (rw (e, f) refl)
      | inr f ↦ elim (Bool-cases (is_excluded a)) [
        | inl g ↦ inl (rw (e, f, g) refl)
        | inr g ↦ inr (rw (e, f, g) refl)
      ]
    ]
  ]

  pub stricter-either :
      (a b : Bound V) (t : Ordering) → (stricter values a b t ≡ a) ⊎ (stricter values a b t ≡ b)
  unfolding stricter
  stricter-either unbounded b t = inr refl
  stricter-either (included c) unbounded t = inl refl
  stricter-either (excluded c) unbounded t = inl refl
  stricter-either (included c) (included n) t =
      stricter_at-either (included c) (included n) t (cmp values c n)
  stricter-either (included c) (excluded n) t =
      stricter_at-either (included c) (excluded n) t (cmp values c n)
  stricter-either (excluded c) (included n) t =
      stricter_at-either (excluded c) (included n) t (cmp values c n)
  stricter-either (excluded c) (excluded n) t =
      stricter_at-either (excluded c) (excluded n) t (cmp values c n)

  stricter-holds :
      (P : Bound V → Bool) (a b : Bound V) (t : Ordering)
      → P a ≡ true
      → P b ≡ true
      → P (stricter values a b t) ≡ true
  stricter-holds P a b t ha hb = elim (stricter-either a b t) [ inl e ↦ rw e ha | inr e ↦ rw e hb ]

module _ {V J F E : Type 0} (values : Values V J F E) (order : IsOrdered values) where
  eq_trans : (a b c : V) → values.eq a b ≡ true → values.eq a c ≡ true → values.eq c b ≡ true
  eq_trans a b c ab ac = rw (← eq-eq values order a c b ac) ab

  eq_existing :
      (existing : Option V) (v w : V)
      → allows_eq values existing v ≡ true
      → values.eq v w ≡ true
      → is_some_and (λ e. not (values.eq e w)) existing ≡ false
  eq_existing none v w h k = refl
  eq_existing (some e) v w h k = rw (eq_trans v w e k h) refl

  -- A list that has a value has those equal to it.
  pub contains-eq :
      (v w : V) (list : List V)
      → values.eq v w ≡ true
      → contains values v list ≡ true
      → contains values w list ≡ true
  contains-eq v w [] e k = k
  contains-eq v w (x ∷ xs) e k = elim (Bool-cases (values.eq v x)) [
    | inl same ↦ rw (← eq-eq values order v w x e, same) refl
    | inr other ↦ rw (← eq-eq values order v w x e, other) (contains-eq v w xs e (rw other at k))
  ]

  narrow_list-holds :
      (existing : Option (List V)) (list : List V) (v : V)
      → allows_list values existing v ≡ true
      → contains values v list ≡ true
      → contains values v (narrow_list values existing list) ≡ true
  narrow_list-holds none list v h k = k
  narrow_list-holds (some old) list v h k =
      contains-filter_values values order v (λ w. contains values w list) old
        (λ w e. contains-eq v w list e k) h

  -- A value that a constraint leaves, and that meets a predicate, is left by the constraint narrowed by
  -- the predicate, which is not given up.
  pub apply-Satisfies :
      (update : Update V) (c : ColumnConstraint V) (v : V)
      → Satisfies values c v
      → meets values update v ≡ true
      → (d : ColumnConstraint V) × (apply values update c ≡ some d) × Satisfies values d v
  unfolding apply
  apply-Satisfies (equals w) c v s h = (
    record c { eq = some w },
    rw (eq_existing c.eq v w s.eq_ok h) refl,
    record {
      eq_ok = h;
      list_ok = s.list_ok;
      null_ok = s.null_ok;
      lower_ok = s.lower_ok;
      upper_ok = s.upper_ok;
    },
  )
  apply-Satisfies (is_in list) c v s h = (
    _,
    refl,
    record {
      list_ok =
          narrow_list-holds c.in_list (dedup values (sort values list)) v s.list_ok
            (contains-dedup values order v list h);
      eq_ok = s.eq_ok;
      null_ok = s.null_ok;
      lower_ok = s.lower_ok;
      upper_ok = s.upper_ok;
    },
  )
  apply-Satisfies is_not_null c v s h = (
    _,
    refl,
    record {
      null_ok = ground arith;
      eq_ok = s.eq_ok;
      list_ok = s.list_ok;
      lower_ok = s.lower_ok;
      upper_ok = s.upper_ok;
    },
  )
  apply-Satisfies (at_least bound) c v s h = (
    _,
    refl,
    record {
      lower_ok =
          stricter-holds values (λ b. admits_lower values b v) c.lower bound Ordering.greater
            s.lower_ok h;
      eq_ok = s.eq_ok;
      list_ok = s.list_ok;
      null_ok = s.null_ok;
      upper_ok = s.upper_ok;
    },
  )
  apply-Satisfies (at_most bound) c v s h = (
    _,
    refl,
    record {
      upper_ok =
          stricter-holds values (λ b. admits_upper values b v) c.upper bound Ordering.less
            s.upper_ok h;
      eq_ok = s.eq_ok;
      list_ok = s.list_ok;
      null_ok = s.null_ok;
      lower_ok = s.lower_ok;
    },
  )
