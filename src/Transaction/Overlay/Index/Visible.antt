-- ===== src/Transaction/Overlay/Index/Visible.antt =====
-- The entries of an index that a transaction sees: those stored and not removed, and those added.
use wasm_dbms.Prelude.{◌≡◌, refl, ◌∙◌, List, [], ◌∷◌, Bool, true, false, not, ◌&&◌, ◌||◌}
use wasm_dbms.Prelude.{if◌then◌else◌, Bool-cases, inl, inr}
use wasm_dbms.Prelude.Names.{Eq}
use wasm_dbms.Transaction.Overlay.Index.{IndexColumnOverlay, PkMap, values_eq, member}
use wasm_dbms.Transaction.Overlay.Index.{
  set_insert, set_remove, pks, add_pk, remove_pk, column_insert,
}
use wasm_dbms.Transaction.Overlay.Index.{column_delete}

or_true : (b : Bool) → (b || true) ≡ true
or_true true = refl
or_true false = refl

or_false : (b : Bool) → (b || false) ≡ b
or_false true = refl
or_false false = refl

and_false : (b : Bool) → (b && false) ≡ false
and_false true = refl
and_false false = refl

module _ {V : Type 0} ⦃e : Eq V⦄ where
  values_eq_refl : (xs : List V) → values_eq xs xs ≡ true
  values_eq_refl [] = refl
  values_eq_refl (x ∷ xs) = rw ((e.eq_iff x x).1 refl) (values_eq_refl xs)

  values_eq_lem : (xs ys : List V) → values_eq xs ys ≡ true → xs ≡ ys
  values_eq_lem [] [] h = refl
  values_eq_lem [] (y ∷ ys) h = cc
  values_eq_lem (x ∷ xs) [] h = cc
  values_eq_lem (x ∷ xs) (y ∷ ys) h = elim (Bool-cases (e.eq x y)) [
    | inl p ↦ cc ((e.eq_iff x y).0 p, values_eq_lem xs ys (rw p at h))
    | inr p ↦ cc (rw p at h)
  ]

  member-set_insert :
      (pk k : V) (s : List V)
      → member k (set_insert pk s) ≡ (if e.eq k pk then true else member k s)
  member-set_insert pk k s = elim (Bool-cases (member pk s)) [
    | inl there ↦ elim (Bool-cases (e.eq k pk)) [
      | inl same ↦ rw (there, same, (e.eq_iff k pk).0 same) there
      | inr other ↦ rw (there, other) refl
    ]
    | inr absent ↦ elim (Bool-cases (e.eq k pk)) [
      | inl same ↦ rw (absent, same) refl
      | inr other ↦ rw (absent, other) refl
    ]
  ]

  member-set_remove :
      (pk k : V) (s : List V)
      → member k (set_remove pk s) ≡ (if e.eq k pk then false else member k s)
  member-set_remove pk k [] = elim (Bool-cases (e.eq k pk)) [ inl p ↦ rw p | inr p ↦ rw p ]
  member-set_remove pk k (x ∷ s) =
      let ih = member-set_remove pk k s in
      elim (Bool-cases (e.eq pk x)) [
        | inl same ↦ elim (Bool-cases (e.eq k pk)) [
          | inl p ↦ rw (same, ih, p) refl
          | inr p ↦ rw (same, ih, p, ← (e.eq_iff pk x).0 same, p) refl
        ]
        | inr other ↦ elim (Bool-cases (e.eq k pk)) [
          | inl p ↦ rw (other, ih, p, (e.eq_iff k pk).0 p, other) refl
          | inr p ↦ rw (other, ih, p) refl
        ]
      ]

  pks-add_pk :
      (v values : List V) (pk : V) (m : PkMap V)
      → pks v (add_pk values pk m)
        ≡ (if values_eq v values then set_insert pk (pks v m) else pks v m)
  pks-add_pk v values pk [] = elim (Bool-cases (values_eq v values)) [ inl p ↦ rw p | inr p ↦ rw p ]
  pks-add_pk v values pk ((w, s) ∷ m) = elim (Bool-cases (values_eq values w)) [
    | inl here ↦ elim (Bool-cases (values_eq v values)) [
      | inl same ↦ rw (here, same, ← values_eq_lem values w here, same) refl
      | inr other ↦ rw (here, other, ← values_eq_lem values w here, other) refl
    ]
    | inr not_here ↦ elim (Bool-cases (values_eq v w)) [
      | inl p ↦ elim (Bool-cases (values_eq v values)) [
        | inl same ↦ cc (rw (← values_eq_lem v values same, p) at not_here)
        | inr other ↦ rw (not_here, p, other) refl
      ]
      | inr p ↦ rw (not_here, p) (pks-add_pk v values pk m)
    ]
  ]

  pks-remove_pk :
      (v values : List V) (pk : V) (m : PkMap V)
      → pks v (remove_pk values pk m)
        ≡ (if values_eq v values then set_remove pk (pks v m) else pks v m)
  pks-remove_pk v values pk [] = elim (Bool-cases (values_eq v values)) [
    | inl p ↦ rw p
    | inr p ↦ rw p
  ]
  pks-remove_pk v values pk ((w, s) ∷ m) = elim (Bool-cases (values_eq values w)) [
    | inl here ↦ elim (Bool-cases (values_eq v values)) [
      | inl same ↦ rw (here, same, ← values_eq_lem values w here, same) refl
      | inr other ↦ rw (here, other, ← values_eq_lem values w here, other) refl
    ]
    | inr not_here ↦ elim (Bool-cases (values_eq v w)) [
      | inl p ↦ elim (Bool-cases (values_eq v values)) [
        | inl same ↦ cc (rw (← values_eq_lem v values same, p) at not_here)
        | inr other ↦ rw (not_here, p, other) refl
      ]
      | inr p ↦ rw (not_here, p) (pks-remove_pk v values pk m)
    ]
  ]

  -- Whether the map holds the key `k` under the values `v`.
  abbrev pub has : List V → V → PkMap V → Bool
  has v k m = member k (pks v m)

  abbrev pub same_entry : List V → V → List V → V → Bool
  same_entry v k values pk = values_eq v values && e.eq k pk

  same_entry_lem :
      (v values : List V) (k pk : V) → same_entry v k values pk ≡ true → (v ≡ values) × (k ≡ pk)
  same_entry_lem v values k pk h = elim (Bool-cases (values_eq v values)) [
    | inl p ↦ (values_eq_lem v values p, (e.eq_iff k pk).0 (rw p at h))
    | inr p ↦ cc (rw p at h)
  ]

  has-add_pk :
      (v values : List V) (k pk : V) (m : PkMap V)
      → has v k (add_pk values pk m) ≡ (if same_entry v k values pk then true else has v k m)
  has-add_pk v values k pk m = elim (Bool-cases (values_eq v values)) [
    | inl p ↦ rw (pks-add_pk v values pk m, p) (member-set_insert pk k (pks v m))
    | inr p ↦ rw (pks-add_pk v values pk m, p) refl
  ]

  has-remove_pk :
      (v values : List V) (k pk : V) (m : PkMap V)
      → has v k (remove_pk values pk m) ≡ (if same_entry v k values pk then false else has v k m)
  has-remove_pk v values k pk m = elim (Bool-cases (values_eq v values)) [
    | inl p ↦ rw (pks-remove_pk v values pk m, p) (member-set_remove pk k (pks v m))
    | inr p ↦ rw (pks-remove_pk v values pk m, p) refl
  ]

  -- What a reader sees of an entry of which `stored` says whether the index holds it.
  abbrev pub is_visible : (List V → V → Bool) → IndexColumnOverlay V → List V → V → Bool
  is_visible stored o v k = (stored v k && not (has v k o.removed)) || has v k o.added

  -- After an insertion the entry is visible, and every other entry is what it was.
  pub is_visible-column_insert :
      (stored : List V → V → Bool) (o : IndexColumnOverlay V) (values v : List V) (pk k : V)
      → is_visible stored (column_insert values pk o) v k
        ≡ (if same_entry v k values pk then true else is_visible stored o v k)
  unfolding column_insert
  is_visible-column_insert stored o values v pk k = elim (Bool-cases (same_entry v k values pk)) [
    | inl d ↦
        rw (has-add_pk v values k pk o.added, has-remove_pk v values k pk o.removed, d)
          (or_true (stored v k && true))
    | inr d ↦ rw (has-add_pk v values k pk o.added, has-remove_pk v values k pk o.removed, d) refl
  ]

  -- After a deletion the entry is hidden, unless the index holds it and the overlay had added it
  -- without keeping it among the removed ones; every other entry is what it was.
  pub is_visible-column_delete :
      (stored : List V → V → Bool) (o : IndexColumnOverlay V) (values v : List V) (pk k : V)
      → is_visible stored (column_delete values pk o) v k ≡ (
          if same_entry v k values pk
          then stored v k && (has v k o.added && not (has v k o.removed))
          else is_visible stored o v k)
  unfolding column_delete
  is_visible-column_delete stored o values v pk k = elim (Bool-cases (same_entry v k values pk)) [
    | inl d ↦
        let (v_eq, k_eq) = same_entry_lem v values k pk d in
        elim (Bool-cases (has values pk o.added)) [
          | inl was ↦
              let was' : has v k o.added ≡ true = rw (v_eq, k_eq) was in
              rw (was, has-remove_pk v values k pk o.added, d, was') (or_false _)
          | inr was ↦
              let was' : has v k o.added ≡ false = rw (v_eq, k_eq) was in
              rw
                (
                  was,
                  has-remove_pk v values k pk o.added,
                  has-add_pk v values k pk o.removed,
                  d,
                  was',
                )
                (or_false (stored v k && false))
        ]
    | inr d ↦ elim (Bool-cases (has values pk o.added)) [
      | inl was ↦ rw (was, has-remove_pk v values k pk o.added, d) refl
      | inr was ↦
          rw (was, has-remove_pk v values k pk o.added, has-add_pk v values k pk o.removed, d) refl
    ]
  ]

  -- An entry of the stored index that is deleted, inserted again and deleted again is visible.
  pub is_visible-delete_insert_delete :
      (stored : List V → V → Bool) (o : IndexColumnOverlay V) (values : List V) (pk : V)
      → stored values pk ≡ true
      → is_visible stored
          (column_delete values pk (column_insert values pk (column_delete values pk o)))
          values
          pk
        ≡ true
  unfolding column_insert
  is_visible-delete_insert_delete stored o values pk h =
      let o' = column_delete values pk o in
      let same : same_entry values pk values pk ≡ true =
        rw (values_eq_refl values) ((e.eq_iff pk pk).1 refl) in
      is_visible-column_delete stored (column_insert values pk o') values values pk pk
      ∙ rw
          (
            same,
            h,
            has-add_pk values values pk pk o'.added,
            has-remove_pk values values pk pk o'.removed,
            same,
          )
          refl
