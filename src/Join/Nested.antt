-- ===== src/Join/Nested.antt =====
-- The hash join against the nested loops over both sides' rows.
use mathlib.Core.List.{append_assoc, append-nil}
use wasm_dbms.Prelude.{
  ℕ, suc, ◌+◌, ◌≡◌, refl, sym, ap, ◌∙◌, arith, List, [], ◌∷◌, ◌++◌, map, length, length-append,
  replicate, Bool, true, false, not, ◌||◌, Option, none, some, if◌then◌else◌, Bool-cases, inl, inr,
}
use wasm_dbms.Prelude.Names.{Name, Eq, any}
use wasm_dbms.Prelude.Result.{ok}
use wasm_dbms.Join.{
  TableRow, RowRef, KeyPosition, JoinSide, position, left_value, build_table, probe, probe_loop,
  marks, set_true, mark_all, unmatched_right, hash_join,
}
use wasm_dbms.Join.Matched.{
  as_option, is_match, matching, add_all, matches_in-add_all, Cells, build_loop-Cells,
}

module _ {V : Type 0} (equal : Eq V) (null : V) where
  -- The rows that a left row is joined to, in the order of the right rows; alone, when it is kept.
  abbrev pub joined_row : Bool → RowRef → List ℕ → List RowRef
  joined_row keep_left row [] = if keep_left then (row ++ (none ∷ [])) ∷ [] else []
  joined_row keep_left row (i ∷ indexes) = map (λ (j : ℕ). row ++ (some j ∷ [])) (i ∷ indexes)

  abbrev pub joined_rows : Bool → List V → List RowRef → List (Option V) → List RowRef
  joined_rows keep_left keys [] _ = []
  joined_rows keep_left keys (row ∷ rows) [] = []
  joined_rows keep_left keys (row ∷ rows) (l ∷ lefts) =
      joined_row keep_left row (matching equal null l keys 0)
      ++ joined_rows keep_left keys rows lefts

  -- Whether a right row is matched by any left one.
  abbrev pub is_matched : List (Option V) → V → Bool
  is_matched lefts r = any (λ l. is_match equal null l r) lefts

  -- The right rows that no left row matches, by their indexes, after one `none` for each other side.
  abbrev pub unmatched_rows : ℕ → List (Option V) → List V → ℕ → List RowRef
  unmatched_rows width lefts [] index = []
  unmatched_rows width lefts (k ∷ keys) index =
      let later = unmatched_rows width lefts keys (index + 1) in
      if not (is_matched lefts k)
      then (replicate width none ++ (some index ∷ [])) ∷ later
      else later

  abbrev pub nested_loops : ℕ → List RowRef → List (Option V) → List V → Bool → Bool → List RowRef
  nested_loops width rows lefts keys keep_left keep_right =
      if keep_right
      then joined_rows keep_left keys rows lefts ++ unmatched_rows width lefts keys 0
      else joined_rows keep_left keys rows lefts

  unmatched_right_lem :
      (width : ℕ) (lefts : List (Option V)) (keys : List V) (index : ℕ)
      → unmatched_right equal null width index (map (is_matched lefts) keys)
        ≡ unmatched_rows width lefts keys index
  unmatched_right_lem width lefts [] index = refl
  unmatched_right_lem width lefts (k ∷ keys) index = elim (Bool-cases (is_matched lefts k)) [
    | inl e ↦ rw (unmatched_right, e) (unmatched_right_lem width lefts keys (index + 1))
    | inr e ↦
        rw (unmatched_right, e)
          (ap (λ t. (replicate width none ++ (some index ∷ [])) ∷ t)
            (unmatched_right_lem width lefts keys (index + 1)))
  ]

  set_true-append :
      (pre : List Bool) (b : Bool) (bs : List Bool)
      → set_true equal null (length pre) (pre ++ (b ∷ bs)) ≡ (pre ++ (true ∷ [])) ++ bs
  set_true-append [] b bs = refl
  set_true-append (p ∷ pre) b bs = ap (λ t. p ∷ t) (set_true-append pre b bs)

  -- The marks of a left value on those of the keys.
  abbrev with_marks : Option V → (V → Bool) → List V → List Bool
  with_marks l f keys = map (λ k. f k || is_match equal null l k) keys

  or_true : (b : Bool) → (b || true) ≡ true
  or_true true = refl
  or_true false = refl

  or_false : (b : Bool) → (b || false) ≡ b
  or_false true = refl
  or_false false = refl

  mark_all-matching :
      (l : Option V) (f : V → Bool) (keys : List V) (pre : List Bool)
      → mark_all equal null (matching equal null l keys (length pre)) (pre ++ map f keys)
        ≡ pre ++ with_marks l f keys
  mark_all-matching l f [] pre = refl
  mark_all-matching l f (k ∷ keys) pre =
      let again : (b : Bool)
          → mark_all equal null (matching equal null l keys (length pre + 1))
              ((pre ++ (b ∷ [])) ++ map f keys)
            ≡ pre ++ (b ∷ with_marks l f keys) =
        λ b.
          ap
            (λ (i : ℕ).
              mark_all equal null (matching equal null l keys i) ((pre ++ (b ∷ [])) ++ map f keys))
            (sym (length-append pre (b ∷ [])))
          ∙ mark_all-matching l f keys (pre ++ (b ∷ []))
          ∙ append_assoc pre (b ∷ []) (with_marks l f keys) in
      elim (Bool-cases (is_match equal null l k)) [
        | inl t ↦
            rw (t, or_true (f k))
              (ap (mark_all equal null (matching equal null l keys (length pre + 1)))
                  (set_true-append pre (f k) (map f keys))
                ∙ again true)
        | inr t ↦ rw (t, or_false (f k), ← append_assoc pre (f k ∷ []) (map f keys)) (again (f k))
      ]

  or_assoc : (a b c : Bool) → ((a || b) || c) ≡ (a || (b || c))
  or_assoc true b c = refl
  or_assoc false b c = refl

  map_ext : (f g : V → Bool) (keys : List V) → ((k : V) → f k ≡ g k) → map f keys ≡ map g keys
  map_ext f g [] h = refl
  map_ext f g (k ∷ keys) h = rw (h k) (ap (λ t. g k ∷ t) (map_ext f g keys h))

  map-false :
      {A : Type 0} (rows : List A) (keys : List V)
      → length rows ≡ length keys
      → replicate (length rows) false ≡ map (λ k. false) keys
  map-false [] [] h = refl
  map-false (r ∷ rows) (k ∷ keys) h = ap (λ t. false ∷ t) (map-false rows keys (omega arith))
  map-false [] (k ∷ keys) h = absurd (omega arith)
  map-false (r ∷ rows) [] h = absurd (omega arith)

  probe-as_option :
      (keep_left : Bool) (row : RowRef) (indexes : List ℕ)
      → probe equal null keep_left row (as_option indexes) ≡ joined_row keep_left row indexes
  probe-as_option keep_left row [] = refl
  probe-as_option keep_left row (i ∷ indexes) = refl

  marks-as_option : (indexes : List ℕ) → marks equal null (as_option indexes) ≡ indexes
  marks-as_option [] = refl
  marks-as_option (i ∷ indexes) = refl

  module _ (E : Type 0) (sides : List (JoinSide V)) (left_key : Option KeyPosition) where
    -- The values of the left key in the rows.
    abbrev pub Lefts : List RowRef → List (Option V) → Type 0
    Lefts [] [] = Unit
    Lefts (row ∷ rows) (l ∷ lefts) =
        (left_value equal null {E = E} sides left_key row ≡ ok l) × Lefts rows lefts
    Lefts _ _ = ⊥

    probe_loop_lem :
        (keep_left : Bool) (keys : List V) (rows : List RowRef) (lefts : List (Option V))
        (results : List RowRef) (f : V → Bool)
        → Lefts rows lefts
        → probe_loop equal null {E = E} sides left_key
            (add_all equal null keys 0 [])
            keep_left
            rows
            results
            (map f keys)
          ≡ ok (
            results ++ joined_rows keep_left keys rows lefts,
            map (λ k. f k || is_matched lefts k) keys,
          )
    unfolding probe_loop
    probe_loop_lem keep_left keys [] [] results f h =
        rw (append-nil results) (
          ap (λ m. ok (results, m))
            (map_ext f (λ k. f k || false) keys (λ k. sym (or_false (f k)))))
    probe_loop_lem keep_left keys (row ∷ rows) (l ∷ lefts) results f (h, hs) =
        let found = matches_in-add_all equal null l keys in
        let g = λ (k : V). f k || is_match equal null l k in
        rw
          (
            h,
            found,
            probe-as_option keep_left row (matching equal null l keys 0),
            marks-as_option (matching equal null l keys 0),
            mark_all-matching l f keys [],
          )
          (probe_loop_lem keep_left keys rows lefts
              (results ++ joined_row keep_left row (matching equal null l keys 0)) g hs
            ∙ ap (λ r. ok (r, map (λ k. g k || is_matched lefts k) keys))
                (append_assoc results (joined_row keep_left row (matching equal null l keys 0))
                  (joined_rows keep_left keys rows lefts))
            ∙ ap (λ m. ok (results ++ joined_rows keep_left keys (row ∷ rows) (l ∷ lefts), m))
                (map_ext (λ k. g k || is_matched lefts k) (λ k. f k || is_matched (l ∷ lefts) k)
                  keys (λ k. or_assoc (f k) (is_match equal null l k) (is_matched lefts k))))
    probe_loop_lem keep_left keys [] (_ ∷ _) results f h = absurd h
    probe_loop_lem keep_left keys (_ ∷ _) [] results f h = absurd h

    -- The values of the right column, which are null when there is no such column.
    abbrev KeysAt : Option ℕ → List (TableRow V) → List V → Type 0
    KeysAt none rows keys = keys ≡ map (λ row. null) rows
    KeysAt (some column) rows keys = Cells equal null E rows column keys

    abbrev pub Keys : JoinSide V → Name → List V → Type 0
    Keys side right_col keys = KeysAt (position right_col side.columns) side.rows keys

    add_all-null :
        {A : Type 0} (rows : List A) (index : ℕ)
        → add_all equal null (map (λ row. null) rows) index [] ≡ []
    add_all-null [] index = refl
    add_all-null (row ∷ rows) index =
        rw ((equal.eq_iff null null).1 refl, add_all) (add_all-null rows (index + 1))

    length-Cells :
        (rows : List (TableRow V)) (column : ℕ) (keys : List V)
        → Cells equal null E rows column keys
        → length rows ≡ length keys
    length-Cells [] column [] h = refl
    length-Cells (row ∷ rows) column (k ∷ keys) h = ap suc (length-Cells rows column keys h.1)
    length-Cells [] column (_ ∷ _) h = absurd h
    length-Cells (_ ∷ _) column [] h = absurd h

    length-map_null : {A : Type 0} (rows : List A) → length rows ≡ length (map (λ row. null) rows)
    length-map_null [] = refl
    length-map_null (row ∷ rows) = ap suc (length-map_null rows)

    build_at :
        (side : JoinSide V) (right_col : Name) (keys : List V) (at : Option ℕ)
        → position right_col side.columns ≡ at
        → KeysAt at side.rows keys
        → (build_table equal null {E = E} side right_col ≡ ok (add_all equal null keys 0 []))
          × (length side.rows ≡ length keys)
    unfolding build_table
    build_at side right_col keys none e k =
        (rw (e, k, add_all-null side.rows 0, build_table) refl, rw k (length-map_null side.rows))
    build_at side right_col keys (some column) e k = (
      rw (e, build_table) (build_loop-Cells equal null E side.rows column keys 0 [] k),
      length-Cells side.rows column keys k,
    )

    build_lem :
        (side : JoinSide V) (right_col : Name) (keys : List V)
        → Keys side right_col keys
        → (build_table equal null {E = E} side right_col ≡ ok (add_all equal null keys 0 []))
          × (length side.rows ≡ length keys)
    build_lem side right_col keys h =
        build_at side right_col keys (position right_col side.columns) refl h

    -- The hash join gives what nested loops over the left rows and the right rows give, in the same order:
    -- for each left row the right rows whose value equals its own, which are not null, or the row alone where
    -- it is kept; then the right rows that no left row matches, where they are kept.
    pub hash_join-nested_loops :
        (rows : List RowRef) (lefts : List (Option V)) (right_side : JoinSide V) (right_col : Name)
        (keys : List V) (keep_left keep_right : Bool)
        → Lefts rows lefts
        → Keys right_side right_col keys
        → hash_join equal null {E = E} sides rows left_key right_side right_col keep_left keep_right
          ≡ ok (nested_loops (length sides) rows lefts keys keep_left keep_right)
    unfolding hash_join
    hash_join-nested_loops rows lefts right_side right_col keys keep_left keep_right hl hk =
        let (built, same_length) = build_lem right_side right_col keys hk in
        let probed = probe_loop_lem keep_left keys rows lefts [] (λ k. false) hl in
        rw
          (
            built,
            map-false right_side.rows keys same_length,
            probed,
            ← unmatched_right_lem (length sides) lefts keys 0,
          )
          refl
