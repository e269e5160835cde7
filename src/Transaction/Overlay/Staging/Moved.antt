-- ===== src/Transaction/Overlay/Staging/Moved.antt =====
-- The rows whose indexed columns a transaction changes are among the overlay's updated keys.
use wasm_dbms.Prelude.{◌≡◌, refl, sym, ◌∙◌, List, [], ◌∷◌, Bool, true, false, ◌||◌, none, some}
use wasm_dbms.Prelude.{Bool-cases, inl, inr, All}
use wasm_dbms.Prelude.Names.{Eq, Name, name_eq, name_eq_lem, any}
use wasm_dbms.Transaction.Overlay.Index.{member}
use wasm_dbms.Transaction.Overlay.Table.{
  Row, Patch, Operation, insert, update, delete, TableOverlay, set_column, apply_update,
}
use wasm_dbms.Transaction.Overlay.Table.{renamed_key, replay_from, unwrap_or, patch_row}
use wasm_dbms.Transaction.Overlay.Table.Key.{
  HasKey, SetsKeyOnce, key_update, names_key_lem, find_same, apply_update-key,
}
use wasm_dbms.Transaction.Overlay.Table.Merge.{IsApplicable, replay-of_key}
use wasm_dbms.Transaction.Overlay.Staging.{column_value, updates_columns, unseen_pks, updated_pks}

abbrev pub names_column : Name → List Name → Bool
names_column c columns = any (λ d. name_eq d c) columns

or_false : (a b : Bool) → (a || b) ≡ false → (a ≡ false) × (b ≡ false)
or_false true b h = cc
or_false false b h = (refl, h)

not_updated :
    (columns : List Name) (c name : Name)
    → names_column c columns ≡ true
    → names_column name columns ≡ false
    → name_eq name c ≡ false
not_updated columns c name h k = elim (Bool-cases (name_eq name c)) [
  | inl e ↦ cc (name_eq_lem name c e, h, k)
  | inr e ↦ e
]

module _ {V : Type 0} where
  column_value-set_column :
      (c name : Name) (v : V) (row : Row V)
      → name_eq name c ≡ false
      → column_value c (set_column name v row) ≡ column_value c row
  column_value-set_column c name v [] h = refl
  column_value-set_column c name v ((d, w) ∷ row) h = elim (Bool-cases (name_eq d.name name)) [
    | inl e ↦ rw (e, name_eq_lem d.name name e, h) refl
    | inr e ↦ elim (Bool-cases (name_eq d.name c)) [
      | inl s ↦ rw (e, s) refl
      | inr s ↦ rw (e, s) (column_value-set_column c name v row h)
    ]
  ]

  column_value-apply_update :
      (columns : List Name) (c : Name) (row : Row V) (updates : Patch V)
      → names_column c columns ≡ true
      → updates_columns columns updates ≡ false
      → column_value c (apply_update row updates) ≡ column_value c row
  unfolding apply_update
  column_value-apply_update columns c row [] h k = refl
  column_value-apply_update columns c row ((name, v) ∷ updates) h k =
      let (here, later) =
        or_false (names_column name columns) (updates_columns columns updates) k in
      column_value-apply_update columns c (set_column name v row) updates h later
      ∙ column_value-set_column c name v row (not_updated columns c name h here)

  key_update-none :
      (columns : List Name) (key : Name) (updates : Patch V)
      → names_column key columns ≡ true
      → updates_columns columns updates ≡ false
      → key_update key updates ≡ none
  key_update-none columns key [] h k = refl
  key_update-none columns key ((name, v) ∷ updates) h k =
      let (here, later) =
        or_false (names_column name columns) (updates_columns columns updates) k in
      elim (Bool-cases (name_eq key name)) [
        | inl e ↦ cc (name_eq_lem key name e, h, here)
        | inr e ↦ rw e (key_update-none columns key updates h later)
      ]

  -- An update that touches none of the columns, the key among them, leaves the key.
  renamed_key_same :
      (columns : List Name) (key : Name) (pk : V) (row : Row V) (updates : Patch V)
      → names_column key columns ≡ true
      → updates_columns columns updates ≡ false
      → HasKey key pk row
      → SetsKeyOnce key updates
      → (renamed_key (apply_update row updates) updates pk ≡ pk)
        × HasKey key pk (apply_update row updates)
  unfolding renamed_key
  renamed_key_same columns key pk row updates h k has once =
      let row' = apply_update row updates in
      let has' = apply_update-key key pk row updates has once in
      let gone = key_update-none columns key updates h k in
      let same =
        find_same key updates row'
          (λ name. names_key_lem key name (unwrap_or (key_update key updates) pk) row' has') in
      (rw (same, gone, renamed_key) refl, rw gone at has')

module _ {V : Type 0} ⦃e : Eq V⦄ where
  eq_sym : (a b : V) → e.eq a b ≡ false → e.eq b a ≡ false
  eq_sym a b h = elim (Bool-cases (e.eq b a)) [
    | inl x ↦ cc ((e.eq_iff b a).0 x, (e.eq_iff b b).1 refl, h)
    | inr x ↦ x
  ]

  replay_from-unseen :
      (key : Name) (columns : List Name) (seen : List V) (pk : V) (row row' : Row V)
      (ops : List (Operation V))
      → names_column key columns ≡ true
      → All (IsApplicable key) ops
      → HasKey key pk row
      → replay_from pk row ops ≡ some row'
      → member pk seen ≡ false
      → member pk (unseen_pks seen columns ops) ≡ false
      → (c : Name) → names_column c columns ≡ true
      → column_value c row' ≡ column_value c row
  unfolding replay_from unseen_pks
  replay_from-unseen key columns seen pk row row' [] h ok has r s u c k = cc (r)
  replay_from-unseen key columns seen pk row row' (insert q i ∷ ops) h (ok, oks) has r s u c k =
      elim (Bool-cases (e.eq q pk)) [
        | inl x ↦ cc (rw x at r)
        | inr x ↦ replay_from-unseen key columns seen pk row row' ops h oks has (rw x at r) s u c k
      ]
  replay_from-unseen key columns seen pk row row' (delete q ∷ ops) h (ok, oks) has r s u c k =
      elim (Bool-cases (e.eq q pk)) [
        | inl x ↦ cc (rw x at r)
        | inr x ↦ replay_from-unseen key columns seen pk row row' ops h oks has (rw x at r) s u c k
      ]
  replay_from-unseen key columns seen pk row row' (update q updates ∷ ops) h (ok, oks) has r s u c
        k =
      elim (Bool-cases (updates_columns columns updates)) [
        | inl touched ↦ elim (Bool-cases (e.eq q pk)) [
          | inl x ↦
              let same : q ≡ pk = (e.eq_iff q pk).0 x in
              let self : e.eq pk pk ≡ true = (e.eq_iff pk pk).1 refl in
              cc (rw (touched, same, s, self) at u)
          | inr x ↦
              let apart : e.eq pk q ≡ false = eq_sym q pk x in
              elim (Bool-cases (member q seen)) [
                | inl before ↦
                    replay_from-unseen key columns seen pk row row' ops h oks has (rw x at r) s
                      (rw (touched, before) at u) c k
                | inr fresh ↦
                    let u' = rw (touched, fresh, apart) at u in
                    replay_from-unseen key columns (q ∷ seen) pk row row' ops h oks has (rw x at r)
                      (rw (apart, s) refl) u' c k
              ]
        ]
        | inr still ↦ elim (Bool-cases (e.eq q pk)) [
          | inl x ↦
              let (same, has') = renamed_key_same columns key pk row updates h still has ok in
              replay_from-unseen key columns seen pk (apply_update row updates) row' ops h oks has'
                (rw (x, same) at r) s (rw still at u) c k
              ∙ column_value-apply_update columns c row updates k still
          | inr x ↦
              replay_from-unseen key columns seen pk row row' ops h oks has (rw x at r) s
                (rw still at u) c k
        ]
      ]

  -- The row that `patch_row` gives agrees with the stored row on the columns, when `updated_pks` does
  -- not list its key and the key's column is one of them.
  pub updated_pks-patch_row :
      (key : Name) (columns : List Name) (t : TableOverlay V) (pk : V) (row row' : Row V)
      → names_column key columns ≡ true
      → All (IsApplicable key) t.operations
      → HasKey key pk row
      → patch_row t row ≡ some row'
      → member pk (updated_pks columns t) ≡ false
      → (c : Name) → names_column c columns ≡ true
      → column_value c row' ≡ column_value c row
  unfolding patch_row updated_pks
  updated_pks-patch_row key columns t pk row row' h ok has r u c k =
      replay_from-unseen key columns [] pk row row' t.operations h ok has
        (sym (replay-of_key row pk t.operations has.1) ∙ r) refl u c k
