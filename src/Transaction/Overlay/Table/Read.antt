-- ===== src/Transaction/Overlay/Table/Read.antt =====
-- The overlay reader returns the rows that a transaction sees.
use wasm_dbms.Prelude.{
  ℕ, zero, suc, ◌+◌, ◌<◌, ◌≡◌, refl, sym, ap, ◌∙◌, arith, drop, get_elem?, length,
}
use wasm_dbms.Prelude.{List, [], ◌∷◌, ◌++◌, Option, none, some, Option-cases, inl, inr, ◌⊎◌, All}
use wasm_dbms.Prelude.Names.{Eq, Name}
use wasm_dbms.Transaction.Overlay.Table.{
  Row, TableOverlay, DatabaseOverlayReader, replay, patch_row,
}
use wasm_dbms.Transaction.Overlay.Table.{new_reader, next_overlay_row, next_row, try_next, read_all}
use wasm_dbms.Transaction.Overlay.Table.Merge.{
  merge, apply_all, visible-apply_all, RowHasKey, IsApplicable,
}

drop-get {ℓ} :
    {A : Type ℓ} (xs : List A) (i : ℕ)
    → ((get_elem? xs i ≡ none) × (drop i xs ≡ []))
      ⊎ ((x : A) × (get_elem? xs i ≡ some x) × (drop i xs ≡ x ∷ drop (suc i) xs))
drop-get [] zero = inl (refl, refl)
drop-get [] (suc i) = inl (refl, refl)
drop-get (x ∷ xs) zero = inr (x, refl, refl)
drop-get (x ∷ xs) (suc i) = drop-get xs i

module _ {V : Type 0} ⦃e : Eq V⦄ where
  -- What the reader has not returned yet.
  abbrev remaining : DatabaseOverlayReader V → List (Row V)
  remaining r =
      merge r.table_overlay.operations r.stored_rows ++ drop r.new_rows_cursor r.inserted_rows

  -- A call returns the first of the rows that are left, or none when there are none.
  abbrev Returns : List (Row V) → Option (Row V) × DatabaseOverlayReader V → Type 0
  Returns rows (next, r') =
      ((next ≡ none) × (rows ≡ []))
      ⊎ ((row : Row V) × (next ≡ some row) × (rows ≡ row ∷ remaining r'))

  next_row_lem :
      (r : DatabaseOverlayReader V) (stored : List (Row V))
      → Returns
          (merge r.table_overlay.operations stored ++ drop r.new_rows_cursor r.inserted_rows)
          (next_row r stored)
  unfolding next_row next_overlay_row
  next_row_lem r [] = elim (drop-get r.inserted_rows r.new_rows_cursor) [
    | inl (gone, empty) ↦ rw (gone, next_overlay_row) (inl (refl, empty))
    | inr (row, there, more) ↦
        let next : suc r.new_rows_cursor ≡ r.new_rows_cursor + 1 = omega arith in
        rw (there, next_overlay_row)
          (inr (row, refl, more ∙ ap (λ n. row ∷ drop n r.inserted_rows) next))
  ]
  next_row_lem r (row ∷ stored) = elim (Option-cases (replay row r.table_overlay.operations)) [
    | inl gone ↦
        let skip : next_row r (row ∷ stored) ≡ next_row r stored =
          rw (gone, patch_row, next_row) refl in
        rw (gone, skip) (next_row_lem r stored)
    | inr (row', there) ↦
        let found : next_row r (row ∷ stored) ≡ (some row', record r { stored_rows = stored }) =
          rw (there, patch_row, next_row) refl in
        rw (there, found) (inr (row', refl, refl))
  ]

  read_all_lem :
      (fuel : ℕ) (r : DatabaseOverlayReader V)
      → length (remaining r) < fuel
      → read_all fuel r ≡ remaining r
  unfolding read_all try_next
  read_all_lem zero r h = absurd (omega arith)
  read_all_lem (suc fuel) r h = elim (next_row_lem r r.stored_rows) [
    | inl (done, empty) ↦ rw (done, try_next, read_all) (sym empty)
    | inr (row, there, more) ↦
        rw (there, more, try_next, read_all)
          (ap (◌∷◌ row)
            (read_all_lem fuel (next_row r r.stored_rows).1 (omega (arith, ap length more))))
  ]

  -- Reading a table through the overlay, with enough calls of `try_next`, gives the rows of the table
  -- with the transaction's operations applied one by one, where each stored row has its primary key,
  -- each inserted row the key of its operation, and no patch sets the key twice.
  pub read_all-apply_all :
      (key : Name) (t : TableOverlay V) (stored : List (Row V)) (fuel : ℕ)
      → All (IsApplicable key) t.operations
      → All (RowHasKey key) stored
      → length (apply_all t.operations stored) < fuel
      → read_all fuel (new_reader t stored) ≡ apply_all t.operations stored
  unfolding new_reader
  read_all-apply_all key t stored fuel ok h enough =
      let same = visible-apply_all key t.operations stored ok h in
      read_all_lem fuel (new_reader t stored) (omega (arith, ap length same)) ∙ same
