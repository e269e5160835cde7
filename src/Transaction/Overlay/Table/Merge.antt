-- ===== src/Transaction/Overlay/Table/Merge.antt =====
-- The rows that a transaction sees are those of its operations, applied in their order.
use mathlib.Core.List.{append_assoc, append-nil}
use wasm_dbms.Prelude.{
  ◌≡◌, refl, sym, ap, ◌∙◌, List, [], ◌∷◌, ◌++◌, Bool, false, Option, none, some,
}
use wasm_dbms.Prelude.{if◌then◌else◌, Bool-cases, Option-cases, inl, inr, All, All-append}
use wasm_dbms.Prelude.Names.{Eq, Name}
use wasm_dbms.Transaction.Overlay.Table.{
  Row, Operation, insert, update, delete, apply_update, primary_key,
}
use wasm_dbms.Transaction.Overlay.Table.{
  renamed_key, replay_from, replay, keep, iter_inserted, Patch,
}
use wasm_dbms.Transaction.Overlay.Table.Key.{HasKey, SetsKeyOnce, renamed_key-HasKey}

module _ {V : Type 0} ⦃e : Eq V⦄ where
  abbrev pub is_key : V → Option V → Bool
  is_key pk none = false
  is_key pk (some k) = e.eq pk k

  -- A table whose rows are changed in place: the rows of other keys, and one row patched.
  abbrev pub without : V → List (Row V) → List (Row V)
  without pk [] = []
  without pk (r ∷ rows) =
      let rest = without pk rows in if is_key pk (primary_key r) then rest else r ∷ rest

  abbrev pub patched : V → Patch V → List (Row V) → List (Row V)
  patched pk updates [] = []
  patched pk updates (r ∷ rows) =
      let rest = patched pk updates rows in
      if is_key pk (primary_key r) then apply_update r updates ∷ rest else r ∷ rest

  abbrev pub apply : Operation V → List (Row V) → List (Row V)
  apply (insert pk r) rows = without pk rows ++ (r ∷ [])
  apply (update pk updates) rows = patched pk updates rows
  apply (delete pk) rows = without pk rows

  abbrev pub apply_all : List (Operation V) → List (Row V) → List (Row V)
  apply_all [] rows = rows
  apply_all (op ∷ ops) rows = apply_all ops (apply op rows)

  abbrev pub RowHasKey : Name → Row V → Type 0
  RowHasKey key r = (pk : V) × HasKey key pk r

  -- An inserted row has its operation's key, and a patch sets the key at most once.
  abbrev pub IsApplicable : Name → Operation V → Type 0
  IsApplicable key (insert pk r) = HasKey key pk r
  IsApplicable key (update pk updates) = SetsKeyOnce key updates
  IsApplicable key (delete pk) = Unit

  abbrev pub merge : List (Operation V) → List (Row V) → List (Row V)
  merge ops [] = []
  merge ops (r ∷ rows) = keep (replay r ops) (merge ops rows)

  merge-append :
      (ops : List (Operation V)) (xs ys : List (Row V))
      → merge ops (xs ++ ys) ≡ merge ops xs ++ merge ops ys
  merge-append ops [] ys = refl
  merge-append ops (x ∷ xs) ys = elim (Option-cases (replay x ops)) [
    | inl n ↦ rw n (merge-append ops xs ys)
    | inr (r, s) ↦ rw s (ap (◌∷◌ r) (merge-append ops xs ys))
  ]

  pub replay-of_key :
      (r : Row V) (pk : V) (ops : List (Operation V))
      → primary_key r ≡ some pk
      → replay r ops ≡ replay_from pk r ops
  unfolding replay
  replay-of_key r pk ops h = rw (h, replay) refl

  merge-without :
      (key : Name) (k : V) (ops : List (Operation V)) (op : Operation V) (rows : List (Row V))
      → ((r : Row V) (pk : V)
          → replay_from pk r (op ∷ ops) ≡ (if e.eq k pk then none else replay_from pk r ops))
      → All (RowHasKey key) rows
      → merge (op ∷ ops) rows ≡ merge ops (without k rows)
  merge-without key k ops op [] skips h = refl
  merge-without key k ops op (r ∷ rows) skips ((pk, (named, has)), hs) =
      elim (Bool-cases (e.eq k pk)) [
        | inl same ↦
            rw (replay-of_key r pk (op ∷ ops) has, skips r pk, has, same)
              (merge-without key k ops op rows skips hs)
        | inr other ↦
            rw (replay-of_key r pk (op ∷ ops) has, skips r pk, has, other)
              (rw (replay-of_key r pk ops has)
                (ap (keep (replay_from pk r ops)) (merge-without key k ops op rows skips hs)))
      ]

  merge-patched :
      (key : Name) (k : V) (updates : Patch V) (ops : List (Operation V)) (rows : List (Row V))
      → SetsKeyOnce key updates
      → All (RowHasKey key) rows
      → merge (update k updates ∷ ops) rows ≡ merge ops (patched k updates rows)
  unfolding replay_from
  merge-patched key k updates ops [] once h = refl
  merge-patched key k updates ops (r ∷ rows) once ((pk, has), hs) =
      let rest = merge-patched key k updates ops rows once hs in
      elim (Bool-cases (e.eq k pk)) [
        | inl same ↦
            let r' = apply_update r updates in
            let (_, has') = renamed_key-HasKey key pk r updates has once in
            rw
              (
                replay-of_key r pk (update k updates ∷ ops) has.1,
                has.1,
                same,
                replay-of_key r' (renamed_key r' updates pk) ops has',
              )
              (ap (keep (replay_from (renamed_key r' updates pk) r' ops)) rest)
        | inr other ↦
            rw
              (
                replay-of_key r pk (update k updates ∷ ops) has.1,
                has.1,
                other,
                replay-of_key r pk ops has.1,
              )
              (ap (keep (replay_from pk r ops)) rest)
      ]

  without-RowHasKey :
      (key : Name) (k : V) (rows : List (Row V))
      → All (RowHasKey key) rows
      → All (RowHasKey key) (without k rows)
  without-RowHasKey key k [] h = tt
  without-RowHasKey key k (r ∷ rows) (h, hs) = elim (Bool-cases (is_key k (primary_key r))) [
    | inl same ↦ rw same (without-RowHasKey key k rows hs)
    | inr other ↦ rw other (h, without-RowHasKey key k rows hs)
  ]

  patched-RowHasKey :
      (key : Name) (k : V) (updates : Patch V) (rows : List (Row V))
      → SetsKeyOnce key updates
      → All (RowHasKey key) rows
      → All (RowHasKey key) (patched k updates rows)
  patched-RowHasKey key k updates [] once h = tt
  patched-RowHasKey key k updates (r ∷ rows) once ((pk, has), hs) =
      elim (Bool-cases (is_key k (primary_key r))) [
        | inl same ↦ rw same (
          (
            renamed_key (apply_update r updates) updates pk,
            renamed_key-HasKey key pk r updates has once,
          ),
          patched-RowHasKey key k updates rows once hs,
        )
        | inr other ↦ rw other ((pk, has), patched-RowHasKey key k updates rows once hs)
      ]

  apply-RowHasKey :
      (key : Name) (op : Operation V) (rows : List (Row V))
      → IsApplicable key op
      → All (RowHasKey key) rows
      → All (RowHasKey key) (apply op rows)
  apply-RowHasKey key (insert pk r) rows ok h =
      All-append (RowHasKey key) (without pk rows) (r ∷ []) (without-RowHasKey key pk rows h)
        ((pk, ok), tt)
  apply-RowHasKey key (update pk updates) rows ok h = patched-RowHasKey key pk updates rows ok h
  apply-RowHasKey key (delete pk) rows ok h = without-RowHasKey key pk rows h

  -- The stored rows as patched, then the inserted ones.
  abbrev pub visible : List (Operation V) → List (Row V) → List (Row V)
  visible ops rows = merge ops rows ++ iter_inserted ops

  keep-append :
      (xs ys : List (Row V)) (x : Option (Row V)) → xs ++ keep x ys ≡ (xs ++ keep x []) ++ ys
  keep-append xs ys none = rw append-nil refl
  keep-append xs ys (some x) = sym (append_assoc xs (x ∷ []) ys)

  visible-apply :
      (key : Name) (op : Operation V) (ops : List (Operation V)) (rows : List (Row V))
      → IsApplicable key op
      → All (RowHasKey key) rows
      → visible (op ∷ ops) rows ≡ visible ops (apply op rows)
  unfolding iter_inserted replay_from
  visible-apply key (insert pk r) ops rows ok h =
      let first = merge-without key pk ops (insert pk r) rows (λ q k. refl) h in
      rw (first, merge-append ops (without pk rows) (r ∷ []))
        (keep-append (merge ops (without pk rows)) (iter_inserted ops) (replay r ops))
  visible-apply key (update pk updates) ops rows ok h =
      ap (λ t. t ++ iter_inserted ops) (merge-patched key pk updates ops rows ok h)
  visible-apply key (delete pk) ops rows ok h =
      ap (λ t. t ++ iter_inserted ops) (merge-without key pk ops (delete pk) rows (λ q k. refl) h)

  merge_none :
      (rows : List (Row V)) → (key : Name) → All (RowHasKey key) rows → merge [] rows ≡ rows
  unfolding replay_from
  merge_none [] key h = refl
  merge_none (r ∷ rows) key ((pk, has), hs) =
      rw (replay-of_key r pk [] has.1) (ap (◌∷◌ r) (merge_none rows key hs))

  -- What a transaction sees of a table, stored rows as patched and inserted rows that are still
  -- alive, is the table with the operations applied one by one.
  pub visible-apply_all :
      (key : Name) (ops : List (Operation V)) (rows : List (Row V))
      → All (IsApplicable key) ops
      → All (RowHasKey key) rows
      → visible ops rows ≡ apply_all ops rows
  unfolding iter_inserted
  visible-apply_all key [] rows ok h = append-nil (merge [] rows) ∙ merge_none rows key h
  visible-apply_all key (op ∷ ops) rows (ok, oks) h =
      visible-apply key op ops rows ok h
      ∙ visible-apply_all key ops (apply op rows) oks (apply-RowHasKey key op rows ok h)
