-- ===== src/Index/Tree/Leaf.antt =====
-- Insertion into a leaf keeps its keys in order, and adds the entry to those that are there.
use wasm_dbms.Prelude.{
  ◌≡◌, refl, ap, arith, All, List, [], ◌∷◌, ◌++◌, true, false, Bool-cases, inl, inr,
}
use wasm_dbms.Registry.Record.{RecordAddress}
use wasm_dbms.Index.Key.{Key, IsOrder, le, le_trans}
use wasm_dbms.Index.Node.{Entry}
use wasm_dbms.Index.Tree.{insert_entry, goes_before}
use wasm_dbms.Index.View.Child.{IsSorted}

module _ {K : Type 0} (key : Key K) (order : IsOrder key) (k : K) (pointer : RecordAddress) where
  abbrev new_entry : Entry K RecordAddress
  new_entry = record { key = k; target = pointer }

  le_of_lt : (a b : K) → key.lt a b ≡ true → le key a b ≡ true
  le_of_lt a b ab = elim (Bool-cases (key.lt b a)) [
    | inl ba ↦ cc (order.lt_trans a b a ab ba, order.lt_irrefl a)
    | inr ba ↦ rw ba refl
  ]

  -- An entry that the insertion passes is not greater, and one before which it stops is not less.
  passed : (e : Entry K RecordAddress) → goes_before key e k pointer ≡ true → le key e.key k ≡ true
  unfolding goes_before
  passed e h = elim (Bool-cases (key.lt e.key k)) [
    | inl less ↦ le_of_lt e.key k less
    | inr not_less ↦ ground arith
  ]

  stopped :
      (e : Entry K RecordAddress) → goes_before key e k pointer ≡ false → le key k e.key ≡ true
  unfolding goes_before
  stopped e h = ground arith

  All-above :
      (h : K) (entries : List (Entry K RecordAddress))
      → le key k h ≡ true
      → All (λ e. le key h e.key ≡ true) entries
      → All (λ e. le key k e.key ≡ true) entries
  All-above h [] kh hs = tt
  All-above h (e ∷ entries) kh (x, hs) =
      (le_trans key order k h e.key kh x, All-above h entries kh hs)

  All-insert :
      (P : Entry K RecordAddress → Type 0) (entries : List (Entry K RecordAddress))
      → P new_entry
      → All P entries
      → All P (insert_entry key k pointer entries)
  unfolding insert_entry
  All-insert P [] p hs = (p, tt)
  All-insert P (e ∷ entries) p (h, hs) = elim (Bool-cases (goes_before key e k pointer)) [
    | inl before ↦ rw before (h, All-insert P entries p hs)
    | inr here ↦ rw here (p, (h, hs))
  ]

  insert_entry-IsSorted :
      (entries : List (Entry K RecordAddress))
      → IsSorted key entries
      → IsSorted key (insert_entry key k pointer entries)
  unfolding insert_entry
  insert_entry-IsSorted [] h = (tt, tt)
  insert_entry-IsSorted (e ∷ entries) (h, hs) = elim (Bool-cases (goes_before key e k pointer)) [
    | inl before ↦ rw before (
      All-insert (λ x. le key e.key x.key ≡ true) entries (passed e before) h,
      insert_entry-IsSorted entries hs,
    )
    | inr here ↦ rw here ((stopped e here, All-above e.key entries (stopped e here) h), (h, hs))
  ]

  insert_entry-append :
      (entries : List (Entry K RecordAddress))
      → (front back : List (Entry K RecordAddress)) × (entries ≡ front ++ back)
        × (insert_entry key k pointer entries ≡ front ++ (new_entry ∷ back))
  unfolding insert_entry
  insert_entry-append [] = ([], [], refl, refl)
  insert_entry-append (e ∷ entries) = elim (Bool-cases (goes_before key e k pointer)) [
    | inl before ↦
        let (front, back, parts, inserted) = insert_entry-append entries in
        (e ∷ front, back, ap (λ t. e ∷ t) parts, rw before (ap (λ t. e ∷ t) inserted))
    | inr here ↦ ([], e ∷ entries, refl, rw here refl)
  ]

  -- An entry is put between the entries of a leaf, all of which stay in their order, and ascending keys
  -- still ascend.
  pub insert_entry_lem :
      (entries : List (Entry K RecordAddress))
      → IsSorted key entries
      → (front back : List (Entry K RecordAddress)) × (entries ≡ front ++ back)
        × (insert_entry key k pointer entries
            ≡ front ++ (record { key = k; target = pointer } ∷ back))
        × IsSorted key (insert_entry key k pointer entries)
  insert_entry_lem entries h =
      let (front, back, parts, inserted) = insert_entry-append entries in
      (front, back, parts, inserted, insert_entry-IsSorted entries h)
