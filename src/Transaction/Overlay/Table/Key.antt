-- ===== src/Transaction/Overlay/Table/Key.antt =====
-- Updates and the primary key of a row.
use wasm_dbms.Prelude.{◌≡◌, refl, ◌∙◌, [], ◌∷◌, true, false, Option, none, some}
use wasm_dbms.Prelude.{if◌then◌else◌, Bool-cases, inl, inr, All}
use wasm_dbms.Prelude.Names.{Name, name_eq, name_eq_lem, find, second}
use wasm_dbms.Transaction.Overlay.Table.{
  Row, Patch, set_column, apply_update, primary_key, names_key, renamed_key, unwrap_or,
}

module _ {V : Type 0} where
  -- The primary-key columns are those called `key`.
  abbrev pub KeyNamed : Name → Row V → Type 0
  KeyNamed key row = All (λ cv. cv.0.primary_key ≡ name_eq key cv.0.name) row

  -- The row's primary key is `pk`, in the column called `key`.
  abbrev pub HasKey : Name → V → Row V → Type 0
  HasKey key pk row = KeyNamed key row × (primary_key row ≡ some pk)

  abbrev pub key_update : Name → Patch V → Option V
  key_update key updates = second (find (λ u. name_eq key u.0) updates)

  -- A patch sets the primary key at most once.
  abbrev pub SetsKeyOnce : Name → Patch V → Type 0
  SetsKeyOnce key [] = Unit
  SetsKeyOnce key ((name, v) ∷ updates) =
      (name_eq key name ≡ true → key_update key updates ≡ none) × SetsKeyOnce key updates

  set_column-KeyNamed :
      (key name : Name) (v : V) (row : Row V)
      → KeyNamed key row
      → KeyNamed key (set_column name v row)
  set_column-KeyNamed key name v [] h = tt
  set_column-KeyNamed key name v ((c, w) ∷ row) (h, hs) = elim (Bool-cases (name_eq c.name name)) [
    | inl e ↦ rw e (h, hs)
    | inr e ↦ rw e (h, set_column-KeyNamed key name v row hs)
  ]

  set_column-key :
      (key name : Name) (v pk : V) (row : Row V)
      → HasKey key pk row
      → primary_key (set_column name v row) ≡ some (if name_eq key name then v else pk)
  unfolding primary_key
  set_column-key key name v pk [] (_, h) = cc
  set_column-key key name v pk ((c, w) ∷ row) ((named, hs), h) =
      elim (Bool-cases (name_eq key c.name)) [
        | inl k ↦
            let key_eq : key ≡ c.name = name_eq_lem key c.name k in
            let is_key : c.primary_key ≡ true = named ∙ k in
            elim (Bool-cases (name_eq c.name name)) [
              | inl e ↦ rw (e, is_key, key_eq, e) refl
              | inr e ↦
                  let here : some w ≡ some pk = rw is_key at h in rw (e, is_key, key_eq, e) here
            ]
        | inr k ↦
            let no_key : c.primary_key ≡ false = named ∙ k in
            let there : primary_key row ≡ some pk = rw no_key at h in
            elim (Bool-cases (name_eq c.name name)) [
              | inl e ↦ rw (e, no_key, ← name_eq_lem c.name name e, k) there
              | inr e ↦ rw (e, no_key) (set_column-key key name v pk row (hs, there))
            ]
      ]

  pub apply_update-key :
      (key : Name) (pk : V) (row : Row V) (updates : Patch V)
      → HasKey key pk row
      → SetsKeyOnce key updates
      → HasKey key (unwrap_or (key_update key updates) pk) (apply_update row updates)
  unfolding apply_update
  apply_update-key key pk row [] h once = h
  apply_update-key key pk row ((name, v) ∷ updates) (named, has) (once, onces) =
      let named' = set_column-KeyNamed key name v row named in
      let key' = set_column-key key name v pk row (named, has) in
      elim (Bool-cases (name_eq key name)) [
        | inl e ↦
            let h' =
              apply_update-key key v (set_column name v row) updates (named', rw e at key') onces in
            rw e (rw (once e) at h')
        | inr e ↦
            rw e
              (apply_update-key key pk (set_column name v row) updates (named', rw e at key') onces)
      ]

  no-KeyNamed :
      (key name : Name) (row : Row V)
      → KeyNamed key row
      → name_eq key name ≡ false
      → names_key row name ≡ false
  no-KeyNamed key name [] h e = refl
  no-KeyNamed key name ((c, w) ∷ row) (named, h) e = elim (Bool-cases (name_eq key c.name)) [
    | inl k ↦ rw (named, k, ← name_eq_lem key c.name k, e) (no-KeyNamed key name row h e)
    | inr k ↦ rw (named, k) (no-KeyNamed key name row h e)
  ]

  pub names_key_lem :
      (key name : Name) (pk : V) (row : Row V)
      → HasKey key pk row
      → names_key row name ≡ name_eq key name
  unfolding primary_key
  names_key_lem key name pk [] (_, h) = cc
  names_key_lem key name pk ((c, w) ∷ row) ((named, hs), h) =
      elim (Bool-cases (name_eq key c.name)) [
        | inl k ↦ elim (Bool-cases (name_eq key name)) [
          | inl e ↦ rw (named, k, ← name_eq_lem key c.name k, e) refl
          | inr e ↦ rw (no-KeyNamed key name ((c, w) ∷ row) (named, hs) e, e) refl
        ]
        | inr k ↦
            let no_key : c.primary_key ≡ false = named ∙ k in
            rw no_key (names_key_lem key name pk row (hs, rw no_key at h))
      ]

  pub find_same :
      (key : Name) (updates : Patch V) (row : Row V)
      → ((name : Name) → names_key row name ≡ name_eq key name)
      → second (find (λ u. names_key row u.0) updates) ≡ key_update key updates
  find_same key [] row h = refl
  find_same key ((name, v) ∷ updates) row h = elim (Bool-cases (name_eq key name)) [
    | inl e ↦ rw (h name, e) refl
    | inr e ↦ rw (h name, e) (find_same key updates row h)
  ]

  -- `replay` follows the key that the patched row has.
  pub renamed_key-HasKey :
      (key : Name) (pk : V) (row : Row V) (updates : Patch V)
      → HasKey key pk row
      → SetsKeyOnce key updates
      → HasKey key (renamed_key (apply_update row updates) updates pk) (apply_update row updates)
  unfolding renamed_key
  renamed_key-HasKey key pk row updates h once =
      let row' = apply_update row updates in
      let h' = apply_update-key key pk row updates h once in
      let same =
        find_same key updates row'
          (λ name. names_key_lem key name (unwrap_or (key_update key updates) pk) row' h') in
      rw (same, renamed_key) h'
