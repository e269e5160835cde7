-- ===== src/Transaction/Overlay/Index.antt =====
-- overlay/table/index.rs: the uncommitted changes of a table's indexes. A map is an association list
-- and a set a list in which no value stands twice.
pub mod Visible
use wasm_dbms.Prelude.{
  List, [], ◌∷◌, Bool, true, false, ◌&&◌, ◌||◌, Option, none, some, if◌then◌else◌,
}
use wasm_dbms.Prelude.Names.{Eq, Name, name_eq, any}

abbrev pub columns_eq : List Name → List Name → Bool
columns_eq [] [] = true
columns_eq (c ∷ cs) (d ∷ ds) = name_eq c d && columns_eq cs ds
columns_eq _ _ = false

abbrev pub PkMap : Type 0 → Type 0
PkMap V = List (List V × List V)

pub record IndexColumnOverlay (V : Type 0) : Type 0 where
  pub added : PkMap V
  pub removed : PkMap V

pub record IndexOverlay (V : Type 0) : Type 0 where
  pub columns : List (List Name × IndexColumnOverlay V)

module _ {V : Type 0} ⦃e : Eq V⦄ where
  abbrev pub values_eq : List V → List V → Bool
  values_eq [] [] = true
  values_eq (c ∷ cs) (d ∷ ds) = e.eq c d && values_eq cs ds
  values_eq _ _ = false

  abbrev pub member : V → List V → Bool
  member pk s = any (λ k. e.eq pk k) s

  abbrev pub set_insert : V → List V → List V
  set_insert pk s = if member pk s then s else pk ∷ s

  abbrev pub set_remove : V → List V → List V
  set_remove pk [] = []
  set_remove pk (k ∷ s) = let rest = set_remove pk s in if e.eq pk k then rest else k ∷ rest

  -- `get(values)`, or the empty set.
  abbrev pub pks : List V → PkMap V → List V
  pks values [] = []
  pks values ((k, s) ∷ m) = if values_eq values k then s else pks values m

  -- `entry(values).or_default().insert(pk)`
  abbrev pub add_pk : List V → V → PkMap V → PkMap V
  add_pk values pk [] = (values, pk ∷ []) ∷ []
  add_pk values pk ((k, s) ∷ m) =
      if values_eq values k then (k, set_insert pk s) ∷ m else (k, s) ∷ add_pk values pk m

  -- `get_mut(values)`, then `remove(pk)`
  abbrev pub remove_pk : List V → V → PkMap V → PkMap V
  remove_pk values pk [] = []
  remove_pk values pk ((k, s) ∷ m) =
      if values_eq values k then (k, set_remove pk s) ∷ m else (k, s) ∷ remove_pk values pk m

  unfoldable pub column_insert : List V → V → IndexColumnOverlay V → IndexColumnOverlay V
  column_insert values pk o = record {
    added = add_pk values pk o.added;
    removed = remove_pk values pk o.removed;
  }

  unfoldable pub column_delete : List V → V → IndexColumnOverlay V → IndexColumnOverlay V
  column_delete values pk o =
      let was_in_added = member pk (pks values o.added) in
      record {
        added = remove_pk values pk o.added;
        removed = if was_in_added then o.removed else add_pk values pk o.removed;
      }

  unfoldable pub column_update : List V → List V → V → IndexColumnOverlay V → IndexColumnOverlay V
  unfolding column_insert column_delete
  column_update old new pk o = column_insert new pk (column_delete old pk o)

  abbrev pub empty : IndexColumnOverlay V
  empty = record { added = []; removed = [] }

  -- `entry(columns).or_default()`, changed by `f`
  abbrev pub change :
      List Name
      → (IndexColumnOverlay V → IndexColumnOverlay V)
      → List (List Name × IndexColumnOverlay V)
      → List (List Name × IndexColumnOverlay V)
  change columns f [] = (columns, f empty) ∷ []
  change columns f ((c, o) ∷ rest) =
      if columns_eq columns c then (c, f o) ∷ rest else (c, o) ∷ change columns f rest

  unfoldable pub insert : List Name → List V → V → IndexOverlay V → IndexOverlay V
  unfolding column_insert
  insert columns values pk i = record {
    columns = change columns (column_insert values pk) i.columns;
  }

  unfoldable pub delete : List Name → List V → V → IndexOverlay V → IndexOverlay V
  unfolding column_delete
  delete columns values pk i = record {
    columns = change columns (column_delete values pk) i.columns;
  }

  unfoldable pub update : List Name → List V → List V → V → IndexOverlay V → IndexOverlay V
  unfolding column_update
  update columns old new pk i = record {
    columns = change columns (column_update old new pk) i.columns;
  }

  abbrev pub column_overlay :
      List Name → List (List Name × IndexColumnOverlay V) → IndexColumnOverlay V
  column_overlay columns [] = empty
  column_overlay columns ((c, o) ∷ rest) =
      if columns_eq columns c then o else column_overlay columns rest

  unfoldable pub added_pks : List Name → List V → IndexOverlay V → List V
  added_pks columns values i = pks values (column_overlay columns i.columns).added

  unfoldable pub removed_pks : List Name → List V → IndexOverlay V → List V
  removed_pks columns values i = pks values (column_overlay columns i.columns).removed
