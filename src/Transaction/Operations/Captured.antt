-- ===== src/Transaction/Operations/Captured.antt =====
-- The filter of a captured row selects that version of the row and no other.
use mathlib.Core.Path.{subst}
use wasm_dbms.Prelude.{◌≡◌, ◌↔◌, refl, ap, ◌∙◌, [], ◌∷◌, Bool, true, false, ◌&&◌, ◌||◌, some, map}
use wasm_dbms.Prelude.{Bool-cases, inl, inr, All}
use wasm_dbms.Prelude.Result.{Result, ok, err, panic}
use wasm_dbms.Prelude.Names.{Name, name_eq, name_eq_lem, name_eq_refl}
use wasm_dbms.Query.Filter.{
  ColumnDef, Values, Filter, eq, and, matches, and_then, any_named, FilterResult,
}
use wasm_dbms.Transaction.Overlay.Table.{Row}
use wasm_dbms.Transaction.Overlay.Staging.{TableSchema, column_value}
use wasm_dbms.Transaction.Operations.{and_columns, captured_row_filter}

and_false : (b : Bool) → (b && false) ≡ false
and_false true = refl
and_false false = refl

abbrev column_of : {V : Type 0} → ColumnDef × V → ColumnDef
column_of cv = cv.0

or_none : (b : Bool) → (b || false) ≡ true → b ≡ true
or_none true h = refl
or_none false h = h

or_true : (a : Bool) {b : Bool} → b ≡ true → (a || b) ≡ true
or_true true h = refl
or_true false h = h

ok_true : {E : Type 0} {b : Bool} → Path (Result E Bool) (ok b) (ok true) → b ≡ true
ok_true h = cc

name_eq_sym : (a b : Name) → name_eq a b ≡ false → name_eq b a ≡ false
name_eq_sym a b h = elim (Bool-cases (name_eq b a)) [
  | inl e ↦ cc (name_eq_lem b a e, name_eq_refl b, h)
  | inr e ↦ e
]

module _ {V : Type 0} where
  abbrev NotNamed : Name → Row V → Type 0
  NotNamed name row = All (λ cv. name_eq cv.0.name name ≡ false) row

  -- No two columns of the row have the same name.
  abbrev pub HasDistinctNames : Row V → Type 0
  HasDistinctNames [] = Unit
  HasDistinctNames ((c, v) ∷ row) = NotNamed c.name row × HasDistinctNames row

  NotNamed-columns :
      (name : Name) (row other : Row V)
      → map column_of row ≡ map column_of other
      → NotNamed name row
      → NotNamed name other
  NotNamed-columns name [] [] same h = tt
  NotNamed-columns name [] (_ ∷ _) same h = cc
  NotNamed-columns name (_ ∷ _) [] same h = cc
  NotNamed-columns name ((c, v) ∷ row) ((d, w) ∷ other) same (h, hs) =
      let head : c ≡ d = cc in
      let tail : map column_of row ≡ map column_of other = cc in
      (rw head at h, NotNamed-columns name row other tail hs)

module _ {V J F E : Type 0} (values : Values V J F E) where
  abbrev HasValue : Row V → ColumnDef × V → Type 0
  HasValue other cv = any_named values cv.0.name (λ v. values.eq v cv.1) other ≡ true

  -- The columns of the row that are not the key's have their values in the other row.
  abbrev Agrees : Name → Row V → Row V → Type 0
  Agrees key row other = All (λ cv. name_eq cv.0.name key ≡ false → HasValue other cv) row

  and_then_lem :
      (f g : FilterResult values Bool) → (and_then f g ≡ ok true) ↔ (f ≡ ok true) × (g ≡ ok true)
  and_then_lem (ok true) g = (λ h. (refl, h), λ h. h.1)
  and_then_lem (ok false) g = (λ h. cc, λ h. cc)
  and_then_lem (err e) g = (λ h. cc, λ h. cc)
  and_then_lem panic g = (λ h. cc, λ h. cc)

  matches-and_columns :
      (key : Name) (filter : Filter V F) (row other : Row V)
      → (matches values (and_columns key filter row) other ≡ ok true)
        ↔ (matches values filter other ≡ ok true) × Agrees key row other
  unfolding matches
  matches-and_columns key filter [] other = (λ h. (h, tt), λ h. h.0)
  matches-and_columns key filter ((c, v) ∷ row) other = elim (Bool-cases (name_eq c.name key)) [
    | inl e ↦
        let (to, from) = matches-and_columns key filter row other in
        rw e (λ h. ((to h).0, ((λ f. cc), (to h).1)), λ h. from (h.0, h.1.1))
    | inr e ↦
        let (to, from) = matches-and_columns key (and filter (eq c.name v)) row other in
        let (both, join) =
          and_then_lem (matches values filter other) (matches values (eq c.name v) other) in
        rw e (
          λ h. ((both (to h).0).0, ((λ f. ok_true (both (to h).0).1), (to h).1)),
          λ h. from (join (h.0, ap ok (h.1.0 refl)), h.1.1),
        )
  ]

  Agrees-All :
      (key : Name) (row other : Row V)
      → NotNamed key row
      → Agrees key row other
      → All (HasValue other) row
  Agrees-All key [] other h a = tt
  Agrees-All key (cv ∷ row) other (h, hs) (a, more) = (a h, Agrees-All key row other hs more)

  Agrees-key :
      (key : Name) (pk : V) (row other : Row V)
      → HasDistinctNames row
      → column_value key row ≡ some pk
      → any_named values key (λ v. values.eq v pk) other ≡ true
      → Agrees key row other
      → All (HasValue other) row
  Agrees-key key pk [] other d k h a = tt
  Agrees-key key pk ((c, v) ∷ row) other (d, ds) k h (a, more) =
      elim (Bool-cases (name_eq c.name key)) [
        | inl e ↦
            let same : c.name ≡ key = name_eq_lem c.name key e in
            let value : some v ≡ some pk = rw e at k in
            let value' : v ≡ pk = cc in
            let here : HasValue other (c, v) =
              rw same (ap (λ u. any_named values key (λ x. values.eq x u) other) value' ∙ h) in
            (here, Agrees-All key row other (rw same at d) more)
        | inr e ↦ (a e, Agrees-key key pk row other ds (rw e at k) h more)
      ]

  any_named_none :
      (name : Name) (test : V → Bool) (row : Row V)
      → NotNamed name row
      → any_named values name test row ≡ false
  any_named_none name test [] h = refl
  any_named_none name test ((c, v) ∷ row) (h, hs) = rw h (any_named_none name test row hs)

  HasValue-tail :
      (c : ColumnDef) (w : V) (row other : Row V)
      → NotNamed c.name row
      → All (HasValue ((c, w) ∷ other)) row
      → All (HasValue other) row
  HasValue-tail c w [] other d h = tt
  HasValue-tail c w ((q, v) ∷ row) other (d, ds) (h, hs) =
      (rw (name_eq_sym q.name c.name d) at h, HasValue-tail c w row other ds hs)

  -- `==` of the values is equality.
  abbrev pub IsLawful : Type 0
  IsLawful = (a b : V) → (values.eq a b ≡ true) ↔ (a ≡ b)

  HasValue-eq :
      (row other : Row V)
      → IsLawful
      → map column_of row ≡ map column_of other
      → HasDistinctNames row
      → All (HasValue other) row
      → other ≡ row
  HasValue-eq [] [] law same d h = refl
  HasValue-eq [] (_ ∷ _) law same d h = cc
  HasValue-eq (_ ∷ _) [] law same d h = cc
  HasValue-eq ((c, v) ∷ row) ((q, w) ∷ other) law same (d, ds) (h, hs) =
      let head : c ≡ q = cc in
      let tail : map column_of row ≡ map column_of other = cc in
      let gone =
        any_named_none c.name (λ x. values.eq x v) other
          (NotNamed-columns c.name row other tail d) in
      let here : (values.eq w v || false) ≡ true = rw (← head, name_eq_refl c.name, gone) at h in
      let value : w ≡ v = (law w v).0 (or_none (values.eq w v) here) in
      let rest =
        HasValue-eq row other law tail ds
          (HasValue-tail q w row other (subst (λ x. NotNamed x.name row) head d) hs) in
      cc (head, value, rest)

  HasValue-cons :
      (cv : ColumnDef × V) (row other : Row V)
      → All (HasValue other) row
      → All (HasValue (cv ∷ other)) row
  HasValue-cons cv [] other h = tt
  HasValue-cons (c, w) ((q, v) ∷ row) other (h, hs) =
      (or_true (name_eq c.name q.name && values.eq w v) h, HasValue-cons (c, w) row other hs)

  Agrees-some : (key : Name) (row other : Row V) → All (HasValue other) row → Agrees key row other
  Agrees-some key [] other h = tt
  Agrees-some key (cv ∷ row) other (h, hs) = ((λ e. h), Agrees-some key row other hs)

  column_value-any :
      (key : Name) (pk : V) (row : Row V)
      → IsLawful
      → column_value key row ≡ some pk
      → any_named values key (λ v. values.eq v pk) row ≡ true
  column_value-any key pk [] law k = cc
  column_value-any key pk ((c, v) ∷ row) law k = elim (Bool-cases (name_eq c.name key)) [
    | inl e ↦
        let value : some v ≡ some pk = rw e at k in
        let here : values.eq v pk ≡ true = (law v pk).1 cc in rw (e, here) refl
    | inr e ↦ rw e (column_value-any key pk row law (rw e at k))
  ]

  HasValue-self : (row : Row V) → IsLawful → All (HasValue row) row
  HasValue-self [] law = tt
  HasValue-self ((c, v) ∷ row) law = (
    rw (name_eq_refl c.name, (law v v).1 refl) refl,
    HasValue-cons (c, v) row row (HasValue-self row law),
  )

  -- The filter of a captured row that has the key's value `pk` selects, among the rows of the same
  -- columns, that row and no other, where no two columns have the same name and `==` is equality.
  pub matches-captured_row_filter :
      (s : TableSchema) (pk : V) (row other : Row V)
      → IsLawful
      → map column_of row ≡ map column_of other
      → HasDistinctNames row
      → column_value s.primary_key row ≡ some pk
      → (matches values (captured_row_filter s pk row) other ≡ ok true) ↔ (other ≡ row)
  unfolding captured_row_filter matches
  matches-captured_row_filter s pk row other law same d k =
      let key = s.primary_key in
      let (to, from) = matches-and_columns key (eq key pk) row other in
      (
        λ h.
            HasValue-eq row other law same d
              (Agrees-key key pk row other d k (ok_true (to h).0) (to h).1),
        λ e. from (
          rw e (ap ok (column_value-any key pk row law k)),
          Agrees-some key row other (rw e (HasValue-self row law)),
        ),
      )
