-- ===== src/Engine/Journaled.antt =====
-- Table operations that write through the journal alone, and what a transaction makes of them.
use wasm_dbms.Prelude.{ℕ, ◌+◌, ◌≤◌, ◌≡◌, inl, inr, refl, ◌∙◌, arith, Option, none, some}
use wasm_dbms.Prelude.{List, [], ◌∷◌, length, Bool-cases, ◌==◌}
use wasm_dbms.Prelude.Result.{Result, ok, err, panic}
use wasm_dbms.Prelude.Names.{Name}
use wasm_dbms.Query.Filter.{Filter}
use wasm_dbms.Journal.{Journal, JournaledWriter}
use wasm_dbms.Journal.Wrote.{Wrote, Wrote-trans, Wrote-refl}
use wasm_dbms.Memory.Provider.{MemoryProvider}
use wasm_dbms.Transaction.Overlay.Table.{Row}
use wasm_dbms.Transaction.Operations.{TransactionOp, DeleteBehavior, insert, delete, update}
use wasm_dbms.Engine.{DbmsError, Database, DatabaseSchema, Run, pure, raise, continue, ◌>>=◌}
use wasm_dbms.Engine.Commit.{execute, on_filter, validate_filters, validated_transaction_filter}

abbrev pub writer : {P R V F : Type 0} → Database P R V F → Journal → JournaledWriter P
writer d j = record { mm = d.ctx.mm; journal = j }

module _ {P R V F E : Type 0} (mp : MemoryProvider P) where
  -- What a method that writes through the journal alone comes to, from a database with journal `j`: a
  -- journal is active, and it and the memory come from calls of the journaled writer, each with its
  -- write in a page and of the length that its value says, which add at most `n` pages.
  abbrev pub Kept :
      {A : Type 0}
      → ℕ
      → Database P R V F
      → Journal
      → Result (DbmsError E) A × Database P R V F
      → Type 1
  Kept n d j r =
      ((j' : Journal) × (r.1.ctx.journal ≡ some j') × Wrote mp n (writer d j) (writer r.1 j'))
      × (r.1.transaction ≡ d.transaction)

  -- The method writes through the journal alone when it is called on this database.
  abbrev pub JournalsAt : {A : Type 0} → ℕ → Run (Database P R V F) E A → Database P R V F → Type 1
  JournalsAt n m d = (j : Journal) → d.ctx.journal ≡ some j → Kept n d j (m d)

  -- The method writes through the journal alone, on any database.
  pub record Journals {A : Type 0} (n : ℕ) (m : Run (Database P R V F) E A) : Type 1 where
    pub on : (d : Database P R V F) → JournalsAt n m d

  pub Journals_pure : {A : Type 0} (n : ℕ) (a : A) → Journals n (pure a)
  Journals_pure n a = record { on = λ d j h. ((j, h, Wrote-refl mp (writer d j)), refl) }

  pub Journals_raise : {A : Type 0} (n : ℕ) (e : DbmsError E) → Journals {A = A} n (raise e)
  Journals_raise n e = record { on = λ d j h. ((j, h, Wrote-refl mp (writer d j)), refl) }

  Kept-continue :
      {A B : Type 0} (n m k : ℕ)
      → n + m ≤ k
      → (g : A → Run (Database P R V F) E B) → ((a : A) → Journals m (g a))
      → (d : Database P R V F) (j : Journal) (r : Result (DbmsError E) A) (d' : Database P R V F)
      → Kept n d j (r, d')
      → Kept k d j (continue r g d')
  Kept-continue n m k le g hg d j (ok a) d' ((j', h, w), t) =
      let next = hg a in
      let ((j'', h', w'), t') = next.on d' j' h in ((j'', h', Wrote-trans mp le w w'), t' ∙ t)
  Kept-continue n m k le g hg d j (err e) d' ((j', h, w), t) =
      ((j', h, Wrote-trans mp le w (Wrote-refl mp {n = m} (writer d' j'))), t)
  Kept-continue n m k le g hg d j panic d' ((j', h, w), t) =
      ((j', h, Wrote-trans mp le w (Wrote-refl mp {n = m} (writer d' j'))), t)

  pub Journals_bind :
      {A B : Type 0} (n m k : ℕ)
      → n + m ≤ k
      → (f : Run (Database P R V F) E A) (g : A → Run (Database P R V F) E B) → Journals n f
      → ((a : A) → Journals m (g a))
      → Journals k (f >>= g)
  Journals_bind n m k le f g hf hg = record {
    on = λ d j h. Kept-continue n m k le g hg d j (f d).0 (f d).1 (hf.on d j h);
  }

  -- The table operations write through the journal alone, on any database; a change adds at most `n` pages.
  pub record IsJournaled (schema : DatabaseSchema P R V F E) (n : ℕ) : Type 1 where
    pub select : (table : Name) (f : Filter V F) → Journals 0 (schema.select table f)
    pub validate_insert :
        (table : Name) (values : Row V) → Journals 0 (schema.validate_insert table values)
    pub insert : (table : Name) (values : Row V) → Journals n (schema.insert table values)
    pub delete :
        (table : Name) (behaviour : DeleteBehavior) (f : Filter V F)
        → Journals n (schema.delete table behaviour f)
    pub update :
        (table : Name) (patch : Row V) (f : Filter V F) → Journals n (schema.update table patch f)

  module _ {schema : DatabaseSchema P R V F E} {n : ℕ} (s : IsJournaled schema n) where
    validate_filters_lem :
        (table : Name) (filters : List (Filter V F))
        → Journals 0 (validate_filters mp schema table filters)
    unfolding validate_filters
    validate_filters_lem table [] = Journals_pure 0 tt
    validate_filters_lem table (f ∷ filters) =
        Journals_bind 0 0 0 (omega arith) (schema.select table f) _ (s.select table f) (λ rows.
          elim (Bool-cases (length rows == 1)) [
            | inl e ↦ rw e (validate_filters_lem table filters)
            | inr e ↦ rw e (Journals_raise 0 _)
          ])

    on_filter_lem :
        (change : Filter V F → Run (Database P R V F) E ℕ)
        → ((f : Filter V F) → Journals n (change f))
        → (filter : Option (Filter V F)) → Journals n (on_filter mp schema change filter)
    on_filter_lem change h none = Journals_pure n tt
    on_filter_lem change h (some f) =
        Journals_bind n 0 n (omega arith) (change f) _ (h f) (λ _. Journals_pure 0 tt)

    validated_filter_lem :
        (table : Name) (filters : List (Filter V F))
        → Journals 0 (validated_transaction_filter mp schema table filters)
    unfolding validated_transaction_filter
    validated_filter_lem table filters =
        Journals_bind 0 0 0 (omega arith) (validate_filters mp schema table filters) _
          (validate_filters_lem table filters) (λ _. Journals_pure 0 _)

    pub execute_lem : (op : TransactionOp V F) → Journals n (execute mp schema op)
    unfolding execute validated_transaction_filter
    execute_lem (insert table values) =
        Journals_bind 0 n n (omega arith) (schema.validate_insert table values) _
          (s.validate_insert table values) (λ _. s.insert table values)
    execute_lem (delete table behaviour filters) =
        Journals_bind 0 n n (omega arith) (validated_transaction_filter mp schema table filters) _
          (validated_filter_lem table filters) (on_filter_lem _ (s.delete table behaviour))
    execute_lem (update table patch filters) =
        Journals_bind 0 n n (omega arith) (validated_transaction_filter mp schema table filters) _
          (validated_filter_lem table filters) (on_filter_lem _ (s.update table patch))
