-- ===== src/Engine/Undone.antt =====
-- A commit, or an atomic operation, that fails leaves the memory as it was.
use mathlib.Core.List.{append-nil}
use wasm_dbms.Engine
use wasm_dbms.Engine.{no_active_transaction}
use wasm_dbms.Prelude.{
  Bool, Option, ℕ, ◌+◌, ◌*◌, ◌≡◌, ◌⊎◌, inl, inr, refl, sym, ap, ◌∙◌, arith, none, some,
}
use wasm_dbms.Prelude.{List, [], ◌∷◌, ◌++◌, length, Option-cases}
use wasm_dbms.Prelude.Result.{Result, Result-cases, ok, err, panic}
use wasm_dbms.Journal.{Journal, JournaledWriter}
use wasm_dbms.Journal
use wasm_dbms.Journal.Wrote.{Wrote, Wrote-trans, Wrote-refl, rollback-Wrote, HasRoom-le}
use wasm_dbms.Memory.Provider.{MemoryProvider, IsProvider}
use wasm_dbms.Memory.Manager.Effects.{HasRoom}
use wasm_dbms.Transaction.Operations.{Transaction, TransactionOp}
use wasm_dbms.Transaction.Session.{TransactionId, take_transaction, lookup}
use wasm_dbms.Engine.{
  DbmsError, DbmsContext, Database, DatabaseSchema, Run, schema_drift, ◌>>=◌, ◌>>◌, continue,
}
use wasm_dbms.Engine.Drift.{ensure_no_drift_cases, with_cache}
use wasm_dbms.Engine.Commit.{
  execute, execute_all, roll_back_journal, commit, commit_operations, commit_taken, atomic,
}
use wasm_dbms.Engine.Journaled.{writer, JournalsAt}

module _ {P R V F E : Type 0} {mp : MemoryProvider P} {bytes : P → List ℕ}
    (L : IsProvider mp bytes) where
  -- The answer is an error, no journal is active, and the memory is `p`'s, up to pages added.
  abbrev pub Undone : {A : Type 0} → P → Result (DbmsError E) A × Database P R V F → Type 0
  Undone p r =
      ((e : DbmsError E) × (r.0 ≡ err e))
      × (r.1.ctx.journal ≡ none)
      × ((extra : List ℕ) × (bytes r.1.ctx.mm ≡ bytes p ++ extra))

  -- What a journal recorded since `p` is rolled back.
  roll_back_journal_lem :
      {A : Type 0} {n : ℕ} (schema : DatabaseSchema P R V F E) (e : DbmsError E) (p : P)
      (d : Database P R V F) (j : Journal)
      → d.ctx.journal ≡ some j
      → HasRoom mp bytes n p
      → Wrote mp n (record { mm = p; journal = Journal.new }) (writer d j)
      → Undone {A = A} p (roll_back_journal mp schema e d)
  unfolding roll_back_journal
  roll_back_journal_lem schema e p d j h room wrote =
      let (done, (extra, back)) = rollback-Wrote L p (writer d j) room wrote in
      rw (h, done, roll_back_journal) ((e, refl), refl, (extra, back))

  module _ (schema : DatabaseSchema P R V F E) (n : ℕ) where
    -- Each of the operations that are reached writes through the journal alone, where it is run.
    abbrev pub Runs : List (TransactionOp V F) → Database P R V F → Type 1
    Runs [] d = Unit {1}
    Runs (op ∷ ops) d =
        JournalsAt mp n (execute mp schema op) d
        × ((execute mp schema op d).0 ≡ ok tt → Runs ops (execute mp schema op d).1)

    -- One of the operations panics, after those before it have succeeded.
    abbrev pub Panics : List (TransactionOp V F) → Database P R V F → Type 0
    Panics [] d = ⊥
    Panics (op ∷ ops) d =
        ((execute mp schema op d).0 ≡ panic)
        ⊎ (((execute mp schema op d).0 ≡ ok tt) × Panics ops (execute mp schema op d).1)

    execute_all_lem :
        (ops : List (TransactionOp V F)) {k : ℕ} (p : P) (d : Database P R V F) (j : Journal)
        → d.ctx.journal ≡ some j
        → Runs ops d
        → HasRoom mp bytes (k + length ops * n) p
        → Wrote mp k (record { mm = p; journal = Journal.new }) (writer d j)
        → (((execute_all mp schema ops d).0 ≡ ok tt)
              × ((execute_all mp schema ops d).1.transaction ≡ d.transaction)
            ⊎ Undone p (execute_all mp schema ops d))
          ⊎ (((execute_all mp schema ops d).0 ≡ panic) × Panics ops d)
    unfolding execute_all
    execute_all_lem [] p d j h runs room wrote = inl (inl (refl, refl))
    execute_all_lem (op ∷ ops) {k} p d j h (run, runs) room wrote =
        let ((j', h', w), t) = run j h in
        let d' = (execute mp schema op d).1 in
        let room' = HasRoom-le L {k = k + n} (omega (arith)) room in
        let room'' = HasRoom-le L {k = (k + n) + length ops * n} (omega arith) room in
        let wrote' = Wrote-trans mp {k = k + n} (omega arith) wrote w in
        elim (Result-cases (execute mp schema op d).0) [
          | inl e ↦ rw (e, execute_all) (inr (refl, inl refl))
          | inr (inl (e, failed)) ↦
              rw (failed, execute_all)
                (inl (inr (roll_back_journal_lem schema e p d' j' h' room' wrote')))
          | inr (inr (tt, went)) ↦
              rw (went, execute_all)
                (elim (execute_all_lem ops p d' j' h' (runs went) room'' wrote') [
                  | inl (inl (good, same)) ↦ inl (inl (good, same ∙ t))
                  | inl (inr undone) ↦ inl (inr undone)
                  | inr (down, at) ↦ inr (down, inr (refl, at))
                ])
        ]

    -- What a commit comes to from memory `p`: it succeeds and closes the transaction, or it fails and
    -- the memory is as it was. No journal stays active.
    abbrev pub Commits : P → Result (DbmsError E) (Unit {0}) × Database P R V F → Type 0
    Commits p r = ((r.0 ≡ ok tt) × (r.1.ctx.journal ≡ none) × (r.1.transaction ≡ none)) ⊎ Undone p r

    fails :
        {A : Type 0} (e : DbmsError E) (d : Database P R V F) (p : P)
        → d.ctx.journal ≡ none
        → d.ctx.mm ≡ p
        → Undone {A = A} p (err e, d)
    fails e d p h same = ((e, refl), h, ([], ap bytes same ∙ sym (append-nil (bytes p))))

    abbrev pub journaled : Database P R V F → Database P R V F
    journaled d = record d { ctx = record d.ctx { journal = some Journal.new } }

    commit_operations_lem :
        (ops : List (TransactionOp V F)) (d : Database P R V F)
        → Runs ops (journaled d)
        → HasRoom mp bytes (length ops * n) d.ctx.mm
        → d.transaction ≡ none
        → Commits d.ctx.mm (commit_operations mp schema ops d)
          ⊎ (((commit_operations mp schema ops d).0 ≡ panic) × Panics ops (journaled d))
    unfolding commit_operations
    commit_operations_lem ops d runs room gone =
        let start = Wrote-refl mp {n = 0} (record { mm = d.ctx.mm; journal = Journal.new }) in
        elim (execute_all_lem ops d.ctx.mm (journaled d) Journal.new refl runs
          (HasRoom-le L (omega arith) room) start) [
            | inl (inl (good, same)) ↦
                rw (good, commit_operations) (inl (inl (refl, refl, same ∙ gone)))
            | inl (inr ((e, failed), quiet, back)) ↦
                rw (failed, commit_operations) (inl (inr ((e, refl), quiet, back)))
            | inr (down, at) ↦ rw (down, commit_operations) (inr (refl, at))
          ]

    -- The database on which the operations of transaction `id` are run: the transaction is taken out of
    -- the session, whatever answer of the drift check is kept.
    abbrev pub taken : Option (ℕ × Bool) → TransactionId → Database P R V F → Database P R V F
    taken q id d = record {
      ctx = record d.ctx {
        transaction_session = (take_transaction id d.ctx.transaction_session).1;
        drift = q;
      };
      transaction = none;
    }

    -- A transaction that is active and open.
    abbrev pub Open : Database P R V F → TransactionId → Transaction V F → Type 0
    Open d id t =
        (d.transaction ≡ some id) × (lookup id d.ctx.transaction_session.transactions ≡ some t)

    -- An operation of the open transaction panics, and the commit with it.
    abbrev pub CommitPanics :
        Database P R V F → Result (DbmsError E) (Unit {0}) × Database P R V F → Type 0
    CommitPanics d r =
        (r.0 ≡ panic)
        × ((q : Option (ℕ × Bool)) × (id : TransactionId) × (t : Transaction V F) × Open d id t
            × Panics t.operations (journaled (taken q id d)))

    -- The operations of the open transaction write through the journal alone where they are run,
    -- whatever answer the drift check keeps, and there is room for the pages that they may add.
    abbrev pub Ready : Database P R V F → Type 1
    Ready d =
        (q : Option (ℕ × Bool)) (id : TransactionId) (t : Transaction V F)
        → Open d id t
        → Runs t.operations (journaled (taken q id d))
          × HasRoom mp bytes (length t.operations * n) d.ctx.mm

    commit_taken_lem :
        (q : Option (ℕ × Bool)) (d : Database P R V F)
        → d.ctx.journal ≡ none
        → Ready d
        → Commits d.ctx.mm (commit_taken mp schema (with_cache schema q d))
          ⊎ CommitPanics d (commit_taken mp schema (with_cache schema q d))
    unfolding commit_taken take_transaction
    commit_taken_lem q d quiet ready = elim (Option-cases d.transaction) [
      | inl gone ↦
          rw (gone, commit_taken)
            (inl (
              inr (
                fails no_active_transaction (record (with_cache schema q d) { transaction = none })
                  d.ctx.mm quiet refl)))
      | inr (id, active) ↦ elim (Option-cases (lookup id d.ctx.transaction_session.transactions)) [
        | inl gone ↦
            rw (active, gone, commit_taken)
              (inl (inr (fails Engine.transaction_not_found (taken q id d) d.ctx.mm quiet refl)))
        | inr (t, there) ↦
            let (runs, room) = ready q id t (active, there) in
            let same : commit_taken mp schema (with_cache schema q d)
                ≡ commit_operations mp schema t.operations (taken q id d) =
              rw (active, there, commit_taken) refl in
            rw same (elim (commit_operations_lem t.operations (taken q id d) runs room refl) [
              | inl done ↦ inl done
              | inr (down, at) ↦ inr (down, (q, id, t, (active, there), at))
            ])
      ]
    ]

    -- With no journal active, and with room for the pages that the operations of the open transaction
    -- may add, if each of these operations, where it is run and whatever answer the drift check keeps,
    -- writes through the journal alone, each of its writes in a page and of the length that the value
    -- says: the commit succeeds and leaves no
    -- transaction, or it fails and the memory is as it was, up to pages added behind it, or one of the
    -- operations panics. When it does not panic, no journal stays active.
    pub commit_cases :
        (d : Database P R V F)
        → d.ctx.journal ≡ none
        → Ready d
        → Commits d.ctx.mm (commit mp schema d) ⊎ CommitPanics d (commit mp schema d)
    unfolding commit
    commit_cases d quiet ready =
        let ((q, after), answer) = ensure_no_drift_cases schema d in
        elim answer [
          | inr drifted ↦
              rw (drifted, after, commit)
                (inl (inr (fails schema_drift (with_cache schema q d) d.ctx.mm quiet refl)))
          | inl fine ↦
              let same : commit mp schema d ≡ commit_taken mp schema (with_cache schema q d) =
                rw (fine, after, commit) refl in
              rw same (commit_taken_lem q d quiet ready)
        ]

    -- With no journal active and room for the `n` pages that the operation may add, if the operation
    -- writes through the journal alone, each write in a page and of the length that the value says, then
    -- run atomically it gives a result, or it fails and the memory is as it was, up to pages added behind
    -- it, or it panics itself. When it does not panic, no journal stays active.
    pub atomic_cases :
        {A : Type 0} (f : Run (Database P R V F) E A) (d : Database P R V F)
        → JournalsAt mp n f (journaled d)
        → d.ctx.journal ≡ none
        → HasRoom mp bytes n d.ctx.mm
        → (((a : A) × ((atomic mp schema f d).0 ≡ ok a)
              × ((atomic mp schema f d).1.ctx.journal ≡ none))
            ⊎ Undone d.ctx.mm (atomic mp schema f d))
          ⊎ (((atomic mp schema f d).0 ≡ panic) × ((f (journaled d)).0 ≡ panic))
    unfolding atomic
    atomic_cases {A} f d h quiet room =
        let ((j', h', w), t) = h Journal.new refl in
        elim (Result-cases (f (journaled d)).0) [
          | inl e ↦ rw (quiet, e, atomic) (inr (refl, refl))
          | inr (inl (e, failed)) ↦
              rw (quiet, failed, atomic)
                (inl
                  (inr (roll_back_journal_lem schema e d.ctx.mm (f (journaled d)).1 j' h' room w)))
          | inr (inr (a, went)) ↦ rw (quiet, went, atomic) (inl (inl (a, refl, refl)))
        ]
