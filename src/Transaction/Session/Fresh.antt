-- ===== src/Transaction/Session/Fresh.antt =====
-- The session does not reuse an id.
use wasm_dbms.Prelude.{ℕ, ◌+◌, ◌%◌, ◌≤◌, ◌<◌, ◌≡◌, refl, arith, length, All}
use wasm_dbms.Prelude.{
  List, [], ◌∷◌, false, none, some, ◌==◌, ==_iff, inl, inr, Bool-cases, Option-cases,
}
use wasm_dbms.Prelude.Result.{Result, ok, err, panic}
use wasm_dbms.Encode.{u64_mod}
use wasm_dbms.Transaction.Session.{
  TransactionId, TransactionSession, new_session, lookup, remove, begin_transaction,
}
use wasm_dbms.Transaction.Session.{
  has_transaction, get_transaction, take_transaction, close_transaction,
}
use wasm_dbms.Transaction.Session.{get_transaction_mut}

-- The calls that change a session.
pub data Call (T : Type 0) : Type 0 where
  begin : Call T
  take : TransactionId → Call T
  close : TransactionId → Call T
  change : TransactionId → (T → T) → Call T

k_apart : (q k : ℕ) → q == k ≡ false → k == q ≡ false
k_apart q k h = ground arith

abbrev IdsBelow : ℕ → List TransactionId → Type 0
IdsBelow n ids = All (λ id. id < n) ids

module _ {T : Type 0} where
  -- The session after a call; `get_transaction_mut` of a missing id leaves it.
  abbrev ok_or :
      {E : Type 0} → Result E (TransactionSession T) → TransactionSession T → TransactionSession T
  ok_or (ok s') s = s'
  ok_or (err e) s = s
  ok_or panic s = s

  unfoldable pub apply_call : T → Call T → TransactionSession T → TransactionSession T
  unfolding begin_transaction take_transaction close_transaction get_transaction_mut get_transaction
  apply_call default begin s = (begin_transaction default s).1
  apply_call default (take id) s = (take_transaction id s).1
  apply_call default (close id) s = close_transaction id s
  apply_call default (change id f) s = ok_or (get_transaction_mut id f s) s

  abbrev pub run : T → List (Call T) → TransactionSession T → TransactionSession T
  run default [] s = s
  run default (call ∷ calls) s = run default calls (apply_call default call s)

  -- The ids that the calls hand out.
  abbrev pub begun : T → List (Call T) → TransactionSession T → List TransactionId
  begun default [] s = []
  begun default (begin ∷ calls) s =
      s.next_transaction_id ∷ begun default calls (apply_call default begin s)
  begun default (call ∷ calls) s = begun default calls (apply_call default call s)

  -- Every open id, and every id handed out, is below the counter.
  abbrev Below : ℕ → List (TransactionId × T) → Type 0
  Below n ts = All (λ kt. kt.0 < n) ts

  Below-remove : (n k : ℕ) (ts : List (TransactionId × T)) → Below n ts → Below n (remove k ts)
  Below-remove n k [] h = tt
  Below-remove n k ((q, t) ∷ ts) (h, hs) = elim (Bool-cases (q == k)) [
    | inl e ↦ rw e (Below-remove n k ts hs)
    | inr e ↦ rw e (h, Below-remove n k ts hs)
  ]

  Below-mono : (n m : ℕ) (ts : List (TransactionId × T)) → n ≤ m → Below n ts → Below m ts
  Below-mono n m [] le h = tt
  Below-mono n m ((q, t) ∷ ts) le (h, hs) = (omega arith, Below-mono n m ts le hs)

  lookup-Below : (n : ℕ) (ts : List (TransactionId × T)) → Below n ts → lookup n ts ≡ none
  lookup-Below n [] h = refl
  lookup-Below n ((q, t) ∷ ts) (h, hs) =
      let apart : q == n ≡ false = ground arith in rw apart (lookup-Below n ts hs)

  lookup-lt :
      (n k : ℕ) (t : T) (ts : List (TransactionId × T)) → Below n ts → lookup k ts ≡ some t → k < n
  lookup-lt n k t [] h there = cc
  lookup-lt n k t ((q, u) ∷ ts) (h, hs) there = elim (Bool-cases (q == k)) [
    | inl e ↦ omega (arith, (==_iff q k).0 e)
    | inr e ↦ lookup-lt n k t ts hs (rw e at there)
  ]

  Below-apply_call :
      (default : T) (call : Call T) (s : TransactionSession T)
      → s.next_transaction_id + 1 < u64_mod
      → Below s.next_transaction_id s.transactions
      → Below
          (apply_call default call s).next_transaction_id
          (apply_call default call s).transactions
        × (s.next_transaction_id ≤ (apply_call default call s).next_transaction_id)
        × ((apply_call default call s).next_transaction_id ≤ s.next_transaction_id + 1)
  unfolding apply_call begin_transaction get_transaction_mut get_transaction
  Below-apply_call default begin s small h =
      let same : (s.next_transaction_id + 1) % u64_mod ≡ s.next_transaction_id + 1 = omega arith in
      let next = (s.next_transaction_id + 1) % u64_mod in
      (
        (
          omega (arith, same),
          Below-remove next s.next_transaction_id s.transactions
              (Below-mono s.next_transaction_id next s.transactions (omega (arith, same)) h),
        ),
        omega (arith, same),
        omega (arith, same),
      )
  Below-apply_call default (take k) s small h =
      (Below-remove s.next_transaction_id k s.transactions h, omega arith, omega arith)
  Below-apply_call default (close k) s small h =
      (Below-remove s.next_transaction_id k s.transactions h, omega arith, omega arith)
  Below-apply_call default (change k f) s small h = elim (Option-cases (lookup k s.transactions)) [
    | inl gone ↦ rw gone (h, omega arith, omega arith)
    | inr (t, there) ↦ rw there (
      (
        lookup-lt s.next_transaction_id k t s.transactions h there,
        Below-remove s.next_transaction_id k s.transactions h,
      ),
      omega arith,
      omega arith,
    )
  ]

  abbrev BelowSession : TransactionSession T → Type 0
  BelowSession s = Below s.next_transaction_id s.transactions

  begun-run :
      (default : T) (calls : List (Call T)) (s : TransactionSession T)
      → s.next_transaction_id + length calls < u64_mod
      → BelowSession s
      → BelowSession (run default calls s)
        × (s.next_transaction_id ≤ (run default calls s).next_transaction_id)
        × IdsBelow (run default calls s).next_transaction_id (begun default calls s)
  unfolding apply_call begin_transaction
  begun-run default [] s small h = (h, omega arith, tt)
  begun-run default (begin ∷ calls) s small h =
      let (h', le, le') = Below-apply_call default begin s (omega arith) h in
      let (h'', more, ids) =
        begun-run default calls (apply_call default begin s) (omega arith) h' in
      (h'', omega arith, (omega (arith, h'.0), ids))
  begun-run default (take k ∷ calls) s small h =
      let (h', le, le') = Below-apply_call default (take k) s (omega arith) h in
      let (h'', more, ids) =
        begun-run default calls (apply_call default (take k) s) (omega arith) h' in
      (h'', omega arith, ids)
  begun-run default (close k ∷ calls) s small h =
      let (h', le, le') = Below-apply_call default (close k) s (omega arith) h in
      let (h'', more, ids) =
        begun-run default calls (apply_call default (close k) s) (omega arith) h' in
      (h'', omega arith, ids)
  begun-run default (change k f ∷ calls) s small h =
      let (h', le, le') = Below-apply_call default (change k f) s (omega arith) h in
      let (h'', more, ids) =
        begun-run default calls (apply_call default (change k f) s) (omega arith) h' in
      (h'', omega arith, ids)

  -- The id of a begun transaction is not open, and none of the ids handed out before, when fewer than
  -- 2^64 calls come before it.
  pub begin_transaction_fresh :
      (default : T) (calls : List (Call T))
      → length calls + 1 < u64_mod
      → (has_transaction
            (begin_transaction default (run default calls new_session)).0
            (run default calls new_session)
          ≡ false)
        × All
            (λ id. id < (begin_transaction default (run default calls new_session)).0)
            (begun default calls new_session)
  unfolding has_transaction begin_transaction
  begin_transaction_fresh default calls h =
      let (under, more, ids) = begun-run default calls new_session (omega arith) tt in
      let s = run default calls new_session in
      (rw (lookup-Below s.next_transaction_id s.transactions under, has_transaction) refl, ids)
