-- ===== src/Transaction/Session.antt =====
-- transaction/session.rs: the open transactions by their ids, an association list in which an id
-- stands at most once. The counter is a u64 that wraps.
pub mod Fresh
use wasm_dbms.Prelude.{ℕ, ◌+◌, ◌%◌, List, [], ◌∷◌, Bool, Option, none, some, ◌==◌, if◌then◌else◌}
use wasm_dbms.Prelude.Result.{Result, ok, err, ◌>>=◌}
use wasm_dbms.Prelude.Names.{is_some_and}
use mathlib.Core.Bool.{true}
use wasm_dbms.Encode.{u64_mod}

-- `QueryError::TransactionNotFound`
pub data SessionError : Type 0 where
  transaction_not_found : SessionError

abbrev pub TransactionId : Type 0
TransactionId = ℕ

pub record TransactionSession (T : Type 0) : Type 0 where
  pub transactions : List (TransactionId × T)
  pub next_transaction_id : TransactionId

module _ {T : Type 0} where
  abbrev pub new_session : TransactionSession T
  new_session = record { transactions = []; next_transaction_id = 0 }

  abbrev pub lookup : TransactionId → List (TransactionId × T) → Option T
  lookup id [] = none
  lookup id ((k, t) ∷ rest) = if k == id then some t else lookup id rest

  abbrev pub remove : TransactionId → List (TransactionId × T) → List (TransactionId × T)
  remove id [] = []
  remove id ((k, t) ∷ rest) =
      let later = remove id rest in if k == id then later else (k, t) ∷ later

  abbrev pub replace : TransactionId → T → List (TransactionId × T) → List (TransactionId × T)
  replace id t transactions = (id, t) ∷ remove id transactions

  unfoldable pub begin_transaction : T → TransactionSession T → TransactionId × TransactionSession T
  begin_transaction default s = (
    s.next_transaction_id,
    record {
      transactions = replace s.next_transaction_id default s.transactions;
      next_transaction_id = (s.next_transaction_id + 1) % u64_mod;
    },
  )

  unfoldable pub has_transaction : TransactionId → TransactionSession T → Bool
  has_transaction id s = is_some_and (λ t. true) (lookup id s.transactions)

  abbrev or_not_found : Option T → Result SessionError T
  or_not_found none = err transaction_not_found
  or_not_found (some t) = ok t

  unfoldable pub get_transaction : TransactionId → TransactionSession T → Result SessionError T
  get_transaction id s = or_not_found (lookup id s.transactions)

  unfoldable pub close_transaction : TransactionId → TransactionSession T → TransactionSession T
  close_transaction id s = record s { transactions = remove id s.transactions }

  unfoldable pub take_transaction :
      TransactionId → TransactionSession T → Result SessionError T × TransactionSession T
  take_transaction id s = (
    or_not_found (lookup id s.transactions),
    record s { transactions = remove id s.transactions },
  )

  -- The transaction that `get_transaction_mut` lends, changed by `f`.
  unfoldable pub get_transaction_mut :
      TransactionId → (T → T) → TransactionSession T → Result SessionError (TransactionSession T)
  unfolding get_transaction
  get_transaction_mut id f s =
      get_transaction id s >>= λ t. ok (record s { transactions = replace id (f t) s.transactions })
