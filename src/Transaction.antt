-- ===== src/Transaction.antt =====
-- infra/transaction/transaction.go: a function run inside a database transaction. The database is
-- gorm's: what its calls answer is taken as an argument, and the calls are recorded in order, a commit
-- with the error that it has given.
pub mod Paths
mod Tests
use dt_go.Base.{ℕ, Bool, true, false, Option, none, some, List, [], ◌∷◌, ◌++◌, String}
use Prim.Native.String.{◌++◌ as concat}
use dt_go.Internal.Memstore.{Memstore, StoreValue, transaction_db}

pub data DbCall : Type 0 where
  begins rolls_back : ℕ → DbCall
  commits : ℕ → Option String → DbCall

-- How a Go function that returns an error ends. The errors are texts.
pub data Outcome : Type 0 where
  returned : Option String → Outcome
  panicked : String → Outcome

-- What the database answers: the handle that `Begin` returns, and the errors of `Rollback` and of
-- `Commit`, nil where they succeed.
pub record Answers : Type 0 where
  pub begun : ℕ
  pub rollback_error : Option String
  pub commit_error : Option String

abbrev pub local_transaction_db : String
local_transaction_db = "local_transaction_db"

-- What the runtime says of a call through a nil pointer or interface.
abbrev pub nil_dereference : String
nil_dereference = "invalid memory address or nil pointer dereference"

-- `e2` is the `*gorm.DB` that `Rollback` returns. It is never nil, so its `Error` is asked for the
-- text also where it is nil.
unfoldable pub join_errors : String → Option String → Outcome
join_errors err none = panicked nil_dereference
join_errors err (some e2) = returned (some (concat err (concat "," e2)))

module _ (m : Memstore) where
  -- The component's `db`, the store of its worker, and the calls on the database, in order.
  pub record SqlDb : Type 0 where
    pub db : Option ℕ
    pub store : m.Store
    pub calls : List DbCall

  abbrev pub Body : Type 0
  Body = SqlDb → Outcome × SqlDb

  unfoldable pub begin_tx : Answers → SqlDb → SqlDb
  begin_tx a t = record t {
    db = some a.begun;
    store = m.set t.store local_transaction_db (transaction_db a.begun);
    calls = t.calls ++ begins a.begun ∷ [];
  }

  -- `t.db = nil`, and the key of the transaction leaves the store.
  unfoldable pub clear : SqlDb → SqlDb
  clear t = record t { db = none; store = m.remove t.store local_transaction_db }

  abbrev call_db : (ℕ → DbCall) → ℕ → SqlDb → SqlDb
  call_db c h t = record t { calls = t.calls ++ c h ∷ [] }

  -- The deferred function where the body has panicked. With a nil `db` the rollback panics too.
  unfoldable pub defer_panic : String → Option ℕ → SqlDb → Outcome × SqlDb
  unfolding clear
  defer_panic perr none t = (panicked nil_dereference, t)
  defer_panic perr (some h) t = (returned (some perr), clear (call_db rolls_back h t))

  -- The error of `Commit` is dropped.
  unfoldable pub defer_return : Answers → Option String → Option ℕ → SqlDb → Outcome × SqlDb
  unfolding clear join_errors
  defer_return a err none t = (panicked nil_dereference, clear t)
  defer_return a none (some h) t =
      (returned none, call_db (λ tx. commits tx a.commit_error) h (clear t))
  defer_return a (some err) (some h) t =
      (join_errors err a.rollback_error, call_db rolls_back h (clear t))

  unfoldable pub finish : Answers → Outcome × SqlDb → Outcome × SqlDb
  unfolding defer_panic defer_return
  finish a (panicked perr, t) = defer_panic perr t.db t
  finish a (returned err, t) = defer_return a err t.db t

  unfoldable pub start : Answers → Body → Option ℕ → SqlDb → Outcome × SqlDb
  unfolding begin_tx finish
  start a fun (some h) t = (panicked "unknown error", t)
  start a fun none t = finish a (fun (begin_tx a t))

  -- `Execute` and `ExecuteTx` are this with the options that `Begin` gets.
  unfoldable pub execute : Answers → Body → Body
  unfolding start
  execute a fun t = start a fun t.db t
