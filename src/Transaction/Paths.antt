-- ===== src/Transaction/Paths.antt =====
-- How a transaction of infra/transaction/transaction.go ends, on each path of its body.
use Prim.Native.String.{◌++◌ as concat}
use dt_go.Base.{Option, ◌≡◌, refl, ap, ◌∙◌, none, some, [], ◌∷◌, ◌++◌, String, arith}
use dt_go.Internal.Memstore.{Memstore}
use dt_go.Transaction.{
  DbCall, begins, commits, rolls_back, Outcome, returned, panicked, Answers, SqlDb, Body, execute,
  start, finish, begin_tx, clear, defer_panic, defer_return, join_errors, local_transaction_db,
  nil_dereference,
}

-- The call that ends the transaction, by the way in which the body ends.
abbrev pub ending : Answers → Outcome → DbCall
ending a (returned none) = commits a.begun a.commit_error
ending a (returned (some err)) = rolls_back a.begun
ending a (panicked perr) = rolls_back a.begun

-- What the caller is told of an error of the body, by the error of the rollback.
abbrev pub told : String → Option String → Outcome
told err none = panicked nil_dereference
told err (some e2) = returned (some (concat err (concat "," e2)))

join_errors-told : (err : String) (e2 : Option String) → join_errors err e2 ≡ told err e2
unfolding join_errors
join_errors-told err none = refl
join_errors-told err (some e2) = refl

-- What the caller is told, by the way in which the body ends.
abbrev pub reported : Answers → Outcome → Outcome
reported a (returned none) = returned none
reported a (returned (some err)) = told err a.rollback_error
reported a (panicked perr) = returned (some perr)

module _ (m : Memstore) where
  -- The body leaves the component's `db` alone: only `Execute` and `ExecuteTx` write it.
  abbrev pub KeepsDb : Body m → Type 0
  KeepsDb fun = (t : SqlDb m) → (fun t).1.db ≡ t.db

  -- What the body leaves behind in the transaction that `Begin` has opened.
  abbrev pub body_state : Answers → Body m → SqlDb m → SqlDb m
  body_state a fun t = (fun (begin_tx m a t)).1

  abbrev pub body_outcome : Answers → Body m → SqlDb m → Outcome
  body_outcome a fun t = (fun (begin_tx m a t)).0

  finish_effect :
      (a : Answers) (o : Outcome) (t : SqlDb m)
      → t.db ≡ some a.begun
      → ((finish m a (o, t)).0 ≡ reported a o)
        × ((finish m a (o, t)).1.store ≡ m.remove t.store local_transaction_db)
        × ((finish m a (o, t)).1.calls ≡ t.calls ++ ending a o ∷ [])
        × ((finish m a (o, t)).1.db ≡ none)
  unfolding finish defer_panic defer_return clear
  finish_effect a (panicked perr) t e = ground (arith, e)
  finish_effect a (returned none) t e = ground (arith, e)
  finish_effect a (returned (some err)) t e =
      ground (arith, e, join_errors-told err a.rollback_error)

  begin_tx-db : (a : Answers) (t : SqlDb m) → (begin_tx m a t).db ≡ some a.begun
  unfolding begin_tx
  begin_tx-db a t = refl

  start-none :
      (a : Answers) (fun : Body m) (t : SqlDb m)
      → t.db ≡ none
      → execute m a fun t ≡ finish m a (fun (begin_tx m a t))
  unfolding execute start
  start-none a fun t e = rw (e, start)

  pub execute_effect :
      (a : Answers) (fun : Body m) (t : SqlDb m)
      → KeepsDb fun
      → t.db ≡ none
      → ((execute m a fun t).0 ≡ reported a (body_outcome a fun t))
        × ((execute m a fun t).1.store ≡ m.remove (body_state a fun t).store local_transaction_db)
        × ((execute m a fun t).1.calls
            ≡ (body_state a fun t).calls ++ ending a (body_outcome a fun t) ∷ [])
        × ((execute m a fun t).1.db ≡ none)
  execute_effect a fun t keeps free = rw (start-none a fun t free) (
      finish_effect a (body_outcome a fun t) (body_state a fun t)
        (keeps (begin_tx m a t) ∙ begin_tx-db a t))

  -- Where the component is free and the body leaves its `db` alone: after the body exactly one more call
  -- reaches the database, a commit where the body has returned nil, and a rollback where it has returned
  -- an error or panicked. On every path the component is free again and the transaction has left the
  -- store of the worker. The caller gets nil after a commit, also after one that has failed, and a panic
  -- of the body as an error. After an error of the body there is a panic where the rollback succeeds,
  -- and the text of both errors where it fails.
  pub execute_ends_once :
      (a : Answers) (fun : Body m) (t : SqlDb m)
      → KeepsDb fun
      → t.db ≡ none
      → ((execute m a fun t).0 ≡ reported a (body_outcome a fun t))
        × ((execute m a fun t).1.calls
            ≡ (body_state a fun t).calls ++ ending a (body_outcome a fun t) ∷ [])
        × ((execute m a fun t).1.db ≡ none)
        × (m.get (execute m a fun t).1.store local_transaction_db ≡ none)
  execute_ends_once a fun t keeps free =
      let ends = execute_effect a fun t keeps free in
      (
        ends.0,
        ends.2,
        ends.3,
        ap (λ s. m.get s local_transaction_db) ends.1
            ∙ m.get-remove (body_state a fun t).store local_transaction_db local_transaction_db,
      )

  -- An error of the body never reaches the caller where the rollback succeeds: the deferred function
  -- asks the rollback for the text of an error that is nil, and panics, although it has rolled back.
  pub execute_error_panics :
      (a : Answers) (fun : Body m) (t : SqlDb m) (err : String)
      → KeepsDb fun
      → t.db ≡ none
      → body_outcome a fun t ≡ returned (some err)
      → a.rollback_error ≡ none
      → ((execute m a fun t).0 ≡ panicked nil_dereference)
        × ((execute m a fun t).1.calls ≡ (body_state a fun t).calls ++ rolls_back a.begun ∷ [])
  execute_error_panics a fun t err keeps free fails fine =
      let ends = execute_effect a fun t keeps free in
      (
        ends.0 ∙ ap (reported a) fails ∙ ap (told err) fine,
        ends.2 ∙ ap (λ (o : Outcome). (body_state a fun t).calls ++ ending a o ∷ []) fails,
      )

  begins_inside :
      (a a' : Answers) (fun : Body m) (t : SqlDb m)
      → execute m a' fun (begin_tx m a t) ≡ (panicked "unknown error", begin_tx m a t)
  unfolding execute start begin_tx
  begins_inside a a' fun t = refl

  -- Transactions do not nest: a transaction of the same component inside the body begins nothing and
  -- panics, so the outer one is rolled back, and its caller gets the panic as an error.
  pub execute_nested :
      (a a' : Answers) (fun : Body m) (t : SqlDb m)
      → t.db ≡ none
      → ((execute m a (execute m a' fun) t).0 ≡ returned (some "unknown error"))
        × ((execute m a (execute m a' fun) t).1.calls
            ≡ (t.calls ++ begins a.begun ∷ []) ++ rolls_back a.begun ∷ [])
  unfolding finish defer_panic clear begin_tx
  execute_nested a a' fun t free =
      rw (start-none a (execute m a' fun) t free, begins_inside a a' fun t) (refl, refl)
