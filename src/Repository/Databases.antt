-- ===== src/Repository/Databases.antt =====
-- The database of a repository (internal/repository.go) around a transaction (infra/transaction).
use dt_go.Base.{◌≡◌, ap, Option, none, some}
use dt_go.Internal.Memstore.{Memstore, StoreValue, transaction_db}
use dt_go.Transaction.{Answers, SqlDb, Body, execute, begin_tx}
use dt_go.Transaction.Paths.{KeepsDb, execute_ends_once}
use dt_go.Repository.{Destination, to_gorm_db, fetched, result_db, fetch_db, fetch_source_db}

module _ (m : Memstore) where
  begin_tx-get :
      (a : Answers) (t : SqlDb m)
      → m.get (begin_tx m a t).store "local_transaction_db" ≡ some (transaction_db a.begun)
  unfolding begin_tx
  begin_tx-get a t =
      m.get-set t.store "local_transaction_db" "local_transaction_db" (transaction_db a.begun)

  -- A repository follows the transaction of its worker: where the body begins, `FetchDB` gives the
  -- transaction, whatever database the application has, and once `execute` has ended, on every path
  -- of the body, it gives again what `FetchSourceDB` gives.
  pub fetch_db_follows_transaction :
      (a : Answers) (fun : Body m) (t : SqlDb m) (dest : Destination) (app : Option StoreValue)
      → KeepsDb m fun
      → t.db ≡ none
      → (fetch_db m to_gorm_db app (begin_tx m a t).store ≡ some a.begun)
        × (fetch_db m dest app (execute m a fun t).1.store ≡ fetch_source_db dest app)
  unfolding fetch_db fetch_source_db
  fetch_db_follows_transaction a fun t dest app keeps free = (
    ap (λ v. fetched to_gorm_db (result_db app v)) (begin_tx-get a t),
    ap (λ v. fetched dest (result_db app v)) (execute_ends_once m a fun t keeps free).3,
  )
