-- ===== src/Repository/Tests.antt =====
-- The theorem about internal/repository.go at concrete data.
use dt_go.Base.{◌≡◌, refl, none, some, []}
use dt_go.Internal.Memstore.{entry_list, transaction_db}
use dt_go.Transaction.{Answers, SqlDb, Body, execute, begin_tx, panicked}
use dt_go.Repository.{to_gorm_db, fetch_db, fetch_source_db}
use dt_go.Repository.Databases.{fetch_db_follows_transaction}

abbrev idle : SqlDb entry_list
idle = record { db = none; store = []; calls = [] }

abbrev good : Answers
good = record { begun = 1; rollback_error = none; commit_error = none }

abbrev breaks : Body entry_list
breaks t = (panicked "boom", t)

fetch_db_follows_transaction_example :
    (fetch_db entry_list to_gorm_db (some (transaction_db 8)) (begin_tx entry_list good idle).store
      ≡ some 1)
    × (fetch_db entry_list to_gorm_db
          (some (transaction_db 8))
          (execute entry_list good breaks idle).1.store
        ≡ fetch_source_db to_gorm_db (some (transaction_db 8)))
fetch_db_follows_transaction_example =
    fetch_db_follows_transaction entry_list good breaks idle to_gorm_db (some (transaction_db 8))
      (λ t. refl) refl
