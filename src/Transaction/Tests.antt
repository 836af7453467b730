-- ===== src/Transaction/Tests.antt =====
-- The theorems about infra/transaction at concrete data.
use dt_go.Base.{◌≡◌, refl, none, some, [], ◌∷◌, ◌++◌}
use dt_go.Internal.Memstore.{entry_list}
use dt_go.Transaction.{
  rolls_back, returned, panicked, Answers, SqlDb, Body, execute, local_transaction_db,
  nil_dereference,
}
use dt_go.Transaction.Paths.{execute_ends_once, execute_error_panics, reported, ending, body_state}

abbrev idle : SqlDb entry_list
idle = record { db = none; store = []; calls = [] }

abbrev good : Answers
good = record { begun = 1; rollback_error = none; commit_error = none }

abbrev bad_rollback : Answers
bad_rollback = record { begun = 1; rollback_error = some "gone"; commit_error = none }

abbrev fails : Body entry_list
fails t = (returned (some "no stock"), t)

abbrev breaks : Body entry_list
breaks t = (panicked "boom", t)

joined : (execute entry_list bad_rollback fails idle).0 ≡ returned (some "no stock,gone")
unfolding execute
joined = refl

execute_ends_once_example :
    ((execute entry_list good breaks idle).0 ≡ reported good (panicked "boom"))
    × ((execute entry_list good breaks idle).1.calls
        ≡ (body_state entry_list good breaks idle).calls ++ ending good (panicked "boom") ∷ [])
    × ((execute entry_list good breaks idle).1.db ≡ none)
    × (entry_list.get (execute entry_list good breaks idle).1.store local_transaction_db ≡ none)
execute_ends_once_example = execute_ends_once entry_list good breaks idle (λ t. refl) refl

execute_error_panics_example :
    ((execute entry_list good fails idle).0 ≡ panicked nil_dereference)
    × ((execute entry_list good fails idle).1.calls
        ≡ (body_state entry_list good fails idle).calls ++ rolls_back 1 ∷ [])
execute_error_panics_example =
    execute_error_panics entry_list good fails idle "no stock" (λ t. refl) refl refl refl
