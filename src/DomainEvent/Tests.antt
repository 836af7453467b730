-- ===== src/DomainEvent/Tests.antt =====
-- The theorems about infra/domainevent at concrete data, and test runs.
use dt_go.Base.{
  ℕ, ◌+◌, ◌≡◌, ◌≢◌, refl, true, false, none, some, List, [], ◌∷◌, ◌++◌, All, In, ◌⊎◌, inl, arith,
  ◌==◌, if◌then◌else◌,
}
use dt_go.Internal.Entity.{DomainEvent, Entity}
use dt_go.Internal.Memstore.{entry_list, lookup, without}
use dt_go.Transaction.{returned, Answers, SqlDb, Body, begin_tx}
use dt_go.Transaction.Paths.{body_state, ending}
use dt_go.DomainEvent.Save.{
  Header, published, worker_store_pub_event_key, identify, first_values, save_fetched,
  add_pub_to_worker,
}
use dt_go.DomainEvent.Commit.{EventTransaction, execute_event, has_identity}
use dt_go.DomainEvent.Commit.Pushed.{noted, pushes_for, pushes_with_commit}
use dt_go.DomainEvent.Commit.Saved.{inserted, Recorded, save_body, saved_events_are_pushed}
use dt_go.DomainEvent.Push.{Outside, push}
use dt_go.DomainEvent.Push.Settles.{failed_push_is_not_marked}
use dt_go.DomainEvent.Retry.{
  TableRow, Handled, handled, handler_error, handler_panic, Progress, failed_rows, delete_event,
  retry_loop,
}
use dt_go.DomainEvent.Retry
use dt_go.DomainEvent.Retry.Ends.{retry_loop_ends}
use dt_go.DomainEvent.Retry.NoLoss.{retry_loop_loses_nothing}

abbrev created_event : DomainEvent
created_event = record { topic = "order.created"; content = "{}"; identity = none; prototypes = [] }

abbrev order : Entity
order = record { identity = 5; pub_events = created_event ∷ []; sub_events = [] }

abbrev headers : Header
headers = ("x-language", "zh-CN" ∷ []) ∷ ("empty", []) ∷ []

abbrev idle_tx : SqlDb entry_list
idle_tx = record { db = none; store = []; calls = [] }

abbrev idle_events : EventTransaction entry_list
idle_events = record { tx = idle_tx; pushed = [] }

abbrev good : Answers
good = record { begun = 1; rollback_error = none; commit_error = none }

abbrev saving : Body entry_list
saving = save_body entry_list (λ i. i + 40) 9 headers order

abbrev pushed_event : DomainEvent
pushed_event = record created_event {
  identity = some 40;
  prototypes = ("x-language", "zh-CN") ∷ [];
}

published-order : published entry_list (λ i. i + 40) headers order ≡ pushed_event ∷ []
unfolding identify first_values
published-order = refl

saved_events_are_pushed_example :
    (given : List DomainEvent) × ((execute_event entry_list good saving idle_events).1.pushed
      ≡ [] ++ given)
    × Recorded
        (created_event ∷ [])
        given
        (inserted entry_list (λ i. i + 40) 9 headers order good idle_tx)
saved_events_are_pushed_example =
    saved_events_are_pushed entry_list (λ i. i + 40) 9 headers order good idle_events refl
      (entry_list.get-empty worker_store_pub_event_key)

-- A body that notes events and then fails.
abbrev failing : Body entry_list
failing t = (returned (some "no stock"), (saving t).1)

failing-noted :
    All
      (λ event. has_identity event ≡ true)
      (noted entry_list (body_state entry_list good failing idle_tx))
unfolding save_fetched add_pub_to_worker identify lookup without begin_tx
failing-noted = (refl, tt)

pushes_with_commit_example :
    ((execute_event entry_list good failing idle_events).1.tx.calls
      ≡ (body_state entry_list good failing idle_tx).calls
        ++ ending good (returned (some "no stock")) ∷ [])
    × ((execute_event entry_list good failing idle_events).1.pushed
        ≡ []
          ++ pushes_for
              (ending good (returned (some "no stock")))
              (noted entry_list (body_state entry_list good failing idle_tx)))
    × (entry_list.get
          (execute_event entry_list good failing idle_events).1.tx.store
          worker_store_pub_event_key
        ≡ none)
pushes_with_commit_example =
    pushes_with_commit entry_list good failing idle_events (λ t. refl) refl failing-noted

abbrev failed_row : ℕ → TableRow
failed_row n = record { id = n; topic = "t"; content = "c"; status = 1 }

abbrev waiting_row : TableRow
waiting_row = record (failed_row 7) { status = 0 }

abbrev outside : Outside
outside = record { itoa = λ n. "1"; range = λ c. c; deletes = λ id. true }

failed_push_is_not_marked_example :
    (push outside handler_error 3 7 (waiting_row ∷ []) ≡ waiting_row ∷ [])
    × (push outside handler_panic 3 7 (waiting_row ∷ []) ≡ waiting_row ∷ [])
    × (failed_rows (push outside handler_error 3 7 (waiting_row ∷ []))
        ≡ failed_rows (waiting_row ∷ []))
    × All (λ x. x.id ≢ 7) (push outside handled 3 7 (waiting_row ∷ []))
failed_push_is_not_marked_example = failed_push_is_not_marked outside 3 7 (waiting_row ∷ []) refl

abbrev database : Retry.Answers
database = record { query_error = false; scan_error = λ r. false; deletes = λ id. true }

-- Event 1 is refused in the first round.
abbrev stubborn : ℕ → TableRow → Handled
stubborn i r = if r.id == 1 then (if i == 0 then handler_error else handled) else handled

abbrev two_failed : Progress
two_failed = record { table = failed_row 1 ∷ failed_row 2 ∷ waiting_row ∷ []; delivered = [] }

abbrev all_sent : Progress
all_sent = record { table = waiting_row ∷ []; delivered = failed_row 2 ∷ failed_row 1 ∷ [] }

two_rounds : retry_loop 4 (λ i. database) stubborn 0 two_failed ≡ some all_sent
unfolding retry_loop Retry.retry
two_rounds = refl

retry_loop_ends_example :
    (q : Progress) × (retry_loop 4 (λ i. database) stubborn 0 two_failed ≡ some q)
unfolding failed_rows
retry_loop_ends_example =
    retry_loop_ends 4 (λ i. database) stubborn 0 two_failed (λ j id. refl) (omega arith)

retry_loop_loses_nothing_example :
    In (failed_row 1) all_sent.table
    ⊎ ((d : TableRow) × ((j : ℕ) × (stubborn j d ≡ handled)) × (d.id ≡ 1) × In d all_sent.delivered)
retry_loop_loses_nothing_example =
    retry_loop_loses_nothing 4 (λ i. database) stubborn two_failed all_sent (failed_row 1)
      (inl refl) two_rounds
