-- ===== src/DomainEvent/Retry.antt =====
-- infra/domainevent/manager.go, the failed events: `getFailPubEvents`, `DeletePubEvent`, `retryPub` and
-- the inner loop of `RetryPubEvent`. Those of the subscribed events are the same code over the other
-- table. A table is the list of its rows, over which the SQL of the code is read.
pub mod Ends
pub mod NoLoss
use dt_go.Base.{
  ℕ, zero, suc, ◌+◌, Bool, true, false, Option, none, some, List, [], ◌∷◌, ◌++◌, take, String, ◌==◌,
  if◌then◌else◌,
}

-- A row as stored; its id is the key that `DELETE` goes by.
pub record TableRow : Type 0 where
  pub id : ℕ
  pub topic : String
  pub content : String
  pub status : ℕ

pub data Handled : Type 0 where
  handled handler_error handler_panic : Handled

abbrev pub single_retry_num : ℕ
single_retry_num = 100

-- What the database answers in one round: the error of the query, the error of `Scan` on a row, and
-- whether the `DELETE` of an id works. The code drops an error of `DELETE`.
pub record Answers : Type 0 where
  pub query_error : Bool
  pub scan_error : TableRow → Bool
  pub deletes : ℕ → Bool

-- The table, and the rows for which the registered handler has returned nil, in order.
pub record Progress : Type 0 where
  pub table : List TableRow
  pub delivered : List TableRow

-- `WHERE status = 1`
unfoldable pub failed_rows : List TableRow → List TableRow
failed_rows [] = []
failed_rows (r ∷ rs) = let rest = failed_rows rs in if r.status == 1 then r ∷ rest else rest

-- `DELETE ... WHERE id = ?`
unfoldable pub delete_event : ℕ → List TableRow → List TableRow
delete_event id [] = []
delete_event id (r ∷ rs) = let rest = delete_event id rs in if r.id == id then rest else r ∷ rest

-- The loop over the rows; `none` where `Scan` fails on one of them.
unfoldable pub scan_rows : (TableRow → Bool) → List TableRow → Option (List TableRow)
scan_rows scan_error [] = some []
scan_rows scan_error (r ∷ rs) =
    let rest = scan_rows scan_error rs in
    if scan_error r then none else elim rest [ none ↦ none | some l ↦ some (r ∷ l) ]

-- `none` is an error of the query or of a scan.
unfoldable pub get_fail_events : Answers → ℕ → List TableRow → Option (List TableRow)
unfolding failed_rows scan_rows
get_fail_events a n table =
    if a.query_error then none else scan_rows a.scan_error (take n (failed_rows table))

abbrev pub deliver : Answers → TableRow → Progress → Progress
deliver a r p = record {
  table = if a.deletes r.id then delete_event r.id p.table else p.table;
  delivered = p.delivered ++ r ∷ [];
}

-- The loop over the events. The flag is `err != nil` for the `err` of the last event; a panic of the
-- handler ends the loop with an error.
unfoldable pub handle_events :
    Answers → (TableRow → Handled) → List TableRow → Bool → Progress → Bool × Progress
unfolding delete_event
handle_events a handler [] err p = (err, p)
handle_events a handler (r ∷ rs) err p = elim (handler r) [
  | handled ↦ handle_events a handler rs false (deliver a r p)
  | handler_error ↦ handle_events a handler rs true p
  | handler_panic ↦ (true, p)
]

abbrev pub over_fetched :
    Answers → (TableRow → Handled) → Option (List TableRow) → Progress → Bool × Progress
over_fetched a handler none p = (true, p)
over_fetched a handler (some []) p = (true, p)
over_fetched a handler (some (r ∷ rs)) p = handle_events a handler (r ∷ rs) false p

-- `retryPub`: whether the loop is to wait for the timer, and the tables after it.
unfoldable pub retry : Answers → (TableRow → Handled) → Progress → Bool × Progress
unfolding get_fail_events handle_events
retry a handler p = over_fetched a handler (get_fail_events a single_retry_num p.table) p

-- The inner loop of `RetryPubEvent`, round by round, on fuel; `none` means that it ran out.
unfoldable pub retry_loop :
    ℕ → (ℕ → Answers) → (ℕ → TableRow → Handled) → ℕ → Progress → Option Progress
retry_loop zero answers handler i p = none
retry_loop (suc fuel) answers handler i p =
    let (need_timer, p') = retry (answers i) (handler i) p in
    elim need_timer [ true ↦ some p' | false ↦ retry_loop fuel answers handler (i + 1) p' ]
