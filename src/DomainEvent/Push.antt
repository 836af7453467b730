-- ===== src/DomainEvent/Push.antt =====
-- infra/domainevent/manager.go, `push`: the goroutine that publishes one event after its transaction,
-- and `SetSubEventFail`.
pub mod Settles
use dt_go.Base.{
  ℕ, Bool, true, false, Option, none, some, List, [], ◌∷◌, String, str_eq, ◌==◌, not, if◌then◌else◌,
}
use dt_go.DomainEvent.Publish.{DomainEventPublish, Changes, set_status, set_updated, take_changes}
use dt_go.DomainEvent.Retry.{TableRow, Handled, handled, handler_error, handler_panic, delete_event}

-- What lies outside the code: `%v` of a number, the order in which Go walks a map, and whether the
-- `DELETE` of an id takes effect. The code drops its error, and that of the `UPDATE`.
pub record Outside : Type 0 where
  pub itoa : ℕ → String
  pub range : Changes → Changes
  pub deletes : ℕ → Bool

-- `&domainEventPublish{ID: eventID}`
abbrev pub fresh_object : ℕ → DomainEventPublish
fresh_object event_id = record {
  changes = none;
  id = event_id;
  topic = "";
  content = "";
  status = 0;
  created = 0;
  updated = 0;
}

-- What stands behind `SET`: assignments, or one value that is bound to a parameter.
pub data SetClause : Type 0 where
  set_columns : ℕ → SetClause
  bound_value : String → SetClause

-- `UPDATE ... SET ... WHERE id = ?`. A bound value is no list of assignments, so the database refuses
-- the statement.
unfoldable pub update_event : SetClause → ℕ → List TableRow → List TableRow
update_event (bound_value s) id table = table
update_event (set_columns status) id [] = []
update_event (set_columns status) id (r ∷ rs) =
    (if r.id == id then record r { status = status } else r)
    ∷ update_event (set_columns status) id rs

-- The changes that are sent, as text.
abbrev pub failure_changes : Outside → ℕ → ℕ → String
failure_changes o now event_id =
    (take_changes o.range (set_updated o.itoa now (set_status o.itoa 1 (fresh_object event_id)))).0

-- The changes are bound to the `?` of `SET ?`.
unfoldable pub set_event_fail : Outside → ℕ → ℕ → List TableRow → List TableRow
unfolding update_event
set_event_fail o now event_id table =
    let changes = failure_changes o now event_id in
    if not (str_eq changes "") then update_event (bound_value changes) event_id table else table

-- The table after the goroutine, by how the registered handler ends.
unfoldable pub push : Outside → Handled → ℕ → ℕ → List TableRow → List TableRow
unfolding set_event_fail
push o handled now event_id table =
    if o.deletes event_id then delete_event event_id table else table
push o handler_error now event_id table = set_event_fail o now event_id table
push o handler_panic now event_id table = set_event_fail o now event_id table
