-- ===== src/DomainEvent/Push/Settles.antt =====
-- What becomes of the row of a pushed event in infra/domainevent/manager.go.
use dt_go.Base.{
  ℕ, ◌≡◌, ◌≢◌, refl, ap, true, List, [], ◌∷◌, All, inl, inr, arith, ◌==◌, Bool-cases, str_eq,
}
use dt_go.DomainEvent.Retry.{
  TableRow, handled, handler_error, handler_panic, delete_event, failed_rows,
}
use dt_go.DomainEvent.Push.{Outside, failure_changes, set_event_fail, update_event, push}

delete_event-none : (id : ℕ) (table : List TableRow) → All (λ r. r.id ≢ id) (delete_event id table)
unfolding delete_event
delete_event-none id [] = tt
delete_event-none id (r ∷ rs) = elim (Bool-cases (r.id == id)) [
  | inl hit ↦ rw hit (delete_event-none id rs)
  | inr miss ↦ rw miss (ground arith, delete_event-none id rs)
]

set_event_fail-same :
    (o : Outside) (now id : ℕ) (table : List TableRow) → set_event_fail o now id table ≡ table
unfolding set_event_fail update_event
set_event_fail-same o now id table = elim (Bool-cases (str_eq (failure_changes o now id) "")) [
  | inl e ↦ rw e refl
  | inr e ↦ rw e refl
]

-- After a push that fails, by an error or by a panic, the table is as it was, since the `UPDATE` is no
-- statement that a database accepts: the row keeps the status it was inserted with, and the scan for
-- failed events finds no more than before. After a push that succeeds no row of its id is left, if the
-- `DELETE` takes effect.
pub failed_push_is_not_marked :
    (o : Outside) (now id : ℕ) (table : List TableRow)
    → o.deletes id ≡ true
    → (push o handler_error now id table ≡ table)
      × (push o handler_panic now id table ≡ table)
      × (failed_rows (push o handler_error now id table) ≡ failed_rows table)
      × All (λ x. x.id ≢ id) (push o handled now id table)
unfolding push
failed_push_is_not_marked o now id table deletes =
    let same = set_event_fail-same o now id table in
    (same, same, ap failed_rows same, rw deletes (delete_event-none id table))
