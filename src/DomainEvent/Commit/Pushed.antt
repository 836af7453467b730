-- ===== src/DomainEvent/Commit/Pushed.antt =====
-- Which events infra/domainevent/transaction.go pushes.
use mathlib.Core.List.{append-nil}
use dt_go.Base.{
  ◌≡◌, refl, sym, ap, ◌∙◌, true, false, none, some, List, [], ◌∷◌, ◌++◌, All, arith, Option, String,
}
use dt_go.Internal.Entity.{DomainEvent}
use dt_go.Internal.Memstore.{Memstore}
use dt_go.Transaction.{
  Outcome, returned, panicked, Answers, SqlDb, Body, execute, local_transaction_db, DbCall, begins,
  commits, rolls_back,
}
use dt_go.Transaction.Paths.{
  KeepsDb, body_state, body_outcome, execute_effect, reported, told, ending,
}
use dt_go.DomainEvent.Save.{worker_store_pub_event_key, stored_events}
use dt_go.DomainEvent.Commit.{
  has_identity, push_events, EventTransaction, push_event, after_push, conclude, execute_event,
}

push_events-All :
    (l : List DomainEvent) → All (λ event. has_identity event ≡ true) l → push_events l ≡ (l, false)
unfolding push_events
push_events-All [] h = refl
push_events-All (event ∷ rest) h = ground (arith, push_events-All rest h.1, h.0)

-- What is pushed after a body that ends in this way.
abbrev pub pushes_after : Outcome → List DomainEvent → List DomainEvent
pushes_after (returned none) l = l
pushes_after (returned (some err)) l = []
pushes_after (panicked perr) l = []

-- What is pushed after this last call on the database.
abbrev pub pushes_for : DbCall → List DomainEvent → List DomainEvent
pushes_for (begins h) l = []
pushes_for (rolls_back h) l = []
pushes_for (commits h err) l = l

pushes_after-ending :
    (a : Answers) (o : Outcome) (l : List DomainEvent)
    → pushes_after o l ≡ pushes_for (ending a o) l
pushes_after-ending a (returned none) l = refl
pushes_after-ending a (returned (some err)) l = refl
pushes_after-ending a (panicked perr) l = refl

pushes_after-told :
    (err : String) (e2 : Option String) (l : List DomainEvent) → pushes_after (told err e2) l ≡ []
pushes_after-told err none l = refl
pushes_after-told err (some e2) l = refl

pushes_after-reported :
    (a : Answers) (o : Outcome) (l : List DomainEvent)
    → pushes_after (reported a o) l ≡ pushes_after o l
pushes_after-reported a (returned none) l = refl
pushes_after-reported a (returned (some err)) l = pushes_after-told err a.rollback_error l
pushes_after-reported a (panicked perr) l = refl

module _ (m : Memstore) where
  -- The events that the body has noted for the worker.
  abbrev pub noted : SqlDb m → List DomainEvent
  noted t = stored_events (m.get t.store worker_store_pub_event_key)

  forgotten :
      (s : m.Store)
      → m.get (m.remove s worker_store_pub_event_key) worker_store_pub_event_key ≡ none
  forgotten s = m.get-remove s worker_store_pub_event_key worker_store_pub_event_key

  conclude-pushed :
      (pushed : List DomainEvent) (o : Outcome) (t : SqlDb m)
      → All (λ event. has_identity event ≡ true) (noted t)
      → ((conclude m pushed (o, t)).1.pushed ≡ pushed ++ pushes_after o (noted t))
        × ((conclude m pushed (o, t)).1.tx.calls ≡ t.calls)
        × (m.get (conclude m pushed (o, t)).1.tx.store worker_store_pub_event_key ≡ none)
  unfolding conclude push_event after_push
  conclude-pushed pushed (returned none) t h =
      rw (push_events-All (noted t) h) (refl, refl, forgotten t.store)
  conclude-pushed pushed (returned (some err)) t h =
      (sym (append-nil pushed), refl, forgotten t.store)
  conclude-pushed pushed (panicked perr) t h = (sym (append-nil pushed), refl, forgotten t.store)

  noted-execute :
      (a : Answers) (fun : Body m) (t : SqlDb m)
      → KeepsDb m fun
      → t.db ≡ none
      → noted (execute m a fun t).1 ≡ noted (body_state m a fun t)
  noted-execute a fun t keeps free =
      ap (λ s. stored_events (m.get s worker_store_pub_event_key))
        (execute_effect m a fun t keeps free).1
      ∙ ap stored_events (
          m.get-remove (body_state m a fun t).store local_transaction_db worker_store_pub_event_key)

  -- Where the component is free, the body leaves its `db` alone and each event that it notes has an
  -- identity: the last call on the database is a commit or a rollback, by the way in which the body
  -- ends. After a call of `Commit`, whether it succeeds or fails, all the events that the body has noted
  -- are pushed, in their order, and after a rollback none. On every path the worker's list of events is
  -- gone afterwards.
  pub pushes_with_commit :
      (a : Answers) (fun : Body m) (et : EventTransaction m)
      → KeepsDb m fun
      → et.tx.db ≡ none
      → All (λ event. has_identity event ≡ true) (noted (body_state m a fun et.tx))
      → ((execute_event m a fun et).1.tx.calls
          ≡ (body_state m a fun et.tx).calls ++ ending a (body_outcome m a fun et.tx) ∷ [])
        × ((execute_event m a fun et).1.pushed
            ≡ et.pushed
              ++ pushes_for
                  (ending a (body_outcome m a fun et.tx))
                  (noted (body_state m a fun et.tx)))
        × (m.get (execute_event m a fun et).1.tx.store worker_store_pub_event_key ≡ none)
  unfolding execute_event
  pushes_with_commit a fun et keeps free known =
      let same = noted-execute a fun et.tx keeps free in
      let (o, t) = execute m a fun et.tx in
      let c = conclude-pushed et.pushed o t (rw same known) in
      let effect = execute_effect m a fun et.tx keeps free in
      (
        c.1 ∙ effect.2,
        c.0
            ∙ ap (λ l. et.pushed ++ l)
                (ap (λ (x : Outcome). pushes_after x (noted t)) effect.0
                  ∙ pushes_after-reported a (body_outcome m a fun et.tx) (noted t)
                  ∙ ap (pushes_after (body_outcome m a fun et.tx)) same
                  ∙ pushes_after-ending a (body_outcome m a fun et.tx)
                      (noted (body_state m a fun et.tx))),
        c.2,
      )
