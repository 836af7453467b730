-- ===== src/DomainEvent/Save/Noted.antt =====
-- What `Save` of infra/domainevent/manager.go leaves in the store of the worker.
use mathlib.Core.List.{append-nil}
use dt_go.Base.{ℕ, ◌≡◌, refl, sym, ap, List, [], ◌∷◌, ◌++◌, map}
use dt_go.Internal.Entity.{DomainEvent, Entity}
use dt_go.Internal.Memstore.{Memstore}
use dt_go.DomainEvent.Save.{
  insert_publish, insert_subscribe, worker_store_pub_event_key, Header, row_of, identify,
  with_prototypes, stored_events, add_pub_to_worker, published, save_fetched,
}

module _ (m : Memstore) where
  pub stored-add_pub_to_worker :
      (pubs : List DomainEvent) (store : m.Store)
      → stored_events (m.get (add_pub_to_worker m pubs store) worker_store_pub_event_key)
        ≡ stored_events (m.get store worker_store_pub_event_key) ++ pubs
  unfolding add_pub_to_worker
  stored-add_pub_to_worker [] store = rw append-nil
  stored-add_pub_to_worker (event ∷ rest) store = rw m.get-set

  rows-published :
      (ct : ℕ) (header : Header) (events : List DomainEvent)
      → map (λ event. insert_publish (row_of ct event)) (map (with_prototypes header) events)
        ≡ map (λ event. insert_publish (row_of ct event)) events
  rows-published ct header [] = refl
  rows-published ct header (event ∷ rest) =
      ap (λ l. insert_publish (row_of ct event) ∷ l) (rows-published ct header rest)

  -- `Save` appends the entity's events to the list that is pushed after the transaction, in their
  -- order, and for each of them inserts the row of its id; the rows of the subscribed events follow.
  -- The entity is left without events.
  pub save_notes_events :
      (uids : ℕ → ℕ) (ct : ℕ) (header : Header) (e : Entity) (store : m.Store)
      → let s = save_fetched m uids ct header e store in
        (stored_events (m.get s.store worker_store_pub_event_key)
          ≡ stored_events (m.get store worker_store_pub_event_key) ++ published m uids header e)
        × (s.statements
            ≡ map (λ event. insert_publish (row_of ct event)) (published m uids header e)
              ++ map (λ event. insert_subscribe (row_of ct event)) e.sub_events)
        × (s.entity ≡ record e { pub_events = []; sub_events = [] })
  unfolding save_fetched
  save_notes_events uids ct header e store = (
    stored-add_pub_to_worker (published m uids header e) store,
    ap (λ l. l ++ map (λ event. insert_subscribe (row_of ct event)) e.sub_events)
        (sym (rows-published ct header (identify uids 0 e.pub_events))),
    refl,
  )
