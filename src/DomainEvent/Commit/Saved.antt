-- ===== src/DomainEvent/Commit/Saved.antt =====
-- A transaction of infra/domainevent/transaction.go whose body is `Save` of manager.go.
use dt_go.Base.{
  ℕ, ◌+◌, ◌≡◌, refl, sym, ap, ◌∙◌, true, none, List, [], ◌∷◌, ◌++◌, map, All, subst, some,
}
use dt_go.Internal.Entity.{DomainEvent, Entity}
use dt_go.Internal.Memstore.{Memstore, transaction_db}
use dt_go.Transaction.{returned, Answers, SqlDb, Body, begin_tx, local_transaction_db}
use dt_go.Transaction.Paths.{body_state}
use dt_go.DomainEvent.Save.{
  Statement, insert_publish, insert_subscribe, EventRow, row_of, Header, identify, with_prototypes,
  published, save_fetched, stored_events, worker_store_pub_event_key,
}
use dt_go.DomainEvent.Save.Noted.{save_notes_events}
use dt_go.DomainEvent.Commit.{has_identity, EventTransaction, execute_event}
use dt_go.DomainEvent.Commit.Pushed.{noted, pushes_with_commit}

identified :
    (uids : ℕ → ℕ) (i : ℕ) (header : Header) (l : List DomainEvent)
    → All (λ event. has_identity event ≡ true) (map (with_prototypes header) (identify uids i l))
unfolding identify
identified uids i header [] = tt
identified uids i header (event ∷ rest) = (refl, identified uids (i + 1) header rest)

-- No row for an event to publish.
abbrev pub OnlySubscribes : List Statement → Type 0
OnlySubscribes [] = Unit
OnlySubscribes (insert_publish row ∷ rest) = ⊥
OnlySubscribes (insert_subscribe row ∷ rest) = OnlySubscribes rest

-- The row holds the event, and what is pushed is the event under the id of the row.
pub record PushedAs (event given : DomainEvent) (row : EventRow) : Type 0 where
  pub id : ℕ
  pub row_id : row.id ≡ some id
  pub given_id : given.identity ≡ some id
  pub row_topic : row.topic ≡ event.topic
  pub row_content : row.content ≡ event.content
  pub given_topic : given.topic ≡ event.topic
  pub given_content : given.content ≡ event.content

-- The events of an entity, what is pushed of them, and the rows inserted for them go together, one by
-- one, and no other rows to publish are inserted.
abbrev pub Recorded : List DomainEvent → List DomainEvent → List Statement → Type 0
Recorded [] [] rows = OnlySubscribes rows
Recorded [] (given ∷ l) rows = ⊥
Recorded (event ∷ events) [] rows = ⊥
Recorded (event ∷ events) (given ∷ l) [] = ⊥
Recorded (event ∷ events) (given ∷ l) (insert_subscribe row ∷ rows) = ⊥
Recorded (event ∷ events) (given ∷ l) (insert_publish row ∷ rows) =
    PushedAs event given row × Recorded events l rows

subscribes :
    (ct : ℕ) (l : List DomainEvent) → OnlySubscribes (map (λ e. insert_subscribe (row_of ct e)) l)
subscribes ct [] = tt
subscribes ct (event ∷ l) = subscribes ct l

recorded :
    (uids : ℕ → ℕ) (i ct : ℕ) (header : Header) (events subs : List DomainEvent)
    → Recorded events (map (with_prototypes header) (identify uids i events)) (
        map (λ e. insert_publish (row_of ct e)) (identify uids i events)
        ++ map (λ e. insert_subscribe (row_of ct e)) subs)
unfolding identify
recorded uids i ct header [] subs = subscribes ct subs
recorded uids i ct header (event ∷ events) subs = (
  record {
    id = uids i;
    row_id = refl;
    given_id = refl;
    row_topic = refl;
    row_content = refl;
    given_topic = refl;
    given_content = refl;
  },
  recorded uids (i + 1) ct header events subs,
)

module _ (m : Memstore) (uids : ℕ → ℕ) (ct : ℕ) (header : Header) (e : Entity) where
  -- A body that saves the entity and returns nil.
  abbrev pub save_body : Body m
  save_body t =
      (returned none, record t { store = (save_fetched m uids ct header e t.store).store })

  -- The statements of that body, in the transaction that `Begin` has opened.
  abbrev pub inserted : Answers → SqlDb m → List Statement
  inserted a t = (save_fetched m uids ct header e (begin_tx m a t).store).statements

  begin_tx-store :
      (a : Answers) (t : SqlDb m)
      → (begin_tx m a t).store ≡ m.set t.store local_transaction_db (transaction_db a.begun)
  unfolding begin_tx
  begin_tx-store a t = refl

  noted-save :
      (a : Answers) (t : SqlDb m)
      → m.get t.store worker_store_pub_event_key ≡ none
      → noted m (body_state m a save_body t) ≡ published m uids header e
  noted-save a t clean =
      (save_notes_events m uids ct header e (begin_tx m a t).store).0
      ∙ ap (λ l. stored_events l ++ published m uids header e)
          (ap (λ s. m.get s worker_store_pub_event_key) (begin_tx-store a t)
            ∙ m.get-set t.store local_transaction_db worker_store_pub_event_key
                (transaction_db a.begun)
            ∙ clean)

  -- An entity that is saved in a transaction, by a worker with no events noted from before, has exactly
  -- its events pushed, in their order, after the call of `Commit`: for each one `Save` has inserted a row
  -- with its topic and content, and the event is pushed under the id of that row.
  pub saved_events_are_pushed :
      (a : Answers) (et : EventTransaction m)
      → et.tx.db ≡ none
      → m.get et.tx.store worker_store_pub_event_key ≡ none
      → (given : List DomainEvent) × ((execute_event m a save_body et).1.pushed
          ≡ et.pushed ++ given)
        × Recorded e.pub_events given (inserted a et.tx)
  unfolding save_fetched
  saved_events_are_pushed a et free clean = (
    published m uids header e,
    (pushes_with_commit m a save_body et (λ t. refl) free
          (subst (All (λ event. has_identity event ≡ true)) (sym (noted-save a et.tx clean))
            (identified uids 0 header e.pub_events))).1
        ∙ ap (λ l. et.pushed ++ l) (noted-save a et.tx clean),
    recorded uids 0 ct header e.pub_events e.sub_events,
  )
