-- ===== src/DomainEvent/Save.antt =====
-- infra/domainevent/manager.go, `Save` and `addPubToWOrker`: the events of an entity are inserted
-- into their tables inside the transaction, and those to publish are noted in the worker's store.
pub mod Noted
use dt_go.Base.{
  ℕ, suc, ◌+◌, Bool, true, false, Option, none, some, List, [], ◌∷◌, ◌++◌, map, String,
}
use dt_go.Internal.Entity.{DomainEvent, Entity, remove_all_pub_event, remove_all_sub_event}
use dt_go.Internal.Memstore.{
  Memstore, StoreValue, transaction_db, event_list, byte_slice, other_value,
}

-- A row of `domain_event_publish` or `domain_event_subscribe`: status 0 waits, status 1 has failed.
pub record EventRow : Type 0 where
  pub id : Option ℕ
  pub topic : String
  pub content : String
  pub created : ℕ
  pub updated : ℕ
  pub status : ℕ

pub data Statement : Type 0 where
  insert_publish insert_subscribe : EventRow → Statement

abbrev pub worker_store_pub_event_key : String
worker_store_pub_event_key = "WORKER_STORE_PUB_EVENT_KEY"

abbrev pub Header : Type 0
Header = List (String × List String)

abbrev pub row_of : ℕ → DomainEvent → EventRow
row_of ct event = record {
  id = event.identity;
  topic = event.topic;
  content = event.content;
  created = ct;
  updated = ct;
  status = 0;
}

-- The loop over the events to publish: the i-th gets the id `uids i`. An error of `NextID` is
-- dropped, so `uids i` is whatever number came with it.
unfoldable pub identify : (ℕ → ℕ) → ℕ → List DomainEvent → List DomainEvent
identify uids i [] = []
identify uids i (event ∷ rest) =
    record event { identity = some (uids i) } ∷ identify uids (i + 1) rest

-- The first value of each header that has one.
unfoldable pub first_values : Header → List (String × String)
first_values [] = []
first_values ((key, []) ∷ rest) = first_values rest
first_values ((key, item ∷ items) ∷ rest) = (key, item) ∷ first_values rest

abbrev pub with_prototypes : Header → DomainEvent → DomainEvent
with_prototypes header event = record event { prototypes = first_values header }

abbrev pub stored_events : Option StoreValue → List DomainEvent
stored_events none = []
stored_events (some (event_list l)) = l
stored_events (some (transaction_db h)) = []
stored_events (some (byte_slice b)) = []
stored_events (some (other_value n)) = []

module _ (m : Memstore) where
  -- `pubs` have been given their prototypes in place, so the entity's events have them too.
  unfoldable pub add_pub_to_worker : List DomainEvent → m.Store → m.Store
  add_pub_to_worker [] store = store
  add_pub_to_worker (event ∷ rest) store =
      m.set store worker_store_pub_event_key
        (event_list (stored_events (m.get store worker_store_pub_event_key) ++ event ∷ rest))

  pub record Saved : Type 0 where
    pub entity : Entity
    pub store : m.Store
    pub statements : List Statement

  abbrev pub published : (ℕ → ℕ) → Header → Entity → List DomainEvent
  published uids header e = map (with_prototypes header) (identify uids 0 e.pub_events)

  -- `Save` over the database that `getTxDB` has found.
  unfoldable pub save_fetched : (ℕ → ℕ) → ℕ → Header → Entity → m.Store → Saved
  unfolding add_pub_to_worker remove_all_pub_event remove_all_sub_event
  save_fetched uids ct header e store = record {
    entity = remove_all_sub_event (remove_all_pub_event e);
    store = add_pub_to_worker (published uids header e) store;
    statements =
        map (λ event. insert_publish (row_of ct event)) (identify uids 0 e.pub_events)
        ++ map (λ event. insert_subscribe (row_of ct event)) e.sub_events;
  }

  -- `none` where `getTxDB` finds no database and panics, before anything is done.
  unfoldable pub save : Bool → (ℕ → ℕ) → ℕ → Header → Entity → m.Store → Option Saved
  unfolding save_fetched
  save false uids ct header e store = none
  save true uids ct header e store = some (save_fetched uids ct header e store)
