-- ===== src/DomainEvent/Commit.antt =====
-- infra/domainevent/transaction.go: a transaction that pushes the noted events once it has committed.
pub mod Pushed
pub mod Saved
use dt_go.Base.{ℕ, Bool, true, false, Option, none, some, List, [], ◌∷◌, ◌++◌, String}
use dt_go.Internal.Entity.{DomainEvent}
use dt_go.Internal.Memstore.{Memstore, StoreValue}
use dt_go.Transaction.{Outcome, returned, panicked, Answers, SqlDb, Body, execute}
use dt_go.DomainEvent.Save.{worker_store_pub_event_key, stored_events}

abbrev pub has_identity : DomainEvent → Bool
has_identity event = elim event.identity [ none ↦ false | some n ↦ true ]

-- The loop of `pushEvent`: the events whose push has been started. `push` panics on an event with
-- no identity; the flag says that it has.
unfoldable pub push_events : List DomainEvent → List DomainEvent × Bool
push_events [] = ([], false)
push_events (event ∷ rest) =
    let (started, broken) = push_events rest in
    elim (has_identity event) [ true ↦ (event ∷ started, broken) | false ↦ ([], true) ]

abbrev pub identity_panic : String
identity_panic = "interface conversion: interface {} is nil, not int"

module _ (m : Memstore) where
  -- `pushed` lists the events given to `push`, in order.
  pub record EventTransaction : Type 0 where
    pub tx : SqlDb m
    pub pushed : List DomainEvent

  abbrev forget_events : SqlDb m → SqlDb m
  forget_events t = record t { store = m.remove t.store worker_store_pub_event_key }

  unfoldable pub push_event : EventTransaction → Bool × EventTransaction
  push_event et =
      let (started, broken) =
        push_events (stored_events (m.get et.tx.store worker_store_pub_event_key)) in
      (broken, record et { pushed = et.pushed ++ started })

  unfoldable pub after_push : Bool × EventTransaction → Outcome × EventTransaction
  after_push (false, et) = (returned none, record et { tx = forget_events et.tx })
  after_push (true, et) = (panicked identity_panic, record et { tx = forget_events et.tx })

  unfoldable pub conclude : List DomainEvent → Outcome × SqlDb m → Outcome × EventTransaction
  unfolding push_event after_push
  conclude pushed (returned none, t) = after_push (push_event (record { tx = t; pushed = pushed }))
  conclude pushed (returned (some err), t) =
      (returned (some err), record { tx = forget_events t; pushed = pushed })
  conclude pushed (panicked perr, t) =
      (panicked perr, record { tx = forget_events t; pushed = pushed })

  -- `Execute`; `ExecuteTX` differs in the options of `Begin` alone.
  unfoldable pub execute_event : Answers → Body m → EventTransaction → Outcome × EventTransaction
  unfolding conclude
  execute_event a fun et = conclude et.pushed (execute m a fun et.tx)
