-- ===== src/Internal/Entity.antt =====
-- internal/entity.go: the domain events of an entity.
use dt_go.Base.{ℕ, Option, List, [], ◌∷◌, ◌++◌, String}

-- The interface DomainEvent, as the values of its methods; `identity` is nil before it is set.
pub record DomainEvent : Type 0 where
  pub topic : String
  pub content : String
  pub identity : Option ℕ
  pub prototypes : List (String × String)

pub record Entity : Type 0 where
  pub identity : ℕ
  pub pub_events : List DomainEvent
  pub sub_events : List DomainEvent

unfoldable pub add_pub_event : DomainEvent → Entity → Entity
add_pub_event event e = record e { pub_events = e.pub_events ++ event ∷ [] }

unfoldable pub remove_all_pub_event : Entity → Entity
remove_all_pub_event e = record e { pub_events = [] }

unfoldable pub add_sub_event : DomainEvent → Entity → Entity
add_sub_event event e = record e { sub_events = e.sub_events ++ event ∷ [] }

unfoldable pub remove_all_sub_event : Entity → Entity
remove_all_sub_event e = record e { sub_events = [] }
