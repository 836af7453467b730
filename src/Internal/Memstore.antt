-- ===== src/Internal/Memstore.antt =====
-- The store of a worker (internal/worker.go). `memstore.Store` is iris's own code, so the store is
-- an interface: its operations, with what iris documents of them as laws.
use dt_go.Base.{
  ℕ, Option, none, some, List, [], ◌∷◌, ◌≡◌, refl, arith, if◌then◌else◌, String, str_eq, eq_iff,
}
use dt_go.Internal.Entity.{DomainEvent}

-- What the components keep in a store: a transaction, a list of events, bytes (nil or not), or a
-- value of another type.
pub data StoreValue : Type 0 where
  transaction_db : ℕ → StoreValue
  event_list : List DomainEvent → StoreValue
  byte_slice : Option (List ℕ) → StoreValue
  other_value : ℕ → StoreValue

pub record Memstore : Type 1 where
  pub Store : Type 0
  pub empty : Store
  pub get : Store → String → Option StoreValue
  pub set : Store → String → StoreValue → Store
  pub remove : Store → String → Store
  pub get-empty : (k : String) → get empty k ≡ none
  pub get-set :
      (s : Store) (k j : String) (v : StoreValue)
      → get (set s k v) j ≡ (if str_eq k j then some v else get s j)
  pub get-remove :
      (s : Store) (k j : String) → get (remove s k) j ≡ (if str_eq k j then none else get s j)

abbrev pub Entries : Type 0
Entries = List (String × StoreValue)

unfoldable pub lookup : Entries → String → Option StoreValue
lookup [] k = none
lookup ((j, v) ∷ l) k = if str_eq j k then some v else lookup l k

unfoldable pub without : Entries → String → Entries
without [] k = []
without ((j, v) ∷ l) k = let rest = without l k in if str_eq j k then rest else (j, v) ∷ rest

pub lookup-without :
    (l : Entries) (k j : String)
    → lookup (without l k) j ≡ (if str_eq k j then none else lookup l j)
unfolding lookup without
lookup-without [] k j = ground arith
lookup-without ((i, v) ∷ l) k j =
    ground (arith, lookup-without l k j, eq_iff i k, eq_iff i j, eq_iff k j)

pub lookup-empty : (k : String) → lookup [] k ≡ none
unfolding lookup
lookup-empty k = refl

pub lookup-cons :
    (l : Entries) (k j : String) (v : StoreValue)
    → lookup ((k, v) ∷ without l k) j ≡ (if str_eq k j then some v else lookup l j)
unfolding lookup
lookup-cons l k j v = ground (arith, lookup-without l k j)

-- The interface can be met: a list of entries.
abbrev pub entry_list : Memstore
entry_list = record {
  Store = Entries;
  empty = [];
  get = lookup;
  set = λ s k v. (k, v) ∷ without s k;
  remove = without;
  get-empty = lookup-empty;
  get-set = lookup-cons;
  get-remove = lookup-without;
}
