-- ===== src/Repository.antt =====
-- internal/repository.go and `fetchValue` of internal/utils.go: which database a repository gets. The
-- value that the application was installed with, and one from the worker's store, are of any type.
pub mod Databases
mod Tests
use dt_go.Base.{ℕ, Bool, true, false, Option, none, some, List, String}
use dt_go.Internal.Memstore.{
  Memstore, StoreValue, transaction_db, event_list, byte_slice, other_value,
}

abbrev pub local_transaction_db : String
local_transaction_db = "local_transaction_db"

-- `db`, the argument: a pointer to a `*gorm.DB`, a pointer to something else, or no pointer.
pub data Destination : Type 0 where
  to_gorm_db to_other no_pointer : Destination

-- `fetchValue`: what `*dest` is then, or `none` where the types differ.
unfoldable pub fetch_value : Destination → StoreValue → Option ℕ
fetch_value no_pointer v = none
fetch_value to_other v = none
fetch_value to_gorm_db (transaction_db h) = some h
fetch_value to_gorm_db (event_list l) = none
fetch_value to_gorm_db (byte_slice b) = none
fetch_value to_gorm_db (other_value n) = none

-- The transaction of the worker, and else the database of the application.
abbrev pub result_db : Option StoreValue → Option StoreValue → Option StoreValue
result_db app none = app
result_db app (some v) = some v

abbrev pub fetched : Destination → Option StoreValue → Option ℕ
fetched dest none = none
fetched dest (some v) = fetch_value dest v

-- `FetchSourceDB`; `none` is the error "DB not found, please install".
unfoldable pub fetch_source_db : Destination → Option StoreValue → Option ℕ
unfolding fetch_value
fetch_source_db dest app = fetched dest app

module _ (m : Memstore) where
  -- `FetchDB`
  unfoldable pub fetch_db : Destination → Option StoreValue → m.Store → Option ℕ
  unfolding fetch_value
  fetch_db dest app store = fetched dest (result_db app (m.get store local_transaction_db))
