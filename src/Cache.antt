-- ===== src/Cache.antt =====
-- infra/store/cacher.go: a cache of two levels over a source. The first level is the store of the
-- worker, the second redis. What redis and the source answer is an argument; what is asked of them is
-- recorded, the latest last. `singleflight` shares the answer of one call among callers, so it
-- changes who asks and not what is answered, but for the time limit on the source.
pub mod Levels
pub mod Reads
mod Tests
use dt_go.Base.{
  ℕ, Bool, true, false, not, Option, none, some, List, [], ◌∷◌, ◌++◌, String, if◌then◌else◌, ◌&&◌,
}
use dt_go.Internal.Memstore.{
  Memstore, StoreValue, transaction_db, event_list, byte_slice, other_value,
}

abbrev pub Bytes : Type 0
Bytes = List ℕ

pub data CacheError : Type 0 where
  invalid_cache undefined_source call_timeout : CacheError
  redis_error source_error : ℕ → CacheError

-- `Get(...).Bytes()` of redis: the value, `redis.Nil`, or another error.
pub data RedisReply : Type 0 where
  redis_bytes : Bytes → RedisReply
  redis_nil : RedisReply
  redis_fails : ℕ → RedisReply

-- What the source's function returns: a slice (nil or not), or its error.
pub data Called : Type 0 where
  source_bytes : Option Bytes → Called
  source_fails : ℕ → Called

pub data Asked : Type 0 where
  redis_get : String → Asked
  source_call : Asked
  redis_set redis_set_async : String → Option Bytes → ℕ → Asked
  redis_del redis_del_async : String → Asked

pub record CacheImpl : Type 0 where
  pub async_write : Bool
  pub prefix : String
  pub expiration : ℕ
  -- a source is set
  pub call : Bool
  pub single_flight : Bool
  -- the redis client is not nil
  pub client : Bool

pub record Answers : Type 0 where
  pub redis : RedisReply
  pub source : Called
  -- the source takes more than 20 seconds
  pub late : Bool
  -- the errors of `Set` and of `Del`
  pub set_error : Option ℕ
  pub del_error : Option ℕ

abbrev pub five_minutes : ℕ
five_minutes = 300_000_000_000

-- `BeginRequest`, where `installed` says that the application has a redis client.
unfoldable pub begin_request : Bool → CacheImpl → CacheImpl
begin_request installed c = record c {
  expiration = five_minutes;
  single_flight = true;
  async_write = false;
  client = installed;
}

unfoldable pub set_source : CacheImpl → CacheImpl
set_source c = record c { call = true }

unfoldable pub set_async_write : Bool → CacheImpl → CacheImpl
set_async_write open_it c = record c { async_write = open_it }

unfoldable pub set_expiration : ℕ → CacheImpl → CacheImpl
set_expiration expiration c = record c { expiration = expiration }

unfoldable pub set_prefix : String → CacheImpl → CacheImpl
set_prefix prefix c = record c { prefix = prefix }

unfoldable pub set_single_flight : Bool → CacheImpl → CacheImpl
set_single_flight open_it c = record c { single_flight = open_it }

unfoldable pub close_second_cache : CacheImpl → CacheImpl
close_second_cache c = record c { client = false }

abbrev pub write_error : Option ℕ → Option CacheError
write_error none = none
write_error (some n) = some (redis_error n)

-- A first-level lookup: a slice, nil where nothing is there, or a value that is no slice.
pub data Found : Type 0 where
  slice : Option Bytes → Found
  not_bytes : Found

unfoldable pub as_slice : Option StoreValue → Found
as_slice none = slice none
as_slice (some (byte_slice b)) = slice b
as_slice (some (transaction_db h)) = not_bytes
as_slice (some (event_list l)) = not_bytes
as_slice (some (other_value n)) = not_bytes

abbrev pub call_result : Called → Option Bytes × Option CacheError
call_result (source_bytes b) = (b, none)
call_result (source_fails n) = (none, some (source_error n))

unfoldable pub get_call : CacheImpl → Answers → Option Bytes × Option CacheError
get_call c a =
    if not c.call
    then (none, some undefined_source)
    else if c.single_flight && a.late
    then (none, some call_timeout)
    else call_result a.source

-- `expiration[0]`, or the setting where no argument was given.
abbrev pub expire : CacheImpl → Option ℕ → ℕ
expire c none = c.expiration
expire c (some e) = e

module _ (m : Memstore) where
  -- The cache of one worker: its settings, the worker's store and `IsDeferRecycle`.
  pub record CacheState : Type 0 where
    pub cache : CacheImpl
    pub store : m.Store
    pub defer_recycle : Bool
    pub asked : List Asked

  abbrev ask : Asked → CacheState → CacheState
  ask a s = record s { asked = s.asked ++ a ∷ [] }

  unfoldable pub get_store : String → CacheState → Found
  unfolding as_slice
  get_store key s = if s.defer_recycle then slice none else as_slice (m.get s.store key)

  unfoldable pub set_store : String → Option Bytes → CacheState → CacheState
  set_store key b s =
      if s.defer_recycle then s else record s { store = m.set s.store key (byte_slice b) }

  -- `getRedis`; without a client nothing is asked.
  unfoldable pub get_redis : Answers → String → CacheState → RedisReply × CacheState
  get_redis a key s = if s.cache.client then (a.redis, ask (redis_get key) s) else (redis_nil, s)

  -- The value from the source is written to redis, at once or by a goroutine.
  unfoldable pub write_back :
      Answers
      → String
      → Option ℕ
      → Option Bytes
      → CacheState
      → (Option Bytes × Option CacheError) × CacheState
  write_back a key expiration b s =
      if not s.cache.client
      then ((b, none), s)
      else if s.cache.async_write
      then ((b, none), ask (redis_set_async key b (expire s.cache expiration)) s)
      else ((b, write_error a.set_error), ask (redis_set key b (expire s.cache expiration)) s)

  unfoldable pub after_call :
      Answers
      → String
      → Option ℕ
      → Option Bytes × Option CacheError
      → CacheState
      → (Option Bytes × Option CacheError) × CacheState
  unfolding set_store write_back
  after_call a key expiration (b, some e) s = ((b, some e), s)
  after_call a key expiration (b, none) s = write_back a key expiration b (set_store key b s)

  abbrev ask_source : CacheState → CacheState
  ask_source s = if s.cache.call then ask source_call s else s

  unfoldable pub after_redis :
      Answers
      → String
      → Option ℕ
      → RedisReply × CacheState
      → (Option Bytes × Option CacheError) × CacheState
  unfolding set_store get_call after_call
  after_redis a key expiration (redis_bytes b, s) = ((some b, none), set_store key (some b) s)
  after_redis a key expiration (redis_fails n, s) = ((none, some (redis_error n)), s)
  after_redis a key expiration (redis_nil, s) =
      after_call a key expiration (get_call s.cache a) (ask_source s)

  unfoldable pub after_store :
      Answers
      → String
      → Option ℕ
      → Found
      → CacheState
      → (Option Bytes × Option CacheError) × CacheState
  unfolding get_redis after_redis
  after_store a key expiration not_bytes s = ((none, some invalid_cache), s)
  after_store a key expiration (slice (some b)) s = ((some b, none), s)
  after_store a key expiration (slice none) s = after_redis a key expiration (get_redis a key s)

  unfoldable pub get :
      Answers → String → Option ℕ → CacheState → (Option Bytes × Option CacheError) × CacheState
  unfolding get_store after_store
  get a key expiration s = after_store a key expiration (get_store key s) s

  unfoldable pub remove_store : String → CacheState → CacheState
  remove_store key s = if s.defer_recycle then s else record s { store = m.remove s.store key }

  -- The deletion in redis, at once or by a goroutine.
  unfoldable pub delete_redis :
      Answers → String → Bool → CacheState → Option CacheError × CacheState
  delete_redis a key async s =
      if not s.cache.client
      then (none, s)
      else if async
      then (none, ask (redis_del_async key) s)
      else (write_error a.del_error, ask (redis_del key) s)

  -- `Delete`; `async` says that a second argument was given, whatever it is.
  unfoldable pub delete : Answers → String → Bool → CacheState → Option CacheError × CacheState
  unfolding remove_store delete_redis
  delete a key async s = delete_redis a key async (remove_store key s)
