-- ===== src/Cache/Tests.antt =====
-- The theorems about infra/store/cacher.go at concrete data.
use dt_go.Base.{◌≡◌, refl, true, false, none, some, [], ◌∷◌}
use dt_go.Internal.Memstore.{entry_list, byte_slice, lookup}
use dt_go.Cache.{
  Answers, CacheImpl, CacheState, get, begin_request, set_source, redis_nil, source_bytes,
  five_minutes, get_store, slice, after_store, get_redis, after_redis, after_call, write_back,
  set_store, get_call, as_slice,
}
use dt_go.Cache.Reads.{get_then_get}

abbrev new_cache : CacheImpl
new_cache = record {
  async_write = true;
  prefix = "";
  expiration = 0;
  call = false;
  single_flight = false;
  client = false;
}

abbrev configured : CacheImpl
configured = record {
  async_write = false;
  prefix = "";
  expiration = five_minutes;
  call = true;
  single_flight = true;
  client = true;
}

configured_lem : set_source (begin_request true new_cache) ≡ configured
unfolding set_source begin_request
configured_lem = refl

abbrev request : CacheState entry_list
request = record {
  cache = configured;
  store = ("old", byte_slice (some (9 ∷ []))) ∷ [];
  defer_recycle = false;
  asked = [];
}

abbrev from_source : Answers
from_source = record {
  redis = redis_nil;
  source = source_bytes (some (1 ∷ 2 ∷ []));
  late = false;
  set_error = some 5;
  del_error = none;
}

abbrev nothing : Answers
nothing = record {
  redis = redis_nil;
  source = source_bytes none;
  late = true;
  set_error = none;
  del_error = none;
}

abbrev read : CacheState entry_list
read = (get entry_list from_source "user:1" none request).1

read_value : (get entry_list from_source "user:1" none request).0.0 ≡ some (1 ∷ 2 ∷ [])
unfolding get after_store get_store get_redis after_redis after_call write_back set_store get_call
    as_slice lookup
read_value = refl

missing : get_store entry_list "user:1" request ≡ slice none
unfolding get_store as_slice lookup
missing = refl

get_then_get_example :
    get entry_list nothing "user:1" (some 7) read ≡ ((some (1 ∷ 2 ∷ []), none), read)
get_then_get_example =
    get_then_get entry_list from_source nothing "user:1" none (some 7) request (1 ∷ 2 ∷ []) refl
      read_value
