-- ===== src/Cache/Reads.antt =====
-- What `Get` of infra/store/cacher.go remembers, and what it asks for.
use dt_go.Base.{◌≡◌, ◌≢◌, refl, ap, sym, ◌∙◌, false, ℕ, Option, none, some, String, eq_iff, arith}
use dt_go.Internal.Memstore.{Memstore, byte_slice}
use dt_go.Cache.{
  Answers, CacheImpl, CacheState, Bytes, Found, slice, not_bytes, RedisReply, redis_bytes,
  redis_nil, redis_fails, CacheError, get, after_store, after_redis, after_call, write_back,
  get_store, set_store, get_redis, get_call, as_slice, ask_source,
}

module _ (m : Memstore) where
  get_store-set_store :
      (key : String) (b : Option Bytes) (s : CacheState m)
      → s.defer_recycle ≡ false
      → get_store m key (set_store m key b s) ≡ slice b
  unfolding get_store set_store as_slice
  get_store-set_store key b s now =
      ground (arith, m.get-set s.store key key (byte_slice b), eq_iff key key, now)

  write_back-store :
      (a : Answers) (key : String) (e : Option ℕ) (b : Option Bytes) (s : CacheState m)
      → ((write_back m a key e b s).0.0 ≡ b)
        × (get_store m key (write_back m a key e b s).1 ≡ get_store m key s)
  unfolding get_store write_back
  write_back-store a key e b s = ground arith

  -- a cached value answers
  get_found :
      (a : Answers) (key : String) (e : Option ℕ) (s : CacheState m) (b : Bytes)
      → get_store m key s ≡ slice (some b)
      → get m a key e s ≡ ((some b, none), s)
  unfolding get after_store
  get_found a key e s b h = rw (h) refl

  -- What a call returns, it also leaves in the first level.
  abbrev Keeps : String → (Option Bytes × Option CacheError) × CacheState m → Type 0
  Keeps key r = (b : Bytes) → r.0.0 ≡ some b → get_store m key r.1 ≡ slice (some b)

  write_back-Keeps :
      (a : Answers) (key : String) (e : Option ℕ) (b : Option Bytes) (s : CacheState m)
      → s.defer_recycle ≡ false
      → Keeps key (write_back m a key e b (set_store m key b s))
  write_back-Keeps a key e b s now c h =
      let (same, kept) = write_back-store a key e b (set_store m key b s) in
      kept ∙ get_store-set_store key b s now ∙ ap slice (sym same ∙ h)

  ask_source-defer : (s : CacheState m) → (ask_source m s).defer_recycle ≡ s.defer_recycle
  ask_source-defer s = ground arith

  after_call-Keeps :
      (a : Answers) (key : String) (e : Option ℕ) (r : Option Bytes × Option CacheError)
      (s : CacheState m)
      → s.defer_recycle ≡ false
      → (r.1 ≢ none → r.0 ≡ none)
      → Keeps key (after_call m a key e r s)
  unfolding after_call
  after_call-Keeps a key e (b, none) s now none_on_error c h = write_back-Keeps a key e b s now c h
  after_call-Keeps a key e (b, some err) s now none_on_error c h =
      let f : none ≡ some c = sym (none_on_error (λ q. ground arith)) ∙ h in ground arith

  get_call-none : (c : CacheImpl) (a : Answers) → (get_call c a).1 ≢ none → (get_call c a).0 ≡ none
  unfolding get_call
  get_call-none c a h = ground (arith, h)

  after_redis-Keeps :
      (a : Answers) (key : String) (e : Option ℕ) (r : RedisReply) (s : CacheState m)
      → s.defer_recycle ≡ false
      → Keeps key (after_redis m a key e (r, s))
  unfolding after_redis
  after_redis-Keeps a key e (redis_bytes c) s now b h =
      get_store-set_store key (some c) s now ∙ ap slice h
  after_redis-Keeps a key e (redis_fails n) s now b h = ground arith
  after_redis-Keeps a key e redis_nil s now b h =
      after_call-Keeps a key e (get_call s.cache a) (ask_source m s) (ask_source-defer s ∙ now)
        (get_call-none s.cache a) b h

  get_redis-defer :
      (a : Answers) (key : String) (s : CacheState m)
      → (get_redis m a key s).1.defer_recycle ≡ s.defer_recycle
  unfolding get_redis
  get_redis-defer a key s = ground arith

  after_store-Keeps :
      (a : Answers) (key : String) (e : Option ℕ) (f : Found) (s : CacheState m)
      → s.defer_recycle ≡ false
      → get_store m key s ≡ f
      → Keeps key (after_store m a key e f s)
  unfolding after_store
  after_store-Keeps a key e not_bytes s now found b h = ground arith
  after_store-Keeps a key e (slice (some c)) s now found b h = found ∙ ap slice h
  after_store-Keeps a key e (slice none) s now found b h =
      let r = get_redis m a key s in
      after_redis-Keeps a key e r.0 r.1 (get_redis-defer a key s ∙ now) b h

  -- Within one request a key is read once: what `Get` has returned, with an error of the write to
  -- redis or without, the next `Get` returns again from the first level, and it asks neither redis
  -- nor the source, whatever they would answer. The worker must not be deferred.
  pub get_then_get :
      (a a' : Answers) (key : String) (e e' : Option ℕ) (s : CacheState m) (b : Bytes)
      → s.defer_recycle ≡ false
      → (get m a key e s).0.0 ≡ some b
      → get m a' key e' (get m a key e s).1 ≡ ((some b, none), (get m a key e s).1)
  unfolding get
  get_then_get a a' key e e' s b now h =
      get_found a' key e' (get m a key e s).1 b
        (after_store-Keeps a key e (get_store m key s) s now refl b h)
