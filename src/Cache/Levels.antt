-- ===== src/Cache/Levels.antt =====
-- The levels of infra/store/cacher.go: what reaches redis and the source, and what a deletion does.
use dt_go.Base.{
  ◌≡◌, refl, sym, subst, Bool, true, false, not, ℕ, Option, none, some, [], ◌∷◌, ◌++◌, String,
  str_eq, eq_iff, arith, if◌then◌else◌,
}
use dt_go.Internal.Memstore.{Memstore, byte_slice}
use dt_go.Cache.{
  Answers, CacheImpl, CacheState, Bytes, slice, RedisReply, redis_bytes, redis_nil, redis_fails,
  CacheError, get, delete, after_store, after_redis, after_call, write_back, get_store, set_store,
  get_redis, get_call, as_slice, ask_source, remove_store, delete_redis, source_bytes, redis_get,
  source_call, redis_set, redis_set_async, expire, set_prefix,
}

-- Redis has nothing (or there is no client), a source is set and answers in time.
abbrev pub Reaches : Answers → CacheImpl → Type 0
Reaches a c = (a.redis ≡ redis_nil) × (c.call ≡ true) × (a.late ≡ false)

module _ (m : Memstore) where
  get_missed :
      (a : Answers) (key : String) (e : Option ℕ) (s : CacheState m)
      → get_store m key s ≡ slice none
      → get m a key e s ≡ after_redis m a key e (get_redis m a key s)
  unfolding get after_store
  get_missed a key e s h = rw (h) refl

  get_reaching :
      (a : Answers) (key : String) (e : Option ℕ) (s : CacheState m) (b : Option Bytes)
      → get_store m key s ≡ slice none
      → Reaches a s.cache
      → a.source ≡ source_bytes b
      → (get m a key e s).0.0 ≡ b
  unfolding get_redis after_redis get_call after_call write_back set_store
  get_reaching a key e s b empty reaches answers = rw (get_missed a key e s empty) (ground arith)

  delete-empties :
      (a : Answers) (key : String) (async : Bool) (s : CacheState m)
      → (get_store m key (delete m a key async s).1 ≡ slice none)
        × ((delete m a key async s).1.cache ≡ s.cache)
  unfolding delete get_store remove_store delete_redis as_slice
  delete-empties a key async s = ground (arith, m.get-remove s.store key key, eq_iff key key)

  -- What is deleted is read anew: after `Delete`, whether redis could delete the key or not, `Get`
  -- returns what the source returns now, if redis has nothing, a source is set and it answers in
  -- time; what the first level held before has no part in it.
  pub delete_then_get :
      (a a' : Answers) (key : String) (async : Bool) (e : Option ℕ) (s : CacheState m)
      (b : Option Bytes)
      → Reaches a' s.cache
      → a'.source ≡ source_bytes b
      → (get m a' key e (delete m a key async s).1).0.0 ≡ b
  delete_then_get a a' key async e s b reaches answers =
      let (empty, same) = delete-empties a key async s in
      get_reaching a' key e (delete m a key async s).1 b empty
        (subst (Reaches a') (sym same) reaches) answers

  -- Where no level has the key, `Get` asks redis, then the source, then redis to store what the
  -- source returned, for the time of the call or else of the setting; without a client the source
  -- alone is asked. The value is returned even where redis cannot store it.
  pub get_asks_in_order :
      (a : Answers) (key : String) (e : Option ℕ) (s : CacheState m) (b : Option Bytes)
      → get_store m key s ≡ slice none
      → Reaches a s.cache
      → a.source ≡ source_bytes b
      → ((get m a key e s).0.0 ≡ b)
        × ((get m a key e s).1.asked ≡ (
            if not s.cache.client
            then s.asked ++ source_call ∷ []
            else ((s.asked ++ redis_get key ∷ []) ++ source_call ∷ [])
              ++ (if s.cache.async_write
                  then redis_set_async key b (expire s.cache e)
                  else redis_set key b (expire s.cache e))
                ∷ []))
  unfolding get_redis after_redis get_call after_call write_back set_store
  get_asks_in_order a key e s b empty reaches answers =
      rw (get_missed a key e s empty) (ground arith)

  set_store-others :
      (key other : String) (b : Option Bytes) (s : CacheState m)
      → str_eq key other ≡ false
      → m.get (set_store m key b s).store other ≡ m.get s.store other
  unfolding set_store
  set_store-others key other b s differs =
      ground (arith, m.get-set s.store key other (byte_slice b), differs)

  abbrev Framed : String → CacheState m → CacheState m → Type 0
  Framed other s s' =
      (m.get s'.store other ≡ m.get s.store other)
      × (s'.cache ≡ s.cache)
      × (s'.defer_recycle ≡ s.defer_recycle)

  after_call-others :
      (a : Answers) (key other : String) (e : Option ℕ) (r : Option Bytes × Option CacheError)
      (s : CacheState m)
      → str_eq key other ≡ false
      → Framed other s (after_call m a key e r s).1
  unfolding after_call write_back set_store
  after_call-others a key other e (b, some err) s differs = (refl, refl, refl)
  after_call-others a key other e (b, none) s differs =
      ground (arith, set_store-others key other b s differs)

  after_redis-others :
      (a : Answers) (key other : String) (e : Option ℕ) (r : RedisReply) (s : CacheState m)
      → str_eq key other ≡ false
      → Framed other s (after_redis m a key e (r, s)).1
  unfolding after_redis set_store
  after_redis-others a key other e (redis_bytes b) s differs =
      ground (arith, set_store-others key other (some b) s differs)
  after_redis-others a key other e (redis_fails n) s differs = (refl, refl, refl)
  after_redis-others a key other e redis_nil s differs =
      ground (arith, after_call-others a key other e (get_call s.cache a) (ask_source m s) differs)

  -- The worker's other keys stay as they are, and the settings too.
  pub get_keeps_others :
      (a : Answers) (key other : String) (e : Option ℕ) (s : CacheState m)
      → str_eq key other ≡ false
      → (m.get (get m a key e s).1.store other ≡ m.get s.store other)
        × ((get m a key e s).1.cache ≡ s.cache)
        × ((get m a key e s).1.defer_recycle ≡ s.defer_recycle)
  unfolding get after_store get_store get_redis
  get_keeps_others a key other e s differs = ground (
    arith,
    after_redis-others a key other e (get_redis m a key s).0 (get_redis m a key s).1 differs,
  )

  -- `Get` reads the same keys whatever prefix is set: `SetPrefix` has no effect.
  pub prefix_ignored :
      (a : Answers) (key prefix : String) (e : Option ℕ) (s : CacheState m)
      → let r = get m a key e s in
        get m a key e (record s { cache = set_prefix prefix s.cache })
        ≡ (r.0, record r.1 { cache = set_prefix prefix r.1.cache })
  unfolding get after_store get_store get_redis after_redis after_call write_back set_store get_call
      set_prefix
  prefix_ignored a key prefix e s = ground arith
