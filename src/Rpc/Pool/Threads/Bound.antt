-- ===== src/Rpc/Pool/Threads/Bound.antt =====
-- The limit on connections of infra/rpc/thrift_pool.go under every schedule.
use mathlib.Core.List.{reverse}
use dt_go.Base.{
  ℕ, zero, suc, ◌+◌, ◌≤◌, ◌≡◌, refl, ap, subst, Bool, false, Option, none, some, List, [], ◌∷◌,
  length, length-reverse, arith, inl, inr, Bool-cases,
}
use dt_go.Base.Int.{ℤ, pos, max_int32, inc32-pos, dec32-pos}
use dt_go.Rpc.Client.{IdleConn, IdleClient, check_thrift_config, ThriftPoolConfig}
use dt_go.Rpc.Pool.{is_full, pool_open, new_pool, recover}
use dt_go.Rpc.Pool.Threads.{
  World, Action, enter, lock_get, give_up, dial_done, check_taken, put_tests, put_push, reconnects,
  closes, sweep_one, sweep_done, release_stop, release_zero, release_drain, recovers, pick,
  from_one, with_pick, lock_section, enter_lock, finish_dial, check_client, test_put, push_idle,
  drop_back, step, after, run, start,
}

-- The connections that are open or being opened on behalf of the pool.
abbrev pub connections : World → ℕ
connections w =
    length w.pool.idle + w.dialing + length w.taken + length w.lent + length w.putting + w.sweeping

pub record Inv (max : ℕ) (w : World) : Type 0 where
  pub limit : w.pool.config.max_conn ≡ pos max
  pub small : max ≤ max_int32
  pub counted : w.pool.count ≡ pos (connections w)
  pub within : connections w ≤ max
  pub running : w.pool.status ≡ pool_open

-- Everything but the steps of `Release`.
abbrev pub IsCalm : Action → Type 0
IsCalm release_stop = ⊥
IsCalm release_zero = ⊥
IsCalm release_drain = ⊥
IsCalm _ = Unit

abbrev pub AllCalm : List Action → Type 0
AllCalm [] = Unit
AllCalm (a ∷ acts) = IsCalm a × AllCalm acts

abbrev pub Holds {ℓ} : (World → Type ℓ) → Option World → Type ℓ
Holds P none = Unit
Holds P (some w) = P w

abbrev SplitsOff : List IdleClient → Option (IdleClient × List IdleClient) → Type 0
SplitsOff cs none = Unit
SplitsOff cs (some (d, ds)) = length cs ≡ suc (length ds)

length-pick : (i : ℕ) (cs : List IdleClient) → SplitsOff cs (pick i cs)
unfolding pick
length-pick i [] = tt
length-pick zero (c ∷ cs) = refl
length-pick (suc i) (c ∷ cs) = ground (arith, length-pick i cs)

module _ (max : ℕ) where
  lock_section-Inv :
      (idle : List IdleConn) (w : World)
      → w.pool.idle ≡ idle
      → Inv max w
      → is_full w.pool ≡ false
      → Inv max (lock_section idle w)
  unfolding lock_section
  lock_section-Inv [] w e v room = ground (arith, inc32-pos (connections w))
  lock_section-Inv (x ∷ rest) w e v room = ground (arith, ap {B = ℕ} length e)

  finish_dial-Inv :
      (o : Option IdleClient) (w : World)
      → Inv max (record w { dialing = w.dialing + 1 })
      → Inv max (finish_dial o w)
  unfolding finish_dial
  finish_dial-Inv o w v = ground (arith, dec32-pos (connections w))

  drop_back-Inv :
      (now : ℤ) (back : List IdleConn) (w : World)
      → reverse w.pool.idle ≡ back
      → Inv max w
      → Inv max (drop_back now back w)
  unfolding drop_back
  drop_back-Inv now [] w e v = v
  drop_back-Inv now (x ∷ newer) w e v =
      ground (arith, ap {B = ℕ} length e, length-reverse w.pool.idle, length-reverse newer)

  from_one-Inv :
      (m : ℕ) (k : ℕ → World)
      → ((n : ℕ) → m ≡ suc n → Inv max (k n))
      → Holds (Inv max) (from_one m k)
  from_one-Inv zero k keep = tt
  from_one-Inv (suc n) k keep = keep n refl

  enter_lock-Inv : (n : ℕ) (w : World) → Inv max w → Inv max (enter_lock n w)
  unfolding enter_lock
  enter_lock-Inv n w v = elim (Bool-cases (is_full w.pool)) [
    | inl full ↦ rw full v
    | inr room ↦
        rw room (lock_section-Inv w.pool.idle (record w { entered = n }) refl (ground arith) room)
  ]

  check_client-Inv :
      (alive : Bool) (c : IdleClient) (w : World) (ds : List IdleClient)
      → Inv max w
      → length w.taken ≡ suc (length ds)
      → Inv max (check_client alive c (record w { taken = ds }))
  unfolding check_client
  check_client-Inv alive c w ds v e =
      ground (arith, dec32-pos (connections (record w { taken = ds })))

  test_put-Inv :
      (alive : Bool) (c : IdleClient) (w : World) (ds : List IdleClient)
      → Inv max w
      → length w.lent ≡ suc (length ds)
      → Inv max (test_put alive c (record w { lent = ds }))
  unfolding test_put
  test_put-Inv alive c w ds v e = ground (arith, dec32-pos (connections (record w { lent = ds })))

  with_pick-Inv :
      (i : ℕ) (cs : List IdleClient) (k : IdleClient → List IdleClient → World)
      → ((c : IdleClient) (ds : List IdleClient) → length cs ≡ suc (length ds) → Inv max (k c ds))
      → Holds (Inv max) (with_pick (pick i cs) k)
  with_pick-Inv i cs k keep = go (pick i cs) (length-pick i cs)
    where
      go :
          (o : Option (IdleClient × List IdleClient))
          → SplitsOff cs o
          → Holds (Inv max) (with_pick o k)
      go none h = tt
      go (some (c, ds)) h = keep c ds h

  -- One atomic step of any goroutine, but for those of `Release`, keeps the count exact and within
  -- the limit.
  pub step-Inv : (a : Action) (w : World) → IsCalm a → Inv max w → Holds (Inv max) (step a w)
  unfolding step push_idle recover
  step-Inv enter w calm v = ground arith
  step-Inv lock_get w calm v = from_one-Inv w.entered _ (λ n e. enter_lock-Inv n w v)
  step-Inv give_up w calm v = from_one-Inv w.entered _ (λ n e. ground arith)
  step-Inv (dial_done o) w calm v =
      from_one-Inv w.dialing _ (λ n e. finish_dial-Inv o (record w { dialing = n }) (ground arith))
  step-Inv (check_taken i alive) w calm v =
      with_pick-Inv i w.taken _ (λ c ds e. check_client-Inv alive c w ds v e)
  step-Inv (put_tests i alive) w calm v =
      with_pick-Inv i w.lent _ (λ c ds e. test_put-Inv alive c w ds v e)
  step-Inv (put_push i now) w calm v = with_pick-Inv i w.putting _ (λ c ds e. ground arith)
  step-Inv (reconnects i o) w calm v =
      with_pick-Inv i w.lent _ (λ c ds e. finish_dial-Inv o _ (ground arith))
  step-Inv (closes i) w calm v =
      with_pick-Inv i w.lent _
        (λ c ds e. ground (arith, dec32-pos (connections (record w { lent = ds }))))
  step-Inv (sweep_one now) w calm v = drop_back-Inv now (reverse w.pool.idle) w refl v
  step-Inv sweep_done w calm v =
      from_one-Inv w.sweeping _
        (λ n e. ground (arith, dec32-pos (connections (record w { sweeping = n }))))
  step-Inv release_stop w calm v = absurd calm
  step-Inv release_zero w calm v = absurd calm
  step-Inv release_drain w calm v = absurd calm
  step-Inv recovers w calm v = ground arith

  Holds-after :
      (o : Option World) (k : World → Option World)
      → ((w : World) → Inv max w → Holds (Inv max) (k w))
      → Holds (Inv max) o
      → Holds (Inv max) (after o k)
  Holds-after none k keep h = tt
  Holds-after (some w) k keep h = keep w h

  run-Inv :
      (acts : List Action) (w : World) → AllCalm acts → Inv max w → Holds (Inv max) (run acts w)
  unfolding run
  run-Inv [] w calm v = v
  run-Inv (a ∷ acts) w calm v =
      Holds-after (step a w) (run acts) (λ w' v'. run-Inv acts w' calm.1 v') (step-Inv a w calm.0 v)

start-Inv :
    (config : ThriftPoolConfig) (max : ℕ)
    → (check_thrift_config config).max_conn ≡ pos max
    → max ≤ max_int32
    → Inv max (start (new_pool config))
unfolding start new_pool
start-Inv config max limit small = record {
  limit = limit;
  small = small;
  counted = refl;
  within = omega arith;
  running = refl;
}

-- Under every schedule of the goroutines that call the pool, from a new pool and without `Release`,
-- there are never more connections, idle, lent, being dialed or on the way between these, than the
-- limit, and the count is exactly their number.
pub connections-le-max_conn :
    (config : ThriftPoolConfig) (max : ℕ) (acts : List Action) (w : World)
    → (check_thrift_config config).max_conn ≡ pos max
    → max ≤ max_int32
    → AllCalm acts
    → run acts (start (new_pool config)) ≡ some w
    → (connections w ≤ max) × (w.pool.count ≡ pos (connections w))
connections-le-max_conn config max acts w limit small calm e = (v.within, v.counted)
  where
    v : Inv max w
    v = subst (Holds (Inv max)) e (run-Inv max acts _ calm (start-Inv config max limit small))
