-- ===== src/Rpc/Pool/Threads.antt =====
-- infra/rpc/thrift_pool.go with many goroutines at once. A schedule is a list of actions, each one
-- atomic access to the pool (a section under the lock, or one atomic load or add with the tests on
-- it). Goroutines at the same point of the code are interchangeable, so a world counts them or
-- lists the clients that they hold.
pub mod Bound
pub mod Reopened
use mathlib.Core.List.{reverse}
use dt_go.Base.{
  ℕ, zero, suc, ◌+◌, Bool, true, false, not, Option, none, some, List, [], ◌∷◌, ◌++◌, length,
  if◌then◌else◌,
}
use dt_go.Base.Int.{ℤ, pos, ltb_ℤ}
use dt_go.Rpc.Client.{IdleConn, IdleClient}
use dt_go.Rpc.Pool.{
  ThriftPool, pool_open, pool_stop, is_stopped, is_full, is_expired, incr_count, decr_count,
  close_client, close_all, release, recover,
}

pub record World : Type 0 where
  pub pool : ThriftPool
  -- in `get`, past the test of the status
  pub entered : ℕ
  -- in `get`, counted, before `Dial` has returned
  pub dialing : ℕ
  -- in `get`, off the idle list, before `Check`
  pub taken : List IdleClient
  -- returned by `Get` and not yet given back
  pub lent : List IdleClient
  -- in `Put`, past the tests, before the push
  pub putting : List IdleClient
  -- in `CheckTimeout`, off the idle list, before the count is lowered
  pub sweeping : ℕ

-- `i` picks a goroutine; a Boolean is the answer of `Check`; a missing client is a failed dial.
pub data Action : Type 0 where
  enter lock_get give_up : Action
  dial_done : Option IdleClient → Action
  check_taken : ℕ → Bool → Action
  put_tests : ℕ → Bool → Action
  put_push : ℕ → ℤ → Action
  reconnects : ℕ → Option IdleClient → Action
  closes : ℕ → Action
  sweep_one : ℤ → Action
  sweep_done : Action
  release_stop release_zero release_drain recovers : Action

-- The i-th entry, and the others.
unfoldable pub pick : ℕ → List IdleClient → Option (IdleClient × List IdleClient)
pick i [] = none
pick zero (c ∷ cs) = some (c, cs)
pick (suc i) (c ∷ cs) = elim (pick i cs) [ none ↦ none | some (d, ds) ↦ some (d, c ∷ ds) ]

abbrev with_pick :
    Option (IdleClient × List IdleClient) → (IdleClient → List IdleClient → World) → Option World
with_pick none k = none
with_pick (some (c, cs)) k = some (k c cs)

-- One goroutine of `m` moves on.
abbrev from_one : ℕ → (ℕ → World) → Option World
from_one zero k = none
from_one (suc n) k = some (k n)

lock_section : List IdleConn → World → World
lock_section [] w = record w { pool = incr_count w.pool; dialing = w.dialing + 1 }
lock_section (e ∷ rest) w = record w { pool = record w.pool { idle = rest }; taken = e.c ∷ w.taken }

-- The section of `get` under the lock, for one of `n + 1` goroutines.
enter_lock : ℕ → World → World
unfolding lock_section
enter_lock n w = if is_full w.pool then w else lock_section w.pool.idle (record w { entered = n })

finish_dial : Option IdleClient → World → World
finish_dial none w = record w { pool = decr_count w.pool }
finish_dial (some c) w = record w { lent = c ∷ w.lent }

check_client : Bool → IdleClient → World → World
check_client alive c w =
    if alive then record w { lent = c ∷ w.lent } else record w { pool = decr_count w.pool }

test_put : Bool → IdleClient → World → World
test_put alive c w =
    if is_stopped w.pool
    then record w { pool = close_client c w.pool }
    else if (if ltb_ℤ w.pool.config.max_conn w.pool.count then true else not alive)
    then record w { pool = close_client c (decr_count w.pool) }
    else record w { putting = c ∷ w.putting }

push_idle : ℤ → IdleClient → World → World
push_idle now c w = record w {
  pool = record w.pool { idle = record { c = c; t = now } ∷ w.pool.idle };
}

drop_back : ℤ → List IdleConn → World → World
drop_back now [] w = w
drop_back now (v ∷ newer) w =
    if is_expired w.pool.config now v
    then record w {
      pool = close_client v.c (record w.pool { idle = reverse newer });
      sweeping = w.sweeping + 1;
    }
    else w

-- `none` where no goroutine stands at that point.
unfoldable pub step : Action → World → Option World
unfolding enter_lock finish_dial check_client test_put push_idle drop_back
step enter w = if is_stopped w.pool then some w else some (record w { entered = suc w.entered })
step lock_get w = from_one w.entered λ n. enter_lock n w
step give_up w = from_one w.entered λ n. record w { entered = n }
step (dial_done o) w = from_one w.dialing λ n. finish_dial o (record w { dialing = n })
step (check_taken i alive) w =
    with_pick (pick i w.taken) λ c cs. check_client alive c (record w { taken = cs })
step (put_tests i alive) w =
    with_pick (pick i w.lent) λ c cs. test_put alive c (record w { lent = cs })
step (put_push i now) w =
    with_pick (pick i w.putting) λ c cs. push_idle now c (record w { putting = cs })
step (reconnects i o) w =
    with_pick (pick i w.lent)
      λ c cs. finish_dial o (record w { pool = close_client c w.pool; lent = cs })
step (closes i) w =
    with_pick (pick i w.lent)
      λ c cs. record w { pool = decr_count (close_client c w.pool); lent = cs }
step (sweep_one now) w = some (drop_back now (reverse w.pool.idle) w)
step sweep_done w = from_one w.sweeping λ n. record w { pool = decr_count w.pool; sweeping = n }
step release_stop w = some (record w { pool = record w.pool { status = pool_stop } })
step release_zero w = some (record w { pool = record w.pool { count = pos 0 } })
step release_drain w =
    some (record w { pool = close_all w.pool.idle (record w.pool { idle = [] }) })
step recovers w = some (record w { pool = recover w.pool })

abbrev pub after : Option World → (World → Option World) → Option World
after none k = none
after (some w) k = k w

unfoldable pub run : List Action → World → Option World
run [] w = some w
run (a ∷ acts) w = after (step a w) (run acts)

unfoldable pub start : ThriftPool → World
start p = record {
  pool = p;
  entered = 0;
  dialing = 0;
  taken = [];
  lent = [];
  putting = [];
  sweeping = 0;
}
