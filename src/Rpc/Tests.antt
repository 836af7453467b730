-- ===== src/Rpc/Tests.antt =====
-- The theorems about infra/rpc at concrete pools, and test runs.
use dt_go.Base.{
  ℕ, ◌≤◌, ◌<◌, ◌≡◌, refl, true, none, some, List, [], ◌∷◌, arith, ◌++◌, All, map, length,
}
use dt_go.Base.Int.{pos, ◌+ℤ◌, inc32, dec32}
use dt_go.Rpc.Client.{
  ThriftPoolConfig, IdleConn, IdleClient, Env, client, over_max, check, check_thrift_config,
}
use dt_go.Rpc.Pool.{
  ThriftPool, got, failed, Wake, pool_open, get, put, reconnect, close_conn, check_timeout,
  new_pool, wait_turn,
}
use dt_go.Rpc.Pool.Account.{IsSound}
use dt_go.Rpc.Pool.Sweep.{lowered, check_timeout-exact, Expired, Fresh}
use dt_go.Rpc.Pool.Threads.{
  World, Action, enter, lock_get, dial_done, put_tests, put_push, run, start, step, pick,
}
use dt_go.Rpc.Pool.Threads.Bound.{Inv, connections, connections-le-max_conn}
use dt_go.Rpc.Pool.Threads.Reopened.{reopen_and_get, reopened_pool_exceeds}
use dt_go.Rpc.Agent.{Around, net_error, call_error, do_call}
use dt_go.Rpc.Agent.Account.{do_call-IsSound}

abbrev conn : ℕ → IdleClient
conn n = record { transport = some n; raw_client = some n }

abbrev all_open : Env
all_open = record { is_open = λ h. true; close = λ c. none }

abbrev small : ThriftPoolConfig
small = record {
  max_conn = pos 2;
  conn_timeout = pos 0;
  idle_timeout = pos 10;
  timeout = pos 5;
  interval = pos 1;
}

abbrev fresh_pool : ThriftPool
fresh_pool = record { idle = []; count = pos 0; status = pool_open; config = small; closed = [] }

abbrev idle_at : ℕ → IdleConn
idle_at n = record { c = conn n; t = pos n }

-- Two idle connections, put back at times 20 and 3.
abbrev two_idle : ThriftPool
two_idle = record fresh_pool { idle = idle_at 20 ∷ idle_at 3 ∷ []; count = pos 2 }

-- Both connections are lent.
abbrev exhausted : ThriftPool
exhausted = record fresh_pool { count = pos 2 }

fresh_pool-IsSound : IsSound 2 0 fresh_pool
fresh_pool-IsSound = ground arith

two_idle-IsSound : IsSound 2 0 two_idle
two_idle-IsSound = ground arith

exhausted-IsSound : IsSound 2 2 exhausted
exhausted-IsSound = ground arith

abbrev wakes : List Wake
wakes = record { now = pos 1; seen = exhausted } ∷ record { now = pos 6; seen = exhausted } ∷ []

get_gives_up :
    get all_open (pos 0) wakes (client (conn 7)) exhausted ≡ some (failed over_max, exhausted)
unfolding get wait_turn ◌+ℤ◌
get_gives_up = refl

get_dials :
    get all_open (pos 0) [] (client (conn 7)) fresh_pool
    ≡ some (got (conn 7), record fresh_pool { count = pos 1 })
unfolding get check inc32
get_dials = refl

check_timeout_closes_old :
    check_timeout (λ i. pos 25) two_idle
    ≡ record two_idle { idle = idle_at 20 ∷ []; count = pos 1; closed = conn 3 ∷ [] }
unfolding check_timeout ◌+ℤ◌ dec32
check_timeout_closes_old = refl

check_timeout-exact_example :
    (gone : List IdleConn) × (two_idle.idle ≡ (check_timeout (λ _. pos 25) two_idle).idle ++ gone)
    × ((check_timeout (λ _. pos 25) two_idle).closed
        ≡ map (λ (v : IdleConn). v.c) gone ++ two_idle.closed)
    × ((check_timeout (λ _. pos 25) two_idle).count ≡ lowered (length gone) two_idle.count)
    × All (Expired small (pos 25)) gone
    × All (Fresh small (pos 25)) (check_timeout (λ _. pos 25) two_idle).idle
check_timeout-exact_example = check_timeout-exact (pos 25) two_idle (omega arith)

-- Two goroutines race for connections; one is given back.
abbrev race : List Action
race =
    enter
    ∷ enter
    ∷ lock_get
    ∷ lock_get
    ∷ dial_done (some (conn 1))
    ∷ dial_done none
    ∷ put_tests 0 true
    ∷ put_push 0 (pos 4)
    ∷ []

abbrev raced : World
raced = record (start (new_pool small)) {
  pool = record (new_pool small) { idle = record { c = conn 1; t = pos 4 } ∷ []; count = pos 1 };
}

connections-le-max_conn_example :
    (connections raced ≤ 2) × (raced.pool.count ≡ pos (connections raced))
unfolding new_pool start run step pick inc32 dec32 check_thrift_config
connections-le-max_conn_example =
    connections-le-max_conn small 2 race raced refl (omega arith) (omega arith) refl

abbrev all_lent : World
all_lent = record {
  pool = exhausted;
  entered = 0;
  dialing = 0;
  taken = [];
  lent = conn 1 ∷ conn 2 ∷ [];
  putting = [];
  sweeping = 0;
}

all_lent-Inv : Inv 2 all_lent
all_lent-Inv = ground arith

reopened_pool_exceeds_example :
    (w : World) × (run reopen_and_get all_lent ≡ some w) × (2 < connections w)
reopened_pool_exceeds_example = reopened_pool_exceeds 2 all_lent all_lent-Inv (omega arith) refl

-- The callback breaks both connections.
abbrev breaking : Around
breaking = record {
  env = all_open;
  called = pos 0;
  wakes = [];
  dialed = client (conn 1);
  redialed = client (conn 2);
  first = λ c. some net_error;
  second = λ c. some net_error;
  given_back = pos 9;
}

abbrev one_lent : ThriftPool
one_lent = record fresh_pool { count = pos 1; closed = conn 1 ∷ [] }

abbrev broken_idle : ThriftPool
broken_idle = record one_lent { idle = record { c = conn 2; t = pos 9 } ∷ [] }

breaking_run : do_call breaking fresh_pool ≡ some (some (call_error net_error), broken_idle)
unfolding do_call get put reconnect close_conn check inc32
breaking_run = refl

do_call-IsSound_example : IsSound 2 0 broken_idle
do_call-IsSound_example =
    do_call-IsSound breaking 2 0 fresh_pool broken_idle (some (call_error net_error))
      fresh_pool-IsSound tt breaking_run
