-- ===== src/Rpc/Pool.antt =====
-- infra/rpc/thrift_pool.go: the pool's state and its operations, each run by one goroutine alone.
-- Times and durations are nanoseconds. `Dial` and `Close` are registered by the user and
-- `Transport.IsOpen` belongs to thrift, so an operation takes what they answer as arguments.
pub mod Account
pub mod Sweep
pub mod Threads
use mathlib.Core.List.{reverse}
use dt_go.Base.{
  ℕ, zero, suc, ◌+◌, Bool, true, false, ◌&&◌, not, Option, none, some, List, [], ◌∷◌, length,
  if◌then◌else◌,
}
use dt_go.Base.Int.{ℤ, pos, ◌+ℤ◌, ltb_ℤ, leb_ℤ, inc32, dec32}
use dt_go.Rpc.Client.{
  Dialed, Env, Error, IdleClient, IdleConn, ThriftPoolConfig, check, check_thrift_config, client,
  close_error, dial_error, over_max, pool_closed, refused, socket_disconnect,
}

pub data Status : Type 0 where
  pool_open pool_stop : Status

-- `closed` records the calls of the registered `Close`, the latest first.
pub record ThriftPool : Type 0 where
  pub idle : List IdleConn
  pub count : ℤ
  pub status : Status
  pub config : ThriftPoolConfig
  pub closed : List IdleClient

abbrev pub max_init_conn_count : ℤ
max_init_conn_count = pos 10

abbrev pub is_stopped : ThriftPool → Bool
is_stopped p = elim p.status [ pool_open ↦ false | pool_stop ↦ true ]

abbrev pub is_empty {ℓ} : {A : Type ℓ} → List A → Bool
is_empty [] = true
is_empty (x ∷ xs) = false

-- No idle connection, and as many connections as the pool may hold.
abbrev pub is_full : ThriftPool → Bool
is_full p = is_empty p.idle && leb_ℤ p.config.max_conn p.count

abbrev pub incr_count : ThriftPool → ThriftPool
incr_count p = record p { count = inc32 p.count }

abbrev pub decr_count : ThriftPool → ThriftPool
decr_count p = record p { count = dec32 p.count }

-- One call of the registered `Close`: its effect and its error.
abbrev pub close_client : IdleClient → ThriftPool → ThriftPool
close_client c p = record p { closed = c ∷ p.closed }

abbrev pub close_result : Env → IdleClient → Option Error
close_result env c = elim (env.close c) [ none ↦ none | some n ↦ some (close_error n) ]

pub data Got : Type 0 where
  got : IdleClient → Got
  failed : Error → Got

-- One wake-up of a waiting `get`: the time, and the pool as the other goroutines have left it.
pub record Wake : Type 0 where
  pub now : ℤ
  pub seen : ThriftPool

pub data Turn : Type 0 where
  turn timed_out : ThriftPool → Turn
  waiting : Turn

-- The loop of `get`: on each wake-up give up after `expire`, go on where there is room, or sleep.
-- `waiting` means that the wake-ups listed have not ended the loop.
unfoldable pub wait_turn : ℤ → List Wake → Turn
wait_turn expire [] = waiting
wait_turn expire (w ∷ ws) =
    let rest = wait_turn expire ws in
    if ltb_ℤ expire w.now then timed_out w.seen else if is_full w.seen then rest else turn w.seen

dial_conn : Env → Dialed → ThriftPool → Got × ThriftPool
dial_conn env (refused n) p = (failed (dial_error n), decr_count (incr_count p))
dial_conn env (client c) p =
    if check env c
    then (got c, incr_count p)
    else (failed socket_disconnect, decr_count (incr_count p))

-- What follows the wait: dial if no connection is idle, otherwise take the one at the front.
unfoldable pub take_conn : Env → Dialed → List IdleConn → ThriftPool → Got × ThriftPool
unfolding dial_conn
take_conn env dialed [] p = dial_conn env dialed p
take_conn env dialed (e ∷ rest) p =
    let p' = record p { idle = rest } in
    if check env e.c then (got e.c, p') else (failed socket_disconnect, decr_count p')

-- `none` while the call still waits.
abbrev pub after_turn : Env → Dialed → Turn → Option (Got × ThriftPool)
after_turn env dialed (turn q) = some (take_conn env dialed q.idle q)
after_turn env dialed (timed_out q) = some (failed over_max, q)
after_turn env dialed waiting = none

unfoldable pub get_until : Env → ℤ → List Wake → Dialed → ThriftPool → Option (Got × ThriftPool)
unfolding take_conn
get_until env expire wakes dialed p =
    if is_stopped p
    then some (failed pool_closed, p)
    else if is_full p
    then after_turn env dialed (wait_turn expire wakes)
    else some (take_conn env dialed p.idle p)

unfoldable pub get : Env → ℤ → List Wake → Dialed → ThriftPool → Option (Got × ThriftPool)
unfolding get_until
get env now wakes dialed p = get_until env (now +ℤ p.config.timeout) wakes dialed p

put_client : Env → ℤ → IdleClient → ThriftPool → Option Error × ThriftPool
put_client env now c p =
    if is_stopped p
    then (close_result env c, close_client c p)
    else if (if ltb_ℤ p.config.max_conn p.count then true else not (check env c))
    then (close_result env c, close_client c (decr_count p))
    else (none, record p { idle = record { c = c; t = now } ∷ p.idle })

-- A nil client is ignored.
unfoldable pub put : Env → ℤ → Option IdleClient → ThriftPool → Option Error × ThriftPool
unfolding put_client
put env now none p = (none, p)
put env now (some c) p = put_client env now c p

abbrev close_if : Option IdleClient → ThriftPool → ThriftPool
close_if none p = p
close_if (some c) p = close_client c p

redial : Env → Dialed → ThriftPool → Got × ThriftPool
redial env (refused n) p = (failed (dial_error n), decr_count p)
redial env (client c) p =
    if check env c then (got c, p) else (failed socket_disconnect, decr_count p)

unfoldable pub reconnect : Env → Dialed → Option IdleClient → ThriftPool → Got × ThriftPool
unfolding redial
reconnect env dialed old p = redial env dialed (close_if old p)

unfoldable pub close_conn : Option IdleClient → ThriftPool → ThriftPool
close_conn old p = decr_count (close_if old p)

-- The idle time of the connection is over.
abbrev pub is_expired : ThriftPoolConfig → ℤ → IdleConn → Bool
is_expired config now v = not (ltb_ℤ now (v.t +ℤ config.idle_timeout))

-- The loop of `CheckTimeout` over the idle connections, the oldest first; `clock i` is the time
-- read in round `i`.
unfoldable pub sweep : (ℕ → ℤ) → ℕ → List IdleConn → ThriftPool → ThriftPool
sweep clock i [] p = record p { idle = [] }
sweep clock i (v ∷ older) p =
    let next = sweep clock (i + 1) older (close_client v.c (decr_count p)) in
    if is_expired p.config (clock i) v then next else record p { idle = reverse (v ∷ older) }

unfoldable pub check_timeout : (ℕ → ℤ) → ThriftPool → ThriftPool
unfolding sweep
check_timeout clock p = sweep clock 0 (reverse p.idle) p

-- `none` is the nil pool.
unfoldable pub get_idle_count : Option ThriftPool → ℕ
get_idle_count none = 0
get_idle_count (some p) = length p.idle

unfoldable pub get_conn_count : Option ThriftPool → ℤ
get_conn_count none = pos 0
get_conn_count (some p) = p.count

unfoldable pub close_all : List IdleConn → ThriftPool → ThriftPool
close_all [] p = p
close_all (e ∷ es) p = close_all es (close_client e.c p)

unfoldable pub release : ThriftPool → ThriftPool
unfolding close_all
release p = close_all p.idle (record p { status = pool_stop; count = pos 0; idle = [] })

unfoldable pub recover : ThriftPool → ThriftPool
recover p = record p { status = pool_open }

abbrev gotten : Got → Option IdleClient
gotten (got c) = some c
gotten (failed e) = none

abbrev put_back : Env → ℤ → Option (Got × ThriftPool) → Option ThriftPool
put_back env now none = none
put_back env now (some (g, p)) = some (put env now (gotten g) p).1

-- `Get`, then `Put` of what it returned; `none` while `Get` waits.
unfoldable pub create_idle_conn : Env → ℤ → List Wake → Dialed → ThriftPool → Option ThriftPool
create_idle_conn env now wakes dialed p = put_back env now (get env now wakes dialed p)

abbrev pub init_count : ThriftPoolConfig → ℤ
init_count config =
    if ltb_ℤ max_init_conn_count config.max_conn then max_init_conn_count else config.max_conn

unfoldable pub new_pool : ThriftPoolConfig → ThriftPool
new_pool config = record {
  idle = [];
  count = pos 0;
  status = pool_open;
  config = check_thrift_config config;
  closed = [];
}

abbrev and_then : Option ThriftPool → (ThriftPool → Option ThriftPool) → Option ThriftPool
and_then none k = none
and_then (some p) k = k p

-- `initConn` where its goroutines run one after the other: `dials i` is what the i-th would dial.
unfoldable pub init_conn : Env → ℤ → (ℕ → Dialed) → ℕ → ThriftPool → Option ThriftPool
unfolding create_idle_conn
init_conn env now dials zero p = some p
init_conn env now dials (suc n) p =
    and_then (create_idle_conn env now [] (dials n) p) (init_conn env now dials n)
