-- ===== src/Rpc/Agent.antt =====
-- infra/rpc/thrift_agent.go: a call on a client of the pool, with one retry over a new connection.
pub mod Account
use dt_go.Base.{ℕ, Bool, true, false, Option, none, some, List, if◌then◌else◌}
use dt_go.Base.Int.{ℤ}
use dt_go.Rpc.Client.{Error, IdleClient, Env, Dialed}
use dt_go.Rpc.Pool.{ThriftPool, Got, got, failed, Wake, get, put, reconnect, close_conn}

-- The errors that a call on a client returns, as `Do` tells them apart: `net.Error`,
-- `thrift.TTransportException`, and any other.
pub data CallError : Type 0 where
  net_error transport_error : CallError
  other_error : ℕ → CallError

pub data AgentError : Type 0 where
  pool_error : Error → AgentError
  call_error : CallError → AgentError

abbrev pub is_broken : CallError → Bool
is_broken net_error = true
is_broken transport_error = true
is_broken (other_error n) = false

-- What happens around one call of `Do`: the pool as seen by `Get` while it waits, the answers of
-- `Dial` to `Get` and to `Reconnect`, what the callback returns on the first and on the second
-- client, and the time at which the client is given back.
pub record Around : Type 0 where
  pub env : Env
  pub called : ℤ
  pub wakes : List Wake
  pub dialed : Dialed
  pub redialed : Dialed
  pub first : IdleClient → Option CallError
  pub second : IdleClient → Option CallError
  pub given_back : ℤ

abbrev pub lift_call : Option CallError → Option AgentError
lift_call none = none
lift_call (some d) = some (call_error d)

-- The deferred function, over the variables `client` and `err`. An error of the pool leaves a nil
-- client, so `err` is only tested where it comes from the callback.
unfoldable pub deferred : Around → Option IdleClient → Option CallError → ThriftPool → ThriftPool
deferred a none err p = p
deferred a (some c) none p = (put a.env a.given_back (some c) p).1
deferred a (some c) (some d) p =
    if is_broken d then close_conn (some c) p else (put a.env a.given_back (some c) p).1

-- After `Reconnect`: the callback's second result is returned, and `err` stays nil.
unfoldable pub retry : Around → Got × ThriftPool → Option AgentError × ThriftPool
unfolding deferred
retry a (failed e, p) = (some (pool_error e), deferred a none none p)
retry a (got c, p) = (lift_call (a.second c), deferred a (some c) none p)

unfoldable pub use_client :
    Around → IdleClient → Option CallError → ThriftPool → Option AgentError × ThriftPool
unfolding deferred retry
use_client a c none p = (none, deferred a (some c) none p)
use_client a c (some d) p =
    if is_broken d
    then retry a (reconnect a.env a.redialed (some c) p)
    else (some (call_error d), deferred a (some c) (some d) p)

abbrev pub after_get : Around → Got × ThriftPool → Option AgentError × ThriftPool
after_get a (failed e, p) = (some (pool_error e), deferred a none none p)
after_get a (got c, p) = use_client a c (a.first c) p

abbrev finished : Around → Option (Got × ThriftPool) → Option (Option AgentError × ThriftPool)
finished a none = none
finished a (some r) = some (after_get a r)

-- `Do`; `none` while `Get` waits.
unfoldable pub do_call : Around → ThriftPool → Option (Option AgentError × ThriftPool)
unfolding use_client
do_call a p = finished a (get a.env a.called a.wakes a.dialed p)
