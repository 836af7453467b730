-- ===== src/Rpc/Client.antt =====
-- infra/rpc/thrift_pool.go: a client and its check, the configuration, and what the sockets and the
-- registered functions answer.
use dt_go.Base.{ℕ, Bool, false, ◌&&◌, Option, none, some, if◌then◌else◌}
use dt_go.Base.Int.{ℤ, pos, leb_ℤ}

pub data Error : Type 0 where
  over_max invalid_conn pool_closed socket_disconnect : Error
  dial_error close_error : ℕ → Error

-- The pointers of a client, nil or a handle.
pub record IdleClient : Type 0 where
  pub transport : Option ℕ
  pub raw_client : Option ℕ

pub record IdleConn : Type 0 where
  pub c : IdleClient
  pub t : ℤ

pub record ThriftPoolConfig : Type 0 where
  pub max_conn : ℤ
  pub conn_timeout : ℤ
  pub idle_timeout : ℤ
  pub timeout : ℤ
  pub interval : ℤ

-- What the sockets and the registered functions answer: `Transport.IsOpen` and the error of `Close`.
pub record Env : Type 0 where
  pub is_open : ℕ → Bool
  pub close : IdleClient → Option ℕ

-- What a call of `Dial` returns.
pub data Dialed : Type 0 where
  client : IdleClient → Dialed
  refused : ℕ → Dialed

abbrev pub default_max_conn : ℤ
default_max_conn = pos 60

abbrev pub default_conn_timeout : ℤ
default_conn_timeout = pos 2_000_000_000

abbrev pub default_idle_timeout : ℤ
default_idle_timeout = pos 900_000_000_000

abbrev pub default_timeout : ℤ
default_timeout = pos 5_000_000_000

abbrev pub default_interval : ℤ
default_interval = pos 50_000_000

is_zero : ℤ → Bool
is_zero d = leb_ℤ d (pos 0) && leb_ℤ (pos 0) d

unfoldable pub check_thrift_config : ThriftPoolConfig → ThriftPoolConfig
unfolding is_zero
check_thrift_config config = record {
  max_conn = if is_zero config.max_conn then default_max_conn else config.max_conn;
  conn_timeout = if is_zero config.conn_timeout then default_conn_timeout else config.conn_timeout;
  idle_timeout =
      if leb_ℤ config.idle_timeout (pos 0) then default_idle_timeout else config.idle_timeout;
  timeout = if leb_ℤ config.timeout (pos 0) then default_timeout else config.timeout;
  interval = default_interval;
}

unfoldable pub check : Env → IdleClient → Bool
check env c = elim c.transport [
  | none ↦ false
  | some h ↦ elim c.raw_client [ none ↦ false | some r ↦ env.is_open h ]
]
