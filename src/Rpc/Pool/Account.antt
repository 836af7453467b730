-- ===== src/Rpc/Pool/Account.antt =====
-- The accounts of the pool of infra/rpc/thrift_pool.go: its count against the connections that are
-- idle or handed out, operation by operation.
use dt_go.Base.{
  ℕ, zero, suc, ◌+◌, ◌≤◌, ◌<◌, ◌≡◌, refl, ap, false, Option, none, some, List, [], ◌∷◌, length,
  arith,
}
use dt_go.Base.Int.{ℤ, pos, ◌+ℤ◌, max_int32, inc32-pos, dec32-pos}
use dt_go.Rpc.Client.{IdleConn, IdleClient, Env, Dialed, client, refused}
use dt_go.Rpc.Pool.{
  ThriftPool, Got, got, failed, Wake, pool_open, take_conn, dial_conn, wait_turn, get_until, get,
  after_turn, put, reconnect, close_conn, create_idle_conn, init_conn, is_full, gotten,
}

-- The count of the pool is that of the idle connections and of `out` others, and within `max`.
pub record IsSound (max out : ℕ) (p : ThriftPool) : Type 0 where
  pub limit : p.config.max_conn ≡ pos max
  pub small : max ≤ max_int32
  pub counted : p.count ≡ pos (length p.idle + out)
  pub within : length p.idle + out ≤ max
  pub running : p.status ≡ pool_open

-- The connections that a call hands out.
abbrev pub handed : Got → ℕ
handed (got c) = 1
handed (failed e) = 0

abbrev pub AllSeen : ℕ → ℕ → List Wake → Type 0
AllSeen max out [] = Unit
AllSeen max out (w ∷ ws) = IsSound max out w.seen × AllSeen max out ws

-- What a finished call of `get` has done to the accounts.
abbrev pub Settled : ℕ → ℕ → Option (Got × ThriftPool) → Type 0
Settled max out none = Unit
Settled max out (some (g, q)) = IsSound max (out + handed g) q

dial_conn-IsSound :
    (env : Env) (dialed : Dialed) (max out : ℕ) (p : ThriftPool)
    → IsSound max out p
    → length p.idle + out < max
    → IsSound max (out + handed (dial_conn env dialed p).0) (dial_conn env dialed p).1
unfolding dial_conn
dial_conn-IsSound env (refused n) max out p s room =
    ground (arith, inc32-pos (length p.idle + out), dec32-pos (length p.idle + out))
dial_conn-IsSound env (client c) max out p s room =
    ground (arith, inc32-pos (length p.idle + out), dec32-pos (length p.idle + out))

-- Room for one more: a pool that is not full and has no idle connection.
take_conn-IsSound :
    (env : Env) (dialed : Dialed) (max out : ℕ) (p : ThriftPool)
    → IsSound max out p
    → is_full p ≡ false
    → IsSound max (out + handed (take_conn env dialed p.idle p).0) (take_conn env dialed p.idle p).1
unfolding take_conn
take_conn-IsSound env dialed max out p s room = go p.idle refl
  where
    go :
        (idle : List IdleConn)
        → p.idle ≡ idle
        → IsSound max (out + handed (take_conn env dialed idle p).0) (take_conn env dialed idle p).1
    go [] e = dial_conn-IsSound env dialed max out p s (ground (arith, e, room))
    go (x ∷ rest) e = ground (arith, e, dec32-pos (length rest + out), ap {B = ℕ} length e)

wait_turn-IsSound :
    (env : Env) (dialed : Dialed) (expire : ℤ) (max out : ℕ) (wakes : List Wake)
    → AllSeen max out wakes
    → Settled max out (after_turn env dialed (wait_turn expire wakes))
unfolding wait_turn
wait_turn-IsSound env dialed expire max out [] s = tt
wait_turn-IsSound env dialed expire max out (w ∷ ws) s = ground (
  arith,
  wait_turn-IsSound env dialed expire max out ws s.1,
  take_conn-IsSound env dialed max out w.seen s.0,
)

-- Whatever a finished `get` returns, the accounts of the pool are right, with one more connection
-- handed out exactly when it returns one. The pools that it sees while it waits must be sound.
pub get-IsSound :
    (env : Env) (now : ℤ) (wakes : List Wake) (dialed : Dialed) (max out : ℕ) (p : ThriftPool)
    → IsSound max out p
    → AllSeen max out wakes
    → Settled max out (get env now wakes dialed p)
unfolding get get_until
get-IsSound env now wakes dialed max out p s seen = ground (
  arith,
  wait_turn-IsSound env dialed (now +ℤ p.config.timeout) max out wakes seen,
  take_conn-IsSound env dialed max out p s,
)

pub put-IsSound :
    (env : Env) (now : ℤ) (c : IdleClient) (max out : ℕ) (p : ThriftPool)
    → IsSound max (out + 1) p
    → IsSound max out (put env now (some c) p).1
unfolding put
put-IsSound env now c max out p s = ground (arith, dec32-pos (length p.idle + out))

pub reconnect-IsSound :
    (env : Env) (dialed : Dialed) (old : Option IdleClient) (max out : ℕ) (p : ThriftPool)
    → IsSound max (out + 1) p
    → IsSound max (out + handed (reconnect env dialed old p).0) (reconnect env dialed old p).1
unfolding reconnect
reconnect-IsSound env dialed old max out p s = ground (arith, dec32-pos (length p.idle + out))

pub close_conn-IsSound :
    (old : Option IdleClient) (max out : ℕ) (p : ThriftPool)
    → IsSound max (out + 1) p
    → IsSound max out (close_conn old p)
unfolding close_conn
close_conn-IsSound old max out p s = ground (arith, dec32-pos (length p.idle + out))

-- A pool that nothing is lent from has room.
get_at_once :
    (env : Env) (now : ℤ) (dialed : Dialed) (max : ℕ) (p : ThriftPool)
    → IsSound max 0 p
    → 0 < max
    → get env now [] dialed p ≡ some (take_conn env dialed p.idle p)
unfolding get get_until wait_turn
get_at_once env now dialed max p s room = ground arith

put_back-IsSound :
    (env : Env) (now : ℤ) (max : ℕ) (g : Got) (p : ThriftPool)
    → IsSound max (handed g) p
    → IsSound max 0 (put env now (gotten g) p).1
put_back-IsSound env now max (got c) p s = put-IsSound env now c max 0 p s
put_back-IsSound env now max (failed e) p s = unfold put in s

create_idle_conn-IsSound :
    (env : Env) (now : ℤ) (dialed : Dialed) (max : ℕ) (p : ThriftPool)
    → IsSound max 0 p
    → 0 < max
    → (q : ThriftPool) × (create_idle_conn env now [] dialed p ≡ some q) × IsSound max 0 q
unfolding create_idle_conn
create_idle_conn-IsSound env now dialed max p s room =
    let (g, r) = take_conn env dialed p.idle p in
    (
      (put env now (gotten g) r).1,
      rw (get_at_once env now dialed max p s room, create_idle_conn),
      put_back-IsSound env now max g r (ground (arith, take_conn-IsSound env dialed max 0 p s)),
    )

-- The connections that a new pool opens at once: none of the goroutines has to wait, whether the
-- dials succeed or not, and the accounts come out right.
pub init_conn-IsSound :
    (env : Env) (now : ℤ) (dials : ℕ → Dialed) (n max : ℕ) (p : ThriftPool)
    → IsSound max 0 p
    → 0 < max
    → (q : ThriftPool) × (init_conn env now dials n p ≡ some q) × IsSound max 0 q
unfolding init_conn
init_conn-IsSound env now dials zero max p s room = (p, refl, s)
init_conn-IsSound env now dials (suc n) max p s room =
    let (q, e, v) = create_idle_conn-IsSound env now (dials n) max p s room in
    let (r, f, u) = init_conn-IsSound env now dials n max q v room in (r, rw (e, init_conn) f, u)
