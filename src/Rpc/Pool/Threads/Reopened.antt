-- ===== src/Rpc/Pool/Threads/Reopened.antt =====
-- What `Release` and `Recover` of infra/rpc/thrift_pool.go do to the limit on connections.
use dt_go.Base.{ℕ, suc, ◌+◌, ◌<◌, ◌≡◌, refl, ap, false, some, List, [], ◌∷◌, length, arith}
use dt_go.Base.Int.{pos}
use dt_go.Rpc.Client.{IdleConn}
use dt_go.Rpc.Pool.{ThriftPool, incr_count, pool_open, pool_stop, recover, close_all, is_full}
use dt_go.Rpc.Pool.Threads.{
  World, Action, enter, lock_get, release_stop, release_zero, release_drain, recovers, enter_lock,
  lock_section, step, run,
}
use dt_go.Rpc.Pool.Threads.Bound.{Inv, connections}

-- `Release`, `Recover`, and then one call of `Get`.
abbrev pub reopen_and_get : List Action
reopen_and_get = release_stop ∷ release_zero ∷ release_drain ∷ recovers ∷ enter ∷ lock_get ∷ []

close_all-fields :
    (es : List IdleConn) (p : ThriftPool)
    → ((close_all es p).idle ≡ p.idle)
      × ((close_all es p).count ≡ p.count)
      × ((close_all es p).status ≡ p.status)
      × ((close_all es p).config ≡ p.config)
unfolding close_all
close_all-fields [] p = (refl, refl, refl, refl)
close_all-fields (e ∷ es) p = close_all-fields es _

lock_dials :
    (n : ℕ) (w : World)
    → w.pool.idle ≡ []
    → is_full w.pool ≡ false
    → enter_lock n w ≡ record w { pool = incr_count w.pool; entered = n; dialing = w.dialing + 1 }
unfolding enter_lock lock_section
lock_dials n w e room = rw room (ground (arith, e))

-- The limit does not survive `Release` and `Recover`: where all the connections that the pool may
-- hold are lent, the next `Get` dials one more.
pub reopened_pool_exceeds :
    (max : ℕ) (w : World)
    → Inv max w
    → 0 < max
    → length w.lent ≡ max
    → (w' : World) × (run reopen_and_get w ≡ some w') × (max < connections w')
unfolding run step recover
reopened_pool_exceeds max w v some_room all_lent = (
  record w { pool = incr_count q; dialing = w.dialing + 1 },
  ap some (
      lock_dials w.entered (record w { pool = q; entered = suc w.entered }) fields.0
        (ground (arith, fields, v))),
  omega (arith, ap length fields.0),
)
  where
    open w use {pool}

    drained : ThriftPool
    drained = record pool { idle = []; count = pos 0; status = pool_stop }

    q : ThriftPool
    q = record (close_all pool.idle drained) { status = pool_open }

    fields : (q.idle ≡ []) × (q.count ≡ pos 0) × (q.config ≡ pool.config)
    fields = let f = close_all-fields pool.idle drained in (f.0, f.1, f.3)
