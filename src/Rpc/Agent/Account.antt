-- ===== src/Rpc/Agent/Account.antt =====
-- What `Do` of infra/rpc/thrift_agent.go leaves in the pool.
use dt_go.Base.{ℕ, ◌+◌, ◌≡◌, true, Option, none, some, ◌∷◌, arith, subst}
use dt_go.Rpc.Client.{IdleClient, check}
use dt_go.Rpc.Pool.{ThriftPool, Got, got, failed, get, put, reconnect}
use dt_go.Rpc.Pool.Account.{
  IsSound, AllSeen, Settled, handed, get-IsSound, put-IsSound, reconnect-IsSound,
  close_conn-IsSound,
}
use dt_go.Rpc.Agent.{
  Around, CallError, is_broken, deferred, retry, use_client, finished, do_call, AgentError,
  call_error,
}

module _ (a : Around) (max out : ℕ) where
  deferred-IsSound :
      (c : IdleClient) (err : Option CallError) (p : ThriftPool)
      → IsSound max (out + 1) p
      → IsSound max out (deferred a (some c) err p)
  unfolding deferred
  deferred-IsSound c none p s = put-IsSound a.env a.given_back c max out p s
  deferred-IsSound c (some d) p s =
      ground (
        arith,
        put-IsSound a.env a.given_back c max out p s,
        close_conn-IsSound (some c) max out p s,
      )

  retry-IsSound :
      (r : Got × ThriftPool) → IsSound max (out + handed r.0) r.1 → IsSound max out (retry a r).1
  unfolding retry deferred
  retry-IsSound (failed e, p) s = ground arith
  retry-IsSound (got c, p) s = deferred-IsSound c none p s

  use_client-IsSound :
      (c : IdleClient) (err : Option CallError) (p : ThriftPool)
      → IsSound max (out + 1) p
      → IsSound max out (use_client a c err p).1
  unfolding use_client
  use_client-IsSound c none p s = deferred-IsSound c none p s
  use_client-IsSound c (some d) p s = ground (
    arith,
    deferred-IsSound c (some d) p s,
    retry-IsSound (reconnect a.env a.redialed (some c) p)
        (reconnect-IsSound a.env a.redialed (some c) max out p s),
  )

abbrev Left : ℕ → ℕ → Option (Option AgentError × ThriftPool) → Type 0
Left max out none = Unit
Left max out (some (r, q)) = IsSound max out q

finished-Left :
    (a : Around) (max out : ℕ) (o : Option (Got × ThriftPool))
    → Settled max out o
    → Left max out (finished a o)
unfolding deferred
finished-Left a max out none s = tt
finished-Left a max out (some (failed x, p)) s = ground (arith, s)
finished-Left a max out (some (got c, p)) s = use_client-IsSound a max out c (a.first c) p s

-- `Do` leaks no connection: on every path, with every error of the pool and of the callback, the
-- accounts of the pool are afterwards what they were before.
pub do_call-IsSound :
    (a : Around) (max out : ℕ) (p q : ThriftPool) (r : Option AgentError)
    → IsSound max out p
    → AllSeen max out a.wakes
    → do_call a p ≡ some (r, q)
    → IsSound max out q
unfolding do_call
do_call-IsSound a max out p q r s seen e =
    subst (Left max out) e
      (finished-Left a max out _ (get-IsSound a.env a.called a.wakes a.dialed max out p s seen))

-- Where the retried call breaks its connection too, `Do` returns that error and puts the connection
-- back at the front of the idle list, if it still looks open: the next `Get` hands it out.
pub retry_puts_back_broken :
    (a : Around) (max out : ℕ) (c c' : IdleClient) (d d' : CallError) (p q q' : ThriftPool)
    → get a.env a.called a.wakes a.dialed p ≡ some (got c, q)
    → a.first c ≡ some d
    → is_broken d ≡ true
    → reconnect a.env a.redialed (some c) q ≡ (got c', q')
    → a.second c' ≡ some d'
    → is_broken d' ≡ true
    → check a.env c' ≡ true
    → IsSound max (out + 1) q'
    → do_call a p
      ≡ some
          (some (call_error d'), record q' { idle = record { c = c'; t = a.given_back } ∷ q'.idle })
unfolding do_call use_client retry deferred put
retry_puts_back_broken a max out c c' d d' p q q' e f b g f' b' alive s =
    rw (e, f) (ground (arith, f, b, g, f', b', alive, s))
