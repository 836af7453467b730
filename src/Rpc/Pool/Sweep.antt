-- ===== src/Rpc/Pool/Sweep.antt =====
-- `CheckTimeout` of infra/rpc/thrift_pool.go: which idle connections it closes.
use mathlib.Core.List.{
  map, map-append, append_assoc, reverse-cons, reverse, reverse-append, reverse-reverse,
}
use dt_go.Base.{
  ℕ, zero, suc, ◌+◌, ◌≤◌, ◌≡◌, refl, sym, ap, ◌∙◌, true, false, List, [], ◌∷◌, ◌++◌, length,
  length-reverse, All, All-reverse, All-map, arith, Bool-cases, inl, inr,
}
use dt_go.Base.Int.{ℤ, pos, ◌≤ℤ◌, max_int32, dec32, dec32-pos, +ℤ_parts}
use dt_go.Rpc.Client.{ThriftPoolConfig, IdleConn, IdleClient}
use dt_go.Rpc.Pool.{
  ThriftPool, is_expired, decr_count, close_client, sweep, check_timeout, pool_open,
}
use dt_go.Rpc.Pool.Account.{IsSound}

-- From the oldest to the newest.
abbrev pub Ascending : List IdleConn → Type 0
Ascending [] = Unit
Ascending (v ∷ vs) = All (λ u. v.t ≤ℤ u.t) vs × Ascending vs

abbrev pub Expired : ThriftPoolConfig → ℤ → IdleConn → Type 0
Expired config now v = is_expired config now v ≡ true

abbrev pub Fresh : ThriftPoolConfig → ℤ → IdleConn → Type 0
Fresh config now v = is_expired config now v ≡ false

Fresh-later :
    (config : ThriftPoolConfig) (now : ℤ) (v u : IdleConn)
    → Fresh config now v
    → v.t ≤ℤ u.t
    → Fresh config now u
Fresh-later config now v u fresh later =
    ground (arith, +ℤ_parts v.t config.idle_timeout, +ℤ_parts u.t config.idle_timeout)

-- The connections closed one after the other, the latest first.
abbrev closes : List IdleConn → List IdleClient → List IdleClient
closes [] done = done
closes (v ∷ vs) done = closes vs (v.c ∷ done)

closes-reverse :
    (vs : List IdleConn) (done : List IdleClient)
    → closes vs done ≡ map (λ (v : IdleConn). v.c) (reverse vs) ++ done
closes-reverse [] done = refl
closes-reverse (v ∷ vs) done =
    closes-reverse vs (v.c ∷ done)
    ∙ sym (append_assoc (map (λ (u : IdleConn). u.c) (reverse vs)) (v.c ∷ []) done)
    ∙ ap (λ l. l ++ done)
        (sym (map-append (λ (u : IdleConn). u.c) (reverse vs) (v ∷ []))
          ∙ ap (map (λ (u : IdleConn). u.c)) (sym (reverse-cons v vs)))

-- The count after so many decrements.
abbrev pub lowered : ℕ → ℤ → ℤ
lowered zero count = count
lowered (suc n) count = lowered n (dec32 count)

sweep-split :
    (now : ℤ) (i : ℕ) (l : List IdleConn) (p : ThriftPool)
    → Ascending l
    → (gone kept : List IdleConn) × (l ≡ gone ++ kept)
      × ((sweep (λ _. now) i l p).idle ≡ reverse kept)
      × ((sweep (λ _. now) i l p).closed ≡ closes gone p.closed)
      × ((sweep (λ _. now) i l p).count ≡ lowered (length gone) p.count)
      × All (Expired p.config now) gone
      × All (Fresh p.config now) kept
unfolding sweep
sweep-split now i [] p asc = ([], [], refl, refl, refl, refl, tt, tt)
sweep-split now i (v ∷ older) p asc = elim (Bool-cases (is_expired p.config now v)) [
  | inl over ↦
      let (gone, kept, e, f, c, n, g, h) =
        sweep-split now (i + 1) older (close_client v.c (decr_count p)) asc.1 in
      (v ∷ gone, kept, ap (λ l. v ∷ l) e, rw over f, rw over c, rw over n, (over, g), h)
  | inr fresh ↦ (
    [],
    v ∷ older,
    refl,
    rw fresh,
    rw fresh,
    rw fresh,
    tt,
    (fresh, All-map _ (Fresh p.config now) older (λ u. Fresh-later p.config now v u fresh) asc.0),
  )
]

-- At one time, over connections that were put back in order, `CheckTimeout` splits the idle list: the
-- connections at its back, whose idle time is over, are closed, each once, the oldest first, the count is
-- lowered by one for each of them, and they leave the list; the time of none of the others is over, and
-- they stay as they are.
pub check_timeout-exact :
    (now : ℤ) (p : ThriftPool)
    → Ascending (reverse p.idle)
    → (gone : List IdleConn) × (p.idle ≡ (check_timeout (λ _. now) p).idle ++ gone)
      × ((check_timeout (λ _. now) p).closed ≡ map (λ (v : IdleConn). v.c) gone ++ p.closed)
      × ((check_timeout (λ _. now) p).count ≡ lowered (length gone) p.count)
      × All (Expired p.config now) gone
      × All (Fresh p.config now) (check_timeout (λ _. now) p).idle
unfolding check_timeout
check_timeout-exact now p asc =
    let (gone, kept, e, f, c, n, g, h) = sweep-split now 0 (reverse p.idle) p asc in
    (
      reverse gone,
      sym (reverse-reverse p.idle)
          ∙ ap reverse e
          ∙ reverse-append gone kept
          ∙ ap (λ l. l ++ reverse gone) (sym f),
      c ∙ closes-reverse gone p.closed,
      n ∙ ap (λ k. lowered k p.count) (sym (length-reverse gone)),
      All-reverse _ gone g,
      rw f (All-reverse _ kept h),
    )

sweep-IsSound :
    (clock : ℕ → ℤ) (i max out : ℕ) (l : List IdleConn) (p : ThriftPool)
    → p.config.max_conn ≡ pos max
    → max ≤ max_int32
    → p.count ≡ pos (length l + out)
    → length l + out ≤ max
    → p.status ≡ pool_open
    → IsSound max out (sweep clock i l p)
unfolding sweep
sweep-IsSound clock i max out [] p limit small counted within running = ground arith
sweep-IsSound clock i max out (v ∷ older) p limit small counted within running = ground (
  arith,
  length-reverse (v ∷ older),
  dec32-pos (length older + out),
  sweep-IsSound clock (i + 1) max out older (close_client v.c (decr_count p)),
)

-- Whatever the clock shows, `CheckTimeout` lowers the count by the connections that it closes.
pub check_timeout-IsSound :
    (clock : ℕ → ℤ) (max out : ℕ) (p : ThriftPool)
    → IsSound max out p
    → IsSound max out (check_timeout clock p)
unfolding check_timeout
check_timeout-IsSound clock max out p s =
    ground (arith, length-reverse p.idle, sweep-IsSound clock 0 max out (reverse p.idle) p)
