-- ===== src/Dlm/Spins.antt =====
-- `SpinLock` of infra/dlm/distributed_lock.go: its attempts and the watchdogs that they leave.
use dt_go.Base.{
  ℕ, zero, suc, ◌+◌, ◌≡◌, ◌≢◌, refl, ap, ◌∙◌, Bool, true, false, ◌==◌, Option, none, some, List, [],
  ◌∷◌, arith, if◌then◌else◌, String,
}
use dt_go.Base.Int.{ℤ, pos_part}
use dt_go.Dlm.Store.{Redis}
use dt_go.Dlm.{
  Watchdog, World, try_lock, Reply, arrives, lost, after_set_nx, start_watchdog, spin, spin_lock,
  spin_result, Pause, DlmError, spin_times_reached,
}

-- How many watchdogs of a component are running.
unfoldable pub owned : ℕ → List Watchdog → ℕ
owned i [] = 0
owned i (d ∷ ds) = let rest = owned i ds in if d.owner == i then suc rest else rest

module _ (r : Redis) (i : ℕ) (key : String) where
  after_set_nx-owned :
      (reply : Reply) (res : Bool × r.Store) (w : World r)
      → (after_set_nx r i key reply res w).0.1 ≡ none
      → owned i (after_set_nx r i key reply res w).1.dogs ≡ suc (owned i w.dogs)
  unfolding after_set_nx start_watchdog owned
  after_set_nx-owned (lost true) (ok, store) w fine = absurd (ground (arith, fine))
  after_set_nx-owned (lost false) (ok, store) w fine = absurd (ground (arith, fine))
  after_set_nx-owned arrives (true, store) w fine = ground arith
  after_set_nx-owned arrives (false, store) w fine = ground arith

  -- The others neither start nor stop a watchdog of this component.
  abbrev pub Apart : (ℕ → Pause r) → Type 0
  Apart others = (n : ℕ) (w : World r) → owned i ((others n).0 w).dogs ≡ owned i w.dogs

  spin_result-owned :
      (n m : ℕ) (again : World r → Option DlmError × World r)
      (res : (Bool × Option DlmError) × World r)
      → (res.0.1 ≡ none → owned i res.1.dogs ≡ suc m)
      → (res.0.1 ≡ none
          → (again res.1).0 ≡ some spin_times_reached
          → owned i (again res.1).1.dogs ≡ n + owned i res.1.dogs)
      → res.0.1 ≢ some spin_times_reached
      → (spin_result r again res).0 ≡ some spin_times_reached
      → owned i (spin_result r again res).1.dogs ≡ suc n + m
  unfolding spin_result
  spin_result-owned n m again ((ok, some err), w) one others other gone = absurd (other gone)
  spin_result-owned n m again ((true, none), w) one others other gone =
      absurd (ground (arith, gone))
  spin_result-owned n m again ((false, none), w) one others other gone =
      omega (arith, one refl, others refl gone)

  after_set_nx-error :
      (reply : Reply) (res : Bool × r.Store) (w : World r)
      → (after_set_nx r i key reply res w).0.1 ≢ some spin_times_reached
  unfolding after_set_nx
  after_set_nx-error (lost true) (ok, store) w e = absurd (ground (arith, e))
  after_set_nx-error (lost false) (ok, store) w e = absurd (ground (arith, e))
  after_set_nx-error arrives (ok, store) w e = absurd (ground (arith, e))

  try_lock-error :
      (reply : Reply) (w : World r) → (try_lock r i key reply w).0.1 ≢ some spin_times_reached
  unfolding try_lock
  try_lock-error reply w =
      after_set_nx-error reply (r.set_nx w.store w.now key (w.dlm i).value (w.dlm i).expiration) w

  spin-owned :
      (others : ℕ → Pause r) (n : ℕ) (w : World r)
      → Apart others
      → (spin r i key others n w).0 ≡ some spin_times_reached
      → owned i (spin r i key others n w).1.dogs ≡ n + owned i w.dogs
  unfolding spin try_lock
  spin-owned others zero w apart gone = omega arith
  spin-owned others (suc n) w apart gone =
      let res = try_lock r i key (others (suc n)).1 w in
      spin_result-owned n (owned i w.dogs) (λ w'. spin r i key others n ((others n).0 w')) res
        (after_set_nx-owned (others (suc n)).1
          (r.set_nx w.store w.now key (w.dlm i).value (w.dlm i).expiration) w)
        (λ fine failed.
          spin-owned others n ((others n).0 res.1) apart failed ∙ ap (λ x. n + x) (apart n res.1))
        (try_lock-error (others (suc n)).1 w) gone

  -- A `SpinLock` that gives up has tried as often as it was told to, and has left as many watchdogs
  -- running, if the others neither start nor stop watchdogs of this component in the meantime.
  pub spin_lock_leaves_watchdogs :
      (others : ℕ → Pause r) (times : ℤ) (w : World r)
      → Apart others
      → (spin_lock r i key others times w).0 ≡ some spin_times_reached
      → owned i (spin_lock r i key others times w).1.dogs ≡ pos_part times + owned i w.dogs
  unfolding spin_lock
  spin_lock_leaves_watchdogs others times w apart gone =
      spin-owned others (pos_part times) w apart gone
