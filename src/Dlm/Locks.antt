-- ===== src/Dlm/Locks.antt =====
-- What a lock of infra/dlm/distributed_lock.go promises, from the try that gets it or fails.
use dt_go.Base.{
  ℕ, ◌+◌, ◌/◌, ◌<◌, ◌≡◌, inl, refl, sym, ap, ◌∙◌, Bool, true, false, not, some, List, All, arith,
  String, eq_iff,
}
use dt_go.Dlm.Store.{Redis, is_live, live_value}
use dt_go.Dlm.Entries.{set_nx-live}
use dt_go.Dlm.Uniform.{set_dlm-settings, after_set_nx-Uniform}
use dt_go.Dlm.Watched.{Uniform, Guarded}
use dt_go.Dlm.Exclusion.{Spares, grants, run-Guarded}
use dt_go.Dlm.{World, try_lock, Reply, arrives, lost, after_set_nx, start_watchdog, Action, run}

module _ (r : Redis) (i ex : ℕ) where
  pub try_lock-Uniform :
      (k : ℕ) (name : String) (reply : Reply) (w : World r)
      → Uniform r i ex w
      → Uniform r i ex (try_lock r k name reply w).1
  unfolding try_lock
  try_lock-Uniform k name reply w u =
      after_set_nx-Uniform r i ex k name reply
        (r.set_nx w.store w.now name (w.dlm k).value (w.dlm k).expiration) w u

  started-Guarded :
      (key : String) (reply : Reply) (res : Bool × r.Store) (w : World r)
      → 0 < ex
      → (w.dlm i).expiration ≡ ex
      → (res.0 ≡ true → r.entry res.1 key ≡ some ((w.dlm i).value, w.now + ex))
      → (after_set_nx r i key reply res w).0.0 ≡ true
      → Guarded r i i ex key (after_set_nx r i key reply res w).1
  unfolding after_set_nx start_watchdog
  started-Guarded key (lost true) res w some_time same set got = absurd (ground (arith, got))
  started-Guarded key (lost false) res w some_time same set got = absurd (ground (arith, got))
  started-Guarded key arrives (false, store) w some_time same set got = absurd (ground (arith, got))
  started-Guarded key arrives (true, store) w some_time same set got = (
    w.now + ex,
    record {
      owner = i;
      id = w.next_id;
      key = key;
      expiration = (w.dlm i).expiration;
      next = w.now + (w.dlm i).expiration / 3;
    },
    record {
      holds =
          set refl ∙ ap (λ x. some (x, w.now + ex)) (sym (set_dlm-settings r i w.next_id i w).0);
      running = inl refl;
      by = refl;
      about = refl;
      period = same;
      on_time = omega (arith);
      soon = omega (arith, same);
      before_end = omega (arith, same, some_time);
    },
  )

  set_nx-sets :
      (key : String) (w : World r)
      → (w.dlm i).expiration ≡ ex
      → (r.set_nx w.store w.now key (w.dlm i).value (w.dlm i).expiration).0 ≡ true
      → r.entry (r.set_nx w.store w.now key (w.dlm i).value (w.dlm i).expiration).1 key
        ≡ some ((w.dlm i).value, w.now + ex)
  set_nx-sets key w same ok = ground (
    arith,
    r.set_nx-reply w.store w.now key (w.dlm i).value (w.dlm i).expiration,
    ok,
    same,
    r.set_nx-entry w.store w.now key (w.dlm i).value (w.dlm i).expiration key,
    eq_iff key key,
  )

  try_lock-Guarded :
      (key : String) (reply : Reply) (w : World r)
      → 0 < ex
      → (w.dlm i).expiration ≡ ex
      → (try_lock r i key reply w).0.0 ≡ true
      → Guarded r i i ex key (try_lock r i key reply w).1
  unfolding try_lock
  try_lock-Guarded key reply w some_time same got =
      started-Guarded key reply (r.set_nx w.store w.now key (w.dlm i).value (w.dlm i).expiration) w
        some_time same (set_nx-sets key w same) got

  Guarded-live :
      (j : ℕ) (key : String) (w : World r)
      → Guarded r i j ex key w
      → live_value w.now (r.entry w.store key) ≡ some (w.dlm i).value
  Guarded-live j key w (until, dog, g) = ground (arith, g.holds, g.on_time, g.before_end)

  -- Mutual exclusion. Once `TryLock` has returned true, nobody else gets the lock and redis keeps
  -- its holder's value, whatever the others do, in whatever order, and however long it takes, until
  -- the holder unlocks or its context is done. The others must have other values and the same
  -- expiration, redis must answer the watchdogs, and no ticker is kept waiting.
  pub lock_excludes :
      (key : String) (reply : Reply) (w w' : World r) (acts : List (Action r))
      → 0 < ex
      → Uniform r i ex w
      → (try_lock r i key reply w).0.0 ≡ true
      → All (Spares r i i) acts
      → run r acts (try_lock r i key reply w).1 ≡ some w'
      → (grants key w'.granted ≡ grants key (try_lock r i key reply w).1.granted)
        × (live_value w'.now (r.entry w'.store key) ≡ some (w'.dlm i).value)
  lock_excludes key reply w w' acts some_time u got spares e =
      let stays =
        run-Guarded r i i ex key acts (try_lock r i key reply w).1 w' some_time
          (try_lock-Uniform i key reply w u)
          (try_lock-Guarded key reply w some_time (u.expirations i) got) spares e in
      (stays.1, Guarded-live i key w' stays.0)

module _ (r : Redis) (i j ex : ℕ) (key : String) where
  failed-Guarded :
      (res : Bool × r.Store) (w : World r) (until : ℕ)
      → (w.dlm j).expiration ≡ ex
      → res.0 ≡ false
      → r.entry res.1 key ≡ some ((w.dlm i).value, until)
      → w.now + ex / 3 < until
      → Guarded r i j ex key (after_set_nx r j key arrives res w).1
  unfolding after_set_nx start_watchdog
  failed-Guarded (true, store) w until same answer kept left = absurd (ground (arith, answer))
  failed-Guarded (false, store) w until same answer kept left = (
    until,
    record {
      owner = j;
      id = w.next_id;
      key = key;
      expiration = (w.dlm j).expiration;
      next = w.now + (w.dlm j).expiration / 3;
    },
    record {
      holds = kept ∙ ap (λ x. some (x, until)) (sym (set_dlm-settings r j w.next_id i w).0);
      running = inl refl;
      by = refl;
      about = refl;
      period = same;
      on_time = omega (arith);
      soon = omega (arith, same);
      before_end = omega (arith, same, left);
    },
  )

  held-live :
      (w : World r) (until : ℕ)
      → r.entry w.store key ≡ some ((w.dlm i).value, until)
      → w.now + ex / 3 < until
      → is_live w.now (r.entry w.store key) ≡ true
  held-live w until held left = ground (arith, held, left)

  try_lock-refused :
      (w : World r) (until : ℕ)
      → (w.dlm j).expiration ≡ ex
      → r.entry w.store key ≡ some ((w.dlm i).value, until)
      → w.now + ex / 3 < until
      → Guarded r i j ex key (try_lock r j key arrives w).1
  unfolding try_lock
  try_lock-refused w until same held left =
      let v = (w.dlm j).value in
      let ttl = (w.dlm j).expiration in
      failed-Guarded (r.set_nx w.store w.now key v ttl) w until same
        (r.set_nx-reply w.store w.now key v ttl ∙ ap not (held-live w until held left))
        (set_nx-live r w.store w.now key v key ttl (held-live w until held left) ∙ held) left

  -- A lock of which more than a third of the expiration is left when another component tries to get it,
  -- and redis answers, does not expire: the failed `TryLock` has started a watchdog that renews the lock
  -- of the holder. So whatever the components do afterwards and however long it takes, nobody gets the
  -- lock, even if the process of the holder is gone, as long as the holder does not unlock, the one who
  -- tried neither unlocks nor has its context done, redis answers the watchdogs, and no ticker is kept
  -- waiting. The expiration is positive, all components have the same one, and the others have other
  -- values than the holder.
  pub failed_try_keeps_lock :
      (w w' : World r) (acts : List (Action r)) (until : ℕ)
      → 0 < ex
      → Uniform r i ex w
      → r.entry w.store key ≡ some ((w.dlm i).value, until)
      → w.now + ex / 3 < until
      → All (Spares r i j) acts
      → run r acts (try_lock r j key arrives w).1 ≡ some w'
      → (grants key w'.granted ≡ grants key (try_lock r j key arrives w).1.granted)
        × (live_value w'.now (r.entry w'.store key) ≡ some (w'.dlm i).value)
  failed_try_keeps_lock w w' acts until some_time u held left spares e =
      let stays =
        run-Guarded r i j ex key acts (try_lock r j key arrives w).1 w' some_time
          (try_lock-Uniform r i ex j key arrives w u)
          (try_lock-refused w until (u.expirations j) held left) spares e in
      (stays.1, Guarded-live r i ex j key w' stays.0)
