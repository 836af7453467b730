-- ===== src/Dlm/Tests.antt =====
-- The theorems about infra/dlm/distributed_lock.go at concrete data.
use dt_go.Base.{
  ℕ, ◌+◌, ◌/◌, ◌<◌, ◌≡◌, refl, true, false, ◌==◌, Option, none, some, List, [], ◌∷◌, arith,
  if◌then◌else◌, String, str_eq,
}
use dt_go.Base.Int.{pos}
use dt_go.Dlm.Store.{table, live_value}
use dt_go.Dlm.Watched.{Uniform}
use dt_go.Dlm.Exclusion.{grants}
use dt_go.Dlm.Locks.{try_lock-Uniform, lock_excludes, failed_try_keeps_lock}
use dt_go.Dlm.Waits.{Waits, here, tick, is_held, lock_loop_gets, unlock_hands_over}
use dt_go.Dlm.{
  World, try_lock, arrives, after_set_nx, start_watchdog, spin, spin_lock, spin_result, Pause,
  spin_times_reached, Action, tries, renews, context_done, passes, step, run, renew, after_fire,
  fire, none_due, without_owner, unlock, unlock_script, after_script, ticked, lock_loop,
}

abbrev own : ℕ → String
own k = if k == 0 then "time.Date(2023, 1)" else "time.Date(2023, 2)"

abbrev start : World table
start = record {
  store = λ k. none;
  now = 0;
  dlm = λ k. record { value = own k; expiration = 6; cancel_func = none };
  dogs = [];
  next_id = 0;
  granted = [];
}

own-other : (k : ℕ) → (k == 0) ≡ false → str_eq (own 0) (own k) ≡ false
own-other k other = rw (other) refl

start-Uniform : Uniform table 0 6 start
start-Uniform = record { expirations = λ k. refl; dogs = tt; own_value = own-other }

abbrev held : World table
held = (try_lock table 0 "stock" arrives start).1

abbrev or_start : Option (World table) → World table
or_start none = start
or_start (some w) = w

got : (try_lock table 0 "stock" arrives start).0.0 ≡ true
unfolding try_lock after_set_nx
got = refl

held-Uniform : Uniform table 0 6 held
held-Uniform = try_lock-Uniform table 0 6 0 "stock" arrives start start-Uniform

held_entry : table.entry held.store "stock" ≡ some ((held.dlm 0).value, 6)
unfolding try_lock after_set_nx start_watchdog
held_entry = refl

time_left : held.now + 6 / 3 < 6
unfolding try_lock after_set_nx start_watchdog
time_left = omega arith

-- The second component tries, and the watchdogs of both renew the lock on their tickers.
abbrev both : List (Action table)
both = tries 1 "stock" arrives ∷ passes ∷ passes ∷ renews 1 true ∷ renews 0 true ∷ passes ∷ []

abbrev later : World table
later = or_start (run table both held)

runs_both : run table both held ≡ some later
unfolding run step try_lock after_set_nx start_watchdog renew fire after_fire none_due
runs_both = refl

lock_excludes_example :
    (grants "stock" later.granted ≡ grants "stock" held.granted)
    × (live_value later.now (table.entry later.store "stock") ≡ some (later.dlm 0).value)
lock_excludes_example =
    lock_excludes table 0 6 "stock" arrives start later both (omega arith) start-Uniform got
      (tt, (tt, (tt, (refl, (refl, (tt, tt)))))) runs_both

-- The process of the holder is gone, and the watchdog of the second renews its lock.
abbrev gone : List (Action table)
gone = context_done 0 ∷ passes ∷ passes ∷ renews 0 true ∷ passes ∷ []

abbrev tried : World table
tried = (try_lock table 1 "stock" arrives held).1

abbrev much_later : World table
much_later = or_start (run table gone tried)

runs_gone : run table gone tried ≡ some much_later
unfolding run step try_lock after_set_nx start_watchdog renew fire after_fire none_due without_owner
runs_gone = refl

failed_try_keeps_lock_example :
    (grants "stock" much_later.granted ≡ grants "stock" tried.granted)
    × (live_value much_later.now (table.entry much_later.store "stock")
        ≡ some (much_later.dlm 0).value)
failed_try_keeps_lock_example =
    failed_try_keeps_lock table 0 1 6 "stock" held much_later gone 6 (omega arith) held-Uniform
      held_entry time_left (refl, (tt, (tt, (refl, (tt, tt))))) runs_gone

abbrev alone : ℕ → Pause table
alone n = (λ w. w, arrives)

gives_up : (spin_lock table 1 "stock" alone (pos 3) held).0 ≡ some spin_times_reached
unfolding spin_lock spin spin_result try_lock after_set_nx start_watchdog
gives_up = refl

-- The second component waits for one tick, at which the first one holds the lock, and gets it at
-- the next, before which the first one has unlocked it.
abbrev releases : World table → World table
releases w = (unlock table 0 "stock" arrives w).1

abbrev same : World table → World table
same w = w

one_tick : Waits table 1 "stock" held (ticked same arrives ∷ []) tried
unfolding try_lock after_set_nx start_watchdog
one_tick = tick refl here

is_released : is_held table "stock" (releases tried) ≡ false
unfolding try_lock after_set_nx start_watchdog unlock unlock_script after_script
is_released = refl

lock_loop_gets_example :
    (w : World table) × (lock_loop table 1 "stock"
        (ticked same arrives ∷ ticked releases arrives ∷ [])
        held
      ≡ some (none, w))
    × (w.granted ≡ (1, "stock") ∷ (releases tried).granted)
lock_loop_gets_example = lock_loop_gets table 1 "stock" releases [] one_tick is_released

value_held : live_value held.now (table.entry held.store "stock") ≡ some (held.dlm 0).value
unfolding try_lock after_set_nx start_watchdog
value_held = refl

can_cancel : (held.dlm 0).cancel_func ≡ some 0
unfolding try_lock after_set_nx start_watchdog
can_cancel = refl

unlock_hands_over_example :
    ((unlock table 0 "stock" arrives held).0 ≡ none)
    × ((w : World table) × (lock_loop table 1 "stock" (ticked same arrives ∷ []) (releases held)
          ≡ some (none, w))
        × (w.granted ≡ (1, "stock") ∷ held.granted))
unlock_hands_over_example = unlock_hands_over table 1 0 "stock" 0 held [] value_held can_cancel
