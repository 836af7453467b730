-- ===== src/Dlm/Watched.antt =====
-- A lock that is held, and a watchdog that renews it in time, over the single operations.
use dt_go.Base.{
  ℕ, ◌+◌, ◌/◌, ◌≤◌, ◌<◌, ◌≡◌, inl, inr, refl, sym, subst, ap, ◌∙◌, Bool, true, false, ◌==◌, Option,
  none, some, List, In, arith, Bool-cases, ==_iff, String, str_eq, eq_iff,
}
use mathlib.Core.Option.{some-injective}
use dt_go.Dlm.Store.{Redis, is_live}
use dt_go.Dlm.Dogs.{
  fire-Afterwards, AllPeriods, fire-AllPeriods, without_dog-In, advanced, Afterwards,
}
use dt_go.Dlm.{
  Watchdog, World, fire, unlock, unlock_script, try_lock, renew, Reply, arrives, lost, set_dlm,
  after_set_nx, start_watchdog, call_cancel, after_script, after_fire,
}
use dt_go.Dlm.Entries.{set_nx-live, expire-live, unlock_script-others, unlock_script-frame}

-- The i-th component holds `key`, under its value, until the time `until`.
-- The watchdog `dog` of the j-th component renews it in time.
pub record Watched (r : Redis) (i j ex : ℕ) (key : String) (w : World r) (until : ℕ)
    (dog : Watchdog) : Type 0 where
  pub holds : r.entry w.store key ≡ some ((w.dlm i).value, until)
  pub running : In dog w.dogs
  pub by : dog.owner ≡ j
  pub about : dog.key ≡ key
  pub period : dog.expiration ≡ ex
  pub on_time : w.now ≤ dog.next
  pub soon : dog.next ≤ w.now + ex / 3
  pub before_end : dog.next < until

-- All components use the same expiration, and no other has the value of the i-th.
pub record Uniform (r : Redis) (i ex : ℕ) (w : World r) : Type 0 where
  pub expirations : (k : ℕ) → (w.dlm k).expiration ≡ ex
  pub dogs : AllPeriods ex w.dogs
  pub own_value : (k : ℕ) → (k == i) ≡ false → str_eq (w.dlm i).value (w.dlm k).value ≡ false

abbrev pub Guarded : (r : Redis) → ℕ → ℕ → ℕ → String → World r → Type 0
Guarded r i j ex key w = (until : ℕ) × (dog : Watchdog) × Watched r i j ex key w until dog

module _ (r : Redis) (i j ex : ℕ) (key : String) where
  pub is_live-Watched :
      (w : World r) (until : ℕ) (dog : Watchdog)
      → Watched r i j ex key w until dog
      → is_live w.now (r.entry w.store key) ≡ true
  is_live-Watched w until dog g = ground (arith, g.holds, g.on_time, g.before_end)

  -- Where redis keeps the entry, and the watchdog goes on.
  pub same-Watched :
      (w w' : World r) (until : ℕ) (dog : Watchdog)
      → w'.now ≡ w.now
      → (w'.dlm i).value ≡ (w.dlm i).value
      → r.entry w'.store key ≡ r.entry w.store key
      → In dog w'.dogs
      → Watched r i j ex key w until dog
      → Watched r i j ex key w' until dog
  same-Watched w w' until dog now value entry running g = record {
    holds = ground (arith, g.holds, value, entry);
    running = running;
    by = g.by;
    about = g.about;
    period = g.period;
    on_time = ground (arith, g.on_time, now);
    soon = ground (arith, g.soon, now);
    before_end = g.before_end;
  }

  set_dlm-value :
      (k n : ℕ) (w : World r)
      → ((set_dlm r k (record (w.dlm k) { cancel_func = some n }) w).dlm i).value ≡ (w.dlm i).value
  set_dlm-value k n w = elim (Bool-cases (k == i)) [
    | inl e ↦ rw (e) (ap (λ x. (w.dlm x).value) ((==_iff k i).0 e))
    | inr f ↦ rw (f) refl
  ]

  after_set_nx-Watched :
      (k : ℕ) (name : String) (reply : Reply) (res : Bool × r.Store) (w : World r) (until : ℕ)
      (dog : Watchdog)
      → r.entry res.1 key ≡ r.entry w.store key
      → Watched r i j ex key w until dog
      → Watched r i j ex key (after_set_nx r k name reply res w).1 until dog
  unfolding after_set_nx start_watchdog
  after_set_nx-Watched k name (lost false) (ok, store) w until dog same g = g
  after_set_nx-Watched k name (lost true) (ok, store) w until dog same g =
      same-Watched w (record w { store = store }) until dog refl refl same g.running g
  after_set_nx-Watched k name arrives (true, store) w until dog same g =
      same-Watched w (after_set_nx r k name arrives (true, store) w).1 until dog refl
        (set_dlm-value k w.next_id w) same (inr g.running) g
  after_set_nx-Watched k name arrives (false, store) w until dog same g =
      same-Watched w (after_set_nx r k name arrives (false, store) w).1 until dog refl
        (set_dlm-value k w.next_id w) same (inr g.running) g

  pub try_lock-Watched :
      (k : ℕ) (name : String) (reply : Reply) (w : World r) (until : ℕ) (dog : Watchdog)
      → Watched r i j ex key w until dog
      → Watched r i j ex key (try_lock r k name reply w).1 until dog
  unfolding try_lock
  try_lock-Watched k name reply w until dog g =
      after_set_nx-Watched k name reply
        (r.set_nx w.store w.now name (w.dlm k).value (w.dlm k).expiration) w until dog
        (set_nx-live r w.store w.now name (w.dlm k).value key (w.dlm k).expiration
          (is_live-Watched w until dog g))
        g

  call_cancel-Watched :
      (k : ℕ) (c : Option ℕ) (w : World r) (until : ℕ) (dog : Watchdog)
      → (k == j) ≡ false
      → Watched r i j ex key w until dog
      → Watched r i j ex key (call_cancel r k c w).1 until dog
  unfolding call_cancel
  call_cancel-Watched k none w until dog other g = g
  call_cancel-Watched k (some c) w until dog other g =
      same-Watched w (call_cancel r k (some c) w).1 until dog refl refl refl
        (without_dog-In k c dog w.dogs (ground (arith, other, g.by)) g.running) g

  after_script-Watched :
      (k : ℕ) (reply : Reply) (n : ℕ) (done w : World r) (until : ℕ) (dog : Watchdog)
      → (k == j) ≡ false
      → Watched r i j ex key w until dog
      → Watched r i j ex key done until dog
      → Watched r i j ex key (after_script r k reply (n, done) w).1 until dog
  unfolding after_script
  after_script-Watched k (lost false) n done w until dog other g h = g
  after_script-Watched k (lost true) n done w until dog other g h = h
  after_script-Watched k arrives n done w until dog other g h = elim (Bool-cases (n == 1)) [
    | inl e ↦ rw (e) (call_cancel-Watched k (done.dlm k).cancel_func done until dog other h)
    | inr f ↦ rw (f) h
  ]

  unlock_script-Watched :
      (k : ℕ) (name : String) (w : World r) (until : ℕ) (dog : Watchdog)
      → Uniform r i ex w
      → (k == i) ≡ false
      → Watched r i j ex key w until dog
      → Watched r i j ex key (unlock_script r name (w.dlm k).value w).1 until dog
  unlock_script-Watched k name w until dog u other g =
      let (now, value, dogs) = unlock_script-frame r i name (w.dlm k).value w in
      same-Watched w (unlock_script r name (w.dlm k).value w).1 until dog now value
        (unlock_script-others r until name (w.dlm i).value (w.dlm k).value key w g.holds
            (u.own_value k other)
          ∙ sym g.holds)
        (subst (In dog) (sym dogs) g.running) g

  pub unlock-Watched :
      (k : ℕ) (name : String) (reply : Reply) (w : World r) (until : ℕ) (dog : Watchdog)
      → Uniform r i ex w
      → (k == i) ≡ false
      → (k == j) ≡ false
      → Watched r i j ex key w until dog
      → Watched r i j ex key (unlock r k name reply w).1 until dog
  unfolding unlock
  unlock-Watched k name reply w until dog u other_i other_j g =
      let (n, done) = unlock_script r name (w.dlm k).value w in
      after_script-Watched k reply n done w until dog other_j g
        (unlock_script-Watched k name w until dog u other_i g)

  -- The command of a watchdog with the common expiration never shortens the time left.
  expired-Watched :
      (name : String) (dogs : List Watchdog) (w : World r) (until : ℕ) (dog dog' : Watchdog)
      → Watched r i j ex key w until dog
      → In dog' dogs
      → (dog'.owner ≡ dog.owner) × (dog'.key ≡ dog.key) × (dog'.expiration ≡ dog.expiration)
      → w.now ≤ dog'.next
      → dog'.next ≤ w.now + ex / 3
      → (str_eq name key ≡ false → dog'.next < until)
      → 0 < ex
      → Guarded r i j ex key (record w { dogs = dogs; store = r.expire w.store w.now name ex })
  expired-Watched name dogs w until dog dog' g running same on_time soon before some_time =
      elim (expire-live r w.store w.now until name (w.dlm i).value key ex g.holds
        (ground (arith, g.on_time, g.before_end))) [
          | inl e ↦ (
            w.now + ex,
            dog',
            record {
              holds = e;
              running = running;
              by = same.0 ∙ g.by;
              about = same.1 ∙ g.about;
              period = same.2 ∙ g.period;
              on_time = on_time;
              soon = soon;
              before_end = omega (arith, soon, some_time);
            },
          )
          | inr e ↦ (
            until,
            dog',
            record {
              holds = e.0;
              running = running;
              by = same.0 ∙ g.by;
              about = same.1 ∙ g.about;
              period = same.2 ∙ g.period;
              on_time = on_time;
              soon = soon;
              before_end = before e.1;
            },
          )
        ]

  after_fire-Guarded :
      (f : Option Watchdog × List Watchdog) (w : World r)
      → 0 < ex
      → ((x : Watchdog) → f.0 ≡ some x → x.expiration ≡ ex)
      → (until : ℕ) (dog : Watchdog) → Watched r i j ex key w until dog
      → Afterwards w.now dog f
      → Guarded r i j ex key (after_fire r true f w)
  unfolding after_fire
  after_fire-Guarded (none, dogs) w some_time fired until dog g after = (until, dog, g)
  after_fire-Guarded (some d, dogs) w some_time fired until dog g (inl h) = rw (fired d refl) (
      expired-Watched d.key dogs w until dog dog g h (refl, refl, refl) g.on_time g.soon
        (λ f. g.before_end) some_time)
  after_fire-Guarded (some d, dogs) w some_time fired until dog g (inr h) =
      let e = some-injective d dog h.0 in
      rw (fired d refl) (
        expired-Watched d.key dogs w until dog (advanced dog) g h.2 (refl, refl, refl)
          (omega (arith, g.on_time)) (omega (arith, h.1, g.period))
          (λ f.
            absurd (ground (arith, f, ap (λ (x : Watchdog). x.key) e, g.about, eq_iff d.key key)))
          some_time)

  pub renew-Guarded :
      (n : ℕ) (w : World r)
      → 0 < ex
      → Uniform r i ex w
      → Guarded r i j ex key w
      → Guarded r i j ex key (renew r n true w)
  unfolding renew
  renew-Guarded n w some_time u (until, dog, g) =
      after_fire-Guarded (fire w.now n w.dogs) w some_time
        (fire-AllPeriods ex w.now n w.dogs u.dogs).1 until dog g
        (fire-Afterwards w.now n dog w.dogs g.running)
