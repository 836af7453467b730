-- ===== src/Dlm/Uniform.antt =====
-- The common settings of all components, which every operation keeps.
use dt_go.Base.{
  ℕ, suc, ◌≡◌, inl, inr, refl, subst, ap, ◌∙◌, Bool, true, false, ◌==◌, ==_iff, Option, none, some,
  List, arith, Bool-cases, String, str_eq,
}
use mathlib.Core.Option.{some-injective}
use dt_go.Dlm.Store.{Redis}
use dt_go.Dlm.Dogs.{without_dog-AllPeriods, without_owner-AllPeriods, fire-AllPeriods, AllPeriods}
use dt_go.Dlm.Watched.{Uniform}
use dt_go.Dlm.{
  Watchdog, World, without_dog, without_owner, none_due, fire, unlock, unlock_script, try_lock,
  renew, Reply, arrives, lost, set_dlm, after_set_nx, start_watchdog, same_value, call_cancel,
  after_script, after_fire, Action, tries, unlocks, renews, context_done, passes, step,
}

module _ (r : Redis) where
  pub set_dlm-settings :
      (k n m : ℕ) (w : World r)
      → let d = (set_dlm r k (record (w.dlm k) { cancel_func = some n }) w).dlm m in
        (d.value ≡ (w.dlm m).value) × (d.expiration ≡ (w.dlm m).expiration)
  set_dlm-settings k n m w = elim (Bool-cases (k == m)) [
    | inl e ↦ rw (e) (
        let f = (==_iff k m).0 e in (ap (λ x. (w.dlm x).value) f, ap (λ x. (w.dlm x).expiration) f))
    | inr f ↦ rw (f) (refl, refl)
  ]

  pub passed :
      (w w' : World r)
      → step r passes w ≡ some w'
      → (none_due w.now w.dogs ≡ true) × (record w { now = suc w.now } ≡ w')
  unfolding step
  passed w w' e = ground (arith, e)

  module _ (i ex : ℕ) where
    -- The same settings, and watchdogs with the common expiration.
    same-Uniform :
        (w w' : World r)
        → ((k : ℕ)
            → ((w'.dlm k).value ≡ (w.dlm k).value) × ((w'.dlm k).expiration ≡ (w.dlm k).expiration))
        → AllPeriods ex w'.dogs
        → Uniform r i ex w
        → Uniform r i ex w'
    same-Uniform w w' same dogs u = record {
      expirations = λ k. (same k).1 ∙ u.expirations k;
      dogs = dogs;
      own_value = λ k other.
          ap (λ x. str_eq x (w'.dlm k).value) (same i).0
          ∙ ap (str_eq (w.dlm i).value) (same k).0
          ∙ u.own_value k other;
    }

    pub after_set_nx-Uniform :
        (k : ℕ) (name : String) (reply : Reply) (res : Bool × r.Store) (w : World r)
        → Uniform r i ex w
        → Uniform r i ex (after_set_nx r k name reply res w).1
    unfolding after_set_nx start_watchdog
    after_set_nx-Uniform k name (lost false) (ok, store) w u = u
    after_set_nx-Uniform k name (lost true) (ok, store) w u =
        same-Uniform w (record w { store = store }) (λ m. (refl, refl)) u.dogs u
    after_set_nx-Uniform k name arrives (true, store) w u =
        same-Uniform w (after_set_nx r k name arrives (true, store) w).1
          (λ m. set_dlm-settings k w.next_id m w) (u.expirations k, u.dogs) u
    after_set_nx-Uniform k name arrives (false, store) w u =
        same-Uniform w (after_set_nx r k name arrives (false, store) w).1
          (λ m. set_dlm-settings k w.next_id m w) (u.expirations k, u.dogs) u

    call_cancel-Uniform :
        (k : ℕ) (c : Option ℕ) (w : World r)
        → Uniform r i ex w
        → Uniform r i ex (call_cancel r k c w).1
    unfolding call_cancel
    call_cancel-Uniform k none w u = u
    call_cancel-Uniform k (some g) w u =
        same-Uniform w (record w { dogs = without_dog k g w.dogs }) (λ m. (refl, refl))
          (without_dog-AllPeriods ex k g w.dogs u.dogs) u

    after_script-Uniform :
        (k : ℕ) (reply : Reply) (n : ℕ) (done w : World r)
        → Uniform r i ex w
        → Uniform r i ex done
        → Uniform r i ex (after_script r k reply (n, done) w).1
    unfolding after_script
    after_script-Uniform k (lost false) n done w u v = u
    after_script-Uniform k (lost true) n done w u v = v
    after_script-Uniform k arrives n done w u v = elim (Bool-cases (n == 1)) [
      | inl e ↦ rw (e) (call_cancel-Uniform k (done.dlm k).cancel_func done v)
      | inr f ↦ rw (f) v
    ]

    unlock_script-Uniform :
        (name value : String) (w : World r)
        → Uniform r i ex w
        → Uniform r i ex (unlock_script r name value w).1
    unfolding unlock_script
    unlock_script-Uniform name value w u =
        elim (Bool-cases (same_value (r.get w.store w.now name) value)) [
          | inl e ↦ rw (e) (
              same-Uniform w (record w { store = r.del w.store name }) (λ m. (refl, refl)) u.dogs u)
          | inr f ↦ rw (f) u
        ]

    unlock-Uniform :
        (k : ℕ) (name : String) (reply : Reply) (w : World r)
        → Uniform r i ex w
        → Uniform r i ex (unlock r k name reply w).1
    unfolding unlock
    unlock-Uniform k name reply w u =
        let (n, done) = unlock_script r name (w.dlm k).value w in
        after_script-Uniform k reply n done w u (unlock_script-Uniform name (w.dlm k).value w u)

    after_fire-Uniform :
        (f : Option Watchdog × List Watchdog) (arrived : Bool) (w : World r)
        → AllPeriods ex f.1
        → Uniform r i ex w
        → Uniform r i ex (after_fire r arrived f w)
    unfolding after_fire
    after_fire-Uniform (none, dogs) arrived w all u = u
    after_fire-Uniform (some d, dogs) true w all u =
        same-Uniform w (after_fire r true (some d, dogs) w) (λ m. (refl, refl)) all u
    after_fire-Uniform (some d, dogs) false w all u =
        same-Uniform w (record w { dogs = dogs }) (λ m. (refl, refl)) all u

    -- Every step keeps the settings.
    pub step-Uniform :
        (a : Action r) (w w' : World r)
        → Uniform r i ex w
        → step r a w ≡ some w'
        → Uniform r i ex w'
    unfolding step try_lock renew
    step-Uniform (tries k name reply) w w' u e = subst (Uniform r i ex) (some-injective _ _ e) (
        after_set_nx-Uniform k name reply
          (r.set_nx w.store w.now name (w.dlm k).value (w.dlm k).expiration) w u)
    step-Uniform (unlocks k name reply) w w' u e =
        subst (Uniform r i ex) (some-injective _ _ e) (unlock-Uniform k name reply w u)
    step-Uniform (renews n arrived) w w' u e = subst (Uniform r i ex) (some-injective _ _ e) (
        after_fire-Uniform (fire w.now n w.dogs) arrived w
          (fire-AllPeriods ex w.now n w.dogs u.dogs).0 u)
    step-Uniform (context_done k) w w' u e = subst (Uniform r i ex) (some-injective _ _ e) (
        same-Uniform w (record w { dogs = without_owner k w.dogs }) (λ m. (refl, refl))
          (without_owner-AllPeriods ex k w.dogs u.dogs) u)
    step-Uniform passes w w' u e =
        subst (Uniform r i ex) (passed w w' e).1
          (same-Uniform w (record w { now = suc w.now }) (λ m. (refl, refl)) u.dogs u)
