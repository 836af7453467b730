-- ===== src/Dlm/Exclusion.antt =====
-- Mutual exclusion over whole schedules of infra/dlm/distributed_lock.go.
use dt_go.Base.{
  ℕ, ◌<◌, ◌≡◌, inl, inr, refl, sym, subst, ap, ◌∙◌, Bool, true, false, ◌==◌, some, List, [], ◌∷◌,
  All, arith, if◌then◌else◌, Bool-cases, Option-cases, String, str_eq, eq_iff,
}
use mathlib.Core.Option.{some-injective, none-ne-some}
use dt_go.Dlm.Store.{Redis, is_live}
use dt_go.Dlm.Dogs.{without_owner-In, none_due-In}
use dt_go.Dlm.Uniform.{step-Uniform, passed}
use dt_go.Dlm.Watched.{
  Watched, Uniform, Guarded, same-Watched, is_live-Watched, try_lock-Watched, unlock-Watched,
  renew-Guarded,
}
use dt_go.Dlm.{
  Watchdog, World, without_owner, unlock, unlock_script, try_lock, renew, Reply, arrives, lost,
  after_set_nx, start_watchdog, call_cancel, after_script, after_fire, Action, tries, unlocks,
  renews, context_done, passes, step, run, after,
}

-- Who has got the lock of `key`, in the log of a world.
unfoldable pub grants : String → List (ℕ × String) → List ℕ
grants key [] = []
grants key ((i, k) ∷ l) = let rest = grants key l in if str_eq k key then i ∷ rest else rest

module _ (r : Redis) where
  -- The actions that leave the i-th component its lock and the j-th its watchdog.
  abbrev pub Spares : ℕ → ℕ → Action r → Type 0
  Spares i j (tries k name reply) = Unit
  Spares i j (unlocks k name reply) = ((k == i) ≡ false) × ((k == j) ≡ false)
  Spares i j (renews n arrived) = arrived ≡ true
  Spares i j (context_done k) = (j == k) ≡ false
  Spares i j passes = Unit

  module _ (i j ex : ℕ) (key : String) where
    -- Every action that spares the lock and its watchdog keeps both.
    step-Guarded :
        (a : Action r) (w w' : World r)
        → 0 < ex
        → Spares i j a
        → Uniform r i ex w
        → step r a w ≡ some w'
        → Guarded r i j ex key w
        → Guarded r i j ex key w'
    unfolding step
    step-Guarded (tries k name reply) w w' some_time spares u e (until, dog, g) =
        subst (Guarded r i j ex key) (some-injective _ _ e)
          (until, dog, try_lock-Watched r i j ex key k name reply w until dog g)
    step-Guarded (unlocks k name reply) w w' some_time spares u e (until, dog, g) =
        subst (Guarded r i j ex key) (some-injective _ _ e)
          (until, dog, unlock-Watched r i j ex key k name reply w until dog u spares.0 spares.1 g)
    step-Guarded (renews n arrived) w w' some_time spares u e g =
        subst (Guarded r i j ex key) (ap (λ b. renew r n b w) (sym spares) ∙ some-injective _ _ e)
          (renew-Guarded r i j ex key n w some_time u g)
    step-Guarded (context_done k) w w' some_time spares u e (until, dog, g) =
        subst (Guarded r i j ex key) (some-injective _ _ e) (
          until,
          dog,
          same-Watched r i j ex key w (record w { dogs = without_owner k w.dogs }) until dog refl
              refl refl (without_owner-In k dog w.dogs (ap (λ x. x == k) g.by ∙ spares) g.running)
              g,
        )
    step-Guarded passes w w' some_time spares u e (until, dog, g) =
        let (due, moved) = passed r w w' e in
        subst (Guarded r i j ex key) moved (
          until,
          dog,
          record {
            holds = g.holds;
            running = g.running;
            by = g.by;
            about = g.about;
            period = g.period;
            on_time = none_due-In w.now dog w.dogs due g.running;
            soon = omega (arith, g.soon);
            before_end = g.before_end;
          },
        )

    after_set_nx-grants :
        (k : ℕ) (name : String) (reply : Reply) (res : Bool × r.Store) (w : World r)
        → (res.0 ≡ true → str_eq name key ≡ false)
        → grants key (after_set_nx r k name reply res w).1.granted ≡ grants key w.granted
    unfolding after_set_nx start_watchdog grants
    after_set_nx-grants k name (lost false) (ok, store) w other = refl
    after_set_nx-grants k name (lost true) (ok, store) w other = refl
    after_set_nx-grants k name arrives (false, store) w other = refl
    after_set_nx-grants k name arrives (true, store) w other = rw (other refl) refl

    refused :
        (w : World r) (until : ℕ) (dog : Watchdog) (v name : String) (ttl : ℕ)
        → Watched r i j ex key w until dog
        → (r.set_nx w.store w.now name v ttl).0 ≡ true
        → str_eq name key ≡ false
    refused w until dog v name ttl g ok = elim (Bool-cases (str_eq name key)) [
      | inr f ↦ f
      | inl e ↦ absurd (
          ground (
            arith,
            ok,
            r.set_nx-reply w.store w.now name v ttl,
            is_live-Watched r i j ex key w until dog g,
            ap (λ x. is_live w.now (r.entry w.store x)) ((eq_iff name key).0 e),
          ))
    ]

    unlock-granted :
        (k : ℕ) (name : String) (reply : Reply) (w : World r)
        → (unlock r k name reply w).1.granted ≡ w.granted
    unfolding unlock unlock_script after_script call_cancel
    unlock-granted k name reply w = ground arith

    renew-granted :
        (n : ℕ) (arrived : Bool) (w : World r) → (renew r n arrived w).granted ≡ w.granted
    unfolding renew after_fire
    renew-granted n arrived w = ground arith

    step-grants :
        (a : Action r) (w w' : World r)
        → step r a w ≡ some w'
        → Guarded r i j ex key w
        → grants key w'.granted ≡ grants key w.granted
    unfolding step try_lock
    step-grants (tries k name reply) w w' e (until, dog, g) =
        ap (λ (x : World r). grants key x.granted) (sym (some-injective _ _ e))
        ∙ after_set_nx-grants k name reply
            (r.set_nx w.store w.now name (w.dlm k).value (w.dlm k).expiration) w
            (refused w until dog (w.dlm k).value name (w.dlm k).expiration g)
    step-grants (unlocks k name reply) w w' e g =
        ap (λ (x : World r). grants key x.granted) (sym (some-injective _ _ e))
        ∙ ap (grants key) (unlock-granted k name reply w)
    step-grants (renews n arrived) w w' e g =
        ap (λ (x : World r). grants key x.granted) (sym (some-injective _ _ e))
        ∙ ap (grants key) (renew-granted n arrived w)
    step-grants (context_done k) w w' e g =
        ap (λ (x : World r). grants key x.granted) (sym (some-injective _ _ e))
    step-grants passes w w' e g =
        ap (λ (x : World r). grants key x.granted) (sym (passed r w w' e).1)

    -- The induction over the schedule.
    pub run-Guarded :
        (acts : List (Action r)) (w w' : World r)
        → 0 < ex
        → Uniform r i ex w
        → Guarded r i j ex key w
        → All (Spares i j) acts
        → run r acts w ≡ some w'
        → Guarded r i j ex key w' × (grants key w'.granted ≡ grants key w.granted)
    unfolding run
    run-Guarded [] w w' some_time u g spares e = (
      subst (Guarded r i j ex key) (some-injective _ _ e) g,
      ap (λ (x : World r). grants key x.granted) (sym (some-injective _ _ e)),
    )
    run-Guarded (a ∷ acts) w w' some_time u g spares e = elim (Option-cases (step r a w)) [
      | inl f ↦ absurd (none-ne-some w' (ap (λ o. after r o (run r acts)) (sym f) ∙ e))
      | inr (v, f) ↦
          let rest =
            run-Guarded acts v w' some_time (step-Uniform r i ex a w v u f)
              (step-Guarded a w v some_time spares.0 u f g) spares.1
              (ap (λ o. after r o (run r acts)) (sym f) ∙ e) in
          (rest.0, rest.1 ∙ step-grants a w v f g)
    ]
