-- ===== src/Dlm/Waits.antt =====
-- infra/dlm/distributed_lock.go: when a waiting `Lock` returns, and what `Unlock` hands on.
use dt_go.Base.{
  ℕ, Bool, true, false, not, none, some, List, [], ◌∷◌, ◌++◌, String, ◌≡◌, refl, ap, ◌∙◌,
  if◌then◌else◌, eq_iff,
}
use dt_go.Dlm.Store.{Redis, is_live, live_value}
use dt_go.Dlm.{
  World, arrives, try_lock, after_set_nx, start_watchdog, Wake, ticked, lock_loop, unlock,
  unlock_script, after_script, call_cancel, without_dog,
}

module _ (r : Redis) where
  abbrev pub is_held : String → World r → Bool
  is_held key w = is_live w.now (r.entry w.store key)

  replied :
      (i : ℕ) (key : String) (w : World r)
      → (r.set_nx w.store w.now key (w.dlm i).value (w.dlm i).expiration).0 ≡ not (is_held key w)
  replied i key w = r.set_nx-reply w.store w.now key (w.dlm i).value (w.dlm i).expiration

  -- What a try answers whose reply arrives: the lock is got where nobody has it.
  try_lock-answers :
      (i : ℕ) (key : String) (w : World r) (b : Bool)
      → is_held key w ≡ b
      → ((try_lock r i key arrives w).0 ≡ (not b, none))
        × ((try_lock r i key arrives w).1.granted ≡ (if b then w.granted else (i, key) ∷ w.granted))
  unfolding try_lock after_set_nx start_watchdog
  try_lock-answers i key w true h = rw (replied i key w ∙ ap not h) (refl, refl)
  try_lock-answers i key w false h = rw (replied i key w ∙ ap not h) (refl, refl)

  -- The component waits: at each of these ticks another holds the lock, after what others have done.
  pub data Waits (i : ℕ) (key : String) : World r → List (Wake r) → World r → Type 0 where
    here : {w : World r} → Waits i key w [] w
    tick :
        {w w' : World r} {others : World r → World r} {wakes : List (Wake r)}
        → is_held key (others w) ≡ true
        → Waits i key (try_lock r i key arrives (others w)).1 wakes w'
        → Waits i key w (ticked others arrives ∷ wakes) w'

  -- A tick on a lock that nobody holds gets it.
  got_at_tick :
      (i : ℕ) (key : String) (w : World r) (others : World r → World r) (rest : List (Wake r))
      → is_held key (others w) ≡ false
      → (w' : World r) × (lock_loop r i key (ticked others arrives ∷ rest) w ≡ some (none, w'))
        × (w'.granted ≡ (i, key) ∷ (others w).granted)
  unfolding lock_loop
  got_at_tick i key w others rest h =
      let (answer, granted) = try_lock-answers i key (others w) false h in
      ((try_lock r i key arrives (others w)).1, rw answer refl, granted)

  -- Where redis answers at the ticks, a waiting `Lock` returns: at ticks at which another holds the lock it waits on, with neither an
  -- error nor the lock, and at the first tick at which nobody holds it, it has got it.
  pub lock_loop_gets :
      (i : ℕ) (key : String) {w w' : World r} {wakes : List (Wake r)} (others : World r → World r)
      (rest : List (Wake r))
      → Waits i key w wakes w'
      → is_held key (others w') ≡ false
      → (w'' : World r) × (lock_loop r i key (wakes ++ (ticked others arrives ∷ rest)) w
          ≡ some (none, w''))
        × (w''.granted ≡ (i, key) ∷ (others w').granted)
  unfolding lock_loop
  lock_loop_gets i key {w} others rest here h = got_at_tick i key w others rest h
  lock_loop_gets i key {w} others rest (tick {others = before} busy later) h =
      let (w'', returns, granted) = lock_loop_gets i key others rest later h in
      (w'', rw (try_lock-answers i key (before w) true busy).0 returns, granted)

  abbrev freed : ℕ → String → ℕ → World r → World r
  freed j key g w = record w { store = r.del w.store key; dogs = without_dog j g w.dogs }

  unlock_frees :
      (j : ℕ) (key : String) (g : ℕ) (w : World r)
      → live_value w.now (r.entry w.store key) ≡ some (w.dlm j).value
      → (w.dlm j).cancel_func ≡ some g
      → unlock r j key arrives w ≡ (none, freed j key g w)
  unfolding unlock unlock_script after_script call_cancel
  unlock_frees j key g w holds cancel =
      let v = (w.dlm j).value in
      rw (r.get-entry w.store w.now key ∙ holds, (eq_iff v v).1 refl, cancel) refl

  freed_is_free :
      (j : ℕ) (key : String) (g : ℕ) (w : World r) → is_held key (freed j key g w) ≡ false
  freed_is_free j key g w = rw (r.del-entry w.store key key, (eq_iff key key).1 refl) refl

  -- Where redis answers, `Unlock` by the holder of a lock, which has a cancel function, succeeds, and the
  -- next tick of one who waits for the lock gets it.
  pub unlock_hands_over :
      (i j : ℕ) (key : String) (g : ℕ) (w : World r) (rest : List (Wake r))
      → live_value w.now (r.entry w.store key) ≡ some (w.dlm j).value
      → (w.dlm j).cancel_func ≡ some g
      → ((unlock r j key arrives w).0 ≡ none)
        × ((w' : World r) × (lock_loop r i key
                (ticked (λ x. x) arrives ∷ rest)
                (unlock r j key arrives w).1
              ≡ some (none, w'))
            × (w'.granted ≡ (i, key) ∷ w.granted))
  unlock_hands_over i j key g w rest holds cancel =
      rw (unlock_frees j key g w holds cancel)
        (refl, got_at_tick i key (freed j key g w) (λ x. x) rest (freed_is_free j key g w))
