-- ===== src/Dlm/Entries.antt =====
-- What the commands of redis leave of an entry that is live.
use dt_go.Base.{
  ℕ, ◌+◌, ◌<◌, ◌≡◌, ◌⊎◌, inl, inr, sym, subst, ap, ◌∙◌, true, false, some, arith, Bool-cases,
  String, str_eq, eq_iff,
}
use dt_go.Dlm.Store.{Redis, is_live}
use dt_go.Dlm.{World, unlock_script}

module _ (r : Redis) where
  pub set_nx-live :
      (s : r.Store) (now : ℕ) (k v key : String) (ttl : ℕ)
      → is_live now (r.entry s key) ≡ true
      → r.entry (r.set_nx s now k v ttl).1 key ≡ r.entry s key
  set_nx-live s now k v key ttl live = elim (Bool-cases (str_eq k key)) [
    | inl e ↦ ground (
      arith,
      r.set_nx-entry s now k v ttl key,
      live,
      ap (λ x. is_live now (r.entry s x)) ((eq_iff k key).0 e),
    )
    | inr f ↦ ground (arith, r.set_nx-entry s now k v ttl key, f)
  ]

  pub expire-live :
      (s : r.Store) (now d : ℕ) (k v key : String) (ttl : ℕ)
      → r.entry s key ≡ some (v, d)
      → now < d
      → (r.entry (r.expire s now k ttl) key ≡ some (v, now + ttl))
        ⊎ ((r.entry (r.expire s now k ttl) key ≡ some (v, d)) × (str_eq k key ≡ false))
  expire-live s now d k v key ttl held live = elim (Bool-cases (str_eq k key)) [
    | inl e ↦ inl (ground (arith, r.expire-entry s now k ttl key, held, live, e))
    | inr f ↦ inr (ground (arith, r.expire-entry s now k ttl key, held, f))
  ]

  unlock_script-same :
      (d : ℕ) (v u key : String) (w : World r)
      → r.entry w.store key ≡ some (v, d)
      → str_eq v u ≡ false
      → unlock_script r key u w ≡ (0, w)
  unfolding unlock_script
  unlock_script-same d v u key w held differs =
      ground (arith, r.get-entry w.store w.now key, held, differs)

  pub unlock_script-others :
      (d : ℕ) (k v u key : String) (w : World r)
      → r.entry w.store key ≡ some (v, d)
      → str_eq v u ≡ false
      → r.entry (unlock_script r k u w).1.store key ≡ some (v, d)
  unfolding unlock_script
  unlock_script-others d k v u key w held differs = elim (Bool-cases (str_eq k key)) [
    | inl e ↦
        subst (λ x. r.entry (unlock_script r x u w).1.store key ≡ some (v, d))
          (sym ((eq_iff k key).0 e))
          (ap (λ x. r.entry x.1.store key) (unlock_script-same d v u key w held differs) ∙ held)
    | inr f ↦ ground (arith, r.del-entry w.store k key, held, f)
  ]

  pub unlock_script-frame :
      (i : ℕ) (k u : String) (w : World r)
      → let w' = (unlock_script r k u w).1 in
        (w'.now ≡ w.now) × ((w'.dlm i).value ≡ (w.dlm i).value) × (w'.dogs ≡ w.dogs)
  unfolding unlock_script
  unlock_script-frame i k u w = ground arith
