-- ===== src/Internal/Infras/Found.antt =====
-- What `get` of internal/infra_pool.go finds.
use dt_go.Base.{
  ℕ, ◌≡◌, ◌⊎◌, inl, inr, refl, ap, sym, ◌∙◌, Bool, true, false, Option, none, some, List, [], ◌∷◌,
  ◌++◌, if◌then◌else◌,
}
use mathlib.Core.Option.{some-injective, none-ne-some}
use dt_go.Internal.Services.{ServiceElement, ServicePool, chosen, pool_get}
use dt_go.Internal.Services.Counts.{Given, pool_get-Given, chosen-Takes}
use dt_go.Internal.Infras.{
  Wanted, InfraPool, answers_to, single, much, Lookup, from_pools, after_single, get_infra, lend,
}

first-some :
    {A : Type 0} (b : Bool) (s o : A) (rest : Option A)
    → (if b then some s else rest) ≡ some o
    → ((b ≡ true) × (s ≡ o)) ⊎ (rest ≡ some o)
first-some true s o rest e = inl (refl, some-injective s o e)
first-some false s o rest e = inr e

module _ (implements : ℕ → ℕ → Bool) (w : Wanted) where
  single-answers :
      (l : List ServiceElement) (o : ServiceElement)
      → single implements w l ≡ some o
      → answers_to implements w o.type ≡ true
  unfolding single
  single-answers [] o e = absurd (none-ne-some o e)
  single-answers (s ∷ l) o e =
      elim (first-some (answers_to implements w s.type) s o (single implements w l) e) [
        | inl h ↦ ap (λ (x : ServiceElement). answers_to implements w x.type) (sym h.1) ∙ h.0
        | inr h ↦ single-answers l o h
      ]

  much-answers :
      (l : List ℕ) (t : ℕ) → much implements w l ≡ some t → answers_to implements w t ≡ true
  unfolding much
  much-answers [] t e = absurd (none-ne-some t e)
  much-answers (s ∷ l) t e =
      elim (first-some (answers_to implements w s) s t (much implements w l) e) [
        | inl h ↦ ap (answers_to implements w) (sym h.1) ∙ h.0
        | inr h ↦ much-answers l t h
      ]

  -- Nothing is taken from the pools, and the worker has what it had.
  abbrev pub Untouched : List ServiceElement → InfraPool → Lookup → Type 0
  Untouched coms p g = (g.coms ≡ coms) × (g.pool ≡ p) × (g.told ≡ [])

  -- A component of a pool, or a new one, is with the worker, which is to give it back, and has been
  -- told of the worker.
  abbrev pub Lent : List ServiceElement → InfraPool → Lookup → Type 0
  Lent coms p g =
      (o : ServiceElement) × (g.found ≡ some o)
      × (g.coms ≡ coms ++ o ∷ [])
      × (g.told ≡ o ∷ [])
      × (g.pool.singles ≡ p.singles)
      × Given o.type p.instances (o, g.pool.instances)

  -- What is set in the field has its type, or implements it.
  abbrev pub Answers : Option ServiceElement → Type 0
  Answers none = Unit
  Answers (some o) = answers_to implements w o.type ≡ true

  abbrev pub Finds : List ServiceElement → InfraPool → Lookup → Type 0
  Finds coms p g = Answers g.found × (Untouched coms p g ⊎ Lent coms p g)

  lend-Finds :
      (t : ℕ) (coms : List ServiceElement) (p : InfraPool) (r : ServiceElement × ServicePool)
      → answers_to implements w t ≡ true
      → Given t p.instances r
      → Finds coms p (lend coms p r)
  lend-Finds t coms p (o, q) answers given = (
    ap (answers_to implements w) given.0 ∙ answers,
    inr (o, refl, refl, refl, refl, (refl, given.1, given.2)),
  )

  from_pools-Finds :
      (choice t : Option ℕ) (coms : List ServiceElement) (p : InfraPool)
      → ((u : ℕ) → t ≡ some u → answers_to implements w u ≡ true)
      → Finds coms p (from_pools choice t coms p)
  unfolding from_pools
  from_pools-Finds choice none coms p answers = (tt, inl (refl, refl, refl))
  from_pools-Finds choice (some t) coms p answers =
      lend-Finds t coms p (pool_get t (chosen t choice p.instances.free) p.instances)
        (answers t refl)
        (pool_get-Given t (chosen t choice p.instances.free) p.instances
          (chosen-Takes t choice p.instances.free))

  after_single-Finds :
      (choice : Option ℕ) (s : Option ServiceElement) (coms : List ServiceElement) (p : InfraPool)
      → ((o : ServiceElement) → s ≡ some o → answers_to implements w o.type ≡ true)
      → Finds coms p (after_single implements w choice s coms p)
  unfolding after_single
  after_single-Finds choice (some o) coms p answers = (answers o refl, inl (refl, refl, refl))
  after_single-Finds choice none coms p answers =
      from_pools-Finds choice (much implements w p.instances.bound) coms p
        (much-answers p.instances.bound)

  -- What `get` sets in a field has the type of the field, or implements it. A single component, and
  -- a type that is not bound, leave the worker and the pools as they are; any other component comes
  -- from the pool of its type or is new, is noted with the worker, once, and told of it.
  pub get_infra-Finds :
      (choice : Option ℕ) (coms : List ServiceElement) (p : InfraPool)
      → Finds coms p (get_infra implements w choice coms p)
  unfolding get_infra
  get_infra-Finds choice coms p =
      after_single-Finds choice (single implements w p.singles) coms p (single-answers p.singles)
