-- ===== src/Internal/Injection/Told.antt =====
-- internal/service_pool.go: which objects a new service tells of each request.
use mathlib.Core.Option.{some-injective, none-ne-some}
use dt_go.Base.{
  ℕ, suc, Bool, true, false, some, [], ◌∷◌, bind-some, ◌≡◌, refl, sym, subst, ◌⊎◌, inl, inr, In,
  In-append_right, Bool-cases,
}
use dt_go.Internal.Infras.{Wanted}
use dt_go.Internal.Injection.{
  Object, id_of, begins_request, Fields, no_more, embedded, nil_field, set_field, Slot, nothing,
  holds, put_slot, Element, all_fields, Creator, Pools, takes_worker, di_infra, note_call, noted,
  di_repository, di_factory, service_field, new_service, fields_of, with_fields, empty_element,
}
use dt_go.Internal.Injection.Grows.{
  More, same_result, More-trans, note_call-More, di_infra-Keeps, noted-More, di_repository-Keeps,
  di_factory-Keeps, all_fields-More,
}
use dt_go.Internal.Injection.Filled.{fields_of-with_fields}

module _ (pools : Pools) where
  -- The object in a slot is told, or has nothing to be told, or the field takes the worker.
  abbrev IsTold : Element → Wanted → Bool → Slot → Type 0
  IsTold e w can_set nothing = Unit
  IsTold e w can_set (holds o) =
      (takes_worker pools w can_set ≡ true) ⊎ (begins_request o ≡ false) ⊎ In (id_of o) e.calls

  worker-IsTold :
      (e : Element) (w : Wanted) (can_set : Bool) (s : Slot)
      → takes_worker pools w can_set ≡ true
      → IsTold e w can_set s
  worker-IsTold e w can_set nothing t = tt
  worker-IsTold e w can_set (holds o) t = inl t

  noted-IsTold :
      (w : Wanted) (can_set : Bool) (p q : Element × Slot)
      → noted pools can_set p ≡ some q
      → IsTold q.0 w can_set q.1
  unfolding note_call
  noted-IsTold w can_set (e, nothing) q h =
      subst (λ (x : Element × Slot). IsTold x.0 w can_set x.1) (some-injective _ _ h) tt
  noted-IsTold w false (e, holds o) q h = absurd (none-ne-some _ h)
  noted-IsTold w true (e, holds o) q h =
      subst (λ (x : Element × Slot). IsTold x.0 w true x.1) (some-injective _ _ h)
        (elim (Bool-cases (begins_request o)) [
          | inl b ↦ rw b (inr (inr (In-append_right (id_of o) e.calls (id_of o ∷ []) (inl refl))))
          | inr b ↦ inr (inl b)
        ])

  service_field-Told :
      (e : Element) (w : Wanted) (can_set : Bool) (s : Slot) (p : Element × Slot)
      → service_field pools e w can_set s ≡ some p
      → More e p.0 × IsTold p.0 w can_set p.1
  unfolding service_field
  service_field-Told e w can_set s p h = elim (Bool-cases (takes_worker pools w can_set)) [
    | inl t ↦ (
      same_result e (record e { workers = suc e.workers }, s) p (rw t at h) (λ x i. i),
      worker-IsTold p.0 w can_set p.1 t,
    )
    | inr t ↦
        let (a, repo, h₁) = bind-some (di_repository pools e w can_set s) _ (rw t at h) in
        let (b, infra, h₂) = bind-some (di_infra pools a.0 w can_set a.1) _ h₁ in
        let (c, factory, h₃) = bind-some (di_factory pools b.0 w can_set b.1) _ h₂ in
        (
          More-trans e a.0 p.0 (di_repository-Keeps pools e w can_set s a repo) (
              More-trans a.0 b.0 p.0 (di_infra-Keeps pools a.0 w can_set a.1 b infra) (
                More-trans b.0 c.0 p.0 (di_factory-Keeps pools b.0 w can_set b.1 c factory)
                  (noted-More pools can_set c p h₃))),
          noted-IsTold w can_set c p h₃,
        )
  ]

  -- Every object in a field that does not take the worker is told, or has no `BeginRequest`.
  abbrev pub AllTold : Element → Fields → Type 0
  AllTold e no_more = Unit
  AllTold e (embedded inner fs) = AllTold e inner × AllTold e fs
  AllTold e (nil_field w can_set fs) = AllTold e fs
  AllTold e (set_field w can_set o fs) =
      ((takes_worker pools w can_set ≡ true) ⊎ (begins_request o ≡ false) ⊎ In (id_of o) e.calls)
      × AllTold e fs

  IsTold-More :
      (e d : Element) (w : Wanted) (can_set : Bool) (s : Slot)
      → More e d
      → IsTold e w can_set s
      → IsTold d w can_set s
  IsTold-More e d w can_set nothing m t = tt
  IsTold-More e d w can_set (holds o) m (inl t) = inl t
  IsTold-More e d w can_set (holds o) m (inr (inl t)) = inr (inl t)
  IsTold-More e d w can_set (holds o) m (inr (inr t)) = inr (inr (m (id_of o) t))

  AllTold-More : (e d : Element) (fs : Fields) → More e d → AllTold e fs → AllTold d fs
  AllTold-More e d no_more m t = tt
  AllTold-More e d (embedded inner fs) m t =
      (AllTold-More e d inner m t.0, AllTold-More e d fs m t.1)
  AllTold-More e d (nil_field w can_set fs) m t = AllTold-More e d fs m t
  AllTold-More e d (set_field w can_set o fs) m t =
      (IsTold-More e d w can_set (holds o) m t.0, AllTold-More e d fs m t.1)

  put_slot-AllTold :
      (e : Element) (w : Wanted) (can_set : Bool) (s : Slot) (fs : Fields)
      → IsTold e w can_set s
      → AllTold e fs
      → AllTold e (put_slot w can_set s fs)
  put_slot-AllTold e w can_set nothing fs t h = h
  put_slot-AllTold e w can_set (holds o) fs t h = (t, h)

  after_call :
      (e : Element) (w : Wanted) (can_set : Bool) (s : Slot) (fs : Fields) (a : Element × Slot)
      (b : Element × Fields)
      → service_field pools e w can_set s ≡ some a
      → More a.0 b.0
      → AllTold b.0 b.1
      → AllTold b.0 (put_slot w can_set a.1 b.1)
  after_call e w can_set s fs a b first m h =
      put_slot-AllTold b.0 w can_set a.1 b.1
        (IsTold-More a.0 b.0 w can_set a.1 m (service_field-Told e w can_set s a first).1) h

  walk-More :
      (e : Element) (fs : Fields) (p : Element × Fields)
      → all_fields (service_field pools) e fs ≡ some p
      → More e p.0
  walk-More =
      all_fields-More pools (service_field pools)
        (λ e w c s p h. (service_field-Told e w c s p h).0)

  walk-AllTold :
      (e : Element) (fs : Fields) (p : Element × Fields)
      → all_fields (service_field pools) e fs ≡ some p
      → AllTold p.0 p.1
  unfolding all_fields
  walk-AllTold e no_more p h =
      subst (λ (x : Element × Fields). AllTold x.0 x.1) (some-injective _ _ h) tt
  walk-AllTold e (embedded inner fs) p h =
      let (a, first, h₁) = bind-some (all_fields (service_field pools) e inner) _ h in
      let (b, second, h₂) = bind-some (all_fields (service_field pools) a.0 fs) _ h₁ in
      subst (λ (x : Element × Fields). AllTold x.0 x.1) (some-injective _ _ h₂)
        (
          AllTold-More a.0 b.0 a.1 (walk-More a.0 fs b second) (walk-AllTold e inner a first),
          walk-AllTold a.0 fs b second,
        )
  walk-AllTold e (nil_field w can_set fs) p h =
      let (a, first, h₁) = bind-some (service_field pools e w can_set nothing) _ h in
      let (b, second, h₂) = bind-some (all_fields (service_field pools) a.0 fs) _ h₁ in
      subst (λ (x : Element × Fields). AllTold x.0 x.1) (some-injective _ _ h₂)
        (after_call e w can_set nothing fs a b first (walk-More a.0 fs b second)
          (walk-AllTold a.0 fs b second))
  walk-AllTold e (set_field w can_set o fs) p h =
      let (a, first, h₁) = bind-some (service_field pools e w can_set (holds o)) _ h in
      let (b, second, h₂) = bind-some (all_fields (service_field pools) a.0 fs) _ h₁ in
      subst (λ (x : Element × Fields). AllTold x.0 x.1) (some-injective _ _ h₂)
        (after_call e w can_set (holds o) fs a b first (walk-More a.0 fs b second)
          (walk-AllTold a.0 fs b second))

  -- Where `New` does not panic, the new service tells of each request every object with `BeginRequest`
  -- that stands in a field of its own or of a struct embedded in it, whether it was injected or set by
  -- the function that made the service, except in fields that take the worker.
  pub new_service-AllTold :
      (f : Creator) (made : ℕ) (e : Element) (service : Object)
      → new_service pools f made ≡ some (e, service)
      → AllTold e (fields_of service)
  unfolding new_service
  new_service-AllTold f made e service h =
      let (a, walked, h₁) =
        bind-some
          (all_fields (service_field pools) (empty_element pools (suc made)) (fields_of (f made))) _
          h in
      let told = note_call pools a.0 (holds (with_fields (f made) a.1)) in
      subst (λ (x : Element × Object). AllTold x.0 (fields_of x.1)) (some-injective _ _ h₁)
        (subst (AllTold told) (sym (fields_of-with_fields (f made) a.1)) (
          AllTold-More a.0 told a.1 (note_call-More pools a.0 (holds (with_fields (f made) a.1)))
            (walk-AllTold (empty_element pools (suc made)) (fields_of (f made)) a walked)))
