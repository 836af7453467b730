-- ===== src/Internal/Injection/Filled.antt =====
-- internal/service_pool.go: which fields of a new service are still nil.
use mathlib.Core.Option.{some-injective, none-ne-some}
use dt_go.Base.{
  ℕ, suc, Bool, true, false, Option, none, some, bind-some, ◌≡◌, refl, sym, ap, subst, ◌⊎◌, inl,
  inr, Bool-cases,
}
use dt_go.Internal.Infras.{Wanted}
use dt_go.Internal.Injection.{
  Object, object, Fields, no_more, embedded, nil_field, set_field, Slot, nothing, holds, put_slot,
  Element, Call, all_fields, Creator, Pools, bound_for, takes_worker, set_slot, from_instances,
  from_singles, di_infra, noted, repository_field, create, create_if, di_repository, factory_field,
  di_factory, service_field, new_service, made_one, fields_of, with_fields, empty_element,
}

abbrev IsNothing : Slot → Type 0
IsNothing nothing = Unit
IsNothing (holds o) = ⊥

pub fields_of-with_fields : (o : Object) (fs : Fields) → fields_of (with_fields o fs) ≡ fs
fields_of-with_fields (object id type begins old) fs = refl

module _ (pools : Pools) where
  -- Nothing that is bound fits the field.
  pub record Unbound (w : Wanted) : Type 0 where
    pub no_repository : bound_for pools w pools.repositories ≡ none
    pub no_single : bound_for pools w pools.singles ≡ none
    pub no_instance : bound_for pools w pools.instances ≡ none
    pub no_factory : bound_for pools w pools.factories ≡ none

  -- A field that is nil takes the worker, or nothing that is bound fits it.
  abbrev pub Filled : Fields → Type 0
  Filled no_more = Unit
  Filled (embedded inner fs) = Filled inner × Filled fs
  Filled (nil_field w can_set fs) = ((takes_worker pools w can_set ≡ true) ⊎ Unbound w) × Filled fs
  Filled (set_field w can_set o fs) = Filled fs

  create-not-IsNothing :
      (call : Call) (can_set : Bool) (e : Element) (f : Creator) {p : Element × Slot}
      → create pools call can_set e f ≡ some p
      → IsNothing p.1
      → ⊥
  create-not-IsNothing call false e f h n = none-ne-some _ h
  create-not-IsNothing call true e f h n =
      let (q, _, made) =
        bind-some (all_fields call (made_one pools e) (fields_of (f e.made))) _ h in
      subst (λ (x : Element × Slot). IsNothing x.1) (sym (some-injective _ _ made)) n

  create_if-IsNothing :
      (call : Call) (can_set : Bool) (e : Element) (s : Slot) (o : Option Creator)
      {p : Element × Slot}
      → create_if pools call can_set e s o ≡ some p
      → IsNothing p.1
      → IsNothing s × (o ≡ none)
  create_if-IsNothing call can_set e (holds x) o h n =
      absurd (subst (λ (x : Element × Slot). IsNothing x.1) (sym (some-injective _ _ h)) n)
  create_if-IsNothing call can_set e nothing none h n = (tt, refl)
  create_if-IsNothing call can_set e nothing (some f) h n =
      absurd (create-not-IsNothing call can_set e f h n)

  set_slot-not-IsNothing :
      (can_set : Bool) (e : Element) (o : Object) {p : Element × Slot}
      → set_slot pools can_set e o ≡ some p
      → IsNothing p.1
      → ⊥
  set_slot-not-IsNothing false e o h n = none-ne-some _ h
  set_slot-not-IsNothing true e o h n =
      subst (λ (x : Element × Slot). IsNothing x.1) (sym (some-injective _ _ h)) n

  from_instances-IsNothing :
      (can_set : Bool) (e : Element) (s : Slot) (o : Option Creator) {p : Element × Slot}
      → from_instances pools can_set e s o ≡ some p
      → IsNothing p.1
      → IsNothing s × (o ≡ none)
  from_instances-IsNothing can_set e s none h n =
      (subst (λ (x : Element × Slot). IsNothing x.1) (sym (some-injective _ _ h)) n, refl)
  from_instances-IsNothing can_set e s (some f) h n =
      absurd (set_slot-not-IsNothing can_set (made_one pools e) (f e.made) h n)

  from_singles-IsNothing :
      (w : Wanted) (can_set : Bool) (e : Element) (s : Slot) (o : Option Object)
      {p : Element × Slot}
      → from_singles pools w can_set e s o ≡ some p
      → IsNothing p.1
      → IsNothing s × (o ≡ none) × (bound_for pools w pools.instances ≡ none)
  from_singles-IsNothing w can_set e s (some o) h n =
      absurd (set_slot-not-IsNothing can_set e o h n)
  from_singles-IsNothing w can_set e s none h n =
      let (empty, unbound) =
        from_instances-IsNothing can_set e s (bound_for pools w pools.instances) h n in
      (empty, refl, unbound)

  noted-same :
      (can_set : Bool) (p : Element × Slot) {q : Element × Slot}
      → noted pools can_set p ≡ some q
      → q.1 ≡ p.1
  noted-same can_set (e, nothing) h = ap (λ (x : Element × Slot). x.1) (sym (some-injective _ _ h))
  noted-same false (e, holds o) h = absurd (none-ne-some _ h)
  noted-same true (e, holds o) h = ap (λ (x : Element × Slot). x.1) (sym (some-injective _ _ h))

  -- The slot after a call is what `Filled` asks of the field.
  abbrev Fits : Wanted → Bool → Slot → Type 0
  Fits w can_set nothing = (takes_worker pools w can_set ≡ true) ⊎ Unbound w
  Fits w can_set (holds o) = Unit

  Fits-intro :
      (w : Wanted) (can_set : Bool) (s : Slot)
      → (IsNothing s → (takes_worker pools w can_set ≡ true) ⊎ Unbound w)
      → Fits w can_set s
  Fits-intro w can_set nothing f = f tt
  Fits-intro w can_set (holds o) f = tt

  service_field-Fits :
      (e : Element) (w : Wanted) (can_set : Bool) (s : Slot) {p : Element × Slot}
      → service_field pools e w can_set s ≡ some p
      → Fits w can_set p.1
  unfolding service_field di_repository di_infra di_factory
  service_field-Fits e w can_set s {p} h = elim (Bool-cases (takes_worker pools w can_set)) [
    | inl worker ↦ Fits-intro w can_set p.1 (λ n. inl worker)
    | inr other ↦
        let (a, repo, h₁) = bind-some (di_repository pools e w can_set s) _ (rw other at h) in
        let (b, infra, h₂) = bind-some (di_infra pools a.0 w can_set a.1) _ h₁ in
        let (c, factory, h₃) = bind-some (di_factory pools b.0 w can_set b.1) _ h₂ in
        Fits-intro w can_set p.1 (λ n.
          let (n₃, f) =
            create_if-IsNothing (factory_field pools) can_set b.0 b.1
              (bound_for pools w pools.factories) factory
              (subst IsNothing (noted-same can_set c h₃) n) in
          let (n₂, g, i) =
            from_singles-IsNothing w can_set a.0 a.1 (bound_for pools w pools.singles) infra n₃ in
          let (n₁, r) =
            create_if-IsNothing (repository_field pools) can_set e s
              (bound_for pools w pools.repositories) repo n₂ in
          inr (record { no_repository = r; no_single = g; no_instance = i; no_factory = f }))
  ]

  put_slot-Filled :
      (w : Wanted) (can_set : Bool) (s : Slot) (fs : Fields)
      → Fits w can_set s
      → Filled fs
      → Filled (put_slot w can_set s fs)
  put_slot-Filled w can_set nothing fs f h = (f, h)
  put_slot-Filled w can_set (holds o) fs f h = h

  module _ (call : Call)
      (call-Fits : (e : Element) (w : Wanted) (can_set : Bool) (s : Slot) (p : Element × Slot)
        → call e w can_set s ≡ some p
        → Fits w can_set p.1) where
    all_fields-Filled :
        (e : Element) (fs : Fields) {p : Element × Fields}
        → all_fields call e fs ≡ some p
        → Filled p.1
    unfolding all_fields
    all_fields-Filled e no_more h =
        subst (λ (x : Element × Fields). Filled x.1) (some-injective _ _ h) tt
    all_fields-Filled e (embedded inner fs) h =
        let (a, first, h₁) = bind-some (all_fields call e inner) _ h in
        let (b, second, h₂) = bind-some (all_fields call a.0 fs) _ h₁ in
        subst (λ (x : Element × Fields). Filled x.1) (some-injective _ _ h₂)
          (all_fields-Filled e inner first, all_fields-Filled a.0 fs second)
    all_fields-Filled e (nil_field w can_set fs) h =
        let (a, first, h₁) = bind-some (call e w can_set nothing) _ h in
        let (b, second, h₂) = bind-some (all_fields call a.0 fs) _ h₁ in
        subst (λ (x : Element × Fields). Filled x.1) (some-injective _ _ h₂)
          (put_slot-Filled w can_set a.1 b.1 (call-Fits e w can_set nothing a first)
            (all_fields-Filled a.0 fs second))
    all_fields-Filled e (set_field w can_set o fs) h =
        let (a, first, h₁) = bind-some (call e w can_set (holds o)) _ h in
        let (b, second, h₂) = bind-some (all_fields call a.0 fs) _ h₁ in
        subst (λ (x : Element × Fields). Filled x.1) (some-injective _ _ h₂)
          (put_slot-Filled w can_set a.1 b.1 (call-Fits e w can_set (holds o) a first)
            (all_fields-Filled a.0 fs second))

  -- Where `New` does not panic, a field of the new service, or of a struct embedded in it, that is
  -- still nil takes the worker, or no repository, no component and no factory that is bound has its
  -- type or implements its interface.
  pub new_service-Filled :
      (f : Creator) (made : ℕ) (e : Element) (service : Object)
      → new_service pools f made ≡ some (e, service)
      → Filled (fields_of service)
  unfolding new_service
  new_service-Filled f made e service h =
      let (a, walked, h₁) =
        bind-some
          (all_fields (service_field pools) (empty_element pools (suc made)) (fields_of (f made))) _
          h in
      subst (λ (x : Element × Object). Filled (fields_of x.1)) (some-injective _ _ h₁)
        (subst Filled (sym (fields_of-with_fields (f made) a.1)) (
          all_fields-Filled (service_field pools) (λ x w c s p k. service_field-Fits x w c s k)
            (empty_element pools (suc made)) (fields_of (f made)) walked))
