-- ===== src/Internal/Injection/Grows.antt =====
-- internal/service_pool.go: no injection takes an object from those that are told of each request.
use mathlib.Core.Option.{some-injective, none-ne-some}
use dt_go.Base.{
  ℕ, suc, Bool, true, false, Option, none, some, [], ◌∷◌, bind-some, ◌≡◌, subst, inl, inr, In,
  In-append_left, Bool-cases,
}
use dt_go.Internal.Infras.{Wanted}
use dt_go.Internal.Injection.{
  Object, id_of, begins_request, Fields, no_more, embedded, nil_field, set_field, Slot, nothing,
  holds, put_slot, Element, Call, all_fields, Creator, Pools, bound_for, takes_worker, set_slot,
  from_instances, from_singles, di_infra, note_call, noted, repository_field, create_if, or_worker,
  di_repository, factory_field, di_factory, made_one, fields_of, with_fields,
}

-- Whoever was told before is told after.
abbrev pub More : Element → Element → Type 0
More e d = (x : ℕ) → In x e.calls → In x d.calls

pub same_result :
    {A : Type 0} (e : Element) (p q : Element × A) → some p ≡ some q → More e p.0 → More e q.0
same_result e p q h m = subst (λ (x : Element × _). More e x.0) (some-injective p q h) m

pub More-trans : (a b c : Element) → More a b → More b c → More a c
More-trans a b c f g x i = g x (f x i)

module _ (pools : Pools) where
  -- A result of a call keeps who is told.
  abbrev pub Keeps : Call → Type 0
  Keeps call =
      (e : Element) (w : Wanted) (can_set : Bool) (s : Slot) (p : Element × Slot)
      → call e w can_set s ≡ some p
      → More e p.0

  pub note_call-More : (e : Element) (s : Slot) → More e (note_call pools e s)
  unfolding note_call
  note_call-More e nothing x i = i
  note_call-More e (holds o) x i = elim (Bool-cases (begins_request o)) [
    | inl b ↦ rw b (In-append_left x e.calls (id_of o ∷ []) i)
    | inr b ↦ rw b i
  ]

  set_slot-More :
      (can_set : Bool) (e d : Element) (o : Object) (p : Element × Slot)
      → set_slot pools can_set d o ≡ some p
      → More e d
      → More e p.0
  set_slot-More false e d o p h m = absurd (none-ne-some _ h)
  set_slot-More true e d o p h m = same_result e (d, holds o) p h m

  from_instances-More :
      (can_set : Bool) (e : Element) (s : Slot) (o : Option Creator) (p : Element × Slot)
      → from_instances pools can_set e s o ≡ some p
      → More e p.0
  from_instances-More can_set e s none p h = same_result e (e, s) p h (λ x i. i)
  from_instances-More can_set e s (some f) p h =
      set_slot-More can_set e (made_one pools e) (f e.made) p h (λ x i. i)

  from_singles-More :
      (w : Wanted) (can_set : Bool) (e : Element) (s : Slot) (o : Option Object)
      (p : Element × Slot)
      → from_singles pools w can_set e s o ≡ some p
      → More e p.0
  from_singles-More w can_set e s (some o) p h = set_slot-More can_set e e o p h (λ x i. i)
  from_singles-More w can_set e s none p h =
      from_instances-More can_set e s (bound_for pools w pools.instances) p h

  pub di_infra-Keeps : Keeps (di_infra pools)
  unfolding di_infra
  di_infra-Keeps e w can_set s p h =
      from_singles-More w can_set e s (bound_for pools w pools.singles) p h

  pub noted-More :
      (can_set : Bool) (p q : Element × Slot) → noted pools can_set p ≡ some q → More p.0 q.0
  noted-More can_set (e, nothing) q h = same_result e (e, nothing) q h (λ x i. i)
  noted-More false (e, holds o) q h = absurd (none-ne-some _ h)
  noted-More true (e, holds o) q h =
      same_result e (note_call pools e (holds o), holds o) q h (note_call-More e (holds o))

  repository_field-Keeps : Keeps (repository_field pools)
  unfolding repository_field
  repository_field-Keeps e w can_set s p h =
      let (a, infra, h₁) = bind-some (di_infra pools e w can_set s) _ h in
      More-trans e a.0 p.0 (di_infra-Keeps e w can_set s a infra) (noted-More can_set a p h₁)

  module _ (call : Call) (call-Keeps : Keeps call) where
    pub all_fields-More :
        (e : Element) (fs : Fields) (p : Element × Fields)
        → all_fields call e fs ≡ some p
        → More e p.0
    unfolding all_fields
    all_fields-More e no_more p h = same_result e (e, no_more) p h (λ x i. i)
    all_fields-More e (embedded inner fs) p h =
        let (a, first, h₁) = bind-some (all_fields call e inner) _ h in
        let (b, second, h₂) = bind-some (all_fields call a.0 fs) _ h₁ in
        same_result e (b.0, embedded a.1 b.1) p h₂
          (More-trans e a.0 b.0 (all_fields-More e inner a first) (all_fields-More a.0 fs b second))
    all_fields-More e (nil_field w can_set fs) p h =
        let (a, first, h₁) = bind-some (call e w can_set nothing) _ h in
        let (b, second, h₂) = bind-some (all_fields call a.0 fs) _ h₁ in
        same_result e (b.0, put_slot w can_set a.1 b.1) p h₂
          (More-trans e a.0 b.0 (call-Keeps e w can_set nothing a first)
            (all_fields-More a.0 fs b second))
    all_fields-More e (set_field w can_set o fs) p h =
        let (a, first, h₁) = bind-some (call e w can_set (holds o)) _ h in
        let (b, second, h₂) = bind-some (all_fields call a.0 fs) _ h₁ in
        same_result e (b.0, put_slot w can_set a.1 b.1) p h₂
          (More-trans e a.0 b.0 (call-Keeps e w can_set (holds o) a first)
            (all_fields-More a.0 fs b second))

    create_if-More :
        (can_set : Bool) (e : Element) (s : Slot) (o : Option Creator) (p : Element × Slot)
        → create_if pools call can_set e s o ≡ some p
        → More e p.0
    create_if-More can_set e (holds x) o p h = same_result e (e, holds x) p h (λ y i. i)
    create_if-More can_set e nothing none p h = same_result e (e, nothing) p h (λ y i. i)
    create_if-More false e nothing (some f) p h = absurd (none-ne-some _ h)
    create_if-More true e nothing (some f) p h =
        let (a, walked, h₁) =
          bind-some (all_fields call (made_one pools e) (fields_of (f e.made))) _ h in
        same_result e (a.0, holds (with_fields (f e.made) a.1)) p h₁
          (all_fields-More (made_one pools e) (fields_of (f e.made)) a walked)

  pub di_repository-Keeps : Keeps (di_repository pools)
  unfolding di_repository
  di_repository-Keeps e w can_set s p h =
      create_if-More (repository_field pools) repository_field-Keeps can_set e s
        (bound_for pools w pools.repositories) p h

  -- A field that takes the worker tells nobody.
  or_worker-More :
      (w : Wanted) (can_set : Bool) (e : Element) (s : Slot) (o : Option (Element × Slot))
      (p : Element × Slot)
      → (o ≡ some p → More e p.0)
      → or_worker pools w can_set e s o ≡ some p
      → More e p.0
  or_worker-More w can_set e s o p f h = elim (Bool-cases (takes_worker pools w can_set)) [
    | inl t ↦ same_result e (record e { workers = suc e.workers }, s) p (rw t at h) (λ x i. i)
    | inr t ↦ f (rw t at h)
  ]

  factory_field-Keeps : Keeps (factory_field pools)
  unfolding factory_field
  factory_field-Keeps e w can_set s p h =
      or_worker-More w can_set e s _ p
        (λ k.
          let (a, repo, h₁) = bind-some (di_repository pools e w can_set s) _ k in
          let (b, infra, h₂) = bind-some (di_infra pools a.0 w can_set a.1) _ h₁ in
          More-trans e a.0 p.0 (di_repository-Keeps e w can_set s a repo) (
            More-trans a.0 b.0 p.0 (di_infra-Keeps a.0 w can_set a.1 b infra)
              (noted-More can_set b p h₂)))
        h

  pub di_factory-Keeps : Keeps (di_factory pools)
  unfolding di_factory
  di_factory-Keeps e w can_set s p h =
      create_if-More (factory_field pools) factory_field-Keeps can_set e s
        (bound_for pools w pools.factories) p h
