-- ===== src/Internal/Injection.antt =====
-- The dependency injection of a new service: `New` in internal/service_pool.go, the lookups of
-- internal/repository_pool.go, factory_pool.go and infra_pool.go, and `allFields` of utils.go. What
-- reflection tells of an object is data: its type, whether it has `BeginRequest`, and its fields that are
-- pointers or interfaces. A Go map is a list in the order in which it is ranged over.
pub mod Filled
pub mod Grows
pub mod Told
mod Tests
use dt_go.Base.{
  ℕ, zero, suc, ◌+◌, Bool, true, false, not, ◌&&◌, Option, none, some, List, [], ◌∷◌, ◌++◌,
  if◌then◌else◌, ◌>>=◌,
}
use dt_go.Internal.Infras.{Wanted, concrete, interface, answers_to}

-- The fields of a struct, in order; those of an embedded struct stand where it does. A field has the type
-- it wants, and says whether it can be set; it is nil or holds an object.
mutual
  pub data Object : Type 0 where
    object : ℕ → ℕ → Bool → Fields → Object

  pub data Fields : Type 0 where
    no_more : Fields
    embedded : Fields → Fields → Fields
    nil_field : Wanted → Bool → Fields → Fields
    set_field : Wanted → Bool → Object → Fields → Fields

abbrev pub id_of : Object → ℕ
id_of (object id type begins fields) = id

abbrev pub begins_request : Object → Bool
begins_request (object id type begins fields) = begins

abbrev pub fields_of : Object → Fields
fields_of (object id type begins fields) = fields

abbrev pub with_fields : Object → Fields → Object
with_fields (object id type begins fields) fs = object id type begins fs

-- A field's content.
pub data Slot : Type 0 where
  nothing : Slot
  holds : Object → Slot

abbrev pub put_slot : Wanted → Bool → Slot → Fields → Fields
put_slot w can_set nothing fs = nil_field w can_set fs
put_slot w can_set (holds o) fs = set_field w can_set o fs

-- The element that is made: the objects to be told of a request, the number of fields that take the
-- worker, and the number of objects made so far.
pub record Element : Type 0 where
  pub calls : List ℕ
  pub workers : ℕ
  pub made : ℕ

abbrev pub Call : Type 0
Call = Element → Wanted → Bool → Slot → Option (Element × Slot)

-- `allFields`, with what the calls leave in the fields; a panic of a call is none.
module _ (call : Call) where
  unfoldable pub all_fields : Element → Fields → Option (Element × Fields)
  all_fields e no_more = some (e, no_more)
  all_fields e (embedded inner fs) =
      all_fields e inner >>= (λ p. all_fields p.0 fs >>= (λ q. some (q.0, embedded p.1 q.1)))
  all_fields e (nil_field w can_set fs) =
      call e w can_set nothing
      >>= (λ p. all_fields p.0 fs >>= (λ q. some (q.0, put_slot w can_set p.1 q.1)))
  all_fields e (set_field w can_set o fs) =
      call e w can_set (holds o)
      >>= (λ p. all_fields p.0 fs >>= (λ q. some (q.0, put_slot w can_set p.1 q.1)))

-- What is bound: a function that makes the n-th object of the process, or a single component.
abbrev pub Creator : Type 0
Creator = ℕ → Object

pub record Pools : Type 0 where
  pub implements : ℕ → ℕ → Bool
  pub worker_type : ℕ
  pub repositories : List (ℕ × Creator)
  pub factories : List (ℕ × Creator)
  pub singles : List (ℕ × Object)
  pub instances : List (ℕ × Creator)

module _ (pools : Pools) where
  -- By the type of a pointer, or the first type that implements the interface.
  unfoldable pub bound_for : {A : Type 0} → Wanted → List (ℕ × A) → Option A
  bound_for w [] = none
  bound_for w ((t, a) ∷ l) =
      let rest = bound_for w l in if answers_to pools.implements w t then some a else rest

  abbrev pub takes_worker : Wanted → Bool → Bool
  takes_worker (concrete t) can_set = false
  takes_worker (interface t) can_set = pools.implements pools.worker_type t && can_set

  -- `Set` panics on a field that cannot be set.
  abbrev pub set_slot : Bool → Element → Object → Option (Element × Slot)
  set_slot can_set e o = if can_set then some (e, holds o) else none

  abbrev pub made_one : Element → Element
  made_one e = record e { made = suc e.made }

  abbrev pub from_instances : Bool → Element → Slot → Option Creator → Option (Element × Slot)
  from_instances can_set e slot none = some (e, slot)
  from_instances can_set e slot (some f) = set_slot can_set (made_one e) (f e.made)

  abbrev pub from_singles : Wanted → Bool → Element → Slot → Option Object → Option (Element × Slot)
  from_singles w can_set e slot (some o) = set_slot can_set e o
  from_singles w can_set e slot none = from_instances can_set e slot (bound_for w pools.instances)

  -- `diInfraFromValue`, which does not ask whether the field is nil.
  unfoldable pub di_infra : Call
  unfolding bound_for
  di_infra e w can_set slot = from_singles w can_set e slot (bound_for w pools.singles)

  -- The object in the field, if it has `BeginRequest`, is told of each request.
  unfoldable pub note_call : Element → Slot → Element
  note_call e nothing = e
  note_call e (holds o) =
      if begins_request o then record e { calls = e.calls ++ (id_of o ∷ []) } else e

  -- The end of a call. `Interface` panics on what an unexported field, which cannot be set, holds.
  abbrev pub noted : Bool → Element × Slot → Option (Element × Slot)
  noted can_set (e, nothing) = some (e, nothing)
  noted can_set (e, holds o) = if can_set then some (note_call e (holds o), holds o) else none

  unfoldable pub repository_field : Call
  unfolding di_infra note_call
  repository_field e w can_set slot = di_infra e w can_set slot >>= noted can_set

  -- The new object, with its own fields injected.
  abbrev pub create : Call → Bool → Element → Creator → Option (Element × Slot)
  create call can_set e f =
      if not can_set
      then none
      else (all_fields call (made_one e) (fields_of (f e.made))
          >>= (λ p. some (p.0, holds (with_fields (f e.made) p.1))))

  abbrev pub create_if : Call → Bool → Element → Slot → Option Creator → Option (Element × Slot)
  create_if call can_set e (holds o) f = some (e, holds o)
  create_if call can_set e nothing none = some (e, nothing)
  create_if call can_set e nothing (some f) = create call can_set e f

  -- `diRepoFromValue`
  unfoldable pub di_repository : Call
  unfolding bound_for repository_field all_fields
  di_repository e w can_set slot =
      create_if repository_field can_set e slot (bound_for w pools.repositories)

  abbrev pub or_worker :
      Wanted → Bool → Element → Slot → Option (Element × Slot) → Option (Element × Slot)
  or_worker w can_set e slot injected =
      if takes_worker w can_set then some (record e { workers = suc e.workers }, slot) else injected

  unfoldable pub factory_field : Call
  unfolding di_repository di_infra note_call
  factory_field e w can_set slot =
      or_worker w can_set e slot
        (di_repository e w can_set slot >>= (λ p. di_infra p.0 w can_set p.1 >>= noted can_set))

  -- `diFactoryFromValue`
  unfoldable pub di_factory : Call
  unfolding bound_for factory_field all_fields
  di_factory e w can_set slot = create_if factory_field can_set e slot (bound_for w pools.factories)

  unfoldable pub service_field : Call
  unfolding di_repository di_infra di_factory note_call
  service_field e w can_set slot = or_worker w can_set e slot (
      di_repository e w can_set slot >>= (λ p.
        di_infra p.0 w can_set p.1 >>= (λ q. di_factory q.0 w can_set q.1 >>= noted can_set)))

  abbrev pub empty_element : ℕ → Element
  empty_element made = record { calls = []; workers = 0; made = made }

  -- `New` for the function that makes the service, where so many objects have been made before.
  unfoldable pub new_service : Creator → ℕ → Option (Element × Object)
  unfolding service_field all_fields note_call
  new_service f made =
      all_fields service_field (empty_element (suc made)) (fields_of (f made))
      >>= (λ p. some (note_call p.0 (holds (with_fields (f made) p.1)), with_fields (f made) p.1))
