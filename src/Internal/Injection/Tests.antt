-- ===== src/Internal/Injection/Tests.antt =====
-- The theorems about the dependency injection at a service with four fields.
use dt_go.Base.{ℕ, true, false, ◌==◌, ◌&&◌, ◌||◌, none, some, [], ◌∷◌, ◌≡◌, refl}
use dt_go.Internal.Infras.{concrete, interface}
use dt_go.Internal.Injection.{
  Object, object, Fields, no_more, embedded, nil_field, set_field, Element, Pools, new_service,
}
use dt_go.Internal.Injection.Filled.{Filled, new_service-Filled}
use dt_go.Internal.Injection.Told.{AllTold, new_service-AllTold}

-- Types: the worker 1 and its interface 2, a repository 3, a factory 4 with its interface 5, a cache 6.
abbrev pools : Pools
pools = record {
  implements = λ t i. (t == 1 && i == 2) || (t == 4 && i == 5);
  worker_type = 1;
  repositories = (3, λ n. object n 3 true (nil_field (concrete 6) true no_more)) ∷ [];
  factories =
      (
        4,
        λ n. object n 4 false (nil_field (interface 2) true (nil_field (concrete 3) true no_more)),
      )
      ∷ [];
  singles = [];
  instances = (6, λ n. object n 6 true no_more) ∷ [];
}

-- A worker in an embedded struct, a repository, a factory by its interface, and a pointer nobody makes.
abbrev make_service : ℕ → Object
make_service n = object n 7 false (
    embedded (nil_field (interface 2) true no_more) (
      nil_field (concrete 3) true
        (nil_field (interface 5) true (nil_field (concrete 9) true no_more))))

abbrev service_fields : Fields
service_fields = embedded (nil_field (interface 2) true no_more) (
    set_field (concrete 3) true
      (object 1 3 true (set_field (concrete 6) true (object 2 6 true no_more) no_more))
      (set_field (interface 5) true
        (object 3 4 false (
          nil_field (interface 2) true (
            set_field (concrete 3) true
              (object 4 3 true (set_field (concrete 6) true (object 5 6 true no_more) no_more))
              no_more)))
        (nil_field (concrete 9) true no_more)))

-- The service's worker and the factory's; the repositories with their caches.
abbrev element : Element
element = record { calls = 2 ∷ 1 ∷ 5 ∷ 4 ∷ []; workers = 2; made = 6 }

makes : new_service pools make_service 0 ≡ some (element, object 0 7 false service_fields)
unfolding new_service
makes = refl

new_service-Filled_example : Filled pools service_fields
new_service-Filled_example =
    new_service-Filled pools make_service 0 element (object 0 7 false service_fields) makes

new_service-AllTold_example : AllTold pools element service_fields
new_service-AllTold_example =
    new_service-AllTold pools make_service 0 element (object 0 7 false service_fields) makes

-- A field that is not exported panics where the pools have something for it, and also where the
-- function that made the service has set it.
unexported :
    new_service pools (λ n. object n 8 false (nil_field (concrete 3) false no_more)) 0 ≡ none
unfolding new_service
unexported = refl

set_before :
    new_service pools
      (λ n. object n 8 false (set_field (concrete 9) false (object 99 9 false no_more) no_more))
      0
    ≡ none
unfolding new_service
set_before = refl
